-- ===== src/Session/Sweep/Sorted.antt =====
-- The list of measured sessions: its total, its ids, and what sorting leaves alone.
use isobox.Prelude.{
  All, Bool-cases, List, [], ap, arith, inl, inr, ltb, refl, sym, ℕ, ◌+◌, ◌∙◌, ◌∷◌, ◌≡◌, ◌≢◌,
}
use isobox.Session.Sweep.{Sized, insert_sized, sort_sized}

abbrev pub sizes : List Sized → ℕ
sizes [] = 0
sizes (l ∷ ls) = l.size + sizes ls

-- No two entries have one id.
abbrev pub Apart : List Sized → Type 0
Apart [] = Unit {0}
Apart (l ∷ ls) = All (λ k. k.session.id ≢ l.session.id) ls × Apart ls

insert_sized-sizes : (x : Sized) (ls : List Sized) → sizes (insert_sized x ls) ≡ x.size + sizes ls
unfolding insert_sized
insert_sized-sizes x [] = refl
insert_sized-sizes x (l ∷ ls) = ground (arith, insert_sized-sizes x ls)

pub sort_sized-sizes : (ls : List Sized) → sizes (sort_sized ls) ≡ sizes ls
unfolding sort_sized
sort_sized-sizes [] = refl
sort_sized-sizes (l ∷ ls) =
    insert_sized-sizes l (sort_sized ls) ∙ ap (λ (n : ℕ). l.size + n) (sort_sized-sizes ls)

insert_sized-All {κ} :
    (P : Sized → Type κ) (x : Sized) (ls : List Sized) → P x → All P ls → All P (insert_sized x ls)
unfolding insert_sized
insert_sized-All P x [] p h = (p, tt)
insert_sized-All P x (l ∷ ls) p h = elim (Bool-cases (ltb x.size l.size)) [
  | inl e ↦ rw e (h.0, insert_sized-All P x ls p h.1)
  | inr e ↦ rw e (p, h)
]

pub sort_sized-All {κ} : (P : Sized → Type κ) (ls : List Sized) → All P ls → All P (sort_sized ls)
unfolding sort_sized
sort_sized-All P [] h = tt
sort_sized-All P (l ∷ ls) h = insert_sized-All P l (sort_sized ls) h.0 (sort_sized-All P ls h.1)

insert_sized-Apart :
    (x : Sized) (ls : List Sized)
    → All (λ k. k.session.id ≢ x.session.id) ls
    → Apart ls
    → Apart (insert_sized x ls)
unfolding insert_sized
insert_sized-Apart x [] f a = (tt, tt)
insert_sized-Apart x (l ∷ ls) f a = elim (Bool-cases (ltb x.size l.size)) [
  | inl e ↦ rw e (
    insert_sized-All (λ k. k.session.id ≢ l.session.id) x ls (λ same. f.0 (sym same)) a.0,
    insert_sized-Apart x ls f.1 a.1,
  )
  | inr e ↦ rw e (f, a)
]

pub sort_sized-Apart : (ls : List Sized) → Apart ls → Apart (sort_sized ls)
unfolding sort_sized
sort_sized-Apart [] a = tt
sort_sized-Apart (l ∷ ls) a =
    insert_sized-Apart l (sort_sized ls) (sort_sized-All (λ k. k.session.id ≢ l.session.id) ls a.0)
      (sort_sized-Apart ls a.1)
