-- ===== src/Paths/Laws.antt =====
-- Lemmas on paths: their components, cleaning and joining.
use isobox.Prelude.{
  All, All-map, All-reverse, Bool, Bool-cases, Bytes, List, [], ap, append-nil, append_assoc, arith,
  false, if_neg, inl, inr, is_empty, refl, reverse, reverse-append, reverse-cons, reverse-reverse,
  true, ℕ, ◌++◌, ◌==◌, ◌||◌, ◌∙◌, ◌∷◌, ◌≡◌, ◌≢◌,
}
use isobox.Strings.{str_eq}
use isobox.Paths.{slash, dot, dot_dot, split, extend, joined, push, push_all, clean, join_path}

-- A name that is one component of a path: not empty, not "." or "..", and free of slashes.
pub record IsName (c : Bytes) : Type 0 where
  pub named : is_empty c ≡ false
  pub not_dot : c ≢ dot
  pub not_dot_dot : c ≢ dot_dot
  pub flat : All (λ d. d ≢ slash) c

abbrev pub IsFlat : Bytes → Type 0
IsFlat = All λ d. d ≢ slash

extend-IsFlat : (c : ℕ) (cs : List Bytes) → c ≢ slash → All IsFlat cs → All IsFlat (extend c cs)
unfolding extend
extend-IsFlat c [] n h = ((n, tt), tt)
extend-IsFlat c (p ∷ ps) n h = ((n, h.0), h.1)

split-IsFlat : (s : Bytes) → All IsFlat (split s)
unfolding split
split-IsFlat [] = (tt, tt)
split-IsFlat (c ∷ s) = elim (Bool-cases (c == slash)) [
  | inl e ↦ rw e (tt, split-IsFlat s)
  | inr e ↦ rw e (extend-IsFlat c (split s) (ground arith) (split-IsFlat s))
]

split-append : (p s : Bytes) → IsFlat p → split (p ++ slash ∷ s) ≡ p ∷ split s
unfolding split
split-append [] s h = refl
split-append (c ∷ p) s h = ground (arith, split-append p s h.1)

pub split_self : (p : Bytes) → IsFlat p → split p ≡ p ∷ []
unfolding split
split_self [] h = refl
split_self (c ∷ p) h = ground (arith, split_self p h.1)

-- Joined names are found again, whatever follows a slash.
split-joined :
    (n : Bytes) (ns : List Bytes) (s : Bytes)
    → All IsFlat (n ∷ ns)
    → split (joined (n ∷ ns) ++ slash ∷ s) ≡ n ∷ ns ++ split s
unfolding joined
split-joined n [] s h = split-append n s h.0
split-joined n (m ∷ ns) s h =
    rw (append_assoc, split-append n (joined (m ∷ ns) ++ slash ∷ s) h.0)
      (ap (◌∷◌ n) (split-joined m ns s h.1))

split-joined_self :
    (n : Bytes) (ns : List Bytes) → All IsFlat (n ∷ ns) → split (joined (n ∷ ns)) ≡ n ∷ ns
unfolding joined
split-joined_self n [] h = split_self n h.0
split-joined_self n (m ∷ ns) h =
    rw (split-append n (joined (m ∷ ns)) h.0) (ap (◌∷◌ n) (split-joined_self m ns h.1))

push_all-append :
    (r : Bool) (kept cs ds : List Bytes)
    → push_all r kept (cs ++ ds) ≡ push_all r (push_all r kept cs) ds
unfolding push_all
push_all-append r kept [] ds = refl
push_all-append r kept (c ∷ cs) ds = push_all-append r (push r kept c) cs ds

push-name : (r : Bool) (kept : List Bytes) (c : Bytes) → IsName c → push r kept c ≡ c ∷ kept
unfolding push
push-name r kept c h = ground arith

push_all-names :
    (r : Bool) (kept cs : List Bytes) → All IsName cs → push_all r kept cs ≡ reverse cs ++ kept
unfolding push_all
push_all-names r kept [] h = refl
push_all-names r kept (c ∷ cs) h =
    rw (push-name r kept c h.0, push_all-names r (c ∷ kept) cs h.1, reverse-cons, append_assoc)

kept-IsName :
    (c : Bytes)
    → (is_empty c || str_eq c dot) ≡ false
    → str_eq c dot_dot ≡ false
    → IsFlat c
    → IsName c
kept-IsName c e d f = record {
  named = ground arith;
  not_dot = ground arith;
  not_dot_dot = ground arith;
  flat = f;
}

-- In a rooted path every component that is kept is a name.
push-IsName :
    (kept : List Bytes) (c : Bytes) → IsFlat c → All IsName kept → All IsName (push true kept c)
unfolding push
push-IsName [] c f h = elim (Bool-cases (is_empty c || str_eq c dot)) [
  | inl e ↦ rw e tt
  | inr e ↦ elim (Bool-cases (str_eq c dot_dot)) [
    | inl d ↦ rw (e, d) tt
    | inr d ↦ rw (e, d) (kept-IsName c e d f, tt)
  ]
]
push-IsName (t ∷ kept) c f h = elim (Bool-cases (is_empty c || str_eq c dot)) [
  | inl e ↦ rw e h
  | inr e ↦ elim (Bool-cases (str_eq c dot_dot)) [
    | inl d ↦ rw (e, d, if_neg _ h.0.not_dot_dot) h.1
    | inr d ↦ rw (e, d) (kept-IsName c e d f, h)
  ]
]

push_all-IsName :
    (kept cs : List Bytes) → All IsFlat cs → All IsName kept → All IsName (push_all true kept cs)
unfolding push_all
push_all-IsName kept [] f h = h
push_all-IsName kept (c ∷ cs) f h =
    push_all-IsName (push true kept c) cs f.1 (push-IsName kept c f.0 h)

-- A rooted path is cleaned to names.
pub clean_abs :
    (s : Bytes) → (ns : List Bytes) × All IsName ns × (clean (slash ∷ s) ≡ slash ∷ joined ns)
unfolding clean
clean_abs s = (
  reverse (push_all true [] (split (slash ∷ s))),
  All-reverse IsName (push_all true [] (split (slash ∷ s)))
      (push_all-IsName [] (split (slash ∷ s)) (split-IsFlat (slash ∷ s)) tt),
  refl,
)

names-IsFlat : (ns : List Bytes) → All IsName ns → All IsFlat ns
names-IsFlat = All-map IsName IsFlat λ n h. h.flat

-- The components of "/n/…" followed by "/" and a cleaned rooted path.
push_all-joined :
    (kept cs : List Bytes)
    → All IsName cs
    → push_all true kept (split (slash ∷ joined cs)) ≡ reverse cs ++ kept
unfolding split push_all joined
push_all-joined kept [] h = refl
push_all-joined kept (c ∷ cs) h =
    rw (split-joined_self c cs (names-IsFlat (c ∷ cs) h)) (push_all-names true kept (c ∷ cs) h)

split-slash : (s : Bytes) → split (slash ∷ s) ≡ [] ∷ split s
unfolding split
split-slash s = refl

push_all-empty : (r : Bool) (kept cs : List Bytes) → push_all r kept ([] ∷ cs) ≡ push_all r kept cs
unfolding push_all push
push_all-empty r kept cs = refl

push_all-dir :
    (n : Bytes) (ns cs : List Bytes)
    → All IsName (n ∷ ns)
    → All IsName cs
    → push_all true [] (split (slash ∷ joined (n ∷ ns) ++ slash ∷ slash ∷ joined cs))
      ≡ reverse (n ∷ ns ++ cs)
push_all-dir n ns cs h k = rw (
  split-slash,
  push_all-empty,
  split-joined n ns (slash ∷ joined cs) (names-IsFlat (n ∷ ns) h),
  push_all-append true [] (n ∷ ns) (split (slash ∷ joined cs)),
  push_all-names true [] (n ∷ ns) h,
  push_all-joined _ cs k,
  append-nil,
  reverse-append (n ∷ ns) cs,
)

-- Joining a rooted, cleaned path to a directory keeps the directory's names in front.
pub join_path-abs :
    (n : Bytes) (ns cs : List Bytes)
    → All IsName (n ∷ ns)
    → All IsName cs
    → join_path (slash ∷ joined (n ∷ ns)) (slash ∷ joined cs) ≡ slash ∷ joined (n ∷ ns ++ cs)
unfolding join_path
join_path-abs n ns cs h k =
    ap {B = Bytes} (λ (l : List Bytes). slash ∷ joined (reverse l)) (push_all-dir n ns cs h k)
    ∙ ap {B = Bytes} (λ (l : List Bytes). slash ∷ joined l) (reverse-reverse (n ∷ ns ++ cs))

-- The directory is a front of what was joined to it.
pub joined-append :
    (n : Bytes) (ns cs : List Bytes) (c : Bytes)
    → joined (n ∷ ns ++ c ∷ cs) ≡ joined (n ∷ ns) ++ slash ∷ joined (c ∷ cs)
unfolding joined
joined-append n [] cs c = refl
joined-append n (m ∷ ns) cs c = rw append_assoc (ap (λ s. n ++ slash ∷ s) (joined-append m ns cs c))
