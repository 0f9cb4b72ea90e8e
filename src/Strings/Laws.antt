-- ===== src/Strings/Laws.antt =====
-- Lemmas on the text functions.
use isobox.Prelude.{Bytes, [], arith, refl, true, ℕ, ◌++◌, ◌==◌, ◌∷◌, ◌≡◌}
use isobox.Strings.{has_prefix, str_eq}

pub ==_refl : (a : ℕ) → (a == a) ≡ true
==_refl a = ground arith

-- A text begins with each of its fronts.
pub has_prefix-append : (p s : Bytes) → has_prefix (p ++ s) p ≡ true
has_prefix-append [] s = refl
has_prefix-append (c ∷ p) s = rw (==_refl c, has_prefix-append p s)

pub has_prefix_self : (p : Bytes) → has_prefix p p ≡ true
has_prefix_self [] = refl
has_prefix_self (c ∷ p) = rw (==_refl c, has_prefix_self p)

-- A front splits off.
pub has_prefix-split : (s p : Bytes) → has_prefix s p ≡ true → (r : Bytes) × (s ≡ p ++ r)
has_prefix-split s [] h = (s, refl)
has_prefix-split [] (c ∷ p) h = cc
has_prefix-split (d ∷ s) (c ∷ p) h =
    let (r, e) = has_prefix-split s p (ground arith) in (r, ground arith)

pub str_eq_refl : (a : Bytes) → str_eq a a ≡ true
str_eq_refl a = ground arith
