-- ===== src/Memory/Kv/Listing/Order.antt =====
-- internal/memory/kv.go: the order of the keys, and the prefixes in it.
use isobox.Prelude.{
  All, Bool-cases, Bytes, List, Option, [], ap, append_assoc, arith, false, inl, inr, is_empty,
  none, refl, some, sym, true, ◌++◌, ◌∙◌, ◌∷◌, ◌≡◌,
}
use isobox.Strings.{has_prefix, str_eq}
use isobox.Memory.Kv.Listing.{bytes_lt, seek, skip_equal, begin}

-- Entries in the ascending order of their keys, without a key twice.
abbrev pub Ascending : List (Bytes × Bytes) → Type 0
Ascending [] = Unit
Ascending ((k, v) ∷ es) = All (λ e. bytes_lt k e.0 ≡ true) es × Ascending es

bytes_lt_irrefl : (s : Bytes) → bytes_lt s s ≡ false
unfolding bytes_lt
bytes_lt_irrefl [] = refl
bytes_lt_irrefl (c ∷ s) = ground (arith, bytes_lt_irrefl s)

-- What is before a prefix does not begin with it.
pub before-has_prefix : (s p : Bytes) → bytes_lt s p ≡ true → has_prefix s p ≡ false
unfolding bytes_lt
before-has_prefix s [] h = ground (arith, h)
before-has_prefix [] (d ∷ p) h = refl
before-has_prefix (c ∷ s) (d ∷ p) h = ground (arith, h, before-has_prefix s p)

-- What is after a text that is not before the prefix is not before it either.
pub later-bytes_lt :
    (s t p : Bytes) → bytes_lt s p ≡ false → bytes_lt s t ≡ true → bytes_lt t p ≡ false
unfolding bytes_lt
later-bytes_lt s t [] h l = refl
later-bytes_lt [] t (d ∷ p) h l = ground (arith, h)
later-bytes_lt (c ∷ s) [] (d ∷ p) h l = ground (arith, l)
later-bytes_lt (c ∷ s) (e ∷ t) (d ∷ p) h l = ground (arith, h, l, later-bytes_lt s t p)

-- Past the range of a prefix, no text begins with it.
pub later-has_prefix :
    (s t p : Bytes)
    → bytes_lt s p ≡ false
    → has_prefix s p ≡ false
    → bytes_lt s t ≡ true
    → has_prefix t p ≡ false
unfolding bytes_lt
later-has_prefix s t [] h f l = ground (arith, f)
later-has_prefix [] t (d ∷ p) h f l = ground (arith, h)
later-has_prefix (c ∷ s) [] (d ∷ p) h f l = ground (arith, l)
later-has_prefix (c ∷ s) (e ∷ t) (d ∷ p) h f l = ground (arith, h, f, l, later-has_prefix s t p)

seek-after :
    (before after : List (Bytes × Bytes)) (c v : Bytes)
    → Ascending (before ++ ((c, v) ∷ after))
    → seek c (before ++ ((c, v) ∷ after)) ≡ (c, v) ∷ after
unfolding seek
seek-after [] after c v h = rw (bytes_lt_irrefl c) refl
seek-after ((k, w) ∷ before) after c v h =
    let first = head-before before after c v k h.0 in rw first (seek-after before after c v h.1)
  where
    head-before :
        (before after : List (Bytes × Bytes)) (c v k : Bytes)
        → All (λ e. bytes_lt k e.0 ≡ true) (before ++ ((c, v) ∷ after))
        → bytes_lt k c ≡ true
    head-before [] after c v k h = h.0
    head-before (e ∷ before) after c v k h = head-before before after c v k h.1

-- A cursor goes on right behind its key.
pub begin-after :
    (prefix c v : Bytes) (before after : List (Bytes × Bytes))
    → Ascending (before ++ ((c, v) ∷ after))
    → begin prefix (some c) (before ++ ((c, v) ∷ after)) ≡ after
unfolding begin skip_equal
begin-after prefix c v before after h = rw (seek-after before after c v h) (ground arith)

-- Nothing is before the empty prefix.
pub nothing_before : (es : List (Bytes × Bytes)) → All (λ e. bytes_lt e.0 [] ≡ false) es
unfolding bytes_lt
nothing_before [] = tt
nothing_before (e ∷ es) = (refl, nothing_before es)

-- The walk begins at some suffix of the bucket.
seek-suffix :
    (key : Bytes) (es : List (Bytes × Bytes))
    → (before : List (Bytes × Bytes)) × (es ≡ before ++ seek key es)
unfolding seek
seek-suffix key [] = ([], refl)
seek-suffix key ((k, v) ∷ es) = elim (Bool-cases (bytes_lt k key)) [
  | inl passed ↦
      let (before, same) = seek-suffix key es in ((k, v) ∷ before, rw passed (ap (◌∷◌ (k, v)) same))
  | inr reached ↦ ([], rw reached refl)
]

skip_equal-suffix :
    (key : Bytes) (es : List (Bytes × Bytes))
    → (before : List (Bytes × Bytes)) × (es ≡ before ++ skip_equal key es)
unfolding skip_equal
skip_equal-suffix key [] = ([], refl)
skip_equal-suffix key ((k, v) ∷ es) = elim (Bool-cases (str_eq k key)) [
  | inl passed ↦ ((k, v) ∷ [], rw passed refl)
  | inr reached ↦ ([], rw reached refl)
]

pub begin-suffix :
    (prefix : Bytes) (start : Option Bytes) (es : List (Bytes × Bytes))
    → (before : List (Bytes × Bytes)) × (es ≡ before ++ begin prefix start es)
unfolding begin
begin-suffix prefix none es = elim (Bool-cases (is_empty prefix)) [
  | inl blank ↦ ([], rw (blank, begin) refl)
  | inr named ↦ let (before, same) = seek-suffix prefix es in (before, rw (named, begin) same)
]
begin-suffix prefix (some start) es =
    let (before, same) = seek-suffix start es in
    let (passed, same') = skip_equal-suffix start (seek start es) in
    (
      before ++ passed,
      same
          ∙ ap (λ r. before ++ r) same'
          ∙ sym (append_assoc before passed (skip_equal start (seek start es))),
    )
