-- ===== src/Paths/Base.antt =====
-- filepath.Base of a path with a last component.
use isobox.Prelude.{
  Bool-cases, Bytes, List, [], ap, arith, false, if◌then◌else◌, inl, inr, is_empty, refl, ℕ, ◌++◌,
  ◌==◌, ◌∙◌, ◌∷◌, ◌≡◌, ◌≢◌,
}
use isobox.Paths.{base, slash, split, extend, last_named}
use isobox.Paths.Laws.{split_self, IsFlat}

extend-ne : (c : ℕ) (ps : List Bytes) → extend c ps ≢ []
unfolding extend
extend-ne c [] h = ground arith
extend-ne c (p ∷ ps) h = ground arith

split-ne : (s : Bytes) → split s ≢ []
unfolding split
split-ne [] h = ground arith
split-ne (c ∷ s) h = elim (Bool-cases (c == slash)) [
  | inl e ↦ ground (arith, h, e)
  | inr e ↦ extend-ne c (split s) (ground (arith, h, e))
]

extend-append : (c : ℕ) (ps qs : List Bytes) → ps ≢ [] → extend c (ps ++ qs) ≡ extend c ps ++ qs
unfolding extend
extend-append c [] qs h = absurd (h refl)
extend-append c (p ∷ ps) qs h = refl

-- The components of a path in front of its last.
split-last : (d n : Bytes) → IsFlat n → split (d ++ slash ∷ n) ≡ split d ++ (n ∷ [])
unfolding split
split-last [] n h = rw (split_self n h) refl
split-last (c ∷ d) n h =
    let rest = split-last d n h in
    let ext = extend-append c (split d) (n ∷ []) (split-ne d) in
    elim (Bool-cases (c == slash)) [ inl e ↦ rw (e, rest) refl | inr e ↦ rw (e, rest) ext ]

last_named-append :
    (found : Bytes) (ps : List Bytes) (n : Bytes)
    → is_empty n ≡ false
    → last_named found (ps ++ (n ∷ [])) ≡ n
unfolding last_named
last_named-append found [] n h = rw h refl
last_named-append found (p ∷ ps) n h = last_named-append (if is_empty p then found else p) ps n h

-- The last component is the base.
pub base-last : (d n : Bytes) → is_empty n ≡ false → IsFlat n → base (d ++ slash ∷ n) ≡ n
unfolding base
base-last [] n filled flat =
    ap (last_named (slash ∷ [])) (split-last [] n flat)
    ∙ last_named-append (slash ∷ []) (split []) n filled
base-last (c ∷ d) n filled flat =
    ap (last_named (slash ∷ [])) (split-last (c ∷ d) n flat)
    ∙ last_named-append (slash ∷ []) (split (c ∷ d)) n filled
