-- ===== src/Strings.antt =====
-- What the program uses of Go's package strings, over the bytes of a text. White space and letters
-- are those of ASCII.
pub mod Laws
use isobox.Prelude.{
  Bool, Bytes, Bytes-discrete, List, [], any, drop, false, if◌then◌else◌, is_empty, ite, leb,
  length, map, true, ℕ, ◌&&◌, ◌++◌, ◌+◌, ◌==◌, ◌||◌, ◌∷◌,
}

abbrev pub str_eq : Bytes → Bytes → Bool
str_eq a b = ite (Bytes-discrete a b) true false

-- `strings.HasPrefix(s, prefix)`
abbrev pub has_prefix : Bytes → Bytes → Bool
has_prefix s [] = true
has_prefix [] (p ∷ ps) = false
has_prefix (c ∷ s) (p ∷ ps) = c == p && has_prefix s ps

-- `strings.TrimPrefix`
unfoldable pub trim_prefix : Bytes → Bytes → Bytes
trim_prefix s p = if has_prefix s p then drop (length p) s else s

abbrev pub contains : Bytes → ℕ → Bool
contains s c = any (λ d. d == c) s

abbrev pub is_space : ℕ → Bool
is_space c = (leb 9 c && leb c 13) || c == 32

unfoldable pub trim_left : Bytes → Bytes
trim_left [] = []
trim_left (c ∷ s) = let rest = trim_left s in if is_space c then rest else c ∷ s

-- Drops the white space that ends the text.
unfoldable pub trim_right : Bytes → Bytes
trim_right [] = []
trim_right (c ∷ s) = let rest = trim_right s in if is_space c && is_empty rest then [] else c ∷ rest

-- `strings.TrimSpace`
unfoldable pub trim_space : Bytes → Bytes
unfolding trim_left trim_right
trim_space s = trim_right (trim_left s)

-- `strings.ToLower`
unfoldable pub to_lower : Bytes → Bytes
to_lower = map λ c. if leb 65 c && leb c 90 then c + 32 else c

-- `strings.Join`
unfoldable pub join : Bytes → List Bytes → Bytes
join sep [] = []
join sep (p ∷ []) = p
join sep (p ∷ q ∷ ps) = p ++ (sep ++ join sep (q ∷ ps))

-- `strings.Contains`
pub contains_text : Bytes → Bytes → Bool
contains_text [] p = is_empty p
contains_text (c ∷ s) p = has_prefix (c ∷ s) p || contains_text s p
