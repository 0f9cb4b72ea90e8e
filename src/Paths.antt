-- ===== src/Paths.antt =====
-- What the program uses of Go's package path/filepath, on a system whose separator is '/'.
pub mod Laws
pub mod Base
use isobox.Prelude.{
  Bool, Bytes, List, [], codes, false, if◌then◌else◌, is_empty, reverse, ℕ, ◌++◌, ◌==◌, ◌||◌, ◌∷◌,
}
use isobox.Strings.{str_eq}

abbrev pub slash : ℕ
slash = 47

abbrev pub dot : Bytes
dot = codes "."

abbrev pub dot_dot : Bytes
dot_dot = codes ".."

-- A byte in front of the first component.
unfoldable pub extend : ℕ → List Bytes → List Bytes
extend c [] = (c ∷ []) ∷ []
extend c (p ∷ ps) = (c ∷ p) ∷ ps

-- The components of a path, split at every slash; empty ones included.
unfoldable pub split : Bytes → List Bytes
unfolding extend
split [] = [] ∷ []
split (c ∷ s) = let rest = split s in if c == slash then [] ∷ rest else extend c rest

-- The components joined by slashes.
unfoldable pub joined : List Bytes → Bytes
joined [] = []
joined (p ∷ []) = p
joined (p ∷ q ∷ ps) = p ++ slash ∷ joined (q ∷ ps)

-- The last component that is not empty.
unfoldable pub last_named : Bytes → List Bytes → Bytes
last_named found [] = found
last_named found (p ∷ ps) = last_named (if is_empty p then found else p) ps

-- `filepath.Base`: "." for the empty path, "/" for a path of slashes.
unfoldable pub base : Bytes → Bytes
unfolding split last_named
base s = if is_empty s then dot else last_named (slash ∷ []) (split s)

-- One component of `filepath.Clean`; the components kept so far, the last one first.
unfoldable pub push : Bool → List Bytes → Bytes → List Bytes
push rooted kept c =
    if is_empty c || str_eq c dot
    then kept
    else if str_eq c dot_dot
    then elim kept [
      | [] ↦ if rooted then [] else dot_dot ∷ []
      | t ∷ rest ↦ if str_eq t dot_dot then dot_dot ∷ t ∷ rest else rest
    ]
    else c ∷ kept

unfoldable pub push_all : Bool → List Bytes → List Bytes → List Bytes
unfolding push
push_all rooted kept [] = kept
push_all rooted kept (c ∷ cs) = push_all rooted (push rooted kept c) cs

-- `filepath.IsAbs`
abbrev pub is_abs : Bytes → Bool
is_abs [] = false
is_abs (c ∷ s) = c == slash

-- `filepath.Clean`
unfoldable pub clean : Bytes → Bytes
unfolding split push_all joined
clean s =
    let names = reverse (push_all (is_abs s) [] (split s)) in
    if is_abs s then slash ∷ joined names else if is_empty names then dot else joined names

-- `filepath.Join` of two elements: an empty one is ignored.
unfoldable pub join_path : Bytes → Bytes → Bytes
unfolding clean
join_path a b =
    if is_empty a
    then (if is_empty b then [] else clean b)
    else clean (if is_empty b then a else a ++ slash ∷ b)

-- All components but the last.
unfoldable pub front : List Bytes → List Bytes
front [] = []
front (p ∷ []) = []
front (p ∷ q ∷ ps) = p ∷ front (q ∷ ps)

-- `filepath.Dir`: what stands up to the last slash, cleaned.
unfoldable pub dir : Bytes → Bytes
unfolding clean split front joined
dir s =
    let names = front (split s) in clean (if is_empty names then [] else joined names ++ slash ∷ [])
