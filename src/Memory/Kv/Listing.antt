-- ===== src/Memory/Kv/Listing.antt =====
-- internal/memory/kv.go: `List`. What a cursor of bbolt walks over is the list of the bucket's
-- entries, in the ascending order of their keys; base64 of a key is a pair of functions.
pub mod Order
pub mod Walk
pub mod Laws
mod Tests
use isobox.Prelude.{
  Bool, Bytes, List, Option, [], false, if◌then◌else◌, inl, inr, is_empty, keys, ltb, none, not,
  some, suc, true, zero, ℕ, ◌&&◌, ◌==◌, ◌||◌, ◌∷◌, ◌⊎◌,
}
use isobox.Strings.{has_prefix, str_eq}
use isobox.Memory.Kv.{Codec, Entry, KvError, valid_namespace, bad_namespace, failed}

-- The order of bytes.Compare.
pub bytes_lt : Bytes → Bytes → Bool
bytes_lt s [] = false
bytes_lt [] (d ∷ t) = true
bytes_lt (c ∷ s) (d ∷ t) = ltb c d || (c == d) && bytes_lt s t

-- `c.Seek(key)`: the first entry that is not before the key, and what follows.
pub seek : Bytes → List (Bytes × Bytes) → List (Bytes × Bytes)
unfolding bytes_lt
seek key [] = []
seek key ((k, v) ∷ es) = let rest = seek key es in if bytes_lt k key then rest else (k, v) ∷ es

-- A cursor is exclusive: an entry that equals it is passed.
skip_equal : Bytes → List (Bytes × Bytes) → List (Bytes × Bytes)
skip_equal start [] = []
skip_equal start ((k, v) ∷ es) = if str_eq k start then es else (k, v) ∷ es

-- Where the walk begins.
pub begin : Bytes → Option Bytes → List (Bytes × Bytes) → List (Bytes × Bytes)
unfolding seek skip_equal
begin prefix (some start) es = skip_equal start (seek start es)
begin prefix none es = if is_empty prefix then es else seek prefix es

-- An entry that List shows: one that does not decode counts as live.
pub is_live : (Bytes → Option Entry) → ℕ → Bytes → Bool
is_live decode now raw = elim (decode raw) [
  | none ↦ true
  | some e ↦ (e.expires_at == 0) || ltb now e.expires_at
]

-- The loop of List: the keys of the page, `room` of which are left, and the key of the next
-- cursor, where `last` is the last key of the page so far.
pub walk :
    (Bytes → Bool) → Bytes → ℕ → Option Bytes → List (Bytes × Bytes) → List Bytes × Option Bytes
walk live prefix room last [] = ([], none)
walk live prefix zero last ((k, v) ∷ es) =
    let skipped = walk live prefix zero last es in
    if not (has_prefix k prefix) then ([], none) else if live v then ([], last) else skipped
walk live prefix (suc room) last ((k, v) ∷ es) =
    let skipped = walk live prefix (suc room) last es in
    let (keys, next) = walk live prefix room (some k) es in
    if not (has_prefix k prefix) then ([], none) else if live v then (k ∷ keys, next) else skipped

-- The limit of a page.
pub page_limit : ℕ → ℕ
page_limit limit = if (limit == 0) || ltb 1000 limit then 100 else limit

-- One page, from the key of a cursor.
pub page :
    (Bytes → Bool) → Bytes → ℕ → Option Bytes → List (Bytes × Bytes) → List Bytes × Option Bytes
unfolding begin walk page_limit
page live prefix limit start es = walk live prefix (page_limit limit) none (begin prefix start es)

-- `List` on the tenant's open file; `encode` and `decode` are base64, and the cursor is empty for
-- none.
pub list :
    Codec
    → (Bytes → Bytes)
    → (Bytes → Option Bytes)
    → ℕ
    → (Bytes → List (Bytes × Bytes))
    → Bytes
    → Bytes
    → ℕ
    → Bytes
    → KvError ⊎ (List Bytes × Bytes)
unfolding page is_live
list c encode decode now bucket ns prefix limit cursor =
    let answer : Option Bytes → KvError ⊎ (List Bytes × Bytes) = λ start.
      let (keys, next) = page (is_live c.decode now) prefix limit start (bucket ns) in
      inr (keys, elim next [ none ↦ [] | some k ↦ encode k ]) in
    if not (valid_namespace ns)
    then inl bad_namespace
    else if is_empty cursor
    then answer none
    else elim (decode cursor) [ none ↦ inl failed | some start ↦ answer (some start) ]
