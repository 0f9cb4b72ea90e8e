-- ===== src/Memory/Kv/Listing/Laws.antt =====
-- internal/memory/kv.go: a caller that follows the cursors of List.
use isobox.Prelude.{
  Bool, Bytes, List, Option, [], ap, arith, inl, inr, keys, length, length-append, none, refl, some,
  suc, sym, zero, ℕ, ◌++◌, ◌<◌, ◌∙◌, ◌∷◌, ◌≡◌, ◌≢◌, ◌≤◌, ◌⊎◌,
}
use isobox.Memory.Kv.Listing.{begin, page, page_limit}
use isobox.Memory.Kv.Listing.Order.{Ascending, begin-suffix}
use isobox.Memory.Kv.Listing.Walk.{shown, wanted, Yields, shown-begin, walk-Yields}

module _ (live : Bytes → Bool) (prefix : Bytes) where
  -- The pages from a cursor on, as a client that stops where there is no next cursor; none where
  -- the number of requests does not suffice.
  pub follow : ℕ → ℕ → Option Bytes → List (Bytes × Bytes) → Option (List Bytes)
  follow zero limit start es = none
  follow (suc n) limit start es =
      let (keys, next) = page live prefix limit start es in
      elim next [
        | none ↦ some keys
        | some c ↦ elim (follow n limit (some c) es) [
          | none ↦ none
          | some more ↦ some (keys ++ more)
        ]
      ]

  page_limit-pos : (limit : ℕ) → 1 ≤ page_limit limit
  unfolding page_limit
  page_limit-pos limit = ground arith

  page-Yields :
      (limit : ℕ) (start : Option Bytes) (es : List (Bytes × Bytes))
      → Ascending es
      → Yields live prefix es none
          (shown live prefix (begin prefix start es))
          (page live prefix limit start es)
  unfolding page
  page-Yields limit start es a =
      let (before, same) = begin-suffix prefix start es in
      walk-Yields live prefix es before (begin prefix start es) (page_limit limit) none a same
        (inl (refl, page_limit-pos limit))

  nonempty :
      (keys : List Bytes) → (keys ≢ []) ⊎ (◌≢◌ {A = Option Bytes} none none) → 1 ≤ length keys
  nonempty [] (inl h) = absurd (h refl)
  nonempty [] (inr h) = absurd (h refl)
  nonempty (k ∷ rest) h = omega arith

  follow_step :
      (n limit : ℕ) (start : Option Bytes) (es : List (Bytes × Bytes)) (left : List Bytes)
      → left ≡ shown live prefix (begin prefix start es)
      → Yields live prefix es none left (page live prefix limit start es)
      → ((c : Bytes)
          → length (shown live prefix (begin prefix (some c) es)) < length left
          → follow n limit (some c) es ≡ some (shown live prefix (begin prefix (some c) es)))
      → follow (suc n) limit start es ≡ some left
  unfolding follow
  follow_step n limit start es left here (inl (ended, same)) more =
      rw (ended, follow) (ap some (sym same))
  follow_step n limit start es left here (inr (c, next, same, grown)) more =
      let keys = (page live prefix limit start es).0 in
      let longer = length-append keys (shown live prefix (begin prefix (some c) es)) in
      let full = nonempty keys grown in
      rw (next, follow, more c (omega (arith, longer, full, ap length same))) (ap some (sym same))

  follow_all :
      (n limit : ℕ) (start : Option Bytes) (es : List (Bytes × Bytes))
      → Ascending es
      → length (shown live prefix (begin prefix start es)) < n
      → follow n limit start es ≡ some (shown live prefix (begin prefix start es))
  follow_all zero limit start es a h = absurd (omega arith)
  follow_all (suc n) limit start es a h =
      follow_step n limit start es (shown live prefix (begin prefix start es)) refl
        (page-Yields limit start es a) (λ c less. follow_all n limit (some c) es a (omega arith))

  -- A client that follows the cursors of List from the start gets exactly the keys of the live
  -- entries with the prefix, each once and in their order, whatever the limit of a page is, and
  -- needs at most one request more than there are such keys; in a bucket whose entries ascend and
  -- do not change meanwhile.
  pub follow-wanted :
      (limit : ℕ) (es : List (Bytes × Bytes))
      → Ascending es
      → follow (suc (length (wanted live prefix es))) limit none es ≡ some (wanted live prefix es)
  follow-wanted limit es a =
      let same = shown-begin live prefix es a in
      follow_all (suc (length (wanted live prefix es))) limit none es a
        (omega (arith, ap length same))
      ∙ ap some same
