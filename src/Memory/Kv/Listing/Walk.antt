-- ===== src/Memory/Kv/Listing/Walk.antt =====
-- internal/memory/kv.go: the loop of one page of List.
use isobox.Prelude.{
  All, Bool, Bool-cases, Bytes, List, Option, [], ap, append_assoc, arith, false, if◌then◌else◌,
  inl, inr, is_empty, is_empty_nil, none, not, refl, some, subst, suc, sym, true, zero, ℕ, ◌&&◌,
  ◌++◌, ◌∙◌, ◌∷◌, ◌≡◌, ◌≢◌, ◌≤◌, ◌⊎◌,
}
use isobox.Strings.{has_prefix}
use isobox.Memory.Kv.Listing.{bytes_lt, seek, begin, page, walk}
use isobox.Memory.Kv.Listing.Order.{
  Ascending, before-has_prefix, later-bytes_lt, later-has_prefix, nothing_before, begin-after,
}

module _ (live : Bytes → Bool) (prefix : Bytes) where
  -- The keys that List is to show: those of the live entries with the prefix, in their order.
  unfoldable pub wanted : List (Bytes × Bytes) → List Bytes
  wanted [] = []
  wanted ((k, v) ∷ es) =
      let rest = wanted es in if has_prefix k prefix && live v then k ∷ rest else rest

  -- What the loop shows of a suffix, with no limit.
  pub shown : List (Bytes × Bytes) → List Bytes
  shown [] = []
  shown ((k, v) ∷ es) =
      let rest = shown es in
      if not (has_prefix k prefix) then [] else if live v then k ∷ rest else rest

  wanted_none :
      (es : List (Bytes × Bytes)) → All (λ e. has_prefix e.0 prefix ≡ false) es → wanted es ≡ []
  unfolding wanted
  wanted_none [] h = refl
  wanted_none ((k, v) ∷ es) h = ground (arith, h.0, wanted_none es h.1)

  later_none :
      (k : Bytes) (es : List (Bytes × Bytes))
      → bytes_lt k prefix ≡ false
      → has_prefix k prefix ≡ false
      → All (λ e. bytes_lt k e.0 ≡ true) es
      → All (λ e. has_prefix e.0 prefix ≡ false) es
  later_none k [] h f l = tt
  later_none k (e ∷ es) h f l = (later-has_prefix k e.0 prefix h f l.0, later_none k es h f l.1)

  later_after :
      (k : Bytes) (es : List (Bytes × Bytes))
      → bytes_lt k prefix ≡ false
      → All (λ e. bytes_lt k e.0 ≡ true) es
      → All (λ e. bytes_lt e.0 prefix ≡ false) es
  later_after k [] h l = tt
  later_after k (e ∷ es) h l = (later-bytes_lt k e.0 prefix h l.0, later_after k es h l.1)

  -- From the prefix on, the loop stops at the end of its range and misses nothing.
  shown-wanted :
      (es : List (Bytes × Bytes))
      → Ascending es
      → All (λ e. bytes_lt e.0 prefix ≡ false) es
      → shown es ≡ wanted es
  unfolding shown wanted
  shown-wanted [] a h = refl
  shown-wanted ((k, v) ∷ es) a h = elim (Bool-cases (has_prefix k prefix)) [
    | inl within ↦ rw (within, shown, wanted) (ground (arith, shown-wanted es a.1 h.1))
    | inr past ↦ rw (past, shown, wanted) (sym (wanted_none es (later_none k es h.0 past a.0)))
  ]

  shown-seek : (es : List (Bytes × Bytes)) → Ascending es → shown (seek prefix es) ≡ wanted es
  unfolding seek wanted shown
  shown-seek [] a = refl
  shown-seek ((k, v) ∷ es) a = elim (Bool-cases (bytes_lt k prefix)) [
    | inl before ↦ rw (before, seek, wanted, before-has_prefix k prefix before) (shown-seek es a.1)
    | inr reached ↦
        rw (reached, seek) (shown-wanted ((k, v) ∷ es) a (reached, later_after k es reached a.0))
  ]

  pub shown-begin :
      (es : List (Bytes × Bytes)) → Ascending es → shown (begin prefix none es) ≡ wanted es
  unfolding begin
  shown-begin es a = elim (Bool-cases (is_empty prefix)) [
    | inr some_prefix ↦ rw (some_prefix, begin) (shown-seek es a)
    | inl blank ↦
        rw (blank, begin)
          (shown-wanted es a (
            subst (λ p. All (λ e. bytes_lt e.0 p ≡ false) es) (sym (is_empty_nil prefix blank))
              (nothing_before es)))
  ]

  -- The page so far and what it has left to show: it is empty and has room, or a cursor at its
  -- last key would go on here.
  abbrev pub Carries : List (Bytes × Bytes) → ℕ → Option Bytes → List (Bytes × Bytes) → Type 0
  Carries whole room last es =
      ((last ≡ none) × (1 ≤ room))
      ⊎ ((c : Bytes) × (last ≡ some c) × (shown (begin prefix (some c) whole) ≡ shown es))

  -- A page, against what was to be shown: it is the last, or the next cursor goes on behind it.
  abbrev pub Yields :
      List (Bytes × Bytes) → Option Bytes → List Bytes → List Bytes × Option Bytes → Type 0
  Yields whole last left page =
      ((page.1 ≡ none) × (left ≡ page.0))
      ⊎ ((c : Bytes) × (page.1 ≡ some c)
          × (left ≡ page.0 ++ shown (begin prefix (some c) whole))
          × ((page.0 ≢ []) ⊎ (last ≢ none)))

  snoc :
      (before : List (Bytes × Bytes)) (e : Bytes × Bytes) (es : List (Bytes × Bytes))
      → before ++ (e ∷ es) ≡ (before ++ (e ∷ [])) ++ es
  snoc before e es = sym (append_assoc before (e ∷ []) es)

  walk_past :
      (room : ℕ) (last : Option Bytes) (k v : Bytes) (es : List (Bytes × Bytes))
      → has_prefix k prefix ≡ false
      → (walk live prefix room last ((k, v) ∷ es) ≡ ([], none)) × (shown ((k, v) ∷ es) ≡ [])
  unfolding walk shown
  walk_past zero last k v es past = (rw past refl, rw past refl)
  walk_past (suc room) last k v es past = (rw past refl, rw past refl)

  walk_dead :
      (room : ℕ) (last : Option Bytes) (k v : Bytes) (es : List (Bytes × Bytes))
      → has_prefix k prefix ≡ true
      → live v ≡ false
      → (walk live prefix room last ((k, v) ∷ es) ≡ walk live prefix room last es)
        × (shown ((k, v) ∷ es) ≡ shown es)
  unfolding walk shown
  walk_dead zero last k v es within dead = (rw (within, dead) refl, rw (within, dead) refl)
  walk_dead (suc room) last k v es within dead = (rw (within, dead) refl, rw (within, dead) refl)

  walk_live :
      (room : ℕ) (last : Option Bytes) (k v : Bytes) (es : List (Bytes × Bytes))
      → has_prefix k prefix ≡ true
      → live v ≡ true
      → (walk live prefix zero last ((k, v) ∷ es) ≡ ([], last))
        × (walk live prefix (suc room) last ((k, v) ∷ es)
            ≡ (k ∷ (walk live prefix room (some k) es).0, (walk live prefix room (some k) es).1))
        × (shown ((k, v) ∷ es) ≡ k ∷ shown es)
  unfolding walk shown
  walk_live room last k v es within alive =
      (rw (within, alive) refl, rw (within, alive) refl, rw (within, alive) refl)

  -- The page of a live entry that is shown, from the page of what follows it.
  taken-Yields :
      (whole : List (Bytes × Bytes)) (last : Option Bytes) (k : Bytes) (left : List Bytes)
      (rest : List Bytes × Option Bytes)
      → Yields whole (some k) left rest
      → Yields whole last (k ∷ left) (k ∷ rest.0, rest.1)
  taken-Yields whole last k left rest (inl (ended, same)) = inl (ended, ap (◌∷◌ k) same)
  taken-Yields whole last k left rest (inr (c, next, same, _)) =
      inr (c, next, ap (◌∷◌ k) same, inl (λ e. ground (arith, e)))

  full-Yields :
      (whole : List (Bytes × Bytes)) (last : Option Bytes) (es : List (Bytes × Bytes))
      → Carries whole zero last es
      → Yields whole last (shown es) ([], last)
  full-Yields whole last es (inl (_, room)) = absurd (omega arith)
  full-Yields whole last es (inr (c, at, same)) =
      inr (c, at, sym same, inr (λ e. ground (arith, e, at)))

  live_entry :
      (whole : List (Bytes × Bytes)) (last : Option Bytes) (k v : Bytes) (es : List (Bytes × Bytes))
      (room : ℕ)
      → has_prefix k prefix ≡ true
      → live v ≡ true
      → Carries whole room last ((k, v) ∷ es)
      → ((r : ℕ) → Yields whole (some k) (shown es) (walk live prefix r (some k) es))
      → Yields whole last (shown ((k, v) ∷ es)) (walk live prefix room last ((k, v) ∷ es))
  live_entry whole last k v es zero within alive h more =
      let (full, _, left) = walk_live 0 last k v es within alive in
      subst (λ y. Yields whole last (shown ((k, v) ∷ es)) y) (sym full)
        (full-Yields whole last ((k, v) ∷ es) h)
  live_entry whole last k v es (suc room) within alive h more =
      let (_, taken, left) = walk_live room last k v es within alive in
      subst (λ y. Yields whole last (shown ((k, v) ∷ es)) y) (sym taken)
        (subst
          (λ l.
            Yields whole last l
              (k ∷ (walk live prefix room (some k) es).0, (walk live prefix room (some k) es).1))
          (sym left)
          (taken-Yields whole last k (shown es) (walk live prefix room (some k) es) (more room)))

  walk_end :
      (room : ℕ) (last : Option Bytes)
      → (walk live prefix room last [] ≡ ([], none)) × (shown [] ≡ [])
  unfolding walk shown
  walk_end room last = (refl, refl)

  pub walk-Yields :
      (whole before es : List (Bytes × Bytes)) (room : ℕ) (last : Option Bytes)
      → Ascending whole
      → whole ≡ before ++ es
      → Carries whole room last es
      → Yields whole last (shown es) (walk live prefix room last es)
  walk-Yields whole before [] room last a e h =
      let (walked, left) = walk_end room last in
      subst (λ y. Yields whole last (shown []) y) (sym walked) (inl (refl, left))
  walk-Yields whole before ((k, v) ∷ es) room last a e h =
      let more = walk-Yields whole (before ++ ((k, v) ∷ [])) es in
      let on = e ∙ snoc before (k, v) es in
      elim (Bool-cases (has_prefix k prefix)) [
        | inr past ↦
            let (walked, left) = walk_past room last k v es past in
            subst (λ y. Yields whole last (shown ((k, v) ∷ es)) y) (sym walked) (inl (refl, left))
        | inl within ↦ elim (Bool-cases (live v)) [
          | inr dead ↦
              let (walked, left) = walk_dead room last k v es within dead in
              subst (λ y. Yields whole last (shown ((k, v) ∷ es)) y) (sym walked)
                (subst (λ l. Yields whole last l (walk live prefix room last es)) (sym left)
                  (more room last a on (
                    subst
                      (λ (l : List Bytes).
                        ((last ≡ none) × (1 ≤ room))
                        ⊎ ((c : Bytes) × (last ≡ some c)
                            × (shown (begin prefix (some c) whole) ≡ l)))
                      left h)))
          | inl alive ↦
              let behind : shown (begin prefix (some k) whole) ≡ shown es = ap shown (
                ap (begin prefix (some k)) e
                ∙ begin-after prefix k v before es (subst Ascending e a)) in
              live_entry whole last k v es room within alive h
                (λ r. more r (some k) a on (inr (k, refl, behind)))
        ]
      ]
