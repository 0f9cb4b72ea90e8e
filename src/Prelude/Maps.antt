-- ===== src/Prelude/Maps.antt =====
-- Finite maps as association lists, over keys with a decidable equality and the library's `lookup`.
use Prim.Native.Nat.{ℕ, ◌+◌}
use mathlib.Core.Path.{◌≡◌, refl, sym, subst, ◌∙◌}
use mathlib.Core.Logic.{◌≢◌, ite, if_pos, if_neg}
use mathlib.Core.List.{List, [], ◌∷◌, map, lookup}
use isobox.Prelude.Lists.{All}
use mathlib.Core.Option.{none, some}
use native.Mathlib.Omega.{arith}

abbrev pub keys {ℓ κ} : {K : Type ℓ} {V : Type κ} → List (K × V) → List K
keys = map λ e. e.0

module _ {ℓ} {K V : Type ℓ} (dec : Discrete K) where
  -- Deletes the key's entry; a missing key is no error.
  unfoldable pub remove : K → List (K × V) → List (K × V)
  remove k [] = []
  remove k ((j, v) ∷ m) = ite (dec k j) (remove k m) ((j, v) ∷ remove k m)

  -- Overwrites the key's entry in place, or adds one.
  unfoldable pub update : K → V → List (K × V) → List (K × V)
  update k v [] = (k, v) ∷ []
  update k v ((j, w) ∷ m) = ite (dec k j) ((k, v) ∷ m) ((j, w) ∷ update k v m)

  pub lookup-update_self : (k : K) (v : V) (m : List (K × V)) → lookup dec k (update k v m) ≡ some v
  unfolding lookup update
  lookup-update_self k v [] = ground arith
  lookup-update_self k v ((j, w) ∷ m) = ground (arith, lookup-update_self k v m)

  pub lookup-update_ne :
      (k q : K) (v : V) (m : List (K × V)) → q ≢ k → lookup dec q (update k v m) ≡ lookup dec q m
  unfolding lookup update
  lookup-update_ne k q v [] h = ground arith
  lookup-update_ne k q v ((j, w) ∷ m) h = ground (arith, lookup-update_ne k q v m)

  pub lookup-remove_self : (k : K) (m : List (K × V)) → lookup dec k (remove k m) ≡ none
  unfolding lookup remove
  lookup-remove_self k [] = refl
  lookup-remove_self k ((j, w) ∷ m) = ground (arith, lookup-remove_self k m)

  pub lookup-remove_ne :
      (k q : K) (m : List (K × V)) → q ≢ k → lookup dec q (remove k m) ≡ lookup dec q m
  unfolding lookup remove
  lookup-remove_ne k q [] h = refl
  lookup-remove_ne k q ((j, w) ∷ m) h = ground (arith, lookup-remove_ne k q m)

  pub update-update_self :
      (k : K) (v w : V) (m : List (K × V)) → update k v (update k w m) ≡ update k v m
  unfolding update
  update-update_self k v w [] = ground arith
  update-update_self k v w ((j, x) ∷ m) = ground (arith, update-update_self k v w m)

  pub update-lookup :
      (k : K) (v : V) (m : List (K × V)) → lookup dec k m ≡ some v → update k v m ≡ m
  unfolding lookup update
  update-lookup k v [] h = cc
  update-lookup k v ((j, w) ∷ m) h = ground (arith, update-lookup k v m)

  pub remove_absent : (k : K) (m : List (K × V)) → lookup dec k m ≡ none → remove k m ≡ m
  unfolding lookup remove
  remove_absent k [] h = refl
  remove_absent k ((j, w) ∷ m) h = ground (arith, remove_absent k m)

-- The total of a measure of the values.
abbrev pub sum_by {ℓ} : {K V : Type ℓ} → (V → ℕ) → List (K × V) → ℕ
sum_by f [] = 0
sum_by f ((k, v) ∷ m) = f v + sum_by f m

-- No key has two entries.
abbrev pub Distinct {ℓ} : {K V : Type ℓ} → Discrete K → List (K × V) → Type ℓ
Distinct dec [] = Unit
Distinct dec ((k, v) ∷ m) = (lookup dec k m ≡ none) × Distinct dec m

module _ {ℓ} {K V : Type ℓ} (dec : Discrete K) where
  lookup-remove-none :
      (k q : K) (m : List (K × V)) → lookup dec q m ≡ none → lookup dec q (remove dec k m) ≡ none
  unfolding lookup remove
  lookup-remove-none k q [] h = refl
  lookup-remove-none k q ((j, w) ∷ m) h = ground (arith, lookup-remove-none k q m)

  pub remove-Distinct : (k : K) (m : List (K × V)) → Distinct dec m → Distinct dec (remove dec k m)
  unfolding remove
  remove-Distinct k [] d = tt
  remove-Distinct k ((j, w) ∷ m) d = elim (dec k j) [
    | yes p ↦ rw (if_pos _ p) (remove-Distinct k m d.1)
    | no p ↦ rw (if_neg _ p) (lookup-remove-none k j m d.0, remove-Distinct k m d.1)
  ]

  pub update-Distinct :
      (k : K) (v : V) (m : List (K × V)) → Distinct dec m → Distinct dec (update dec k v m)
  unfolding update lookup
  update-Distinct k v [] d = (refl, tt)
  update-Distinct k v ((j, w) ∷ m) d = elim (dec k j) [
    | yes p ↦ rw (if_pos _ p) (rw p d.0, d.1)
    | no p ↦
        rw (if_neg _ p)
          (lookup-update_ne dec k j v m (λ e. p (sym e)) ∙ d.0, update-Distinct k v m d.1)
  ]

module _ {ℓ κ} {K V : Type ℓ} (dec : Discrete K) (P : K × V → Type κ) where
  pub All-remove : (k : K) (m : List (K × V)) → All P m → All P (remove dec k m)
  unfolding remove
  All-remove k [] h = tt
  All-remove k ((j, w) ∷ m) h = elim (dec k j) [
    | yes p ↦ rw (if_pos _ p) (All-remove k m h.1)
    | no p ↦ rw (if_neg _ p) (h.0, All-remove k m h.1)
  ]

  pub All-update :
      (k : K) (v : V) (m : List (K × V)) → P (k, v) → All P m → All P (update dec k v m)
  unfolding update
  All-update k v [] p h = (p, tt)
  All-update k v ((j, w) ∷ m) p h = elim (dec k j) [
    | yes e ↦ rw (if_pos _ e) (p, h.1)
    | no e ↦ rw (if_neg _ e) (h.0, All-update k v m p h.1)
  ]

  pub All-lookup : (k : K) (v : V) (m : List (K × V)) → All P m → lookup dec k m ≡ some v → P (k, v)
  unfolding lookup
  All-lookup k v [] h e = cc
  All-lookup k v ((j, w) ∷ m) h e = elim (dec k j) [
    | yes p ↦ subst P (pair_path p e) h.0
    | no p ↦ All-lookup k v m h.1 (rw (if_neg _ p) at e)
  ]
    where
      pair_path : k ≡ j → lookup dec k ((j, w) ∷ m) ≡ some v → ◌≡◌ {A = K × V} (j, w) (k, v)
      pair_path p e = ground arith

module _ {ℓ} {K V : Type ℓ} (dec : Discrete K) (f : V → ℕ) where
  pub sum_by-remove :
      (k : K) (v : V) (m : List (K × V))
      → Distinct dec m
      → lookup dec k m ≡ some v
      → sum_by f (remove dec k m) + f v ≡ sum_by f m
  unfolding lookup remove
  sum_by-remove k v [] d h = cc
  sum_by-remove k v ((j, w) ∷ m) d h = elim (dec k j) [
    | yes p ↦ ground (arith, remove_absent dec k m)
    | no p ↦ ground (arith, sum_by-remove k v m d.1)
  ]

  pub sum_by-update_new :
      (k : K) (v : V) (m : List (K × V))
      → lookup dec k m ≡ none
      → sum_by f (update dec k v m) ≡ sum_by f m + f v
  unfolding lookup update
  sum_by-update_new k v [] h = omega arith
  sum_by-update_new k v ((j, w) ∷ m) h = ground (arith, sum_by-update_new k v m)

  pub sum_by-update :
      (k : K) (v w : V) (m : List (K × V))
      → lookup dec k m ≡ some w
      → sum_by f (update dec k v m) + f w ≡ sum_by f m + f v
  unfolding lookup update
  sum_by-update k v w [] h = cc
  sum_by-update k v w ((j, x) ∷ m) h = elim (dec k j) [
    | yes p ↦ ground arith
    | no p ↦ ground (arith, sum_by-update k v w m)
  ]

pub ruleset map_laws = (lookup-update_self, lookup-update_ne, lookup-remove_self, lookup-remove_ne)
