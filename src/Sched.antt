-- ===== src/Sched.antt =====
-- internal/sched/semaphore.go: the concurrency gate. The weighted semaphore of
-- golang.org/x/sync is a parameter with its documented behaviour; whether a blocked Acquire gets
-- a slot before its context ends is an input.
pub mod Laws
pub mod Tests
use isobox.Prelude.{
  Bool, List, Option, [], false, if◌then◌else◌, ltb, none, some, true, ℕ, ◌+◌, ◌-◌, ◌<◌, ◌∷◌, ◌≡◌,
  ◌≢◌,
}

-- `semaphore.Weighted`, as far as the limiter uses it (all weights are 1). `acquire s freed`
-- tries to take a slot at once, or waits: `freed` tells whether a slot came free before the
-- context ended. It is none where Acquire returns an error. `release` is none where Release
-- panics.
pub record Weighted : Type 1 where
  pub Sem : Type 0
  pub new_weighted : ℕ → Sem
  pub acquire_one : Sem → Bool → Option Sem
  pub release_one : Sem → Option Sem
  pub size : Sem → ℕ
  pub holders : Sem → ℕ
  pub new_size : (n : ℕ) → size (new_weighted n) ≡ n
  pub new_holders : (n : ℕ) → holders (new_weighted n) ≡ 0
  pub acquire_takes :
      (s t : Sem) (freed : Bool)
      → acquire_one s freed ≡ some t
      → (holders t ≡ holders s + 1) × (holders s < size s) × (size t ≡ size s)
  pub acquire_free : (s : Sem) (freed : Bool) → holders s < size s → acquire_one s freed ≢ none
  pub release_gives :
      (s : Sem)
      → 0 < holders s
      → (t : Sem) × (release_one s ≡ some t) × (holders t + 1 ≡ holders s) × (size t ≡ size s)
  pub release_panics : (s : Sem) → holders s ≡ 0 → release_one s ≡ none

-- A call of the limiter: an acquire, with what its wait brings, or a release.
pub data Op : Type 0 where
  acquires : Bool → Op
  releases : Op

module _ (w : Weighted) where
  open w use {Sem, new_weighted, acquire_one, release_one}

  -- `Limiter`
  pub record Limiter : Type 0 where
    pub sem : Sem
    pub max : ℕ
    pub in_use : ℕ

  -- `New`; a ceiling below 1 (a number that is not positive) becomes 1.
  pub new : ℕ → Limiter
  new max =
      let ceiling : ℕ = if ltb max 1 then 1 else max in
      record { sem = new_weighted ceiling; max = ceiling; in_use = 0 }

  -- `Acquire`: the limiter after the call and the result.
  pub acquire : Limiter → Bool → Limiter × Bool
  acquire l freed = elim (acquire_one l.sem freed) [
    | some s ↦ (record l { sem = s; in_use = l.in_use + 1 }, true)
    | none ↦ (l, false)
  ]

  -- `Release`; none where the semaphore panics. The counter is an int64 that only a release
  -- after an acquire brings down.
  pub release : Limiter → Option Limiter
  release l = elim (release_one l.sem) [
    | some s ↦ some (record l { sem = s; in_use = l.in_use - 1 })
    | none ↦ none
  ]

  -- A history of calls; none where one panics.
  pub run : Limiter → List Op → Option Limiter
  run l [] = some l
  run l (acquires freed ∷ ops) = run (acquire l freed).0 ops
  run l (releases ∷ ops) = elim (release l) [ none ↦ none | some t ↦ run t ops ]
