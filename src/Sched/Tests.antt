-- ===== src/Sched/Tests.antt =====
-- A counting semaphore, and runs of the limiter over it.
use isobox.Prelude.{
  Bool, List, Option, [], arith, false, if◌then◌else◌, ltb, none, refl, some, ℕ, ◌+◌, ◌-◌, ◌<◌, ◌∷◌,
  ◌≡◌, ◌≢◌,
}
use isobox.Sched.{Weighted, Op, acquires, releases}

-- The number of holders over a fixed size.
pub record Counting : Type 0 where
  pub size : ℕ
  pub holders : ℕ

abbrev pub take_one : Counting → Option Counting
take_one c = if ltb c.holders c.size then some (record c { holders = c.holders + 1 }) else none

abbrev pub give_one : Counting → Option Counting
give_one c = if ltb 0 c.holders then some (record c { holders = c.holders - 1 }) else none

pub take_one_takes :
    (s t : Counting) (freed : Bool)
    → take_one s ≡ some t
    → (t.holders ≡ s.holders + 1) × (s.holders < s.size) × (t.size ≡ s.size)
take_one_takes s t freed h = ground arith

pub take_one_free : (s : Counting) (freed : Bool) → s.holders < s.size → take_one s ≢ none
take_one_free s freed h = ground arith

pub give_one_gives :
    (s : Counting)
    → 0 < s.holders
    → (t : Counting) × (give_one s ≡ some t) × (t.holders + 1 ≡ s.holders) × (t.size ≡ s.size)
give_one_gives s h = (record s { holders = s.holders - 1 }, ground arith, omega arith, refl)

pub give_one_panics : (s : Counting) → s.holders ≡ 0 → give_one s ≡ none
give_one_panics s h = ground arith

abbrev pub counting : Weighted
counting = record {
  Sem = Counting;
  new_weighted = λ n. record { size = n; holders = 0 };
  acquire_one = λ s freed. take_one s;
  release_one = give_one;
  size = λ s. s.size;
  holders = λ s. s.holders;
  new_size = λ n. refl;
  new_holders = λ n. refl;
  acquire_takes = take_one_takes;
  acquire_free = take_one_free;
  release_gives = give_one_gives;
  release_panics = give_one_panics;
}

abbrev busy : List Op
busy = acquires false ∷ acquires false ∷ acquires false ∷ releases ∷ []
