-- ===== src/Sched/Laws.antt =====
-- The limiter as a pool of slots: what its clients rely on.
use isobox.Prelude.{
  Bool, Option, Option-cases, arith, if◌then◌else◌, inl, inr, ltb, none, refl, some, ℕ, ◌+◌, ◌-◌,
  ◌<◌, ◌∙◌, ◌≡◌, ◌≤◌,
}
use isobox.Sched.{Weighted, Limiter, new, acquire, release}

-- What a client sees of a limiter.
pub record Slots : Type 1 where
  pub State : Type 0
  pub take_slot : State → Bool → State × Bool
  pub give_slot : State → Option State
  pub held : State → ℕ
  pub ceiling : State → ℕ
  pub Good : State → Type 0
  pub good_bound : (s : State) → Good s → held s ≤ ceiling s
  pub take_good : (s : State) (freed : Bool) → Good s → Good (take_slot s freed).0
  pub take_held :
      (s : State) (freed : Bool)
      → Good s
      → held (take_slot s freed).0 ≡ (if (take_slot s freed).1 then held s + 1 else held s)
  pub take_ceiling : (s : State) (freed : Bool) → Good s → ceiling (take_slot s freed).0 ≡ ceiling s
  pub give_held :
      (s : State)
      → Good s
      → 0 < held s
      → (t : State) × (give_slot s ≡ some t)
        × Good t
        × (held t + 1 ≡ held s)
        × (ceiling t ≡ ceiling s)

module _ (w : Weighted) where
  -- The gauge agrees with the semaphore, whose size is the ceiling.
  pub record IsSound (l : Limiter w) : Type 0 where
    pub gauge : l.in_use ≡ w.holders l.sem
    pub sized : w.size l.sem ≡ l.max
    pub bounded : l.in_use ≤ l.max
    pub positive : 0 < l.max

  pub new-IsSound : (n : ℕ) → IsSound (new w n)
  unfolding new
  new-IsSound n =
      let ceiling : ℕ = if ltb n 1 then 1 else n in
      record {
        gauge = omega (arith, w.new_holders ceiling);
        sized = w.new_size ceiling;
        bounded = omega arith;
        positive = ground arith;
      }

  acquired-IsSound :
      (l : Limiter w) (freed : Bool) (s : w.Sem)
      → w.acquire_one l.sem freed ≡ some s
      → IsSound l
      → IsSound (record l { sem = s; in_use = l.in_use + 1 })
  acquired-IsSound l freed s e v =
      let (more, room, same) = w.acquire_takes l.sem s freed e in
      record {
        gauge = omega arith;
        sized = same ∙ v.sized;
        bounded = omega arith;
        positive = v.positive;
      }

  pub acquire-IsSound : (l : Limiter w) (freed : Bool) → IsSound l → IsSound (acquire w l freed).0
  unfolding acquire
  acquire-IsSound l freed v = elim (Option-cases (w.acquire_one l.sem freed)) [
    | inl e ↦ rw (e, acquire) v
    | inr (s, e) ↦ rw (e, acquire) (acquired-IsSound l freed s e v)
  ]

  pub acquire-in_use :
      (l : Limiter w) (freed : Bool)
      → ((acquire w l freed).0.in_use ≡ (if (acquire w l freed).1 then l.in_use + 1 else l.in_use))
        × ((acquire w l freed).0.max ≡ l.max)
  unfolding acquire
  acquire-in_use l freed = ground arith

  release-some :
      (l : Limiter w) (s : w.Sem)
      → w.release_one l.sem ≡ some s
      → release w l ≡ some (record l { sem = s; in_use = l.in_use - 1 })
  unfolding release
  release-some l s e = rw (e, release)

  -- While a slot is held, Release gives exactly one back and does not panic.
  pub release-IsSound :
      (l : Limiter w)
      → IsSound l
      → 0 < l.in_use
      → (t : Limiter w) × (release w l ≡ some t)
        × IsSound t
        × (t.in_use + 1 ≡ l.in_use)
        × (t.max ≡ l.max)
  release-IsSound l v h =
      let (s, e, fewer, same) = w.release_gives l.sem (omega arith) in
      (
        record l { sem = s; in_use = l.in_use - 1 },
        release-some l s e,
        record {
          gauge = omega arith;
          sized = same ∙ v.sized;
          bounded = omega arith;
          positive = v.positive;
        },
        omega arith,
        refl,
      )

  pub release_panics : (l : Limiter w) → IsSound l → l.in_use ≡ 0 → release w l ≡ none
  unfolding release
  release_panics l v h = rw (w.release_panics l.sem (omega arith), release)

  -- The limiter is such a pool.
  abbrev pub limiter_slots : Slots
  limiter_slots = record {
    State = Limiter w;
    take_slot = acquire w;
    give_slot = release w;
    held = λ l. l.in_use;
    ceiling = λ l. l.max;
    Good = IsSound;
    good_bound = λ l v. v.bounded;
    take_good = acquire-IsSound;
    take_held = λ l freed v. (acquire-in_use l freed).0;
    take_ceiling = λ l freed v. (acquire-in_use l freed).1;
    give_held = release-IsSound;
  }
