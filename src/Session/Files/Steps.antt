-- ===== src/Session/Files/Steps.antt =====
-- internal/session/manager.go: `Exec` and the slot of the concurrency gate that it takes.
use isobox.Prelude.{
  Bool, Bool-cases, Bytes, Bytes-discrete, List, Option, ap, arith, if◌then◌else◌, inl, inr, lookup,
  none, refl, some, subst, true, ℕ, ◌+◌, ◌∙◌, ◌≡◌,
}
use isobox.Executor.{Spec, Outcome}
use isobox.Sched.Laws.{Slots}
use isobox.Session.{Manager, Session, Result, ok, err, authed, touch, capacity, Result-cases}
use isobox.Session.Files.{exec, step_spec}

module _ (sl : Slots) (F : Type 0) where
  either-sema :
      (m : Manager sl F) (left : List (Bytes × Session)) (found : Option Session)
      → (elim found as (λ x. Manager sl F) [
        | none ↦ m
        | some t ↦ record m { sessions = left }
      ]).sema
        ≡ m.sema
  either-sema m left none = refl
  either-sema m left (some t) = refl

  touch-sema : (m : Manager sl F) (s : Session) (now : ℕ) → (touch sl F m s now).sema ≡ m.sema
  unfolding touch
  touch-sema m s now = either-sema m _ (lookup Bytes-discrete s.id m.sessions)

  -- A step that has taken a slot gives it back.
  exec-taken :
      (m : Manager sl F) (run : Spec F → Result Outcome) (freed : Bool) (now : ℕ)
      (id token tenant : Bytes) (spec : Spec F) (s : Session)
      → sl.Good m.sema
      → authed sl F m id token tenant ≡ ok s
      → (sl.take_slot m.sema freed).1 ≡ true
      → (m' : Manager sl F) × (exec sl F m run freed now id token tenant spec
          ≡ some (m', run (step_spec sl F s spec)))
        × sl.Good m'.sema
        × (sl.held m'.sema ≡ sl.held m.sema)
  unfolding exec
  exec-taken m run freed now id token tenant spec s good found taken =
      let good' = sl.take_good m.sema freed good in
      let more =
        subst
          (λ b.
            sl.held (sl.take_slot m.sema freed).0
            ≡ (if b then sl.held m.sema + 1 else sl.held m.sema))
          taken (sl.take_held m.sema freed good) in
      let (t, given, good'', fewer, same) = sl.give_held _ good' (omega (arith, more)) in
      let m' = touch sl F (record m { sema = t }) s now in
      let kept = touch-sema (record m { sema = t }) s now in
      (
        m',
        rw (found, exec, taken, given) refl,
        rw kept good'',
        ap sl.held kept ∙ omega (arith, more, fewer),
      )

  -- Whatever comes of a step (it is refused, no slot comes free, the backend fails or succeeds),
  -- Exec does not panic, and as many slots of the gate are held after it as before.
  pub exec-held :
      (m : Manager sl F) (run : Spec F → Result Outcome) (freed : Bool) (now : ℕ)
      (id token tenant : Bytes) (spec : Spec F)
      → sl.Good m.sema
      → (m' : Manager sl F) × (r : Result Outcome) × (exec sl F m run freed now id token tenant spec
          ≡ some (m', r))
        × sl.Good m'.sema
        × (sl.held m'.sema ≡ sl.held m.sema)
  unfolding exec
  exec-held m run freed now id token tenant spec good =
      elim (Result-cases (authed sl F m id token tenant)) [
        | inl (e, refused) ↦ (m, err e, rw (refused, exec) refl, good, refl)
        | inr (s, found) ↦ elim (Bool-cases (sl.take_slot m.sema freed).1) [
          | inl taken ↦
              let (m', done, good', same) =
                exec-taken m run freed now id token tenant spec s good found taken in
              (m', run (step_spec sl F s spec), done, good', same)
          | inr full ↦
              let same =
                subst
                  (λ b.
                    sl.held (sl.take_slot m.sema freed).0
                    ≡ (if b then sl.held m.sema + 1 else sl.held m.sema))
                  full (sl.take_held m.sema freed good) in
              (
                record m { sema = (sl.take_slot m.sema freed).0 },
                err capacity,
                rw (found, exec, full) refl,
                sl.take_good m.sema freed good,
                same,
              )
        ]
      ]
