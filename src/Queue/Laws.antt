-- ===== src/Queue/Laws.antt =====
-- internal/queue: jobs from Submit through a worker back to Submit, and the local run of a job.
use isobox.Prelude.{
  All, Bool, Bool-cases, Bytes, List, Option, [], arith, if◌then◌else◌, inl, inr, is_empty, none,
  refl, some, subst, true, ◌+◌, ◌∷◌, ◌≡◌, ◌≢◌,
}
use isobox.Queue.{
  RunError, other, error_text, Job, Ran, Broker, Json, envelope, res_key, wait_turn, capacity,
  local_run, no_result,
}
use isobox.Sched.Laws.{Slots}

-- The ids of the jobs differ.
abbrev pub Apart : {F : Type 0} → List (Job F) → Type 0
Apart [] = Unit
Apart (j ∷ js) = All (λ x. x.id ≢ j.id) js × Apart js

-- An error as its text carries it over the bus.
abbrev pub as_text : Option RunError → Option RunError
as_text none = none
as_text (some e) = if is_empty (error_text e) then none else some (other (error_text e))

module _ (sl : Slots) (s : sl.State) (freed : Bool) (ran : Ran) (good : sl.Good s) where
  local_run-given :
      (u : sl.State)
      → (sl.take_slot s freed).1 ≡ true
      → sl.give_slot (sl.take_slot s freed).0 ≡ some u
      → local_run sl s freed ran ≡ some (u, ran)
  unfolding local_run
  local_run-given u got given = rw (local_run, got, given) refl

  -- The local run never panics and holds as many slots after it as before; it brings the outcome
  -- of the run exactly if it was given a slot, and errCapacity otherwise.
  pub local_run-held :
      (t : sl.State) × (out : Ran) × (local_run sl s freed ran ≡ some (t, out))
      × sl.Good t
      × (sl.held t ≡ sl.held s)
      × (out ≡ (if (sl.take_slot s freed).1 then ran else (no_result, some capacity)))
  unfolding local_run
  local_run-held =
      let count = sl.take_held s freed good in
      let t = (sl.take_slot s freed).0 in
      elim (Bool-cases (sl.take_slot s freed).1) [
        | inl got ↦
            let more =
              subst (λ b. sl.held t ≡ (if b then sl.held s + 1 else sl.held s)) got count in
            let (u, given, good', fewer, same) =
              sl.give_held t (sl.take_good s freed good) (omega (arith, more)) in
            (u, ran, local_run-given u got given, good', omega (arith, more, fewer), rw got refl)
        | inr full ↦
            let same =
              subst (λ b. sl.held t ≡ (if b then sl.held s + 1 else sl.held s)) full count in
            (
              t,
              (no_result, some capacity),
              rw (local_run, full) refl,
              sl.take_good s freed good,
              same,
              rw full refl,
            )
      ]

module _ (F : Type 0) (k : Broker) (json : Json F) (ran : Job F → Ran) where
  -- What is published for a job.
  abbrev payload : Job F → Bytes
  payload j = json.marshal_env (envelope (ran j))

  -- The payloads of the jobs, in their order.
  abbrev Encoded : List (Job F) → List Bytes → Type 0
  Encoded [] ps = ps ≡ []
  Encoded (j ∷ js) [] = ⊥
  Encoded (j ∷ js) (p ∷ ps) = (json.unmarshal p ≡ some j) × Encoded js ps

  -- No result of the job is on the bus.
  abbrev pub Unanswered : k.Bus → List (Job F) → Type 0
  Unanswered b js = All (λ j. k.results b (res_key j.id) ≡ []) js

  -- The submitter of a job pops its result: the outcome of the job's run, and its error as one
  -- with the same text.
  pub Gets : k.Bus → Job F → Type 0
  Gets b j =
      (c : k.Bus) × (wait_turn F k json ran b j.id ≡ some (c, ((ran j).0, as_text (ran j).1)))
