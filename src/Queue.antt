-- ===== src/Queue.antt =====
-- internal/queue: the job bus, and the local run of a job (internal/api/metrics.go, localRunner).
-- The stream of the broker (Valkey) is a parameter with the documented behaviour of its commands,
-- and encoding/json two pairs of functions. What the run of a job on its host brings is an input.
pub mod Laws
mod Tests
use isobox.Prelude.{
  Bool, Bytes, List, Option, [], codes, false, if◌then◌else◌, inl, inr, is_empty, none, some, suc,
  zero, ℕ, ◌++◌, ◌∷◌, ◌≡◌, ◌≢◌, ◌⊎◌,
}
use isobox.Executor.{Spec, Outcome}
use isobox.Sched.Laws.{Slots}

-- `Job`
pub record Job (F : Type 0) : Type 0 where
  pub id : Bytes
  pub language : Bytes
  pub version : Bytes
  pub spec : Spec F

-- An error of Submit: errCapacity itself, or another with its text.
pub data RunError : Type 0 where
  capacity : RunError
  other : Bytes → RunError

-- What Submit and Run return.
abbrev pub Ran : Type 0
Ran = Outcome × Option RunError

-- `resultEnvelope`
pub record Envelope : Type 0 where
  pub result : Outcome
  pub err : Bytes

-- The stream, its group of workers, and the lists of results. `waiting` are the payloads that no
-- worker was given, in order. read_group is none where it times out; auto_claim gives what other
-- workers were given and have not acknowledged in time; publish is the pipeline of RPUSH and
-- EXPIRE, and none where it fails; pop_result is none where BLPOP times out.
pub record Broker : Type 1 where
  pub Bus : Type 0
  pub add : Bus → Bytes → Option Bus
  pub read_group : Bus → Option (Bus × Bytes × Bytes)
  pub ack : Bus → Bytes → Bus
  pub auto_claim : Bus → Option (Bus × List (Bytes × Bytes))
  pub publish : Bus → Bytes → Bytes → Option Bus
  pub pop_result : Bus → Bytes → Option (Bus × Bytes)
  pub waiting : Bus → List Bytes
  pub results : Bus → Bytes → List Bytes
  pub waiting-add : (b c : Bus) (p : Bytes) → add b p ≡ some c → waiting c ≡ waiting b ++ (p ∷ [])
  pub results-add : (b c : Bus) (p k : Bytes) → add b p ≡ some c → results c k ≡ results b k
  pub read_group-next :
      (b : Bus) (p : Bytes) (ps : List Bytes)
      → waiting b ≡ p ∷ ps
      → (c : Bus) × (i : Bytes) × (read_group b ≡ some (c, i, p))
        × (waiting c ≡ ps)
        × ((k : Bytes) → results c k ≡ results b k)
  pub waiting-ack : (b : Bus) (i : Bytes) → waiting (ack b i) ≡ waiting b
  pub results-ack : (b : Bus) (i k : Bytes) → results (ack b i) k ≡ results b k
  pub waiting-publish : (b c : Bus) (k v : Bytes) → publish b k v ≡ some c → waiting c ≡ waiting b
  pub results-publish_self :
      (b c : Bus) (k v : Bytes) → publish b k v ≡ some c → results c k ≡ results b k ++ (v ∷ [])
  pub results-publish_ne :
      (b c : Bus) (k v q : Bytes) → publish b k v ≡ some c → q ≢ k → results c q ≡ results b q
  pub pop_result-first :
      (b : Bus) (k v : Bytes) (vs : List Bytes)
      → results b k ≡ v ∷ vs
      → (c : Bus) × (pop_result b k ≡ some (c, v))

-- The JSON of a job and of an envelope. A text that is not UTF-8 does not come back as it was:
-- `IsText` and `IsPlain` are the jobs and the envelopes whose texts are UTF-8.
pub record Json (F : Type 0) : Type 1 where
  pub marshal : Job F → Option Bytes
  pub unmarshal : Bytes → Option (Job F)
  pub marshal_env : Envelope → Bytes
  pub unmarshal_env : Bytes → Option Envelope
  pub IsText : Job F → Type 0
  pub IsPlain : Envelope → Type 0
  pub unmarshal-marshal :
      (j : Job F) (p : Bytes) → IsText j → marshal j ≡ some p → unmarshal p ≡ some j
  pub unmarshal-marshal_env : (e : Envelope) → IsPlain e → unmarshal_env (marshal_env e) ≡ some e

abbrev pub no_result : Outcome
no_result = record {
  stdout = [];
  stderr = [];
  exit_code = 0;
  timed_out = false;
  oom_killed = false;
  truncated = false;
  duration_ms = 0;
  compile_output = [];
  network = false;
}

-- localRunner.Run: a slot, the run on this host, the slot back. `freed` tells whether a slot came
-- free in time; none where the release panics.
pub local_run : (sl : Slots) → sl.State → Bool → Ran → Option (sl.State × Ran)
local_run sl s freed ran =
    let (t, got) = sl.take_slot s freed in
    if got
    then elim (sl.give_slot t) [ none ↦ none | some u ↦ some (u, ran) ]
    else some (t, (no_result, some capacity))

-- InProc.Submit, of what the local run brings.
pub in_proc_submit : Ran → Ran
in_proc_submit ran = ran

-- The text of an error.
pub error_text : RunError → Bytes
error_text capacity = codes "no free execution slot"
error_text (other text) = text

-- The key of a job's result.
pub res_key : Bytes → Bytes
res_key id = codes "isobox:res:" ++ id

-- The envelope of a run.
pub envelope : Ran → Envelope
unfolding error_text
envelope (res, none) = record { result = res; err = [] }
envelope (res, some e) = record { result = res; err = error_text e }

-- What Submit makes of an envelope.
pub opened : Envelope → Ran
opened e = if is_empty e.err then (e.result, none) else (e.result, some (other e.err))

module _ (F : Type 0) (k : Broker) (json : Json F) (ran : Job F → Ran) where
  -- `process`: the message is acknowledged on every path.
  pub process : k.Bus → Bytes × Bytes → k.Bus
  unfolding res_key envelope
  process bus (i, raw) = elim (json.unmarshal raw) [
    | none ↦ k.ack bus i
    | some j ↦ elim (k.publish bus (res_key j.id) (json.marshal_env (envelope (ran j)))) [
      | none ↦ k.ack bus i
      | some published ↦ k.ack published i
    ]
  ]

  -- One turn of the loop of `worker`.
  pub work : k.Bus → k.Bus
  unfolding process
  work bus = elim (k.read_group bus) [ none ↦ bus | some (given, i, raw) ↦ process given (i, raw) ]

  -- So many turns.
  pub work_all : ℕ → k.Bus → k.Bus
  work_all zero bus = bus
  work_all (suc n) bus = work_all n (work bus)

  process_all : k.Bus → List (Bytes × Bytes) → k.Bus
  process_all bus [] = bus
  process_all bus (m ∷ ms) = process_all (process bus m) ms

  -- One tick of `reaper`.
  pub reap : k.Bus → k.Bus
  unfolding process_all
  reap bus = elim (k.auto_claim bus) [ none ↦ bus | some (claimed, ms) ↦ process_all claimed ms ]

  -- Submit, up to the wait: the bus with the job, or the error, with its text before the cause.
  pub enqueue : k.Bus → Job F → RunError ⊎ k.Bus
  enqueue bus j = elim (json.marshal j) [
    | none ↦ inl (other (codes "marshal job"))
    | some payload ↦ elim (k.add bus payload) [
      | none ↦ inl (other (codes "xadd"))
      | some added ↦ inr added
    ]
  ]

  -- The submits of several callers, one after the other.
  pub enqueue_all : k.Bus → List (Job F) → RunError ⊎ k.Bus
  unfolding enqueue
  enqueue_all bus [] = inr bus
  enqueue_all bus (j ∷ js) = elim (enqueue bus j) [
    | inl e ↦ inl e
    | inr added ↦ enqueue_all added js
  ]

  -- What Submit makes of the bytes that it popped.
  pub received : Bytes → Ran
  unfolding opened
  received v = elim (json.unmarshal_env v) [
    | none ↦ (no_result, some (other (codes "unmarshal result")))
    | some e ↦ opened e
  ]

  -- One turn of the wait of Submit: none where it goes round again.
  pub wait_turn : k.Bus → Bytes → Option (k.Bus × Ran)
  unfolding received res_key
  wait_turn bus id = elim (k.pop_result bus (res_key id)) [
    | none ↦ none
    | some (popped, v) ↦ some (popped, received v)
  ]
