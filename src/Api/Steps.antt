-- ===== src/Api/Steps.antt =====
-- internal/api/sessions.go: the handlers of a session that exists, but for its files: an execution
-- step, one of a kernel, and the deletion. An error of a streamed step is an event of a response
-- that has begun, and its `done` event is the body here. `missing` tells of a failing system call
-- whether it is os.ErrNotExist.
pub mod Laws
use isobox.Prelude.{
  Bool, Bytes, Option, [], codes, false, if◌then◌else◌, inl, inr, is_empty, none, not, some, ℕ,
  ◌&&◌, ◌∷◌,
}
use isobox.Prelude.Float.{Float64}
use isobox.Executor.{Outcome, Spec}
use isobox.Sched.Laws.{Slots}
use isobox.Kernel.Exec.{done}
use isobox.Kernel.Exec.Step.{StepWorld, StepResult, ended}
use isobox.Session.{Manager, Result, ok, err, is_kernel, runtime_of}
use isobox.Session.Files.{exec}
use isobox.Session.Kernels.{kernel_exec}
use isobox.Api.Limits.{Request, spec_of_request}
use isobox.Api.Errors.{write_sess_err}
use isobox.Api.Reply.{Reply, Response, refused, sent, failure}
use isobox.Api.Sessions.{Server, put_sessions}
use isobox.Api.Gate.{req_tenant}
use isobox.Session.Teardown.{destroy_session}
use isobox.Registry.{Registry, resolve}

-- What the caller of a session names: its context, the path and the token's header.
pub record Caller : Type 0 where
  pub context : Option Bytes
  pub id : Bytes
  pub token : Bytes

-- The body of an answer to a step: its result, with the warning that the network stayed off, or
-- the error event of a stream.
pub data StepBody : Type 0 where
  finished : (network_off : Bool) → Outcome → StepBody
  error_event : StepBody

-- Whether the caller wants server-sent events, whether the connection can stream, and what the
-- backend, the container and the wait for a slot bring.
pub record StepsWorld (F : Type 0) : Type 0 where
  pub sse : Bool
  pub flusher : Bool
  pub run : Spec F → Result Outcome
  pub kernel : Bytes → ℕ → StepWorld
  pub freed : Bool
  pub now : ℕ
  pub missing : Bool

-- An answer to the errors of a step: the status, or the error event.
pub step_error : {F : Type 0} → StepsWorld F → Reply → Response StepBody
step_error w r = if w.sse then sent 200 error_event else refused r

-- What KernelExec returns: a result, or an error of the engine.
pub kernel_answer : {F : Type 0} → StepsWorld F → StepResult → Response StepBody
unfolding step_error
kernel_answer w (ended (done o)) = sent 200 (finished false o)
kernel_answer w _ = step_error w (failure 500 (codes "internal"))

module _ (sl : Slots) (F : Type 0) where
  after_kernel_exec :
      Server sl F
      → StepsWorld F
      → Option (Manager sl F × Result StepResult)
      → Option (Server sl F × Response StepBody)
  unfolding kernel_answer step_error
  after_kernel_exec sv w none = none
  after_kernel_exec sv w (some (m, ok r)) = some (put_sessions sl F sv m, kernel_answer w r)
  after_kernel_exec sv w (some (m, err e)) =
      some (put_sessions sl F sv m, step_error w (write_sess_err w.missing e))

  -- The code of a kernel step: `code`, else the first file.
  abbrev step_code : Request F → Bytes
  step_code req =
      if is_empty req.code then elim req.files [ [] ↦ [] | f ∷ _ ↦ f.content ] else req.code

  -- The wall time of the request's limits, 0 where it has none.
  abbrev step_ms : Request F → ℕ
  step_ms req = elim req.limits [
    | none ↦ 0
    | some o ↦ elim o.wall_time_ms [ none ↦ 0 | some n ↦ n ]
  ]

  -- `handleKernelExec`
  pub handle_kernel_exec :
      Server sl F
      → StepsWorld F
      → Bytes
      → Bytes
      → Bytes
      → Request F
      → Option (Server sl F × Response StepBody)
  unfolding after_kernel_exec
  handle_kernel_exec sv w id token tenant req =
      if is_empty (step_code req)
      then some (sv, refused (failure 400 (codes "no_source")))
      else if w.sse && not w.flusher
      then some (sv, refused (failure 500 (codes "streaming_unsupported")))
      else after_kernel_exec sv w (
          kernel_exec sl F sv.sessions w.kernel w.now id token tenant (step_code req) (step_ms req))

  after_exec :
      Server sl F
      → StepsWorld F
      → Spec F
      → Option (Manager sl F × Result Outcome)
      → Option (Server sl F × Response StepBody)
  unfolding step_error
  after_exec sv w spec none = none
  after_exec sv w spec (some (m, ok o)) =
      some (put_sessions sl F sv m, sent 200 (finished (spec.network && not o.network) o))
  after_exec sv w spec (some (m, err e)) =
      some (put_sessions sl F sv m, step_error w (write_sess_err w.missing e))

  -- The step of a filesystem session, once its spec is built.
  run_spec :
      Server sl F
      → StepsWorld F
      → Bytes
      → Bytes
      → Bytes
      → Option (Spec F)
      → Option (Server sl F × Response StepBody)
  unfolding after_exec
  run_spec sv w id token tenant none = some (sv, refused (failure 400 (codes "no_source")))
  run_spec sv w id token tenant (some spec) =
      if w.sse && not w.flusher
      then some (sv, refused (failure 500 (codes "streaming_unsupported")))
      else after_exec sv w spec (exec sl F sv.sessions w.run w.freed w.now id token tenant spec)

  -- The step of a filesystem session, in its own runtime.
  in_runtime :
      Float64 F
      → (Bytes → F)
      → Registry
      → Server sl F
      → StepsWorld F
      → Bytes
      → Bytes
      → Bytes
      → Request F
      → Result Bytes
      → Option (Server sl F × Response StepBody)
  unfolding run_spec
  in_runtime fl parse reg sv w id token tenant req (err e) =
      some (sv, refused (write_sess_err w.missing e))
  in_runtime fl parse reg sv w id token tenant req (ok runtime) = elim (resolve reg runtime []) [
    | none ↦ some (sv, refused (failure 500 (codes "runtime_gone")))
    | some lang ↦ run_spec sv w id token tenant (spec_of_request fl parse lang req)
  ]

  -- Behind the gate, with the answer of IsKernel.
  route_exec :
      Float64 F
      → (Bytes → F)
      → Registry
      → Server sl F
      → StepsWorld F
      → Caller
      → Bytes
      → Option (Request F)
      → Result Bool
      → Option (Server sl F × Response StepBody)
  unfolding in_runtime handle_kernel_exec
  route_exec fl parse reg sv w c tenant body (err e) =
      some (sv, refused (write_sess_err w.missing e))
  route_exec fl parse reg sv w c tenant none (ok k) =
      some (sv, refused (failure 400 (codes "invalid_json")))
  route_exec fl parse reg sv w c tenant (some req) (ok k) =
      if k
      then handle_kernel_exec sv w c.id c.token tenant req
      else in_runtime fl parse reg sv w c.id c.token tenant req
          (runtime_of sl F sv.sessions c.id c.token tenant)

  -- `handleSessionExec`; a body that does not decode is none.
  pub handle_session_exec :
      Float64 F
      → (Bytes → F)
      → Registry
      → Server sl F
      → StepsWorld F
      → Caller
      → Option (Request F)
      → Option (Server sl F × Response StepBody)
  unfolding route_exec
  handle_session_exec fl parse reg sv w c body = elim (req_tenant c.context) [
    | inl r ↦ some (sv, refused r)
    | inr tenant ↦
        route_exec fl parse reg sv w c tenant body (is_kernel sl F sv.sessions c.id c.token tenant)
  ]

  after_destroy :
      Server sl F
      → Option (Manager sl F × Result (Unit {0}))
      → Option (Server sl F × Response (Unit {0}))
  after_destroy sv none = none
  after_destroy sv (some (m, ok _)) = some (put_sessions sl F sv m, sent 204 tt)
  after_destroy sv (some (m, err e)) =
      some (put_sessions sl F sv m, refused (write_sess_err false e))

  -- `handleDestroySession`; `cleared` is what the removal of the directory answers.
  pub handle_destroy_session :
      Server sl F → Result (Unit {0}) → Caller → Option (Server sl F × Response (Unit {0}))
  unfolding after_destroy
  handle_destroy_session sv cleared c = elim (req_tenant c.context) [
    | inl r ↦ some (sv, refused r)
    | inr tenant ↦ after_destroy sv (destroy_session sl F sv.sessions cleared c.id c.token tenant)
  ]
