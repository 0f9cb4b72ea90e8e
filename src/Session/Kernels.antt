-- ===== src/Session/Kernels.antt =====
-- internal/session/manager.go: `Get`, `KernelExec` and `MintID`.
use isobox.Prelude.{Bytes, Option, codes, none, some, ℕ, ◌++◌}
use isobox.Sched.Laws.{Slots}
use isobox.Kernel.{Engine, step_deadline}
use isobox.Kernel.Exec.Step.{StepWorld, StepResult, exec_step}
use isobox.Session.{Manager, Session, Result, ok, err, authed, touch, wrong_type, ◌>>=◌}

-- `MintID`, from a new UUID.
abbrev pub mint_id : Bytes → Bytes
mint_id uuid = codes "sess_" ++ uuid

-- `Info`
pub record Info : Type 0 where
  pub id : Bytes
  pub runtime : Bytes
  pub kind : Bytes
  pub created_at : ℕ
  pub disk_bytes : ℕ

module _ (sl : Slots) (F : Type 0) where
  -- `Get`; `du` is dirSize.
  pub get_info : Manager sl F → (Bytes → ℕ) → Bytes → Bytes → Bytes → Result Info
  get_info m du id token tenant = do
    s ← authed sl F m id token tenant
    ok (record {
      id = s.id;
      runtime = s.runtime;
      kind = s.kind;
      created_at = s.created_at;
      disk_bytes = du s.workspace;
    })

  -- The step of KernelExec in the engine; none where there is no engine behind the pointer.
  pub run_kernel :
      Manager sl F
      → Option (Engine sl F)
      → (Bytes → ℕ → StepWorld)
      → Session
      → Bytes
      → Bytes
      → ℕ
      → Option (Manager sl F × StepResult)
  run_kernel m none run s container code step_ms = none
  run_kernel m (some e) run s container code step_ms =
      let (e', r) = exec_step sl F e s.id container (run code (step_deadline e.cfg step_ms)) in
      some (record m { kernels = some e' }, r)

  -- `KernelExec`; `run` is what the container does with a code and a deadline.
  pub kernel_exec :
      Manager sl F
      → (Bytes → ℕ → StepWorld)
      → ℕ
      → Bytes
      → Bytes
      → Bytes
      → Bytes
      → ℕ
      → Option (Manager sl F × Result StepResult)
  unfolding run_kernel
  kernel_exec m run now id token tenant code step_ms = elim (authed sl F m id token tenant) [
    | err e ↦ some (m, err e)
    | ok s ↦ elim s.kernel [
      | none ↦ some (m, err wrong_type)
      | some container ↦ elim (run_kernel m m.kernels run s container code step_ms) [
        | none ↦ none
        | some (m', r) ↦ some (touch sl F m' s now, ok r)
      ]
    ]
  ]
