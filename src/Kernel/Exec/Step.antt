-- ===== src/Kernel/Exec/Step.antt =====
-- internal/session/kernel.go: `Exec`, around the read loop of its parent module, and the life of
-- a kernel until then: `NewKernel`, `awaitReady`, `NewKernelEngine`, `sweepOrphanKernels`.
use isobox.Prelude.{
  Bool, Bytes, Bytes-discrete, List, Option, [], codes, false, if◌then◌else◌, is_empty, lookup,
  none, not, some, true, update, ℕ, ◌||◌, ◌∷◌,
}
use isobox.Prelude.Float.{Float64}
use isobox.Sched.Laws.{Slots}
use isobox.Kernel.{Engine, Kernel, KernelConfig, apply_defaults, enter}
use isobox.Kernel.Exec.{Ending, Line, Frame, read_frames, new_progress}
use isobox.Strings.{str_eq}

-- What a step comes to: it is not run, its frame cannot be written, or the read loop ends.
pub data StepResult : Type 0 where
  kernel_dead unwritten : StepResult
  ended : Ending → StepResult

-- The id that is minted for a step, whether its frame is written, and what the container writes.
pub record StepWorld : Type 0 where
  pub step : Bytes
  pub written : Bool
  pub lines : List Line
  pub timed_out : Bool
  pub elapsed_ms : ℕ
  pub now : ℕ

-- `k.markDead()`
abbrev mark_dead : Kernel → Kernel
mark_dead k = record k { dead = true }

-- `Exec` on one kernel, which it leaves dead or touched.
pub exec_kernel : {F : Type 0} → KernelConfig F → Kernel → StepWorld → Kernel × StepResult
unfolding read_frames
exec_kernel cfg k w =
    let (p, e, dies) =
      read_frames w.step (new_progress cfg.output_bytes) w.lines w.timed_out w.elapsed_ms in
    if k.dead
    then (k, kernel_dead)
    else if not w.written
    then (mark_dead k, unwritten)
    else (if dies then mark_dead k else record k { last_used = w.now }, ended e)

-- `awaitReady`: the first line before the timer; none for the timeout.
pub is_ready : Option (Option Frame) → Bool
is_ready none = false
is_ready (some none) = false
is_ready (some (some f)) = str_eq f.kind (codes "ready")

-- What docker answers during a NewKernel: whether `run` succeeds, the two pipes and the start of
-- the attach, the first line, and the time.
pub record StartWorld : Type 0 where
  pub run_ok : Bool
  pub attached : Bool
  pub banner : Option (Option Frame)
  pub now : ℕ

module _ (sl : Slots) (F : Type 0) where
  -- `NewKernel`: the engine, the container that a failure removes, and the kernel.
  pub new_kernel :
      Engine sl F → Bytes → Bytes → Bytes → StartWorld → Engine sl F × List Bytes × Option Kernel
  unfolding is_ready
  new_kernel e name id image w =
      let k : Kernel = record {
        id = id;
        container = name;
        image = image;
        created_at = w.now;
        last_used = w.now;
        dead = false;
      } in
      if not w.run_ok
      then (e, [], none)
      else if not w.attached || not (is_ready w.banner)
      then (e, name ∷ [], none)
      else (enter sl F e k, [], some k)

  -- The kernel of a session's pointer, after every removal from the map has marked it dead.
  pub find_kernel : Engine sl F → Bytes → Bytes → Option Kernel
  find_kernel e id container = elim (lookup Bytes-discrete id e.kernels) [
    | none ↦ none
    | some k ↦ if str_eq k.container container then some k else none
  ]

  -- `Exec` through the session's pointer.
  pub exec_step : Engine sl F → Bytes → Bytes → StepWorld → Engine sl F × StepResult
  unfolding find_kernel exec_kernel
  exec_step e id container w = elim (find_kernel e id container) [
    | none ↦ (e, kernel_dead)
    | some k ↦
        let (k', r) = exec_kernel e.cfg k w in
        (record e { kernels = update Bytes-discrete id k' e.kernels }, r)
  ]

  -- `NewKernelEngine` with its call of sched.New; none for another backend than gVisor.
  pub new_engine : Float64 F → (ℕ → sl.State) → Bool → KernelConfig F → Option (Engine sl F)
  new_engine fl new_slots is_gvisor cfg =
      let filled = apply_defaults fl cfg in
      if is_gvisor
      then some (record { cfg = filled; slots = new_slots filled.slots; kernels = [] })
      else none

-- `sweepOrphanKernels`: the arguments of the removal, from the ids that docker lists.
pub sweep_orphan_kernels : Option (List Bytes) → Option (List Bytes)
sweep_orphan_kernels none = none
sweep_orphan_kernels (some ids) =
    if is_empty ids then none else some (codes "rm" ∷ codes "-f" ∷ ids)
