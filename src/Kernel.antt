-- ===== src/Kernel.antt =====
-- internal/session/kernel.go: the engine that owns the long-lived kernel containers, its
-- configuration and its bookkeeping. A time is a number of nanoseconds; a duration that is not
-- positive is 0 here. A kernel's `dead` flag is the atomic of the source, and what docker is told
-- is a list of commands.
pub mod Laws
pub mod Exec
use isobox.Prelude.{
  Bool, Bytes, Bytes-discrete, List, [], if◌then◌else◌, length, lookup, ltb, map, none, remove,
  select, some, update, ℕ, ◌*◌, ◌-◌, ◌==◌, ◌^◌, ◌||◌, ◌∷◌,
}
use isobox.Prelude.Float.{Float64}
use isobox.Sched.Laws.{Slots}

-- `KernelConfig`; the zero value of a field asks for its default.
pub record KernelConfig (F : Type 0) : Type 0 where
  pub slots : ℕ
  pub memory_bytes : ℕ
  pub cpus : F
  pub pids : ℕ
  pub output_bytes : ℕ
  pub start_timeout : ℕ
  pub default_step_ms : ℕ
  pub max_step_ms : ℕ
  pub idle_ttl : ℕ
  pub max_lifetime : ℕ
  pub acquire_wait : ℕ

abbrev pub second : ℕ
second = 1_000_000_000

abbrev pub minute : ℕ
minute = 60 * second

abbrev pub hour : ℕ
hour = 60 * minute

-- The value, or the default where the value is 0.
abbrev pub default : ℕ → ℕ → ℕ
default v d = if v == 0 then d else v

-- `applyDefaults`
pub apply_defaults : {F : Type 0} → Float64 F → KernelConfig F → KernelConfig F
apply_defaults fl c = record {
  slots = default c.slots 6;
  memory_bytes = default c.memory_bytes (128 * 2 ^ 20);
  cpus = if fl.le c.cpus fl.zero then fl.one else c.cpus;
  pids = default c.pids 128;
  output_bytes = default c.output_bytes (64 * 2 ^ 10);
  start_timeout = default c.start_timeout (30 * second);
  default_step_ms = default c.default_step_ms 20_000;
  max_step_ms = default c.max_step_ms 60_000;
  idle_ttl = default c.idle_ttl (30 * minute);
  max_lifetime = default c.max_lifetime (4 * hour);
  acquire_wait = default c.acquire_wait (2 * second);
}

-- `kernel`: one resident container.
pub record Kernel : Type 0 where
  pub id : Bytes
  pub container : Bytes
  pub image : Bytes
  pub created_at : ℕ
  pub last_used : ℕ
  pub dead : Bool

-- The per-step deadline of Exec in milliseconds: the default for a value that is not positive,
-- then at most the ceiling, then at least one second.
pub step_deadline : {F : Type 0} → KernelConfig F → ℕ → ℕ
step_deadline cfg step_ms =
    let wanted : ℕ = if step_ms == 0 then cfg.default_step_ms else step_ms in
    let capped : ℕ = if ltb cfg.max_step_ms wanted then cfg.max_step_ms else wanted in
    if ltb capped 1000 then 1000 else capped

module _ (sl : Slots) (F : Type 0) where
  -- `KernelEngine`
  pub record Engine : Type 0 where
    pub cfg : KernelConfig F
    pub slots : sl.State
    pub kernels : List (Bytes × Kernel)

  -- The end of `NewKernel`: the ready kernel is entered under its session's id.
  pub enter : Engine → Kernel → Engine
  enter e k = record e { kernels = update Bytes-discrete k.id k e.kernels }

  -- `Destroy`: the engine, and the container that is removed.
  pub destroy : Engine → Bytes → Engine × List Bytes
  destroy e id = elim (lookup Bytes-discrete id e.kernels) [
    | none ↦ (e, [])
    | some k ↦ (record e { kernels = remove Bytes-discrete id e.kernels }, k.container ∷ [])
  ]

  -- The test of `Reap`: dead, idle past the limit or too old.
  pub is_doomed : KernelConfig F → ℕ → Kernel → Bool
  is_doomed cfg now k =
      k.dead || (ltb cfg.idle_ttl (now - k.last_used) || ltb cfg.max_lifetime (now - k.created_at))

  -- `delete(e.kernels, k.id)` for each kernel of the list.
  pub delete_all : List Kernel → List (Bytes × Kernel) → List (Bytes × Kernel)
  delete_all [] m = m
  delete_all (k ∷ ks) m = delete_all ks (remove Bytes-discrete k.id m)

  -- `Reap`: the engine, the containers that are removed and the ids that are returned.
  pub reap : Engine → ℕ → Engine × List Bytes × List Bytes
  reap e now =
      let snap = map (λ (p : Bytes × Kernel). p.1) e.kernels in
      let doomed = select (is_doomed e.cfg now) snap in
      (
        record e { kernels = delete_all doomed e.kernels },
        map (λ (k : Kernel). k.container) doomed,
        map (λ (k : Kernel). k.id) doomed,
      )

  -- `Count`
  pub count : Engine → ℕ
  count e = length e.kernels

  -- `DestroyAll`: the engine and the containers that are removed.
  pub destroy_all : Engine → Engine × List Bytes
  destroy_all e = (record e { kernels = [] }, map (λ (p : Bytes × Kernel). p.1.container) e.kernels)
