-- ===== src/Executor/WarmPool.antt =====
-- internal/executor/warmpool.go: the pool of pre-booted containers. What docker answers (the name
-- of a booted container, or none where the boot fails) and the outcome of a job are inputs. The
-- commands that boot and remove are the log, the last one first.
pub mod Laws
mod Tests
use isobox.Prelude.{
  Bool, Bytes, List, Option, [], codes, false, if◌then◌else◌, is_empty, length, ltb, none, not,
  some, true, ℕ, ◌&&◌, ◌*◌, ◌==◌, ◌^◌, ◌||◌, ◌∷◌,
}
use isobox.Executor.{Spec, Outcome}
use isobox.Prelude.Float.{Float64}
use isobox.Kernel.{default}
use isobox.Strings.{str_eq, contains_text}

-- What the pool did to containers: `ran` is one job's exec into a container.
pub data Event : Type 0 where
  booted ran removed : Bytes → Event

-- `WarmPoolConfig`
pub record PoolConfig (F : Type 0) : Type 0 where
  pub size : ℕ
  pub image : Bytes
  pub mem_bytes : ℕ
  pub cpus : F
  pub pids : ℕ
  pub scratch_mb : ℕ
  pub job_root : Bytes

-- The defaults of NewWarmPool; `one_point_five` is the default of the CPUs.
pub with_defaults : {F : Type 0} → Float64 F → F → PoolConfig F → PoolConfig F
with_defaults fl one_point_five c = record {
  size = c.size;
  image = c.image;
  mem_bytes = default c.mem_bytes (384 * 2 ^ 20);
  cpus = if fl.le c.cpus fl.zero then one_point_five else c.cpus;
  pids = default c.pids 128;
  scratch_mb = default c.scratch_mb 64;
  job_root = c.job_root;
}

-- What a job comes to inside a container.
pub data Attempt : Type 0 where
  start_failed : Attempt
  finished : Option Outcome → Attempt

module _ (F : Type 0) where
  -- `WarmPool`; the last container of `ready` is the first of this list.
  pub record WarmPool : Type 0 where
    pub config : PoolConfig F
    pub ready : List Bytes
    pub closed : Bool
    pub log : List Event

  -- `NewWarmPool`
  pub new_warm_pool : Float64 F → F → PoolConfig F → WarmPool
  unfolding with_defaults
  new_warm_pool fl one_point_five c = record {
    config = with_defaults fl one_point_five c;
    ready = [];
    closed = false;
    log = [];
  }

  -- `Enabled`
  pub enabled : WarmPool → Bool
  enabled p = ltb 0 p.config.size

  -- `Ready`
  pub ready_count : WarmPool → ℕ
  ready_count p = length p.ready

  -- A booted container enters the pool.
  pub add_ready : WarmPool → Bytes → WarmPool
  add_ready p name = record p { ready = name ∷ p.ready; log = booted name ∷ p.log }

  -- The loop of Prime; a boot that fails is passed over.
  pub boot_all : WarmPool → List (Option Bytes) → WarmPool
  unfolding add_ready
  boot_all p [] = p
  boot_all p (none ∷ boots) = boot_all p boots
  boot_all p (some name ∷ boots) = boot_all (add_ready p name) boots

  -- `Prime`, with one boot for each place of the pool.
  pub prime : WarmPool → List (Option Bytes) → WarmPool
  unfolding boot_all enabled
  prime p boots = if enabled p then boot_all p boots else p

  removals : List Bytes → List Event → List Event
  removals [] log = log
  removals (n ∷ ns) log = removals ns (removed n ∷ log)

  -- `Close`
  pub close : WarmPool → WarmPool
  unfolding removals
  close p = record p { ready = []; closed = true; log = removals p.ready p.log }

  -- `poolable`
  pub poolable : WarmPool → Spec F → Bool
  unfolding enabled
  poolable p s =
      enabled p
      && str_eq s.image p.config.image
      && is_empty s.mounts
      && is_empty s.compile
      && not s.network

  -- `take`
  pub take : WarmPool → WarmPool × Option Bytes
  take p = elim p.ready [
    | [] ↦ (p, none)
    | name ∷ rest ↦ if p.closed then (p, none) else (record p { ready = rest }, some name)
  ]

  -- `retire` up to the start of the replacement.
  pub retire : WarmPool → Bytes → WarmPool
  retire p name = record p { log = removed name ∷ p.log }

  -- The replacement that `retire` boots in the background, when the boot returns.
  pub replenish : WarmPool → Option Bytes → WarmPool
  unfolding add_ready
  replenish p none = p
  replenish p (some name) =
      if p.closed then record p { log = removed name ∷ booted name ∷ p.log } else add_ready p name

  -- The end of execInto: exec's own failure, told from the program's by its exit code, its banner
  -- and an output that is empty.
  pub is_start_failure : Outcome → Bool
  is_start_failure r =
      not r.timed_out
      && is_empty r.stdout
      && ((r.exit_code == 125) || (r.exit_code == 126) || (r.exit_code == 127))
      && contains_text r.stderr (codes "OCI runtime exec failed")

  leased_of : WarmPool × Option Bytes → WarmPool × Option Bytes
  leased_of (p, none) = (p, none)
  leased_of (p, some name) = (record p { log = ran name ∷ p.log }, some name)

  -- `Execute` up to its exec into the container that it leased; none where it runs the job cold.
  -- `streaming` is a sink that is not nil. When the exec ends, the container is retired: other
  -- calls of the pool run in between.
  pub lease : WarmPool → Spec F → Bool → WarmPool × Option Bytes
  unfolding poolable take leased_of
  lease p s streaming = if streaming || not (poolable p s) then (p, none) else leased_of (take p)

-- What `Execute` returns, of its lease and the exec; `cold` is the wrapped backend's result.
pub answer : Option Bytes → Attempt → Option Outcome → Option Outcome
answer none attempt cold = cold
answer (some name) start_failed cold = cold
answer (some name) (finished r) cold = r
