-- ===== src/Executor/WarmPool/Tests.antt =====
-- A pool of two containers that serves a job, gets a replacement and closes.
use isobox.Prelude.{
  Bytes-discrete, List, [], codes, false, leb, ltb, refl, some, ℕ, ℕ_discrete, ◌∷◌, ◌≡◌,
}
use isobox.Prelude.Float.{Float64}
use isobox.Executor.WarmPool.{
  PoolConfig, new_warm_pool, booted, ran, removed, lease, leased_of, take, poolable, enabled,
  retire, replenish, close, removals, add_ready, with_defaults,
}
use isobox.Executor.{Spec, Limits}
use isobox.Executor.WarmPool.Laws.{
  IsAccounted, history, Call, primes, replenishes, closes, new-IsAccounted, starts, ends, step,
  without, Running,
}

abbrev tenths : Float64 ℕ
tenths = record {
  lt = ltb;
  le = leb;
  zero_point_one = 1;
  zero = 0;
  one = 10;
  two = 20;
  format2 = λ n. n ∷ [];
}

abbrev config : PoolConfig ℕ
config = record {
  size = 2;
  image = codes "python";
  mem_bytes = 0;
  cpus = 0;
  pids = 0;
  scratch_mb = 0;
  job_root = [];
}

abbrev no_limits : Limits ℕ
no_limits = record {
  memory_bytes = 0;
  cpus = 0;
  pids = 0;
  output_bytes = 0;
  wall_time_ms = 0;
  compile_time_ms = 0;
}

abbrev script : Spec ℕ
script = record {
  lang = record { name = codes "python"; version = codes "3" };
  image = codes "python";
  compile = [];
  run = codes "python" ∷ [];
  workdir = codes "/box";
  env = [];
  scratch_exec = false;
  scratch_mb = 0;
  mounts = [];
  files = [];
  stdin = [];
  argv = [];
  limits = no_limits;
  network = false;
}

-- Two boots, a job that leases "b", the close while it runs, the end of the job, and a replacement
-- that comes too late.
abbrev calls : List (Call ℕ)
calls =
    primes (codes "a")
    ∷ primes (codes "b")
    ∷ starts script false
    ∷ closes
    ∷ ends (codes "b")
    ∷ replenishes (some (codes "c"))
    ∷ []

abbrev first : Running ℕ
first = record { pool = new_warm_pool ℕ tenths 15 config; leased = [] }

calls_log :
    (history ℕ first calls).pool.log
    ≡ removed (codes "c")
      ∷ booted (codes "c")
      ∷ removed (codes "b")
      ∷ removed (codes "a")
      ∷ ran (codes "b")
      ∷ booted (codes "b")
      ∷ booted (codes "a")
      ∷ []
unfolding history step lease leased_of take poolable enabled retire replenish close removals
    add_ready without new_warm_pool with_defaults Bytes-discrete ℕ_discrete
calls_log = refl

new-IsAccounted_example : IsAccounted ℕ (codes "b") (history ℕ first calls)
new-IsAccounted_example = new-IsAccounted ℕ tenths 15 config calls (codes "b")
