-- ===== src/Session/Tests.antt =====
-- A manager with one filesystem session and one kernel session, and the session theorems on it.
use isobox.Prelude.{
  All, Bytes, Bytes-discrete, List, [], arith, codes, false, inl, inr, is_empty, lookup, none, refl,
  remove, some, true, ℕ, ℕ_discrete, ◌*◌, ◌^◌, ◌∷◌, ◌≡◌, ◌≢◌,
}
use isobox.Sched.{Limiter}
use isobox.Sched.Laws.{Slots, limiter_slots, IsSound}
use isobox.Sched.Tests.{counting}
use isobox.Kernel.{Engine, Kernel, KernelConfig, hour}
use isobox.Session.{Manager, Session, Config, authed, ok}
use isobox.Session.{Result}
use isobox.Session.Teardown.Races.{tear, race, destroyer, sweeper, reaper, race-IsBalanced}
use isobox.Session.Teardown.{destroy_session}
use isobox.Session.Create.{CreateOpts, Answers, create}
use isobox.Session.{check_access, forbidden, err, system_failed}
use isobox.Executor.{Spec, Outcome, Language, Limits}
use isobox.Session.Files.{exec, safe_path}
use isobox.Paths.Laws.{IsName}
use isobox.Paths.{joined, slash, dot, dot_dot}
use isobox.Session.Teardown.Balance.{IsBalanced, destroy_session-IsBalanced}
use isobox.Session.Access.{authed-eq-ok_iff}
use isobox.Session.Create.Balance.{create-IsBalanced}
use isobox.Session.Files.Paths.{safe_path-IsInside}
use isobox.Session.Files.Steps.{exec-held}

abbrev pub slots : Slots
slots = limiter_slots counting

abbrev pub plain : Session
plain = record {
  id = codes "sess_a";
  token = codes "tok_a";
  runtime = codes "python";
  kind = codes "filesystem";
  workspace = codes "/var/lib/isobox/sess_a/workspace";
  created_at = 5;
  idle_ttl = 24 * hour;
  tenant = codes "public";
  extra_mounts = [];
  kernel = none;
  last_activity = 7;
}

abbrev pub resident : Session
resident = record plain {
  id = codes "sess_b";
  token = codes "tok_b";
  kind = codes "kernel";
  workspace = codes "/var/lib/isobox/sess_b/workspace";
  kernel = some (codes "iso-k-b");
}

-- One of two slots is held.
abbrev pub one_held : Limiter counting
one_held = record { sem = record { size = 2; holders = 1 }; max = 2; in_use = 1 }

abbrev pub engine : Engine slots ℕ
engine =
    let k : Kernel = record {
      id = codes "sess_b";
      container = codes "iso-k-b";
      image = codes "python@sha256";
      created_at = 5;
      last_used = 6;
      dead = false;
    } in
    let c : KernelConfig ℕ = record {
      slots = 2;
      memory_bytes = 128 * 2 ^ 20;
      cpus = 10;
      pids = 128;
      output_bytes = 65_536;
      start_timeout = 30;
      default_step_ms = 20_000;
      max_step_ms = 60_000;
      idle_ttl = hour;
      max_lifetime = 4 * hour;
      acquire_wait = 2;
    } in
    record { cfg = c; slots = one_held; kernels = (codes "sess_b", k) ∷ [] }

abbrev pub manager : Manager slots ℕ
manager =
    let c : Config = record {
      root = codes "/var/lib/isobox";
      disk_quota = 1000;
      global_disk_max = 1500;
      max_sessions = 4;
      default_ttl = 24 * hour;
    } in
    record {
      config = c;
      kernels = some engine;
      sema = one_held;
      sessions = (codes "sess_a", plain) ∷ (codes "sess_b", resident) ∷ [];
      used = 0;
      effects = [];
    }

one_held-IsSound : IsSound counting one_held
one_held-IsSound = record {
  gauge = refl;
  sized = refl;
  bounded = omega arith;
  positive = omega arith;
}

pub found_plain : lookup Bytes-discrete (codes "sess_a") manager.sessions ≡ some plain
unfolding lookup
found_plain = ground arith

found_resident : lookup Bytes-discrete (codes "sess_b") manager.sessions ≡ some resident
unfolding lookup
found_resident = ground arith

pub unknown_new : lookup Bytes-discrete (codes "sess_c") manager.sessions ≡ none
unfolding lookup
unknown_new = ground arith

pub manager-IsBalanced : IsBalanced slots ℕ manager
unfolding lookup
manager-IsBalanced = record {
  distinct = (ground arith, (ground arith, tt));
  matched = (one_held-IsSound, refl);
}

authed-eq-ok_iff_example :
    authed slots ℕ manager (codes "sess_a") (codes "tok_a") (codes "public") ≡ ok plain
authed-eq-ok_iff_example =
    (authed-eq-ok_iff slots ℕ manager (codes "sess_a") (codes "tok_a") (codes "public") plain).1
      (found_plain, refl, inr refl)

race-IsBalanced_example :
    (first : Manager slots ℕ) × (m' : Manager slots ℕ) × (tear slots ℕ
        (destroyer (ok tt))
        manager
        resident
      ≡ some first)
    × (race slots ℕ (destroyer (ok tt) ∷ sweeper ∷ reaper ∷ []) manager resident ≡ some m')
    × IsBalanced slots ℕ m'
    × (m'.sessions ≡ remove Bytes-discrete (codes "sess_b") manager.sessions)
    × (m'.kernels ≡ first.kernels)
    × (m'.effects ≡ first.effects)
race-IsBalanced_example =
    race-IsBalanced slots ℕ (destroyer (ok tt)) (sweeper ∷ reaper ∷ []) manager resident
      manager-IsBalanced found_resident

destroy_session-IsBalanced_example :
    (m' : Manager slots ℕ) × (destroy_session slots ℕ manager
        (err system_failed)
        (codes "sess_b")
        (codes "tok_b")
        []
      ≡ some (m', err system_failed))
    × IsBalanced slots ℕ m'
    × (m'.sessions ≡ remove Bytes-discrete (codes "sess_b") manager.sessions)
    × (m'.config ≡ manager.config)
destroy_session-IsBalanced_example =
    destroy_session-IsBalanced slots ℕ manager (err system_failed) resident (codes "tok_b") []
      manager-IsBalanced
      ((authed-eq-ok_iff slots ℕ manager (codes "sess_b") (codes "tok_b") [] resident).1
        (found_resident, refl, inl refl))

-- A kernel session, for which the second slot is free.
abbrev wanted : CreateOpts
wanted = record {
  ttl = 0;
  id = [];
  tenant = codes "public";
  kind = codes "kernel";
  extra_mounts = [];
  network = false;
}

abbrev pub answers : Answers
answers = record {
  language = some (codes "python", codes "python@sha256");
  token = some (codes "tok_c");
  uuid = codes "c";
  made = true;
  now = 9;
  freed = false;
  started = none;
}

create-IsBalanced_example :
    (m' : Manager slots ℕ) × (r : Result Session) × (create slots ℕ manager wanted answers
      ≡ some (m', r))
    × IsBalanced slots ℕ m'
create-IsBalanced_example =
    create-IsBalanced slots ℕ manager wanted answers manager-IsBalanced unknown_new

IsName-IsName :
    (c : Bytes) → is_empty c ≡ false → c ≢ dot → c ≢ dot_dot → All (λ d. d ≢ slash) c → IsName c
IsName-IsName c named dotless dot_dotless flat = record {
  named = named;
  not_dot = dotless;
  not_dot_dot = dot_dotless;
  flat = flat;
}

safe_path-IsInside_example :
    (below : List Bytes) × All IsName below
    × (safe_path (record plain { workspace = codes "/w/s" }) (codes "../../etc/passwd")
        ≡ ok (slash ∷ joined (codes "w" ∷ codes "s" ∷ below)))
unfolding joined
safe_path-IsInside_example =
    safe_path-IsInside (record plain { workspace = codes "/w/s" }) (codes "../../etc/passwd")
      (codes "w") (codes "s" ∷ [])
      (
        IsName-IsName (codes "w") refl (ground arith) (ground arith) (ground arith),
        (IsName-IsName (codes "s") refl (ground arith) (ground arith) (ground arith), tt),
      )
      refl

abbrev quiet : Spec ℕ → Result Outcome
quiet s = err system_failed

abbrev step : Spec ℕ
step =
    let l : Language = record { name = codes "python"; version = codes "3" } in
    let limits : Limits ℕ = record {
      memory_bytes = 0;
      cpus = 10;
      pids = 0;
      output_bytes = 0;
      wall_time_ms = 0;
      compile_time_ms = 0;
    } in
    record {
      lang = l;
      image = codes "python";
      compile = [];
      run = codes "python" ∷ [];
      workdir = [];
      env = [];
      scratch_exec = false;
      scratch_mb = 0;
      mounts = [];
      files = [];
      stdin = [];
      argv = [];
      limits = limits;
      network = false;
    }

exec-held_example :
    (m' : Manager slots ℕ) × (r : Result Outcome) × (exec slots ℕ manager quiet false 12
        (codes "sess_a")
        (codes "tok_a")
        []
        step
      ≡ some (m', r))
    × IsSound counting m'.sema
    × (m'.sema.in_use ≡ 1)
exec-held_example =
    exec-held slots ℕ manager quiet false 12 (codes "sess_a") (codes "tok_a") [] step
      one_held-IsSound

-- A caller with another token.
pub wrong_token :
    authed slots ℕ manager (codes "sess_a") (codes "x") (codes "public") ≡ err forbidden
unfolding authed check_access lookup Bytes-discrete ℕ_discrete
wrong_token = refl
