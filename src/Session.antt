-- ===== src/Session.antt =====
-- internal/session/manager.go: the sessions' life cycle. The map of sessions is an association
-- list; what Go passes as a pointer to a session is the session's value, which an operation puts
-- back under its id. Whatever the operating system, docker, the clock and the generators of ids
-- answer is an input. What the code tells docker, the volume manager (OnDrop) and the file system
-- is the list of effects, the last one first. None stands for a panic of the daemon.
pub mod Access
pub mod Create
pub mod Teardown
pub mod Sweep
pub mod Files
pub mod Kernels
pub mod Sound
pub mod Tests
use isobox.Prelude.{
  Bool, Bytes, Bytes-discrete, List, Option, [], false, if◌then◌else◌, inl, inr, is_empty, length,
  lookup, map, none, not, refl, some, true, update, ℕ, ◌&&◌, ◌*◌, ◌^◌, ◌||◌, ◌≡◌, ◌⊎◌,
}
use isobox.Executor.{Mount}
use isobox.Sched.Laws.{Slots}
use isobox.Kernel.{Engine, default, hour}
use isobox.Strings.{str_eq}
use isobox.Paths.{join_path}

-- The errors of the package, and one each for a failing generator, system call and kernel start.
pub data Error : Type 0 where
  not_found forbidden capacity quota bad_path is_dir disk_full too_many kernel_disabled : Error
  kernel_busy wrong_type unknown_runtime no_token system_failed kernel_failed : Error

pub data Result {ℓ} (A : Type ℓ) : Type ℓ where
  ok : A → Result A
  err : Error → Result A

infixl 5 ◌>>=◌
abbrev pub ◌>>=◌ {ℓ κ} : {A : Type ℓ} {B : Type κ} → Result A → (A → Result B) → Result B
ok a >>= f = f a
err e >>= f = err e

-- To split on a result and keep the equation.
pub Result-cases :
    {A : Type 0} (r : Result A) → ((e : Error) × (r ≡ err e)) ⊎ ((a : A) × (r ≡ ok a))
Result-cases (err e) = inl (e, refl)
Result-cases (ok a) = inr (a, refl)

-- `Session`; `kernel` is the container of the resident kernel, none for a filesystem session.
pub record Session : Type 0 where
  pub id : Bytes
  pub token : Bytes
  pub runtime : Bytes
  pub kind : Bytes
  pub workspace : Bytes
  pub created_at : ℕ
  pub idle_ttl : ℕ
  pub tenant : Bytes
  pub extra_mounts : List Mount
  pub kernel : Option Bytes
  pub last_activity : ℕ

pub data Effect : Type 0 where
  make_dir : Bytes → Effect
  remove_dir : Bytes → Effect
  remove_container : Bytes → Effect
  on_drop : Bytes → Effect

-- `authed`: the checks of a session that was found.
pub check_access : Session → Bytes → Bytes → Result Session
check_access s token tenant =
    if not (str_eq token s.token)
    then err forbidden
    else if not (is_empty tenant) && not (str_eq s.tenant tenant)
    then err forbidden
    else ok s

-- `Config`, with the defaults filled in; `default_ttl` is its TTL.
pub record Config : Type 0 where
  pub root : Bytes
  pub disk_quota : ℕ
  pub global_disk_max : ℕ
  pub max_sessions : ℕ
  pub default_ttl : ℕ

-- The defaults of `NewManager`.
pub with_defaults : Config → Config
with_defaults c = record {
  root = c.root;
  disk_quota = default c.disk_quota (512 * 2 ^ 20);
  global_disk_max = default c.global_disk_max (10 * 2 ^ 30);
  max_sessions = default c.max_sessions 200;
  default_ttl = default c.default_ttl (24 * hour);
}

module _ (sl : Slots) (F : Type 0) where
  -- `Manager`
  pub record Manager : Type 0 where
    pub config : Config
    pub open config use *
    pub kernels : Option (Engine sl F)
    pub sema : sl.State
    pub sessions : List (Bytes × Session)
    pub used : ℕ
    pub effects : List Effect

  -- `authed`
  pub authed : Manager → Bytes → Bytes → Bytes → Result Session
  unfolding check_access
  authed m id token tenant = elim (lookup Bytes-discrete id m.sessions) [
    | none ↦ err not_found
    | some s ↦ check_access s token tenant
  ]

  -- `Count`
  pub count : Manager → ℕ
  count m = length m.sessions

  -- `Runtime`
  pub runtime_of : Manager → Bytes → Bytes → Bytes → Result Bytes
  unfolding authed
  runtime_of m id token tenant = do s ← authed m id token tenant; ok s.runtime

  -- `IsKernel`
  pub is_kernel : Manager → Bytes → Bytes → Bytes → Result Bool
  unfolding authed
  is_kernel m id token tenant = do
    s ← authed m id token tenant
    ok (elim s.kernel [ none ↦ false | some _ ↦ true ])

  -- A session that was changed through its pointer, where the map still holds it.
  abbrev pub put_back : Manager → Session → Manager
  put_back m s = elim (lookup Bytes-discrete s.id m.sessions) [
    | none ↦ m
    | some _ ↦ record m { sessions = update Bytes-discrete s.id s m.sessions }
  ]

  -- `SetMounts`
  pub set_mounts : Manager → Bytes → Bytes → Bytes → List Mount → Manager × Result (Unit {0})
  unfolding authed
  set_mounts m id token tenant mounts = elim (authed m id token tenant) [
    | err e ↦ (m, err e)
    | ok s ↦ (put_back m (record s { extra_mounts = mounts }), ok tt)
  ]

  -- `touch`
  pub touch : Manager → Session → ℕ → Manager
  touch m s now = put_back m (record s { last_activity = now })

  -- `NewManager`; none where it returns an error. `entries` are the directories that an earlier
  -- process left behind; they are removed.
  pub new_manager : Config → Bool → List Bytes → Option (Engine sl F) → sl.State → Option Manager
  unfolding with_defaults
  new_manager c made entries engine sema =
      if is_empty c.root || not made
      then none
      else some (record {
        config = with_defaults c;
        kernels = engine;
        sema = sema;
        sessions = [];
        used = 0;
        effects = map (λ d. remove_dir (join_path c.root d)) entries;
      })
