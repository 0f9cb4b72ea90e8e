-- ===== src/Api/Sessions.antt =====
-- internal/api/sessions.go: the creation of a session with its volume, over the state of the server. The wiring of
-- cmd/isoboxd/main.go gives every `OnDrop` of the session manager to ReleaseAll of the volumes.
-- A body that does not decode is none, an empty body the empty request. A number of a request that
-- is negative is 0 here. None stands for a panic of the daemon.
pub mod Settle
pub mod Filesystem
pub mod Resident
pub mod Handler
mod Tests
use isobox.Prelude.{
  Bool, Bytes, List, Option, [], codes, if◌then◌else◌, ltb, none, some, true, ℕ, ◌%◌, ◌*◌, ◌++◌,
  ◌^◌, ◌∷◌,
}
use isobox.Executor.{Mount}
use isobox.Sched.Laws.{Slots}
use isobox.Kernel.{second}
use isobox.Session.{Effect, on_drop, Manager, Session, ok}
use isobox.Session.Create.{Answers}
use isobox.Session.Teardown.{destroy_session}
use isobox.Memory.Volume.{Disk, release_all, Volume, host_path}
use isobox.Memory.Volume
use isobox.Api.Reply.{Reply, Response, refused}

-- `createSessionRequest`
pub record CreateRequest : Type 0 where
  pub runtime : Bytes
  pub ttl_sec : ℕ
  pub volume_id : Bytes
  pub network : Bool
  pub kind : Bytes

-- What the world answers: Create, the disk of the volumes, the UUID of a kernel session's id, and
-- whether the sweeper drops a filesystem session as soon as it is in the map.
pub record World : Type 0 where
  pub answers : Answers
  pub disk : Disk
  pub uuid : Bytes
  pub swept : Bool

-- `time.Duration(n) * time.Second`, in 64 bits; a negative duration is 0 here.
pub seconds : ℕ → ℕ
seconds n = let d = (n * second) % 2 ^ 64 in if ltb d (2 ^ 63) then d else 0

-- OnDrop, for the effects of a call, the last one first.
pub release_dropped : List Effect → Volume.Manager → Volume.Manager
release_dropped [] v = v
release_dropped (on_drop id ∷ es) v = release_all (release_dropped es v) id
release_dropped (_ ∷ es) v = release_dropped es v

-- The mount of a volume that was attached.
abbrev pub memory_mount : Bytes → List Mount
memory_mount path = record { host_path = path; target = codes "/memory"; rw = true } ∷ []

module _ (sl : Slots) (F : Type 0) where
  -- `Server`, with the effects that have been carried out.
  pub record Server : Type 0 where
    pub sessions : Manager sl F
    pub volumes : Option Volume.Manager
    pub performed : List Effect

  -- The effects of the session manager's last call are carried out.
  pub settle : Server → Server
  unfolding release_dropped
  settle sv = record {
    sessions = record sv.sessions { effects = [] };
    volumes = elim sv.volumes [
      | none ↦ none
      | some v ↦ some (release_dropped sv.sessions.effects v)
    ];
    performed = sv.sessions.effects ++ sv.performed;
  }

  abbrev pub put_sessions : Server → Manager sl F → Server
  put_sessions sv m = settle (record sv { sessions = m })

  -- `s.Sessions.Destroy`, whose result the handler ignores, and with it what os.RemoveAll answers.
  pub roll_back : Server → Session → Bytes → Option Server
  roll_back sv s tenant = elim (destroy_session sl F sv.sessions (ok tt) s.id s.token tenant) [
    | none ↦ none
    | some (m, r) ↦ some (put_sessions sv m)
  ]

  -- A refusal after the rollback.
  abbrev pub refuse_after : Option Server → Reply → Option (Server × Response Session)
  refuse_after none r = none
  refuse_after (some sv) r = some (sv, refused r)
