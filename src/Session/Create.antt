-- ===== src/Session/Create.antt =====
-- internal/session/manager.go: `Create`.
pub mod Balance
pub mod Entry
use isobox.Prelude.{
  Bool, Bytes, Bytes-discrete, List, Option, codes, false, if◌then◌else◌, is_empty, leb, length,
  none, some, update, ℕ, ◌++◌, ◌==◌, ◌∷◌,
}
use isobox.Executor.{Mount}
use isobox.Sched.Laws.{Slots}
use isobox.Kernel.{Engine, enter, Kernel}
use isobox.Session.{
  Manager, Effect, Error, Result, Session, disk_full, kernel_busy, kernel_disabled, kernel_failed,
  make_dir, no_token, remove_dir, system_failed, too_many, unknown_runtime, err, ok,
}
use isobox.Strings.{str_eq}
use isobox.Paths.{join_path, dir}

-- `CreateOpts`
pub record CreateOpts : Type 0 where
  pub ttl : ℕ
  pub id : Bytes
  pub tenant : Bytes
  pub kind : Bytes
  pub extra_mounts : List Mount
  pub network : Bool

-- What the world answers during one Create: the registry's language and image, the generators,
-- the system, whether a kernel slot comes free within the wait, and the started kernel.
pub record Answers : Type 0 where
  pub language : Option (Bytes × Bytes)
  pub token : Option Bytes
  pub uuid : Bytes
  pub made : Bool
  pub now : ℕ
  pub freed : Bool
  pub started : Option Bytes

module _ (sl : Slots) (F : Type 0) where
  -- The checks under the read lock.
  pub admit : Manager sl F → Option Error
  admit m =
      if leb m.max_sessions (length m.sessions)
      then some too_many
      else if leb m.global_disk_max m.used
      then some disk_full
      else none

  -- `filepath.Join(m.Root, id, "workspace")`
  abbrev workspace_of : Manager sl F → Bytes → Bytes
  workspace_of m id = join_path (join_path m.root id) (codes "workspace")

  -- The record of the new session, without a kernel.
  pub new_session : Manager sl F → CreateOpts → Answers → Bytes → Bytes → Session
  new_session m o a name token =
      let id = if is_empty o.id then codes "sess_" ++ a.uuid else o.id in
      record {
        id = id;
        token = token;
        runtime = name;
        kind = if is_empty o.kind then codes "filesystem" else o.kind;
        workspace = workspace_of m id;
        created_at = a.now;
        idle_ttl = if o.ttl == 0 then m.default_ttl else o.ttl;
        tenant = o.tenant;
        extra_mounts = o.extra_mounts;
        kernel = none;
        last_activity = a.now;
      }

  abbrev note : Manager sl F → Effect → Manager sl F
  note m e = record m { effects = e ∷ m.effects }

  abbrev set_engine : Manager sl F → Engine sl F → Manager sl F
  set_engine m e = record m { kernels = some e }

  -- `NewKernel` has started a container and entered it; or it failed, and the slot goes back.
  start_kernel :
      Manager sl F
      → Engine sl F
      → Session
      → Bytes
      → Answers
      → Option (Manager sl F × Result Session)
  start_kernel m e s image a = elim a.started [
    | some container ↦
        let k : Kernel = record {
          id = s.id;
          container = container;
          image = image;
          created_at = a.now;
          last_used = a.now;
          dead = false;
        } in
        some (set_engine m (enter sl F e k), ok (record s { kernel = some container }))
    | none ↦ elim (sl.give_slot e.slots) [
      | none ↦ none
      | some slots ↦ some (
        note (set_engine m (record e { slots = slots })) (remove_dir (dir s.workspace)),
        err kernel_failed,
      )
    ]
  ]

  -- The branch of Create for a kernel session: a slot, then the kernel.
  pub attach_kernel :
      Manager sl F → Session → Bytes → Answers → Option (Manager sl F × Result Session)
  unfolding start_kernel
  attach_kernel m s image a = elim m.kernels [
    | none ↦ some (note m (remove_dir (dir s.workspace)), err kernel_disabled)
    | some e ↦
        let (slots, taken) = sl.take_slot e.slots a.freed in
        let e' = record e { slots = slots } in
        if taken
        then start_kernel (set_engine m e') e' s image a
        else some (note (set_engine m e') (remove_dir (dir s.workspace)), err kernel_busy)
  ]

  -- `m.sessions[id] = s`
  pub insert : Manager sl F → Session → Manager sl F
  insert m s = record m { sessions = update Bytes-discrete s.id s m.sessions }

  insert_made : Option (Manager sl F × Result Session) → Option (Manager sl F × Result Session)
  unfolding insert
  insert_made none = none
  insert_made (some (m, err e)) = some (m, err e)
  insert_made (some (m, ok s)) = some (insert m s, ok s)

  -- What follows the checks: the token, the workspace, the kernel and the entry in the map.
  pub make :
      Manager sl F → CreateOpts → Answers → Bytes → Bytes → Option (Manager sl F × Result Session)
  unfolding attach_kernel insert_made
  make m o a name image = elim a.token [
    | none ↦ some (m, err no_token)
    | some token ↦
        let s = new_session m o a name token in
        if a.made
        then (let m' = note m (make_dir s.workspace) in
            if str_eq s.kind (codes "kernel")
            then insert_made (attach_kernel m' s image a)
            else some (insert m' s, ok s))
        else some (m, err system_failed)
  ]

  -- `Create`
  pub create : Manager sl F → CreateOpts → Answers → Option (Manager sl F × Result Session)
  unfolding admit make
  create m o a = elim a.language [
    | none ↦ some (m, err unknown_runtime)
    | some (name, image) ↦ elim (admit m) [
      | some e ↦ some (m, err e)
      | none ↦ make m o a name image
    ]
  ]
