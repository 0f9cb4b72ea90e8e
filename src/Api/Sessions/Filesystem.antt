-- ===== src/Api/Sessions/Filesystem.antt =====
-- internal/api/sessions.go: `handleCreateSession` for a filesystem session.
pub mod Laws
use isobox.Prelude.{
  Bool, Bytes, Option, [], codes, false, if◌then◌else◌, inl, inr, is_empty, none, some, true, ◌⊎◌,
}
use isobox.Sched.Laws.{Slots}
use isobox.Session.{Manager, Session, Result, ok, err, set_mounts}
use isobox.Session.Create.{CreateOpts, create}
use isobox.Session.Teardown.{drop}
use isobox.Memory.Volume.{VolError, Disk, attach, release, Volume}
use isobox.Memory.Volume
use isobox.Api.Errors.{write_create_sess_err, write_sess_err, write_vol_err}
use isobox.Api.Reply.{Response, refused, sent, failure}
use isobox.Api.Sessions.{
  Server, World, CreateRequest, seconds, roll_back, memory_mount, put_sessions, refuse_after,
}

module _ (sl : Slots) (F : Type 0) where
  -- What follows SetMounts.
  after_mount :
      Server sl F
      → Session
      → Bytes
      → Bytes
      → Manager sl F × Result (Unit {0})
      → Option (Server sl F × Response Session)
  after_mount sv s tenant volume_id (m, ok _) = some (record sv { sessions = m }, sent 201 s)
  after_mount sv s tenant volume_id (m, err e) =
      let released = record sv {
        sessions = m;
        volumes = elim sv.volumes [ none ↦ none | some v ↦ some (release v tenant volume_id s.id) ];
      } in
      refuse_after sl F (roll_back sl F released s tenant) (write_sess_err false e)

  -- What follows Attach: the mount of the volume.
  after_attach :
      Server sl F
      → Session
      → Bytes
      → Bytes
      → Volume.Manager × (VolError ⊎ (Bytes × Bool))
      → Option (Server sl F × Response Session)
  unfolding after_mount
  after_attach sv s tenant volume_id (v, inl e) =
      refuse_after sl F (roll_back sl F (record sv { volumes = some v }) s tenant) (write_vol_err e)
  after_attach sv s tenant volume_id (v, inr (path, writable)) =
      after_mount (record sv { volumes = some v }) s tenant volume_id
        (set_mounts sl F sv.sessions s.id s.token tenant (memory_mount path))

  -- The volume of a filesystem session.
  pub attach_volume :
      Server sl F
      → Disk
      → Session
      → Bytes
      → Bytes
      → Option Volume.Manager
      → Option (Server sl F × Response Session)
  unfolding after_attach
  attach_volume sv d s tenant volume_id none =
      refuse_after sl F (roll_back sl F sv s tenant) (failure 400 (codes "volumes_disabled"))
  attach_volume sv d s tenant volume_id (some v) =
      after_attach sv s tenant volume_id (attach v d tenant volume_id s.id true)

  dropped : Server sl F → Option (Manager sl F) → Option (Server sl F)
  dropped sv none = none
  dropped sv (some m) = some (put_sessions sl F sv m)

  -- What another goroutine does between Create and what follows it.
  pub interleave : Server sl F → Bool → Session → Option (Server sl F)
  unfolding dropped
  interleave sv false s = some sv
  interleave sv true s = dropped sv (drop sl F sv.sessions s)

  -- The filesystem path, from the session on.
  continue_with :
      World
      → Bytes
      → Bytes
      → Session
      → Option (Server sl F)
      → Option (Server sl F × Response Session)
  unfolding attach_volume
  continue_with w tenant volume_id s none = none
  continue_with w tenant volume_id s (some sv) =
      if is_empty volume_id
      then some (sv, sent 201 s)
      else attach_volume sv w.disk s tenant volume_id sv.volumes

  -- The filesystem path, after Create.
  after_create :
      Server sl F
      → World
      → Bytes
      → Bytes
      → Option (Manager sl F × Result Session)
      → Option (Server sl F × Response Session)
  unfolding continue_with interleave
  after_create sv w tenant volume_id none = none
  after_create sv w tenant volume_id (some (m, err e)) =
      some (put_sessions sl F sv m, refused (write_create_sess_err e))
  after_create sv w tenant volume_id (some (m, ok s)) =
      continue_with w tenant volume_id s (interleave (put_sessions sl F sv m) w.swept s)

  -- The filesystem path.
  pub create_filesystem_session :
      Server sl F → World → Bytes → Bytes → CreateRequest → Option (Server sl F × Response Session)
  unfolding after_create
  create_filesystem_session sv w tenant kind req =
      let o : CreateOpts = record {
        ttl = seconds req.ttl_sec;
        id = [];
        tenant = tenant;
        kind = kind;
        extra_mounts = [];
        network = false;
      } in
      after_create sv w tenant req.volume_id (create sl F sv.sessions o w.answers)
