-- ===== src/Api/Sessions/Resident.antt =====
-- internal/api/sessions.go: `createKernelSession`.
pub mod Laws
use isobox.Prelude.{
  Bool, Bytes, List, Option, [], codes, if◌then◌else◌, inl, inr, is_empty, none, some, true, ◌⊎◌,
}
use isobox.Executor.{Mount}
use isobox.Sched.Laws.{Slots}
use isobox.Session.{Manager, Session, Result, ok, err}
use isobox.Session.Create.{CreateOpts, create}
use isobox.Session.Kernels.{mint_id}
use isobox.Memory.Volume.{VolError, attach, release, Volume}
use isobox.Memory.Volume
use isobox.Api.Errors.{write_create_sess_err, write_vol_err}
use isobox.Api.Reply.{Response, refused, sent, failure}
use isobox.Api.Sessions.{Server, World, CreateRequest, seconds, memory_mount, put_sessions}

-- The options of Create.
abbrev kernel_opts : Bytes → Bytes → CreateRequest → List Mount → CreateOpts
kernel_opts tenant id req extra = record {
  ttl = seconds req.ttl_sec;
  id = id;
  tenant = tenant;
  kind = codes "kernel";
  extra_mounts = extra;
  network = req.network;
}

module _ (sl : Slots) (F : Type 0) where
  -- The kernel path, after the volume.
  after_kernel :
      Server sl F
      → Bytes
      → Bytes
      → Bytes
      → Option (Manager sl F × Result Session)
      → Option (Server sl F × Response Session)
  after_kernel sv tenant volume_id id none = none
  after_kernel sv tenant volume_id id (some (m, ok s)) = some (put_sessions sl F sv m, sent 201 s)
  after_kernel sv tenant volume_id id (some (m, err e)) =
      let sv' = put_sessions sl F sv m in
      some (
        if is_empty volume_id then sv' else record sv' {
          volumes = elim sv'.volumes [
            | none ↦ none
            | some v ↦ some (release v tenant volume_id id)
          ];
        },
        refused (write_create_sess_err e),
      )

  -- Create of a kernel session, with what stands at /memory.
  start_kernel_session :
      Server sl F
      → World
      → Bytes
      → Bytes
      → CreateRequest
      → List Mount
      → Option (Server sl F × Response Session)
  unfolding after_kernel
  start_kernel_session sv w tenant id req extra =
      after_kernel sv tenant req.volume_id id
        (create sl F sv.sessions (kernel_opts tenant id req extra) w.answers)

  -- What follows Attach.
  after_attach :
      Server sl F
      → World
      → Bytes
      → Bytes
      → CreateRequest
      → Volume.Manager × (VolError ⊎ (Bytes × Bool))
      → Option (Server sl F × Response Session)
  unfolding start_kernel_session
  after_attach sv w tenant id req (v, inl e) =
      some (record sv { volumes = some v }, refused (write_vol_err e))
  after_attach sv w tenant id req (v, inr (path, writable)) =
      start_kernel_session (record sv { volumes = some v }) w tenant id req (memory_mount path)

  attach_kernel_volume :
      Server sl F
      → World
      → Bytes
      → Bytes
      → CreateRequest
      → Option Volume.Manager
      → Option (Server sl F × Response Session)
  unfolding after_attach
  attach_kernel_volume sv w tenant id req none =
      some (sv, refused (failure 400 (codes "volumes_disabled")))
  attach_kernel_volume sv w tenant id req (some v) =
      after_attach sv w tenant id req (attach v w.disk tenant req.volume_id id true)

  -- `createKernelSession`
  pub create_kernel_session :
      Server sl F → World → Bytes → CreateRequest → Option (Server sl F × Response Session)
  unfolding attach_kernel_volume
  create_kernel_session sv w tenant req =
      let id = mint_id w.uuid in
      if is_empty req.volume_id
      then start_kernel_session sv w tenant id req []
      else attach_kernel_volume sv w tenant id req sv.volumes
