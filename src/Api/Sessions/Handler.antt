-- ===== src/Api/Sessions/Handler.antt =====
-- internal/api/sessions.go: `handleCreateSession`.
pub mod Laws
use isobox.Prelude.{Bytes, Option, codes, if◌then◌else◌, inl, inr, is_empty, none, some, ◌⊎◌}
use isobox.Sched.Laws.{Slots}
use isobox.Session.{Session}
use isobox.Memory.Volume
use isobox.Api.Reply.{Response, refused, failure, Reply}
use isobox.Api.Gate.{req_tenant}
use isobox.Api.Sessions.{Server, World, CreateRequest}
use isobox.Api.Sessions.Filesystem.{create_filesystem_session}
use isobox.Api.Sessions.Resident.{create_kernel_session}
use isobox.Strings.{str_eq}

-- The kind of the new session.
abbrev pub kind_of : CreateRequest → Bytes
kind_of req = if is_empty req.kind then codes "filesystem" else req.kind

module _ (sl : Slots) (F : Type 0) where
  -- `handleCreateSession` for a decoded request and a tenant.
  pub create_session :
      Server sl F → World → Bytes → CreateRequest → Option (Server sl F × Response Session)
  create_session sv w tenant req =
      let kind = kind_of req in
      if str_eq kind (codes "kernel")
      then create_kernel_session sl F sv w tenant req
      else create_filesystem_session sl F sv w tenant kind req

  -- The handler, behind `reqTenant`.
  for_tenant :
      Server sl F → World → CreateRequest → Reply ⊎ Bytes → Option (Server sl F × Response Session)
  unfolding create_session
  for_tenant sv w req (inl r) = some (sv, refused r)
  for_tenant sv w req (inr tenant) = create_session sv w tenant req

  -- `handleCreateSession`
  pub handle_create_session :
      Server sl F
      → World
      → Option Bytes
      → Option CreateRequest
      → Option (Server sl F × Response Session)
  unfolding for_tenant
  handle_create_session sv w context none = some (sv, refused (failure 400 (codes "invalid_json")))
  handle_create_session sv w context (some req) =
      if is_empty req.runtime
      then some (sv, refused (failure 400 (codes "runtime_required")))
      else for_tenant sv w req (req_tenant context)
