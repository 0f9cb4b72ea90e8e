-- ===== src/Api/Sessions/Handler/Laws.antt =====
-- internal/api/sessions.go: what the creation of a session leaves behind, on every path.
use isobox.Prelude.{
  Bool-cases, Bytes, Bytes-discrete, Option, Option-cases, Sum-cases, [], arith, codes,
  if◌then◌else◌, inl, inr, is_empty, lookup, none, refl, some, subst, ◌++◌, ◌≡◌,
}
use isobox.Sched.Laws.{Slots}
use isobox.Api.Reply.{refused, failure}
use isobox.Api.Sessions.{Server, World, CreateRequest}
use isobox.Api.Sessions.Handler.{for_tenant, create_session, kind_of, handle_create_session}
use isobox.Api.Sessions.Settle.{IsSettled, Completes, Leaves, Unlocked}
use isobox.Api.Sessions.Filesystem.Laws.{create_filesystem_session-Completes}
use isobox.Api.Sessions.Resident.Laws.{create_kernel_session-Completes}
use isobox.Strings.{str_eq}
use isobox.Session.Kernels.{mint_id}
use isobox.Api.Gate.Laws.{req_tenant-eq-inr}
use isobox.Session.Sound.{IsConsistent}
use isobox.Api.Gate.{req_tenant}
use isobox.Api.Reply.{Response}
use isobox.Session.{Session}

-- The id of the new session: the handler's for a kernel session, else Create's.
abbrev pub new_id : World → CreateRequest → Bytes
new_id w req =
    if str_eq (kind_of req) (codes "kernel")
    then mint_id w.uuid
    else codes "sess_" ++ w.answers.uuid

-- The tenant of a context.
abbrev pub tenant_of : Option Bytes → Bytes
tenant_of none = []
tenant_of (some t) = t

module _ (sl : Slots) (F : Type 0) where
  create_session-Completes :
      (sv : Server sl F) (w : World) (tenant : Bytes) (req : CreateRequest)
      → IsSettled sl F (new_id w req) sv
      → lookup Bytes-discrete (new_id w req) sv.sessions.sessions ≡ none
      → Completes sl F
          (new_id w req)
          w.disk
          tenant
          req.volume_id
          sv.volumes
          (create_session sl F sv w tenant req)
  unfolding create_session
  create_session-Completes sv w tenant req v fresh =
      elim (Bool-cases (str_eq (kind_of req) (codes "kernel"))) [
        | inl kernel ↦
            let same : new_id w req ≡ mint_id w.uuid = rw kernel refl in
            rw (kernel, create_session)
              (create_kernel_session-Completes sl F sv w tenant req (λ e. ground arith)
                (subst (λ j. IsSettled sl F j sv) same v)
                (subst (λ j. lookup Bytes-discrete j sv.sessions.sessions ≡ none) same fresh))
        | inr plain ↦
            let same : new_id w req ≡ codes "sess_" ++ w.answers.uuid = rw plain refl in
            rw (plain, create_session)
              (create_filesystem_session-Completes sl F sv w tenant (kind_of req) req
                (subst (λ j. IsSettled sl F j sv) same v)
                (subst (λ j. lookup Bytes-discrete j sv.sessions.sessions ≡ none) same fresh))
      ]

  for_tenant-Completes :
      (sv : Server sl F) (w : World) (req : CreateRequest) (context : Option Bytes)
      → IsSettled sl F (new_id w req) sv
      → lookup Bytes-discrete (new_id w req) sv.sessions.sessions ≡ none
      → Completes sl F
          (new_id w req)
          w.disk
          (tenant_of context)
          req.volume_id
          sv.volumes
          (for_tenant sl F sv w req (req_tenant context))
  unfolding for_tenant
  for_tenant-Completes sv w req context v fresh = elim (Sum-cases (req_tenant context)) [
    | inl (r, none_there) ↦ rw (none_there, for_tenant, Completes) (v.consistent, refl)
    | inr (tenant, there) ↦
        let stamped = req_tenant-eq-inr context tenant there in
        rw (there, for_tenant, stamped) (create_session-Completes sv w tenant req v fresh)
  ]

  -- handleCreateSession for a request that decodes, on a server between two calls, with a new
  -- session id that is in nobody's use. It does not panic, whatever the disk, docker and the
  -- sweeper do meanwhile, and leaves the sessions consistent. If it refuses the request, the
  -- volumes are as they were, with no lock left behind. If it answers 201, the session has the new
  -- id, and the volume of the request is attached for that id, if one was asked for.
  pub handle_create_session-Leaves :
      (sv : Server sl F) (w : World) (context : Option Bytes) (req : CreateRequest)
      → IsConsistent sl F sv.sessions
      → sv.sessions.effects ≡ []
      → Unlocked (new_id w req) sv.volumes
      → lookup Bytes-discrete (new_id w req) sv.sessions.sessions ≡ none
      → (sv' : Server sl F) × (r : Response Session) × (handle_create_session sl F sv w context
            (some req)
          ≡ some (sv', r))
        × IsConsistent sl F sv'.sessions
        × Leaves sl F
            (new_id w req)
            w.disk
            (tenant_of context)
            req.volume_id
            sv.volumes
            sv'.volumes
            r
  unfolding handle_create_session
  handle_create_session-Leaves sv w context req kept quiet free fresh =
      let v : IsSettled sl F (new_id w req) sv = record {
        consistent = kept;
        quiet = quiet;
        unlocked = free;
      } in
      elim (Bool-cases (is_empty req.runtime)) [
        | inl blank ↦ (
          sv,
          refused (failure 400 (codes "runtime_required")),
          rw (blank, handle_create_session) refl,
          kept,
          refl,
        )
        | inr named ↦
            let done = for_tenant-Completes sv w req context v fresh in
            elim (Option-cases (for_tenant sl F sv w req (req_tenant context))) [
              | inl panics ↦
                  elim (subst
                    (Completes sl F (new_id w req) w.disk (tenant_of context) req.volume_id
                      sv.volumes)
                    panics done) [ ]
              | inr ((sv', r), answered) ↦
                  let left =
                    subst
                      (Completes sl F (new_id w req) w.disk (tenant_of context) req.volume_id
                        sv.volumes)
                      answered done in
                  (sv', r, rw (named, handle_create_session) answered, left.0, left.1)
            ]
      ]
