-- ===== src/Api/Steps/Laws.antt =====
-- internal/api/sessions.go: the handlers of a session, for a caller who is not let in.
use isobox.Prelude.{Bytes, Option, [], false, inr, refl, some, ◌≡◌}
use isobox.Prelude.Float.{Float64}
use isobox.Sched.Laws.{Slots}
use isobox.Registry.{Registry}
use isobox.Session.{Error, err, authed, Result}
use isobox.Api.Sessions.{Server}
use isobox.Api.Limits.{Request}
use isobox.Api.Steps.{
  Caller, StepsWorld, handle_session_exec, handle_destroy_session, route_exec, after_destroy,
}
use isobox.Api.Reply.{refused}
use isobox.Api.Errors.{write_sess_err}
use isobox.Api.Gate.{req_tenant}
use isobox.Api.Sessions.Settle.{settle-quiet}
use isobox.Session.Access.{is_kernel-denied}
use isobox.Session.Teardown.Balance.{destroy_session-refused}

module _ (sl : Slots) (F : Type 0) where
  pub handle_session_exec-denied :
      (fl : Float64 F) (parse : Bytes → F) (reg : Registry) (sv : Server sl F) (w : StepsWorld F)
      (c : Caller) (body : Option (Request F)) (t : Bytes) (e : Error)
      → req_tenant c.context ≡ inr t
      → authed sl F sv.sessions c.id c.token t ≡ err e
      → handle_session_exec sl F fl parse reg sv w c body
        ≡ some (sv, refused (write_sess_err w.missing e))
  unfolding handle_session_exec route_exec
  handle_session_exec-denied fl parse reg sv w c body t e known out =
      rw (known, handle_session_exec, is_kernel-denied sl F sv.sessions c.id c.token t e out) refl

  pub handle_destroy_session-denied :
      (sv : Server sl F) (cleared : Result (Unit {0})) (c : Caller) (t : Bytes) (e : Error)
      → sv.sessions.effects ≡ []
      → req_tenant c.context ≡ inr t
      → authed sl F sv.sessions c.id c.token t ≡ err e
      → handle_destroy_session sl F sv cleared c ≡ some (sv, refused (write_sess_err false e))
  unfolding handle_destroy_session after_destroy
  handle_destroy_session-denied sv cleared c t e quiet known out =
      rw
        (
          known,
          handle_destroy_session,
          destroy_session-refused sl F sv.sessions cleared c.id c.token t e out,
          settle-quiet sl F sv quiet,
        )
        refl
