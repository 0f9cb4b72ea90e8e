-- ===== src/Api/Errors/Laws.antt =====
-- internal/api/sessions.go: the statuses of the gate's two errors.
use isobox.Prelude.{Bool, false, inl, inr, refl, ◌≡◌, ◌⊎◌}
use isobox.Session.{Error, not_found, forbidden}
use isobox.Api.Errors.{write_sess_err}

pub write_sess_err-denied :
    (missing : Bool) (e : Error)
    → (e ≡ not_found) ⊎ (e ≡ forbidden)
    → (write_sess_err missing e ≡ write_sess_err false e)
      × (((e ≡ not_found) × ((write_sess_err false e).status ≡ 404))
          ⊎ ((e ≡ forbidden) × ((write_sess_err false e).status ≡ 401)))
unfolding write_sess_err
write_sess_err-denied missing e (inl h) = rw h (refl, inl (refl, refl))
write_sess_err-denied missing e (inr h) = rw h (refl, inr (refl, refl))
