-- ===== src/Api/Files/Laws.antt =====
-- internal/api/sessions.go: the file handlers, for a caller who is not let in.
use isobox.Prelude.{Bool, Bytes, List, false, inr, is_empty, refl, some, ℕ, ◌≡◌}
use isobox.Sched.Laws.{Slots}
use isobox.Session.{Error, err, authed}
use isobox.Session.Files.{Disk, FileInfo}
use isobox.Api.Sessions.{Server}
use isobox.Api.Steps.{Caller}
use isobox.Api.Files.{handle_fs_get, handle_fs_put, handle_fs_delete, after_write, read_path}
use isobox.Api.Reply.{refused}
use isobox.Api.Errors.{write_sess_err}
use isobox.Api.Gate.{req_tenant}
use isobox.Session.Files.Denied.{delete_path-denied, stat-denied, write_file-denied}

module _ (sl : Slots) (F : Type 0) where
  pub handle_fs_get-denied :
      (sort_names : List FileInfo → List FileInfo) (sv : Server sl F) (d : Disk) (missing : Bool)
      (c : Caller) (path t : Bytes) (e : Error)
      → req_tenant c.context ≡ inr t
      → authed sl F sv.sessions c.id c.token t ≡ err e
      → handle_fs_get sl F sort_names sv d missing c path ≡ refused (write_sess_err missing e)
  unfolding handle_fs_get read_path
  handle_fs_get-denied sort_names sv d missing c path t e known out =
      rw (known, handle_fs_get, stat-denied sl F sv.sessions d c.id c.token t path e out) refl

  pub handle_fs_put-denied :
      (sv : Server sl F) (d : Disk) (written_ok missing : Bool) (now : ℕ) (c : Caller)
      (path body t : Bytes) (e : Error)
      → req_tenant c.context ≡ inr t
      → authed sl F sv.sessions c.id c.token t ≡ err e
      → is_empty path ≡ false
      → handle_fs_put sl F sv d written_ok missing now c path (some body)
        ≡ (sv, refused (write_sess_err missing e))
  unfolding handle_fs_put after_write
  handle_fs_put-denied sv d written_ok missing now c path body t e known out named =
      rw
        (
          known,
          handle_fs_put,
          named,
          write_file-denied sl F sv.sessions d written_ok now c.id c.token t path body e out,
        )
        refl

  pub handle_fs_delete-denied :
      (sv : Server sl F) (c : Caller) (path t : Bytes) (e : Error)
      → req_tenant c.context ≡ inr t
      → authed sl F sv.sessions c.id c.token t ≡ err e
      → handle_fs_delete sl F sv c path ≡ refused (write_sess_err false e)
  unfolding handle_fs_delete
  handle_fs_delete-denied sv c path t e known out =
      rw (known, handle_fs_delete, delete_path-denied sl F sv.sessions c.id c.token t path e out)
        refl
