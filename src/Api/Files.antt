-- ===== src/Api/Files.antt =====
-- internal/api/sessions.go: the file handlers of a session. `missing` tells of a failing system
-- call whether it is os.ErrNotExist; a body above the upload limit is none.
pub mod Laws
use isobox.Prelude.{
  Bool, Bytes, List, Option, codes, false, if◌then◌else◌, inl, inr, is_empty, length, none, some, ℕ,
}
use isobox.Sched.Laws.{Slots}
use isobox.Session.{Manager, Result, ok, err}
use isobox.Session.Files.{
  Disk, FileInfo, Change, stat, read_file, list_dir, write_file, delete_path,
}
use isobox.Api.Errors.{write_sess_err}
use isobox.Api.Reply.{Response, refused, sent, failure}
use isobox.Api.Gate.{req_tenant}
use isobox.Api.Sessions.{Server}
use isobox.Api.Steps.{Caller}

-- A listing, or the bytes of a file.
pub data FsBody : Type 0 where
  listing : List FileInfo → FsBody
  content : Bytes → FsBody

-- The answer to a read.
abbrev answer {ℓ} : {A B : Type ℓ} → Bool → (A → B) → Result A → Response B
answer missing f (ok a) = sent 200 (f a)
answer missing f (err e) = refused (write_sess_err missing e)

module _ (sl : Slots) (F : Type 0) where
  -- Stat, then ListDir or ReadFile.
  read_path :
      (List FileInfo → List FileInfo)
      → Server sl F
      → Disk
      → Bool
      → Caller
      → Bytes
      → Bytes
      → Result FileInfo
      → Response FsBody
  read_path sort_names sv d missing c tenant path (err e) = refused (write_sess_err missing e)
  read_path sort_names sv d missing c tenant path (ok i) =
      if i.is_directory
      then answer missing listing (list_dir sl F sort_names sv.sessions d c.id c.token tenant path)
      else answer missing content (read_file sl F sv.sessions d c.id c.token tenant path)

  -- `handleSessionFSGet`
  pub handle_fs_get :
      (List FileInfo → List FileInfo) → Server sl F → Disk → Bool → Caller → Bytes → Response FsBody
  unfolding read_path
  handle_fs_get sort_names sv d missing c path = elim (req_tenant c.context) [
    | inl r ↦ refused r
    | inr tenant ↦
        read_path sort_names sv d missing c tenant path
          (stat sl F sv.sessions d c.id c.token tenant path)
  ]

  after_write :
      Server sl F → Bool → ℕ → Manager sl F × Result Change → Server sl F × Response (Change × ℕ)
  after_write sv missing size (m, ok change) = (record sv { sessions = m }, sent 200 (change, size))
  after_write sv missing size (m, err e) =
      (record sv { sessions = m }, refused (write_sess_err missing e))

  -- `handleSessionFSPut`
  pub handle_fs_put :
      Server sl F
      → Disk
      → Bool
      → Bool
      → ℕ
      → Caller
      → Bytes
      → Option Bytes
      → Server sl F × Response (Change × ℕ)
  unfolding after_write
  handle_fs_put sv d written_ok missing now c path body = elim (req_tenant c.context) [
    | inl r ↦ (sv, refused r)
    | inr tenant ↦
        if is_empty path then (sv, refused (failure 400 (codes "path_required"))) else elim body [
          | none ↦ (sv, refused (failure 413 (codes "too_large")))
          | some bytes ↦
              after_write sv missing (length bytes)
                (write_file sl F sv.sessions d written_ok now c.id c.token tenant path bytes)
        ]
  ]

  -- `handleSessionFSDelete`
  pub handle_fs_delete : Server sl F → Caller → Bytes → Response Change
  handle_fs_delete sv c path = elim (req_tenant c.context) [
    | inl r ↦ refused r
    | inr tenant ↦ elim (delete_path sl F sv.sessions c.id c.token tenant path) [
      | ok change ↦ sent 204 change
      | err e ↦ refused (write_sess_err false e)
    ]
  ]
