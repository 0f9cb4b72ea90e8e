-- ===== src/Session/Files.antt =====
-- internal/session/manager.go: the file operations of a session and its execution steps. What the
-- file system answers (sizes, whether a path is a directory, its entries) is an input; what the
-- operation does to it is its result. A None size stands for a failing stat.
pub mod Paths
pub mod Steps
pub mod Denied
use isobox.Prelude.{
  Bool, Bytes, List, Option, [], codes, if◌then◌else◌, length, ltb, none, not, some, true, ℕ, ◌&&◌,
  ◌++◌, ◌+◌, ◌∷◌,
}
use isobox.Executor.{Mount, Spec, Outcome}
use isobox.Sched.Laws.{Slots}
use isobox.Session.{
  ◌>>=◌, bad_path, system_failed, is_dir, quota, capacity, Manager, Session, Result, ok, err,
  authed, touch,
}
use isobox.Strings.{trim_space, has_prefix, str_eq}
use isobox.Paths.{clean, join_path, slash, dir}

-- `safePath`
pub safe_path : Session → Bytes → Result Bytes
safe_path s rel =
    let p = join_path s.workspace (clean (slash ∷ trim_space rel)) in
    if not (str_eq p s.workspace) && not (has_prefix p (s.workspace ++ slash ∷ []))
    then err bad_path
    else ok p

-- `FileInfo`, without the modification time.
pub record FileInfo : Type 0 where
  pub name : Bytes
  pub size : ℕ
  pub is_directory : Bool

-- What the disk answers about a path and a workspace.
pub record Disk : Type 0 where
  pub stat : Bytes → Option FileInfo
  pub content : Bytes → Option Bytes
  pub entries : Bytes → Option (List (Option FileInfo))
  pub dir_size : Bytes → ℕ

-- A change of the disk.
pub data Change : Type 0 where
  written : (parent path content : Bytes) → Change
  deleted : (path : Bytes) → Change

-- A failing system call, or its result.
abbrev from_system {ℓ} : {A : Type ℓ} → Option A → Result A
from_system none = err system_failed
from_system (some a) = ok a

-- The entries that could be read.
pub readable : List (Option FileInfo) → List FileInfo
readable [] = []
readable (none ∷ es) = readable es
readable (some e ∷ es) = e ∷ readable es

module _ (sl : Slots) (F : Type 0) where
  -- The gate and the path that every file operation begins with.
  pub locate : Manager sl F → Bytes → Bytes → Bytes → Bytes → Result (Session × Bytes)
  unfolding safe_path authed
  locate m id token tenant rel = do
    s ← authed sl F m id token tenant
    p ← safe_path s rel
    ok (s, p)

  -- `Stat`
  pub stat : Manager sl F → Disk → Bytes → Bytes → Bytes → Bytes → Result FileInfo
  unfolding locate
  stat m d id token tenant rel = do (s, p) ← locate m id token tenant rel; from_system (d.stat p)

  -- `ReadFile`
  pub read_file : Manager sl F → Disk → Bytes → Bytes → Bytes → Bytes → Result Bytes
  unfolding locate
  read_file m d id token tenant rel = do
    (s, p) ← locate m id token tenant rel
    elim (d.stat p) [
      | none ↦ from_system (d.content p)
      | some i ↦ if i.is_directory then err is_dir else from_system (d.content p)
    ]

  -- `ListDir`; `sort_names` is the sort of the entries by name.
  pub list_dir :
      (List FileInfo → List FileInfo)
      → Manager sl F
      → Disk
      → Bytes
      → Bytes
      → Bytes
      → Bytes
      → Result (List FileInfo)
  unfolding locate readable
  list_dir sort_names m d id token tenant rel = do
    (s, p) ← locate m id token tenant rel
    es ← from_system (d.entries p)
    ok (sort_names (readable es))

  -- The quota test of WriteFile: `dirSize - old + len(data) > DiskQuota`, without a subtraction.
  pub over_quota : Manager sl F → Disk → Session → Bytes → Bytes → Bool
  over_quota m d s p content =
      let old : ℕ = elim (d.stat p) [ none ↦ 0 | some i ↦ i.size ] in
      ltb (m.disk_quota + old) (d.dir_size s.workspace + length content)

  -- `WriteFile`; `written_ok` tells whether the two system calls succeed.
  pub write_file :
      Manager sl F
      → Disk
      → Bool
      → ℕ
      → Bytes
      → Bytes
      → Bytes
      → Bytes
      → Bytes
      → Manager sl F × Result Change
  unfolding locate over_quota touch
  write_file m d written_ok now id token tenant rel content = elim (locate m id token tenant rel) [
    | err e ↦ (m, err e)
    | ok (s, p) ↦
        if over_quota m d s p content
        then (m, err quota)
        else if written_ok
        then (touch sl F m s now, ok (written (dir p) p content))
        else (m, err system_failed)
  ]

  -- `DeletePath`
  pub delete_path : Manager sl F → Bytes → Bytes → Bytes → Bytes → Result Change
  unfolding locate
  delete_path m id token tenant rel = do
    (s, p) ← locate m id token tenant rel
    if str_eq p s.workspace then err bad_path else ok (deleted p)

  -- The spec of a step: the session's workspace and its volumes are mounted.
  pub step_spec : Session → Spec F → Spec F
  step_spec s spec =
      let workspace : Mount = record {
        host_path = s.workspace;
        target = codes "/workspace";
        rw = true;
      } in
      record spec {
        workdir = codes "/workspace";
        mounts = spec.mounts ++ (workspace ∷ []) ++ s.extra_mounts;
      }

  -- `Exec`; `freed` is what the wait for a slot brings, `run` the backend. None where Release
  -- panics.
  pub exec :
      Manager sl F
      → (Spec F → Result Outcome)
      → Bool
      → ℕ
      → Bytes
      → Bytes
      → Bytes
      → Spec F
      → Option (Manager sl F × Result Outcome)
  unfolding step_spec authed touch
  exec m run freed now id token tenant spec = elim (authed sl F m id token tenant) [
    | err e ↦ some (m, err e)
    | ok s ↦
        let (sema, taken) = sl.take_slot m.sema freed in
        if taken
        then elim (sl.give_slot sema) [
          | none ↦ none
          | some given ↦ some (touch sl F (record m { sema = given }) s now, run (step_spec s spec))
        ]
        else some (record m { sema = sema }, err capacity)
  ]
