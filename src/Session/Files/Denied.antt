-- ===== src/Session/Files/Denied.antt =====
-- internal/session/manager.go: the file operations for a caller who is not let in.
use isobox.Prelude.{Bool, Bytes, refl, ℕ, ◌≡◌}
use isobox.Sched.Laws.{Slots}
use isobox.Session.{Manager, Error, err, authed}
use isobox.Session.Files.{Disk, locate, stat, write_file, delete_path}

module _ (sl : Slots) (F : Type 0) where
  locate-denied :
      (m : Manager sl F) (id token tenant rel : Bytes) (e : Error)
      → authed sl F m id token tenant ≡ err e
      → locate sl F m id token tenant rel ≡ err e
  unfolding locate
  locate-denied m id token tenant rel e h = rw (h, locate) refl

  pub stat-denied :
      (m : Manager sl F) (d : Disk) (id token tenant rel : Bytes) (e : Error)
      → authed sl F m id token tenant ≡ err e
      → stat sl F m d id token tenant rel ≡ err e
  unfolding stat
  stat-denied m d id token tenant rel e h = rw (locate-denied m id token tenant rel e h, stat) refl

  pub write_file-denied :
      (m : Manager sl F) (d : Disk) (b : Bool) (now : ℕ) (id token tenant rel content : Bytes)
      (e : Error)
      → authed sl F m id token tenant ≡ err e
      → write_file sl F m d b now id token tenant rel content ≡ (m, err e)
  unfolding write_file
  write_file-denied m d b now id token tenant rel content e h =
      rw (locate-denied m id token tenant rel e h, write_file) refl

  pub delete_path-denied :
      (m : Manager sl F) (id token tenant rel : Bytes) (e : Error)
      → authed sl F m id token tenant ≡ err e
      → delete_path sl F m id token tenant rel ≡ err e
  unfolding delete_path
  delete_path-denied m id token tenant rel e h =
      rw (locate-denied m id token tenant rel e h, delete_path) refl
