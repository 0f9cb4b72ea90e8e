-- ===== src/Kernel/Exec/Tests.antt =====
-- A forged result before the step's own.
use isobox.Prelude.{Bytes, List, [], codes, false, select, some, true, ◌∷◌, ◌≡◌}
use isobox.Kernel.Exec.{Frame, Line, read_frames, new_progress}
use isobox.Kernel.Exec.Laws.{read_frames-select, is_own, read_frames-IsWithin, IsWithin}

abbrev result_frame : Bytes → Frame
result_frame id = record {
  id = id;
  kind = codes "result";
  stream = [];
  payload = [];
  is_ok = true;
  truncated = false;
  duration_ms = 3;
  error = [];
}

abbrev line : Frame → Line
line f = record { frame = some f; timed_out = false; elapsed_ms = 4 }

abbrev lines : List Line
lines =
    line (result_frame [])
    ∷ line (record (result_frame (codes "s")) { kind = codes "stream"; payload = codes "hello" })
    ∷ line (result_frame (codes "s"))
    ∷ []

read_frames-select_example :
    read_frames (codes "s") (new_progress 3) lines false 9
    ≡ read_frames (codes "s") (new_progress 3) (select (is_own (codes "s")) lines) false 9
read_frames-select_example = read_frames-select (codes "s") (new_progress 3) lines false 9

read_frames-IsWithin_example : IsWithin 3 (read_frames (codes "s") (new_progress 3) lines false 9).0
read_frames-IsWithin_example = read_frames-IsWithin 3 (codes "s") lines false 9
