-- ===== src/Executor/CapWriter/Tests.antt =====
-- A capped stream.
use isobox.Prelude.{[], flatten, true, ◌∷◌, ◌≡◌}
use isobox.Executor.CapWriter.{new, pump}
use isobox.Executor.CapWriter.Laws.{pump-new}

pump-new_example : (pump true (new 3) ((1 ∷ 2 ∷ []) ∷ (3 ∷ 4 ∷ []) ∷ [])).0.buf ≡ 1 ∷ 2 ∷ 3 ∷ []
unfolding flatten
pump-new_example = (pump-new 3 ((1 ∷ 2 ∷ []) ∷ (3 ∷ 4 ∷ []) ∷ [])).0
