-- ===== src/Kernel/Laws.antt =====
-- internal/session/kernel.go: the slots under the engine's operations.
use isobox.Prelude.{Bytes, arith, refl, ℕ, ◌≡◌}
use isobox.Sched.Laws.{Slots}
use isobox.Kernel.{Engine, Kernel, destroy, enter, reap}

module _ (sl : Slots) (F : Type 0) where
  pub destroy-slots : (e : Engine sl F) (id : Bytes) → (destroy sl F e id).0.slots ≡ e.slots
  unfolding destroy
  destroy-slots e id = ground arith

  pub enter-slots : (e : Engine sl F) (k : Kernel) → (enter sl F e k).slots ≡ e.slots
  unfolding enter
  enter-slots e k = refl

  pub reap-slots : (e : Engine sl F) (now : ℕ) → (reap sl F e now).0.slots ≡ e.slots
  unfolding reap
  reap-slots e now = refl
