-- ===== src/Session/Teardown.antt =====
-- internal/session/manager.go: `Destroy`, `drop` and `dropReaped`. The removal from the map is one
-- step under the lock, `claim`; what follows it runs for the caller that found the session there.
pub mod Balance
pub mod Races
pub mod Effects
use isobox.Prelude.{
  Bool, Bytes, Bytes-discrete, List, Option, false, if◌then◌else◌, lookup, map, none, remove, some,
  true, ◌++◌, ◌∷◌,
}
use isobox.Paths.{dir}
use isobox.Sched.Laws.{Slots}
use isobox.Kernel.{Engine, destroy}
use isobox.Session.{
  Manager, Effect, Result, Session, authed, err, not_found, ok, on_drop, remove_container,
  remove_dir,
}

module _ (sl : Slots) (F : Type 0) where
  -- The lock section: `_, present := m.sessions[id]; delete(m.sessions, id)`.
  pub claim : Manager sl F → Bytes → Manager sl F × Bool
  claim m id = (
    record m { sessions = remove Bytes-discrete id m.sessions },
    elim (lookup Bytes-discrete id m.sessions) [ none ↦ false | some _ ↦ true ],
  )

  removals : List Bytes → List Effect
  removals = map remove_container

  -- `m.Kernels.Slots.Release()`; none where it panics.
  release_slot : Manager sl F → Engine sl F → Option (Manager sl F)
  release_slot m e = elim (sl.give_slot e.slots) [
    | none ↦ none
    | some slots ↦ some (record m { kernels = some (record e { slots = slots }) })
  ]

  -- The container goes, unless Reap has removed it, and then the slot.
  free_held :
      Bool → Manager sl F → Bytes → Option Bytes → Option (Engine sl F) → Option (Manager sl F)
  unfolding removals release_slot
  free_held reaped m id none engine = some m
  free_held reaped m id (some _) none = some m
  free_held true m id (some _) (some e) = release_slot m e
  free_held false m id (some _) (some e) =
      let (e', containers) = destroy sl F e id in
      release_slot (record m { effects = removals containers ++ m.effects }) e'

  -- `if s.k != nil && m.Kernels != nil { … }`
  pub free_kernel : Bool → Manager sl F → Session → Option (Manager sl F)
  unfolding free_held
  free_kernel reaped m s = free_held reaped m s.id s.kernel m.kernels

  -- OnDrop and `os.RemoveAll(filepath.Dir(s.Workspace))`.
  pub finish : Manager sl F → Session → Manager sl F
  finish m s = record m { effects = remove_dir (dir s.workspace) ∷ on_drop s.id ∷ m.effects }

  finish_freed : Session → Option (Manager sl F) → Option (Manager sl F)
  unfolding finish
  finish_freed s none = none
  finish_freed s (some m) = some (finish m s)

  -- What the caller that claimed the session does.
  pub tear_down : Bool → Manager sl F → Session → Option (Manager sl F)
  unfolding free_kernel finish_freed
  tear_down reaped m s = finish_freed s (free_kernel reaped m s)

  -- `drop`
  pub drop : Manager sl F → Session → Option (Manager sl F)
  drop m s = let (m', present) = claim m s.id in if present then tear_down false m' s else some m'

  -- `dropReaped`
  pub drop_reaped : Manager sl F → Session → Option (Manager sl F)
  drop_reaped m s =
      let (m', present) = claim m s.id in if present then tear_down true m' s else some m'

  pub with_result :
      {A : Type 0} → Result A → Option (Manager sl F) → Option (Manager sl F × Result A)
  with_result r none = none
  with_result r (some m) = some (m, r)

  -- `Destroy` once `authed` has returned the session; `cleared` is what os.RemoveAll answers.
  pub destroy_found :
      Manager sl F → Result (Unit {0}) → Session → Option (Manager sl F × Result (Unit {0}))
  unfolding with_result
  destroy_found m cleared s =
      let (m', present) = claim m s.id in
      if present then with_result cleared (tear_down false m' s) else some (m', err not_found)

  -- `Destroy`
  pub destroy_session :
      Manager sl F
      → Result (Unit {0})
      → Bytes
      → Bytes
      → Bytes
      → Option (Manager sl F × Result (Unit {0}))
  destroy_session m cleared id token tenant = elim (authed sl F m id token tenant) [
    | err e ↦ some (m, err e)
    | ok s ↦ destroy_found m cleared s
  ]
