-- ===== src/Session/Teardown/Races.antt =====
-- Racing teardowns: several goroutines that hold a pointer to the same session destroy, sweep or
-- reap it. The lock section of each is one step, so a race is a sequence of them in some order.
use isobox.Prelude.{
  Bytes-discrete, List, Option, [], ap, false, lookup, lookup-remove_self, none, refl, remove,
  remove_absent, some, ◌∙◌, ◌∷◌, ◌≡◌,
}
use isobox.Sched.Laws.{Slots}
use isobox.Session.{Manager, Session, Result}
use isobox.Session.Teardown.{with_result, drop, drop_reaped, destroy_found, claim}
use isobox.Session.Teardown.Balance.{
  IsBalanced, claimed-IsBalanced, drop-IsBalanced, drop_reaped-IsBalanced, destroy_found-claimed,
}

-- `Destroy` past its authentication, with what os.RemoveAll answers it, `drop` and `dropReaped`.
pub data Racer : Type 0 where
  destroyer : Result (Unit {0}) → Racer
  sweeper reaper : Racer

module _ (sl : Slots) (F : Type 0) where
  abbrev state_of : Option (Manager sl F × Result (Unit {0})) → Option (Manager sl F)
  state_of none = none
  state_of (some (m, r)) = some m

  -- One racer's teardown of the session that its pointer leads to; none where it panics.
  pub tear : Racer → Manager sl F → Session → Option (Manager sl F)
  tear (destroyer cleared) m s = state_of (destroy_found sl F m cleared s)
  tear sweeper m s = drop sl F m s
  tear reaper m s = drop_reaped sl F m s

  -- All racers, in the order in which they reach their lock sections.
  pub race : List Racer → Manager sl F → Session → Option (Manager sl F)
  unfolding tear
  race [] m s = some m
  race (r ∷ rs) m s = elim (tear r m s) [ none ↦ none | some m' ↦ race rs m' s ]

  tear_found :
      (r : Racer) (m : Manager sl F) (s : Session)
      → IsBalanced sl F m
      → lookup Bytes-discrete s.id m.sessions ≡ some s
      → (m' : Manager sl F) × (tear r m s ≡ some m')
        × IsBalanced sl F m'
        × (m'.sessions ≡ remove Bytes-discrete s.id m.sessions)
  unfolding tear destroy_found with_result
  tear_found (destroyer cleared) m s v e =
      let (m', torn, kept, left, config) = claimed-IsBalanced sl F false m s v e in
      (
        m',
        ap state_of (destroy_found-claimed sl F m cleared s e)
            ∙ ap (λ x. state_of (with_result sl F cleared x)) torn,
        kept,
        left,
      )
  tear_found sweeper m s v e =
      let (m', torn, kept, left, config) = drop-IsBalanced sl F m s v e in (m', torn, kept, left)
  tear_found reaper m s v e =
      let (m', torn, kept, left, config) = drop_reaped-IsBalanced sl F m s v e in
      (m', torn, kept, left)

  claim-gone :
      (m : Manager sl F) (s : Session)
      → lookup Bytes-discrete s.id m.sessions ≡ none
      → claim sl F m s.id ≡ (record m { sessions = remove Bytes-discrete s.id m.sessions }, false)
  unfolding claim
  claim-gone m s e = rw e refl

  tear_gone :
      (r : Racer) (m : Manager sl F) (s : Session)
      → lookup Bytes-discrete s.id m.sessions ≡ none
      → tear r m s ≡ some (record m { sessions = remove Bytes-discrete s.id m.sessions })
  unfolding tear destroy_found drop drop_reaped
  tear_gone (destroyer cleared) m s e = rw (claim-gone m s e, destroy_found) refl
  tear_gone sweeper m s e = rw (claim-gone m s e, drop) refl
  tear_gone reaper m s e = rw (claim-gone m s e, drop_reaped) refl

  race_gone :
      (rs : List Racer) (m : Manager sl F) (s : Session)
      → IsBalanced sl F m
      → lookup Bytes-discrete s.id m.sessions ≡ none
      → (m' : Manager sl F) × (race rs m s ≡ some m')
        × IsBalanced sl F m'
        × (m'.sessions ≡ m.sessions)
        × (m'.kernels ≡ m.kernels)
        × (m'.effects ≡ m.effects)
  unfolding race
  race_gone [] m s v e = (m, refl, v, refl, refl, refl)
  race_gone (r ∷ rs) m s v e =
      let same = remove_absent Bytes-discrete s.id m.sessions e in
      let left = record m { sessions = remove Bytes-discrete s.id m.sessions } in
      let v' : IsBalanced sl F left = record {
        distinct = rw same v.distinct;
        matched = rw same v.matched;
      } in
      let (m', run, kept, sessions, kernels, effects) =
        race_gone rs left s v' (lookup-remove_self Bytes-discrete s.id m.sessions) in
      (m', rw (tear_gone r m s e, race) run, kept, sessions ∙ same, kernels, effects)

  -- However many destroys, sweeps and reaps of one session race, in whatever order, none of them
  -- panics, and the outcome is that of the first alone: it tears the session down and accounts for
  -- its slot, and the others change neither the map nor the engine, and remove nothing.
  pub race-IsBalanced :
      (r : Racer) (rs : List Racer) (m : Manager sl F) (s : Session)
      → IsBalanced sl F m
      → lookup Bytes-discrete s.id m.sessions ≡ some s
      → (first : Manager sl F) × (m' : Manager sl F) × (tear r m s ≡ some first)
        × (race (r ∷ rs) m s ≡ some m')
        × IsBalanced sl F m'
        × (m'.sessions ≡ remove Bytes-discrete s.id m.sessions)
        × (m'.kernels ≡ first.kernels)
        × (m'.effects ≡ first.effects)
  unfolding race
  race-IsBalanced r rs m s v e =
      let (first, torn, kept, left) = tear_found r m s v e in
      let gone =
        ap (lookup Bytes-discrete s.id) left ∙ lookup-remove_self Bytes-discrete s.id m.sessions in
      let (m', run, kept', sessions, kernels, effects) = race_gone rs first s kept gone in
      (first, m', torn, rw (torn, race) run, kept', sessions ∙ left, kernels, effects)
