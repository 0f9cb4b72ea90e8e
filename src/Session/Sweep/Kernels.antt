-- ===== src/Session/Sweep/Kernels.antt =====
-- internal/session/manager.go: `SweepKernels`.
use isobox.Prelude.{
  All-lookup, All-remove, Bytes, Bytes-discrete, List, Option, Option-cases, [], ap, inl, inr,
  lookup, map, none, refl, some, subst, sym, ℕ, ◌++◌, ◌∙◌, ◌∷◌, ◌≡◌,
}
use isobox.Sched.Laws.{Slots}
use isobox.Kernel.{reap, Engine}
use isobox.Session.{Manager, Session, remove_container}
use isobox.Session.Teardown.Balance.{IsBalanced, Holds, kernel_sessions, drop_reaped-IsBalanced}
use isobox.Session.Sweep.{drop_all, sweep_engine, sweep_kernels}
use isobox.Session.Sweep.Loop.{IsKeyed}
use isobox.Kernel.Laws.{reap-slots}

module _ (sl : Slots) (F : Type 0) where
  -- A session that is found under an id has that id.
  pub found_keyed :
      (m : Manager sl F) (id : Bytes) (s : Session)
      → IsKeyed m.sessions
      → lookup Bytes-discrete id m.sessions ≡ some s
      → s.id ≡ id
  found_keyed m id s k e = All-lookup Bytes-discrete (λ e. e.1.id ≡ e.0) id s m.sessions k e

  drop_all-IsBalanced :
      (m : Manager sl F) (ids : List Bytes)
      → IsBalanced sl F m
      → IsKeyed m.sessions
      → (m' : Manager sl F) × (drop_all sl F m ids ≡ some m')
        × IsBalanced sl F m'
        × IsKeyed m'.sessions
        × (m'.config ≡ m.config)
  unfolding drop_all
  drop_all-IsBalanced m [] v k = (m, refl, v, k, refl)
  drop_all-IsBalanced m (id ∷ ids) v k = elim (Option-cases (lookup Bytes-discrete id m.sessions)) [
    | inl gone ↦
        let (m', run, kept, keyed, config) = drop_all-IsBalanced m ids v k in
        (m', rw (gone, drop_all) run, kept, keyed, config)
    | inr (s, found) ↦
        let own = found_keyed m id s k found in
        let (t, torn, kept, left, config) =
          drop_reaped-IsBalanced sl F m s v
            (ap (λ i. lookup Bytes-discrete i m.sessions) own ∙ found) in
        let keyed : IsKeyed t.sessions =
          rw left (All-remove Bytes-discrete (λ e. e.1.id ≡ e.0) s.id m.sessions k) in
        let (m', run, kept', keyed', config') = drop_all-IsBalanced t ids kept keyed in
        (m', rw (found, drop_all, torn) run, kept', keyed', config' ∙ config)
  ]

  sweep_engine-IsBalanced :
      (m : Manager sl F) (now : ℕ) (o : Option (Engine sl F))
      → m.kernels ≡ o
      → IsBalanced sl F m
      → IsKeyed m.sessions
      → (m' : Manager sl F) × (sweep_engine sl F m now o ≡ some m')
        × IsBalanced sl F m'
        × IsKeyed m'.sessions
        × (m'.config ≡ m.config)
  unfolding sweep_engine
  sweep_engine-IsBalanced m now none there v k = (m, refl, v, k, refl)
  sweep_engine-IsBalanced m now (some e) there v k =
      let (e', containers, ids) = reap sl F e now in
      let (good, held) = subst (λ x. Holds sl F x (kernel_sessions m.sessions)) there v.matched in
      let reaped : Manager sl F = record m {
        kernels = some e';
        effects = map remove_container containers ++ m.effects;
      } in
      let same = reap-slots sl F e now in
      let balanced : IsBalanced sl F reaped = record {
        distinct = v.distinct;
        matched = (subst (λ (x : sl.State). sl.Good x) (sym same) good, ap sl.held same ∙ held);
      } in
      drop_all-IsBalanced reaped ids balanced k

  -- SweepKernels of a balanced map, whose sessions stand under their ids, does not panic, whatever
  -- the engine reaps, and leaves such a map: each reaped session's slot is given back once.
  pub sweep_kernels-IsBalanced :
      (m : Manager sl F) (now : ℕ)
      → IsBalanced sl F m
      → IsKeyed m.sessions
      → (m' : Manager sl F) × (sweep_kernels sl F m now ≡ some m')
        × IsBalanced sl F m'
        × IsKeyed m'.sessions
        × (m'.config ≡ m.config)
  unfolding sweep_kernels
  sweep_kernels-IsBalanced m now v k = sweep_engine-IsBalanced m now m.kernels refl v k
