-- ===== src/Session/Sweep.antt =====
-- internal/session/manager.go: `Sweep` and `SweepKernels`. `du` is what dirSize measures of a
-- workspace; the order of the snapshot is the list's.
pub mod Sorted
pub mod Bounds
pub mod Loop
pub mod Whole
pub mod Kernels
mod Tests
use isobox.Prelude.{
  Bool, Bytes, Bytes-discrete, List, Option, [], false, if◌then◌else◌, leb, lookup, ltb, map, none,
  some, true, ℕ, ◌++◌, ◌+◌, ◌-◌, ◌||◌, ◌∷◌,
}
use isobox.Sched.Laws.{Slots}
use isobox.Kernel.{Engine, reap}
use isobox.Session.{Manager, Session, remove_container, Config}
use isobox.Session.Teardown.{drop, drop_reaped}

-- `sized`
pub record Sized : Type 0 where
  pub session : Session
  pub size : ℕ

-- `sort.Slice` by falling size.
insert_sized : Sized → List Sized → List Sized
insert_sized x [] = x ∷ []
insert_sized x (y ∷ ys) =
    let rest = insert_sized x ys in if ltb x.size y.size then y ∷ rest else x ∷ y ∷ ys

pub sort_sized : List Sized → List Sized
unfolding insert_sized
sort_sized [] = []
sort_sized (x ∷ xs) = insert_sized x (sort_sized xs)

module _ (du : Bytes → ℕ) (now : ℕ) where
  -- The tests of the first loop: an idle filesystem session, or one over its own quota.
  pub must_go : Config → Session → Bool
  must_go c s =
      (elim s.kernel [ none ↦ ltb s.idle_ttl (now - s.last_activity) | some _ ↦ false ])
      || ltb c.disk_quota (du s.workspace)

module _ (sl : Slots) (F : Type 0) where
  -- What the first loop has found: the manager, the sessions kept with their sizes, the total.
  pub record Pass : Type 0 where
    pub manager : Manager sl F
    pub live : List Sized
    pub total : ℕ

  -- The second loop: sessions are dropped until the total fits.
  pub cull : Manager sl F → List Sized → ℕ → Option (Manager sl F × ℕ)
  cull m [] total = some (m, total)
  cull m (l ∷ ls) total = elim (leb total m.global_disk_max) [
    | true ↦ some (m, total)
    | false ↦ elim (drop sl F m l.session) [ none ↦ none | some m' ↦ cull m' ls (total - l.size) ]
  ]

  set_used : Option (Manager sl F × ℕ) → Option (Manager sl F)
  set_used none = none
  set_used (some (m, total)) = some (record m { used = total })

module _ (sl : Slots) (F : Type 0) (du : Bytes → ℕ) (now : ℕ) where
  -- One round of the first loop.
  pub visit : Pass sl F → Session → Option (Pass sl F)
  visit p s =
      if must_go du now p.manager.config s
      then elim (drop sl F p.manager s) [ none ↦ none | some m ↦ some (record p { manager = m }) ]
      else some (record p {
        live = record { session = s; size = du s.workspace } ∷ p.live;
        total = p.total + du s.workspace;
      })

  pub visit_all : Pass sl F → List Session → Option (Pass sl F)
  visit_all p [] = some p
  visit_all p (s ∷ ss) = elim (visit p s) [ none ↦ none | some p' ↦ visit_all p' ss ]

  -- `Sweep`
  pub sweep : Manager sl F → Option (Manager sl F)
  sweep m =
      let snap = map (λ (e : Bytes × Session). e.1) m.sessions in
      elim (visit_all (record { manager = m; live = []; total = 0 }) snap) [
        | none ↦ none
        | some p ↦ set_used sl F (cull sl F p.manager (sort_sized p.live) p.total)
      ]

module _ (sl : Slots) (F : Type 0) where
  -- The loop of `SweepKernels` over the ids that Reap returned.
  pub drop_all : Manager sl F → List Bytes → Option (Manager sl F)
  drop_all m [] = some m
  drop_all m (id ∷ ids) = elim (lookup Bytes-discrete id m.sessions) [
    | none ↦ drop_all m ids
    | some s ↦ elim (drop_reaped sl F m s) [ none ↦ none | some m' ↦ drop_all m' ids ]
  ]

  -- `SweepKernels`, by whether there is an engine.
  sweep_engine : Manager sl F → ℕ → Option (Engine sl F) → Option (Manager sl F)
  unfolding drop_all
  sweep_engine m now none = some m
  sweep_engine m now (some e) =
      let (e', containers, ids) = reap sl F e now in
      drop_all
        (record m { kernels = some e'; effects = map remove_container containers ++ m.effects }) ids

  -- `SweepKernels`
  pub sweep_kernels : Manager sl F → ℕ → Option (Manager sl F)
  unfolding sweep_engine
  sweep_kernels m now = sweep_engine m now m.kernels
