-- ===== src/Session/Teardown/Effects.antt =====
-- internal/session/manager.go: whose volumes a teardown releases, through `OnDrop`.
use isobox.Prelude.{
  All, All-append, Bool, Bytes, Bytes-discrete, List, Option, Option-cases, [], false, inl, inr,
  lookup, none, refl, some, subst, sym, true, ◌++◌, ◌∷◌, ◌≡◌,
}
use isobox.Sched.Laws.{Slots}
use isobox.Kernel.{Engine, destroy}
use isobox.Session.{Manager, Session, Effect, on_drop, Result, ok, Result-cases, authed}
use isobox.Session.Teardown.{
  drop, claim, tear_down, finish, free_held, release_slot, free_kernel, removals, finish_freed,
  destroy_found, with_result, destroy_session,
}

-- OnDrop is called with no other id.
abbrev pub OnlyDrops : Bytes → Effect → Type 0
OnlyDrops id (on_drop j) = j ≡ id
OnlyDrops id _ = Unit {0}

-- OnDrop is not called.
abbrev pub NoDrop : Effect → Type 0
NoDrop (on_drop j) = ⊥
NoDrop _ = Unit {0}

module _ (sl : Slots) (F : Type 0) where
  abbrev pub Quiet : Bytes → Option (Manager sl F) → Type 0
  Quiet id none = Unit
  Quiet id (some m) = All (OnlyDrops id) m.effects

  removals-Quiet : (id : Bytes) (cs : List Bytes) → All (OnlyDrops id) (removals sl F cs)
  unfolding removals
  removals-Quiet id [] = tt
  removals-Quiet id (c ∷ cs) = (tt, removals-Quiet id cs)

  release_slot-Quiet :
      (id : Bytes) (m : Manager sl F) (e : Engine sl F)
      → All (OnlyDrops id) m.effects
      → Quiet id (release_slot sl F m e)
  unfolding release_slot
  release_slot-Quiet id m e h = elim (Option-cases (sl.give_slot e.slots)) [
    | inl panics ↦ rw (panics, release_slot) tt
    | inr (t, given) ↦ rw (given, release_slot) h
  ]

  free_held-Quiet :
      (id : Bytes) (reaped : Bool) (m : Manager sl F) (j : Bytes) (k : Option Bytes)
      (o : Option (Engine sl F))
      → All (OnlyDrops id) m.effects
      → Quiet id (free_held sl F reaped m j k o)
  unfolding free_held
  free_held-Quiet id reaped m j none o h = h
  free_held-Quiet id reaped m j (some k) none h = h
  free_held-Quiet id true m j (some k) (some e) h = release_slot-Quiet id m e h
  free_held-Quiet id false m j (some k) (some e) h =
      release_slot-Quiet id (record m { effects = removals sl F (destroy sl F e j).1 ++ m.effects })
        (destroy sl F e j).0
        (All-append (OnlyDrops id) (removals sl F (destroy sl F e j).1) m.effects
          (removals-Quiet id (destroy sl F e j).1) h)

  finish_freed-Quiet :
      (m : Manager sl F) (s : Session) (o : Option (Manager sl F))
      → Quiet s.id o
      → Quiet s.id (finish_freed sl F s o)
  unfolding finish_freed finish
  finish_freed-Quiet m s none h = tt
  finish_freed-Quiet m s (some n) h = (tt, (refl, h))

  tear_down-Quiet :
      (reaped : Bool) (m : Manager sl F) (s : Session)
      → All (OnlyDrops s.id) m.effects
      → Quiet s.id (tear_down sl F reaped m s)
  unfolding tear_down free_kernel
  tear_down-Quiet reaped m s h =
      finish_freed-Quiet m s _ (free_held-Quiet s.id reaped m s.id s.kernel m.kernels h)

  -- A drop calls OnDrop for its session at most.
  pub drop-Quiet :
      (m : Manager sl F) (s : Session) → All (OnlyDrops s.id) m.effects → Quiet s.id (drop sl F m s)
  unfolding drop claim
  drop-Quiet m s h = elim (Option-cases (lookup Bytes-discrete s.id m.sessions)) [
    | inl gone ↦ rw (gone, drop, Quiet) h
    | inr (t, there) ↦ rw (there, drop, Quiet) (tear_down-Quiet false (claim sl F m s.id).0 s h)
  ]

  abbrev pub QuietResult : Bytes → Option (Manager sl F × Result (Unit {0})) → Type 0
  QuietResult id none = Unit
  QuietResult id (some (m, r)) = All (OnlyDrops id) m.effects

  with_result-Quiet :
      (id : Bytes) (r : Result (Unit {0})) (o : Option (Manager sl F))
      → Quiet id o
      → QuietResult id (with_result sl F r o)
  unfolding with_result
  with_result-Quiet id r none h = tt
  with_result-Quiet id r (some m) h = h

  -- So too for a Destroy.
  pub destroy_found-Quiet :
      (m : Manager sl F) (cleared : Result (Unit {0})) (s : Session)
      → All (OnlyDrops s.id) m.effects
      → QuietResult s.id (destroy_found sl F m cleared s)
  unfolding destroy_found claim
  destroy_found-Quiet m cleared s h = elim (Option-cases (lookup Bytes-discrete s.id m.sessions)) [
    | inl gone ↦ rw (gone, destroy_found, QuietResult) h
    | inr (t, there) ↦
        rw (there, destroy_found, QuietResult)
          (with_result-Quiet s.id cleared _ (tear_down-Quiet false (claim sl F m s.id).0 s h))
  ]

  pub destroy_session-Quiet :
      (m : Manager sl F) (cleared : Result (Unit {0})) (id token tenant : Bytes)
      → ((s : Session) → authed sl F m id token tenant ≡ ok s → s.id ≡ id)
      → All (OnlyDrops id) m.effects
      → QuietResult id (destroy_session sl F m cleared id token tenant)
  unfolding destroy_session
  destroy_session-Quiet m cleared id token tenant own h =
      elim (Result-cases (authed sl F m id token tenant)) [
        | inl (e, out) ↦ rw (out, destroy_session, QuietResult) h
        | inr (s, found) ↦
            let same = own s found in
            rw (found, destroy_session)
              (subst (λ j. QuietResult j (destroy_found sl F m cleared s)) same
                (destroy_found-Quiet m cleared s
                  (subst (λ j. All (OnlyDrops j) m.effects) (sym same) h)))
      ]
