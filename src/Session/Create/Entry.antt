-- ===== src/Session/Create/Entry.antt =====
-- internal/session/manager.go: what `Create` enters into the map, and that it drops no session.
use isobox.Prelude.{
  All, Bool-cases, Bytes, Bytes-discrete, Option, Option-cases, ap, codes, inl, inr, none, refl,
  some, update, ◌≡◌,
}
use isobox.Sched.Laws.{Slots}
use isobox.Kernel.{Engine}
use isobox.Session.{Manager, Session, Result, ok, err, make_dir}
use isobox.Session.Create.{
  create, make, attach_kernel, start_kernel, insert_made, insert, new_session, note, set_engine,
  admit, CreateOpts, Answers,
}
use isobox.Session.Create.Balance.{fresh_id}
use isobox.Session.Teardown.Effects.{NoDrop}
use isobox.Strings.{str_eq}

module _ (sl : Slots) (F : Type 0) where
  -- Before the entry: the map is unchanged, and the session is the one that was asked for.
  abbrev Halfway : Session → Manager sl F → Option (Manager sl F × Result Session) → Type 0
  Halfway s m none = Unit
  Halfway s m (some (n, err e)) = (n.sessions ≡ m.sessions) × All NoDrop n.effects
  Halfway s m (some (n, ok t)) =
      (n.sessions ≡ m.sessions) × (t.id ≡ s.id) × (t.tenant ≡ s.tenant) × All NoDrop n.effects

  -- After it: a failure leaves the map alone, and a success enters the session.
  abbrev pub Entered :
      Bytes → Bytes → Manager sl F → Option (Manager sl F × Result Session) → Type 0
  Entered id tenant m none = Unit
  Entered id tenant m (some (n, err e)) = (n.sessions ≡ m.sessions) × All NoDrop n.effects
  Entered id tenant m (some (n, ok t)) =
      (n.sessions ≡ update Bytes-discrete t.id t m.sessions)
      × (t.id ≡ id)
      × (t.tenant ≡ tenant)
      × All NoDrop n.effects

  start_kernel-Halfway :
      (m : Manager sl F) (e : Engine sl F) (s : Session) (image : Bytes) (a : Answers)
      → All NoDrop m.effects
      → Halfway s m (start_kernel sl F m e s image a)
  unfolding start_kernel
  start_kernel-Halfway m e s image a h = elim (Option-cases a.started) [
    | inl failed ↦ elim (Option-cases (sl.give_slot e.slots)) [
      | inl panics ↦ rw (failed, start_kernel, panics) tt
      | inr (t, given) ↦ rw (failed, start_kernel, given) (refl, (tt, h))
    ]
    | inr (container, started) ↦ rw (started, start_kernel) (refl, refl, refl, h)
  ]

  attach_kernel-Halfway :
      (m : Manager sl F) (s : Session) (image : Bytes) (a : Answers)
      → All NoDrop m.effects
      → Halfway s m (attach_kernel sl F m s image a)
  unfolding attach_kernel
  attach_kernel-Halfway m s image a h = elim (Option-cases m.kernels) [
    | inl none_there ↦ rw (none_there, attach_kernel) (refl, (tt, h))
    | inr (e, there) ↦ elim (Bool-cases (sl.take_slot e.slots a.freed).1) [
      | inl taken ↦
          let e' = record e { slots = (sl.take_slot e.slots a.freed).0 } in
          rw (there, attach_kernel, taken)
            (start_kernel-Halfway (set_engine sl F m e') e' s image a h)
      | inr full ↦ rw (there, attach_kernel, full) (refl, (tt, h))
    ]
  ]

  insert_made-Entered :
      (m : Manager sl F) (s : Session) (r : Option (Manager sl F × Result Session))
      → Halfway s m r
      → Entered s.id s.tenant m (insert_made sl F r)
  unfolding insert_made insert
  insert_made-Entered m s none h = tt
  insert_made-Entered m s (some (n, err e)) h = h
  insert_made-Entered m s (some (n, ok t)) (same, id, tenant, quiet) =
      (ap (update Bytes-discrete t.id t) same, id, tenant, quiet)

  make-Entered :
      (m : Manager sl F) (o : CreateOpts) (a : Answers) (name image : Bytes)
      → All NoDrop m.effects
      → Entered (fresh_id sl F o a) o.tenant m (make sl F m o a name image)
  unfolding make new_session insert
  make-Entered m o a name image h = elim (Option-cases a.token) [
    | inl missing ↦ rw (missing, make) (refl, h)
    | inr (token, given) ↦
        let s = new_session sl F m o a name token in
        let m' = note sl F m (make_dir s.workspace) in
        elim (Bool-cases a.made) [
          | inr failed ↦ rw (given, make, failed) (refl, h)
          | inl made ↦ elim (Bool-cases (str_eq s.kind (codes "kernel"))) [
            | inl kernel ↦
                rw (given, make, made, kernel)
                  (insert_made-Entered m' s (attach_kernel sl F m' s image a)
                    (attach_kernel-Halfway m' s image a (tt, h)))
            | inr plain ↦ rw (given, make, made, plain) (refl, refl, refl, (tt, h))
          ]
        ]
  ]

  -- A Create that fails leaves the map alone; one that succeeds enters its session under the id
  -- that was given or minted, for the tenant that was given. Neither drops a session.
  pub create-Entered :
      (m : Manager sl F) (o : CreateOpts) (a : Answers)
      → All NoDrop m.effects
      → Entered (fresh_id sl F o a) o.tenant m (create sl F m o a)
  unfolding create
  create-Entered m o a h = elim (Option-cases a.language) [
    | inl unknown ↦ rw (unknown, create) (refl, h)
    | inr ((name, image), known) ↦ elim (Option-cases (admit sl F m)) [
      | inl free ↦ rw (known, create, free) (make-Entered m o a name image h)
      | inr (e, full) ↦ rw (known, create, full) (refl, h)
    ]
  ]
