-- ===== src/Session/Create/Balance.antt =====
-- internal/session/manager.go: the kernel slots on the paths of `Create`.
use isobox.Prelude.{
  Bool, Bool-cases, Bytes, Bytes-discrete, Distinct, Option, Option-cases, ap, arith, codes, false,
  if◌then◌else◌, inl, inr, is_empty, lookup, none, refl, some, subst, sum_by-update_new, sym, true,
  update-Distinct, ◌++◌, ◌+◌, ◌∙◌, ◌≡◌,
}
use isobox.Sched.Laws.{Slots}
use isobox.Kernel.{Engine}
use isobox.Session.{Manager, Result, Session, err, ok}
use isobox.Session.Teardown.Balance.{Holds, has_kernel, kernel_sessions, IsBalanced}
use isobox.Kernel.Laws.{enter-slots}
use isobox.Session.{make_dir}
use isobox.Strings.{str_eq}
use isobox.Session.Create.{
  insert, Answers, start_kernel, attach_kernel, set_engine, CreateOpts, insert_made, create, admit,
  make, new_session, note,
}

module _ (sl : Slots) (F : Type 0) where
  -- A result that a Create may return: the slots of the map, and one for a new kernel session
  -- that is not yet in the map.
  abbrev Made : Bytes → Manager sl F → Option (Manager sl F × Result Session) → Type 0
  Made id m none = ⊥
  Made id m (some (m', err e)) =
      (m'.sessions ≡ m.sessions) × Holds sl F m'.kernels (kernel_sessions m.sessions)
  Made id m (some (m', ok s)) =
      (m'.sessions ≡ m.sessions)
      × (s.id ≡ id)
      × Holds sl F m'.kernels (kernel_sessions m.sessions + has_kernel s)

  start_kernel-Made :
      (m : Manager sl F) (e : Engine sl F) (s : Session) (image : Bytes) (a : Answers)
      → sl.Good e.slots
      → sl.held e.slots ≡ kernel_sessions m.sessions + 1
      → Made s.id m (start_kernel sl F m e s image a)
  unfolding start_kernel
  start_kernel-Made m e s image a good held = elim (Option-cases a.started) [
    | inl failed ↦
        let (t, given, good', fewer, same) = sl.give_held e.slots good (omega arith) in
        rw (failed, start_kernel, given) (refl, (good', omega arith))
    | inr (container, started) ↦
        rw (started, start_kernel)
          (
            refl,
            refl,
            (
              subst (λ (x : sl.State). sl.Good x) (sym (enter-slots sl F e _)) good,
              ap sl.held (enter-slots sl F e _) ∙ held,
            ),
          )
  ]

  -- The branch for a kernel session never panics; it holds a slot more exactly when it succeeds.
  attach_kernel-Made :
      (m : Manager sl F) (s : Session) (image : Bytes) (a : Answers)
      → Holds sl F m.kernels (kernel_sessions m.sessions)
      → Made s.id m (attach_kernel sl F m s image a)
  unfolding attach_kernel
  attach_kernel-Made m s image a h = elim (Option-cases m.kernels) [
    | inl none_there ↦ rw (none_there, attach_kernel) (refl, h)
    | inr (e, there) ↦
        let (good, held) = subst (λ x. Holds sl F x (kernel_sessions m.sessions)) there h in
        let good' = sl.take_good e.slots a.freed good in
        let counted : (b : Bool)
            → (sl.take_slot e.slots a.freed).1 ≡ b
            → sl.held (sl.take_slot e.slots a.freed).0
              ≡ (if b then sl.held e.slots + 1 else sl.held e.slots) =
          λ b q.
            subst
              (λ c.
                sl.held (sl.take_slot e.slots a.freed).0
                ≡ (if c then sl.held e.slots + 1 else sl.held e.slots))
              q (sl.take_held e.slots a.freed good) in
        elim (Bool-cases (sl.take_slot e.slots a.freed).1) [
          | inl taken ↦
              rw (there, attach_kernel, taken)
                (start_kernel-Made
                  (set_engine sl F m (record e { slots = (sl.take_slot e.slots a.freed).0 }))
                  (record e { slots = (sl.take_slot e.slots a.freed).0 }) s image a good'
                  (counted true taken ∙ ap (λ n. n + 1) held))
          | inr refused ↦
              rw (there, attach_kernel, refused) (refl, (good', counted false refused ∙ held))
        ]
  ]

  -- The id of the new session.
  abbrev pub fresh_id : CreateOpts → Answers → Bytes
  fresh_id o a = if is_empty o.id then codes "sess_" ++ a.uuid else o.id

  abbrev After : Option (Manager sl F × Result Session) → Type 0
  After none = ⊥
  After (some (m, r)) = IsBalanced sl F m

  insert_made-After :
      (m : Manager sl F) (s : Session) (r : Option (Manager sl F × Result Session))
      → Distinct Bytes-discrete m.sessions
      → lookup Bytes-discrete s.id m.sessions ≡ none
      → Made s.id m r
      → After (insert_made sl F r)
  unfolding insert_made insert
  insert_made-After m s none d h made = elim made [ ]
  insert_made-After m s (some (m', err e)) d h (kept, held) = record {
    distinct = rw kept d;
    matched = rw kept held;
  }
  insert_made-After m s (some (m', ok t)) d h (kept, same, held) =
      let absent = ap (λ i. lookup Bytes-discrete i m.sessions) same ∙ h in
      record {
        distinct = rw kept (update-Distinct Bytes-discrete t.id t m.sessions d);
        matched =
            rw (kept, sum_by-update_new Bytes-discrete has_kernel t.id t m.sessions absent) held;
      }

  insert-After :
      (m : Manager sl F) (s : Session)
      → IsBalanced sl F m
      → s.kernel ≡ none
      → lookup Bytes-discrete s.id m.sessions ≡ none
      → IsBalanced sl F (insert sl F m s)
  unfolding insert
  insert-After m s v e h =
      let added = sum_by-update_new Bytes-discrete has_kernel s.id s m.sessions h in
      let light : has_kernel s ≡ 0 = rw e refl in
      record {
        distinct = update-Distinct Bytes-discrete s.id s m.sessions v.distinct;
        matched = subst (Holds sl F m.kernels) (omega (arith, added, light)) v.matched;
      }

  make-After :
      (m : Manager sl F) (o : CreateOpts) (a : Answers) (name image : Bytes)
      → IsBalanced sl F m
      → lookup Bytes-discrete (fresh_id o a) m.sessions ≡ none
      → After (make sl F m o a name image)
  unfolding make new_session
  make-After m o a name image v h = elim (Option-cases a.token) [
    | inl missing ↦ rw (missing, make) v
    | inr (token, given) ↦
        let s = new_session sl F m o a name token in
        let m' = note sl F m (make_dir s.workspace) in
        elim (Bool-cases a.made) [
          | inr failed ↦ rw (given, make, failed) v
          | inl made ↦ elim (Bool-cases (str_eq s.kind (codes "kernel"))) [
            | inl kernel ↦
                rw (given, make, made, kernel)
                  (insert_made-After m' s (attach_kernel sl F m' s image a) v.distinct h
                    (attach_kernel-Made m' s image a v.matched))
            | inr plain ↦
                rw (given, make, made, plain)
                  (insert-After m' s (record { distinct = v.distinct; matched = v.matched }) refl h)
          ]
        ]
  ]

  create-After :
      (m : Manager sl F) (o : CreateOpts) (a : Answers)
      → IsBalanced sl F m
      → lookup Bytes-discrete (fresh_id o a) m.sessions ≡ none
      → After (create sl F m o a)
  unfolding create
  create-After m o a v h = elim (Option-cases a.language) [
    | inl unknown ↦ rw (unknown, create) v
    | inr ((name, image), known) ↦ elim (Option-cases (admit sl F m)) [
      | inl free ↦ rw (known, create, free) (make-After m o a name image v h)
      | inr (e, full) ↦ rw (known, create, full) v
    ]
  ]

  -- With an id that the map does not hold, Create never panics, whatever the world answers; and
  -- whether it succeeds or fails at any step, the kernel slots and the entries stay accounted for.
  pub create-IsBalanced :
      (m : Manager sl F) (o : CreateOpts) (a : Answers)
      → IsBalanced sl F m
      → lookup Bytes-discrete (fresh_id o a) m.sessions ≡ none
      → (m' : Manager sl F) × (r : Result Session) × (create sl F m o a ≡ some (m', r))
        × IsBalanced sl F m'
  create-IsBalanced m o a v h = elim (Option-cases (create sl F m o a)) [
    | inl gone ↦ elim (subst After gone (create-After m o a v h)) [ ]
    | inr ((m', r), made) ↦ (m', r, made, subst After made (create-After m o a v h))
  ]
