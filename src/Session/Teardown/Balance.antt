-- ===== src/Session/Teardown/Balance.antt =====
-- internal/session/manager.go: the slots of the resident kernels against the sessions of the map,
-- and what a teardown does to both.
use isobox.Prelude.{
  Bool, Bytes, Bytes-discrete, Distinct, List, Option, arith, false, lookup, none, refl, remove,
  remove-Distinct, some, subst, sum_by, sum_by-remove, sym, true, ℕ, ◌++◌, ◌+◌, ◌∙◌, ◌≡◌,
}
use isobox.Sched.Laws.{Slots}
use isobox.Kernel.{Engine, destroy}
use isobox.Session.{Manager, Session, authed, ok, err, Error, Result}
use isobox.Session.Teardown.{
  release_slot, claim, finish, free_held, removals, tear_down, drop, destroy_found, destroy_session,
  drop_reaped, with_result,
}
use isobox.Kernel.Laws.{destroy-slots}
use isobox.Session.Access.{authed-eq-ok_iff}

-- 1 for a session with a resident kernel.
abbrev pub has_kernel : Session → ℕ
has_kernel s = elim s.kernel [ none ↦ 0 | some _ ↦ 1 ]

abbrev pub kernel_sessions : List (Bytes × Session) → ℕ
kernel_sessions = sum_by has_kernel

module _ (sl : Slots) (F : Type 0) where
  -- The engine's slots against a number of kernels that hold one.
  abbrev pub Holds : Option (Engine sl F) → ℕ → Type 0
  Holds none n = n ≡ 0
  Holds (some e) n = sl.Good e.slots × (sl.held e.slots ≡ n)

  -- Every kernel session of the map holds one slot, and nobody else does; no id has two entries.
  pub record IsBalanced (m : Manager sl F) : Type 0 where
    pub distinct : Distinct Bytes-discrete m.sessions
    pub matched : Holds m.kernels (kernel_sessions m.sessions)

  release_slot-Holds :
      (m : Manager sl F) (e : Engine sl F) (n : ℕ)
      → Holds (some e) (n + 1)
      → (m' : Manager sl F) × (release_slot sl F m e ≡ some m')
        × Holds m'.kernels n
        × (m'.sessions ≡ m.sessions)
        × (m'.config ≡ m.config)
  unfolding release_slot
  release_slot-Holds m e n (good, h) =
      let (t, given, good', fewer, same) = sl.give_held e.slots good (omega arith) in
      (
        record m { kernels = some (record e { slots = t }) },
        rw (given, release_slot),
        (good', omega arith),
        refl,
        refl,
      )

  abbrev slots_of : Option Bytes → ℕ
  slots_of none = 0
  slots_of (some _) = 1

  free_held-Holds :
      (reaped : Bool) (m : Manager sl F) (id : Bytes) (k : Option Bytes) (o : Option (Engine sl F))
      (n : ℕ)
      → m.kernels ≡ o
      → Holds o (n + slots_of k)
      → (m' : Manager sl F) × (free_held sl F reaped m id k o ≡ some m')
        × Holds m'.kernels n
        × (m'.sessions ≡ m.sessions)
        × (m'.config ≡ m.config)
  unfolding free_held
  free_held-Holds reaped m id none o n e h =
      (m, refl, rw e (subst (Holds o) (omega arith) h), refl, refl)
  free_held-Holds reaped m id (some k) none n e h = absurd (omega arith)
  free_held-Holds true m id (some k) (some e) n _ h = release_slot-Holds m e n h
  free_held-Holds false m id (some k) (some e) n _ h =
      release_slot-Holds (record m { effects = removals sl F (destroy sl F e id).1 ++ m.effects })
        (destroy sl F e id).0 n (rw (destroy-slots sl F e id) h)

  has_kernel-slots_of : (s : Session) → has_kernel s ≡ slots_of s.kernel
  has_kernel-slots_of s = ground arith

  -- With a slot held for the session's kernel, the teardown does not panic, gives back that slot
  -- and leaves the map alone.
  pub tear_down-Holds :
      (reaped : Bool) (m : Manager sl F) (s : Session) (n : ℕ)
      → Holds m.kernels (n + has_kernel s)
      → (m' : Manager sl F) × (tear_down sl F reaped m s ≡ some m')
        × Holds m'.kernels n
        × (m'.sessions ≡ m.sessions)
        × (m'.config ≡ m.config)
  unfolding tear_down
  tear_down-Holds reaped m s n h =
      let (m', freed, held, same, config) =
        free_held-Holds reaped m s.id s.kernel m.kernels n refl
          (subst (λ k. Holds m.kernels (n + k)) (has_kernel-slots_of s) h) in
      (finish sl F m' s, rw freed, held, same, config)

  pub claim-found :
      (m : Manager sl F) (s : Session)
      → lookup Bytes-discrete s.id m.sessions ≡ some s
      → claim sl F m s.id ≡ (record m { sessions = remove Bytes-discrete s.id m.sessions }, true)
  unfolding claim
  claim-found m s e = rw e

  -- Whoever claims a session of the map tears it down without a panic, its slot is given back, and
  -- the map loses that session alone.
  pub claimed-IsBalanced :
      (reaped : Bool) (m : Manager sl F) (s : Session)
      → IsBalanced m
      → lookup Bytes-discrete s.id m.sessions ≡ some s
      → (m' : Manager sl F) × (tear_down sl F reaped (claim sl F m s.id).0 s ≡ some m')
        × IsBalanced m'
        × (m'.sessions ≡ remove Bytes-discrete s.id m.sessions)
        × (m'.config ≡ m.config)
  unfolding claim
  claimed-IsBalanced reaped m s v e =
      let left = remove Bytes-discrete s.id m.sessions in
      let claimed = record m { sessions = left } in
      let (m', torn, held, same, config) = tear_down-Holds reaped claimed s (kernel_sessions left) (
        subst (Holds m.kernels)
          (sym (sum_by-remove Bytes-discrete has_kernel s.id s m.sessions v.distinct e))
          v.matched) in
      (
        m',
        torn,
        record {
          distinct = rw same (remove-Distinct Bytes-discrete s.id m.sessions v.distinct);
          matched = rw same held;
        },
        same,
        config,
      )

  drop_found :
      (m : Manager sl F) (s : Session)
      → lookup Bytes-discrete s.id m.sessions ≡ some s
      → (drop sl F m s ≡ tear_down sl F false (claim sl F m s.id).0 s)
        × (drop_reaped sl F m s ≡ tear_down sl F true (claim sl F m s.id).0 s)
  unfolding drop drop_reaped
  drop_found m s e = (rw (claim-found m s e, drop), rw (claim-found m s e, drop_reaped))

  -- `drop` of a session of the map: no panic, the slots stay accounted for, and the map loses
  -- that session alone.
  pub drop-IsBalanced :
      (m : Manager sl F) (s : Session)
      → IsBalanced m
      → lookup Bytes-discrete s.id m.sessions ≡ some s
      → (m' : Manager sl F) × (drop sl F m s ≡ some m')
        × IsBalanced m'
        × (m'.sessions ≡ remove Bytes-discrete s.id m.sessions)
        × (m'.config ≡ m.config)
  drop-IsBalanced m s v e =
      let (m', torn, kept, left, config) = claimed-IsBalanced false m s v e in
      (m', (drop_found m s e).0 ∙ torn, kept, left, config)

  -- So too for `dropReaped`.
  pub drop_reaped-IsBalanced :
      (m : Manager sl F) (s : Session)
      → IsBalanced m
      → lookup Bytes-discrete s.id m.sessions ≡ some s
      → (m' : Manager sl F) × (drop_reaped sl F m s ≡ some m')
        × IsBalanced m'
        × (m'.sessions ≡ remove Bytes-discrete s.id m.sessions)
        × (m'.config ≡ m.config)
  drop_reaped-IsBalanced m s v e =
      let (m', torn, kept, left, config) = claimed-IsBalanced true m s v e in
      (m', (drop_found m s e).1 ∙ torn, kept, left, config)

  pub destroy_found-claimed :
      (m : Manager sl F) (cleared : Result (Unit {0})) (s : Session)
      → lookup Bytes-discrete s.id m.sessions ≡ some s
      → destroy_found sl F m cleared s
        ≡ with_result sl F cleared (tear_down sl F false (claim sl F m s.id).0 s)
  unfolding destroy_found with_result
  destroy_found-claimed m cleared s e = rw (claim-found m s e, destroy_found)

  -- Destroy by a caller who is let in does not panic, takes that session alone out of the map and
  -- keeps the slots accounted for, whatever os.RemoveAll answers, and its result is that answer.
  pub destroy_session-IsBalanced :
      (m : Manager sl F) (cleared : Result (Unit {0})) (s : Session) (token tenant : Bytes)
      → IsBalanced m
      → authed sl F m s.id token tenant ≡ ok s
      → (m' : Manager sl F) × (destroy_session sl F m cleared s.id token tenant
          ≡ some (m', cleared))
        × IsBalanced m'
        × (m'.sessions ≡ remove Bytes-discrete s.id m.sessions)
        × (m'.config ≡ m.config)
  unfolding destroy_session with_result
  destroy_session-IsBalanced m cleared s token tenant v e =
      let found = ((authed-eq-ok_iff sl F m s.id token tenant s).0 e).0 in
      let (m', torn, kept, left, config) = claimed-IsBalanced false m s v found in
      (
        m',
        rw (e, destroy_session, destroy_found-claimed m cleared s found, torn),
        kept,
        left,
        config,
      )

  -- Destroy by a caller who is not let in changes nothing.
  pub destroy_session-refused :
      (m : Manager sl F) (cleared : Result (Unit {0})) (id token tenant : Bytes) (e : Error)
      → authed sl F m id token tenant ≡ err e
      → destroy_session sl F m cleared id token tenant ≡ some (m, err e)
  unfolding destroy_session
  destroy_session-refused m cleared id token tenant e out = rw (out, destroy_session) refl
