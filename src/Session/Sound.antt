-- ===== src/Session/Sound.antt =====
-- internal/session/manager.go: the invariant of the manager, under the calls on one session.
use isobox.Prelude.{
  All, All-remove, All-update, Bytes, Bytes-discrete, List, [], ap, arith, inl, inr, lookup, none,
  refl, remove, some, subst, sum_by-update, sym, update, update-Distinct, ◌∙◌, ◌≡◌, ◌≢◌, ◌⊎◌,
}
use isobox.Sched.Laws.{Slots}
use isobox.Session.{
  Result-cases, put_back, Manager, Session, Result, ok, err, authed, Error, set_mounts,
}
use isobox.Session.Create.Entry.{Entered, create-Entered}
use isobox.Session.Teardown.Balance.{
  IsBalanced, Holds, destroy_session-IsBalanced, destroy_session-refused, has_kernel,
}
use isobox.Session.Create.{CreateOpts, Answers, create}
use isobox.Session.Teardown.{destroy_session}
use isobox.Session.Sweep.Loop.{IsKeyed}
use isobox.Session.Access.{authed-eq-ok_iff}
use isobox.Session.Create.Balance.{create-IsBalanced, fresh_id}
use isobox.Session.Teardown.Effects.{NoDrop}
use isobox.Session.Sweep.Kernels.{found_keyed}
use isobox.Executor.{Mount}

module _ (sl : Slots) (F : Type 0) where
  -- The slots and the entries are accounted for, and each session stands under its own id.
  pub record IsConsistent (m : Manager sl F) : Type 0 where
    pub balanced : IsBalanced sl F m
    pub keyed : IsKeyed m.sessions

  -- An id that is dropped stays dropped: the map without it is keyed.
  pub remove-IsKeyed :
      (id : Bytes) (m : List (Bytes × Session)) → IsKeyed m → IsKeyed (remove Bytes-discrete id m)
  remove-IsKeyed id m k = All-remove Bytes-discrete (λ e. e.1.id ≡ e.0) id m k

  update-IsKeyed :
      (s : Session) (m : List (Bytes × Session))
      → IsKeyed m
      → IsKeyed (update Bytes-discrete s.id s m)
  update-IsKeyed s m k = All-update Bytes-discrete (λ e. e.1.id ≡ e.0) s.id s m refl k

  created-IsKeyed :
      (id tenant : Bytes) (m m' : Manager sl F) (r : Result Session)
      → IsKeyed m.sessions
      → Entered sl F id tenant m (some (m', r))
      → IsKeyed m'.sessions
  created-IsKeyed id tenant m m' (err e) k h = rw h.0 k
  created-IsKeyed id tenant m m' (ok s) k h = rw h.0 (update-IsKeyed s m.sessions k)

  -- Create with an id that the map does not hold.
  pub create-IsConsistent :
      (m : Manager sl F) (o : CreateOpts) (a : Answers)
      → IsConsistent m
      → All NoDrop m.effects
      → lookup Bytes-discrete (fresh_id sl F o a) m.sessions ≡ none
      → (m' : Manager sl F) × (r : Result Session) × (create sl F m o a ≡ some (m', r))
        × IsConsistent m'
        × Entered sl F (fresh_id sl F o a) o.tenant m (some (m', r))
  create-IsConsistent m o a v h fresh =
      let (m', r, made, kept) = create-IsBalanced sl F m o a v.balanced fresh in
      let entered =
        subst (Entered sl F (fresh_id sl F o a) o.tenant m) made (create-Entered sl F m o a h) in
      (
        m',
        r,
        made,
        record {
          balanced = kept;
          keyed = created-IsKeyed (fresh_id sl F o a) o.tenant m m' r v.keyed entered;
        },
        entered,
      )

  -- Destroy by any caller.
  pub destroy_session-IsConsistent :
      (m : Manager sl F) (cleared : Result (Unit {0})) (id token tenant : Bytes)
      → IsConsistent m
      → (m' : Manager sl F) × (r : Result (Unit {0})) × (destroy_session sl F m cleared id token
            tenant
          ≡ some (m', r))
        × IsConsistent m'
  destroy_session-IsConsistent m cleared id token tenant v =
      elim (Result-cases (authed sl F m id token tenant)) [
        | inl (e, out) ↦ (m, err e, destroy_session-refused sl F m cleared id token tenant e out, v)
        | inr (s, found) ↦
            let own =
              found_keyed sl F m id s v.keyed
                ((authed-eq-ok_iff sl F m id token tenant s).0 found).0 in
            let (m', done, kept, left, config) =
              destroy_session-IsBalanced sl F m cleared s token tenant v.balanced
                (subst (λ j. authed sl F m j token tenant ≡ ok s) (sym own) found) in
            (
              m',
              cleared,
              subst (λ j. destroy_session sl F m cleared j token tenant ≡ some (m', cleared)) own
                  done,
              record { balanced = kept; keyed = rw left (remove-IsKeyed s.id m.sessions v.keyed) },
            )
      ]

  -- A session of the map that is changed through its pointer, but for its id and its kernel.
  pub put_back-IsConsistent :
      (m : Manager sl F) (s t : Session)
      → IsConsistent m
      → lookup Bytes-discrete s.id m.sessions ≡ some s
      → t.id ≡ s.id
      → t.kernel ≡ s.kernel
      → IsConsistent (put_back sl F m t)
  put_back-IsConsistent m s t v found same resident =
      let there = ap (λ j. lookup Bytes-discrete j m.sessions) same ∙ found in
      let equal : has_kernel t ≡ has_kernel s = rw resident refl in
      let total = sum_by-update Bytes-discrete has_kernel t.id t s m.sessions there in
      rw (there, put_back)
        (record {
          balanced = record {
            distinct = update-Distinct Bytes-discrete t.id t m.sessions v.balanced.distinct;
            matched = subst (Holds sl F m.kernels) (omega (arith, equal, total)) v.balanced.matched;
          };
          keyed = update-IsKeyed t m.sessions v.keyed;
        })

  -- The gate finds a session under its own id.
  pub authed-own :
      (m : Manager sl F) (id token tenant : Bytes)
      → IsConsistent m
      → (s : Session) → authed sl F m id token tenant ≡ ok s
      → s.id ≡ id
  authed-own m id token tenant v s found =
      found_keyed sl F m id s v.keyed ((authed-eq-ok_iff sl F m id token tenant s).0 found).0

  -- SetMounts is refused and changes nothing, or it changes a session through its pointer.
  pub set_mounts_cases :
      (m : Manager sl F) (id token tenant : Bytes) (mounts : List Mount)
      → IsConsistent m
      → ((e : Error) × (set_mounts sl F m id token tenant mounts ≡ (m, err e)))
        ⊎ ((m' : Manager sl F) × (set_mounts sl F m id token tenant mounts ≡ (m', ok tt))
            × IsConsistent m')
  unfolding set_mounts
  set_mounts_cases m id token tenant mounts v =
      elim (Result-cases (authed sl F m id token tenant)) [
        | inl (e, out) ↦ inl (e, rw (out, set_mounts) refl)
        | inr (s, found) ↦
            let t = record s { extra_mounts = mounts } in
            let there = ((authed-eq-ok_iff sl F m id token tenant s).0 found).0 in
            let own = authed-own m id token tenant v s found in
            inr (
              put_back sl F m t,
              rw (found, set_mounts) refl,
              put_back-IsConsistent m s t v
                  (subst (λ j. lookup Bytes-discrete j m.sessions ≡ some s) (sym own) there) refl
                  refl,
            )
      ]

  -- Create with an id that the caller has minted.
  pub create-named :
      (m : Manager sl F) (o : CreateOpts) (a : Answers)
      → o.id ≢ []
      → IsConsistent m
      → All NoDrop m.effects
      → lookup Bytes-discrete o.id m.sessions ≡ none
      → (m' : Manager sl F) × (r : Result Session) × (create sl F m o a ≡ some (m', r))
        × IsConsistent m'
        × Entered sl F o.id o.tenant m (some (m', r))
  create-named m o a filled v quiet fresh =
      let same : fresh_id sl F o a ≡ o.id = ground (arith, filled) in
      let (m', r, made, kept, entered) =
        create-IsConsistent m o a v quiet
          (ap (λ j. lookup Bytes-discrete j m.sessions) same ∙ fresh) in
      (m', r, made, kept, subst (λ j. Entered sl F j o.tenant m (some (m', r))) same entered)
