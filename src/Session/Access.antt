-- ===== src/Session/Access.antt =====
-- Who gets at a session: `authed`, the one gate of every operation.
use isobox.Prelude.{Bytes, Bytes-discrete, [], arith, lookup, refl, some, ◌↔◌, ◌≡◌, ◌⊎◌}
use isobox.Sched.Laws.{Slots}
use isobox.Session.{
  Error, err, not_found, forbidden, is_kernel, Manager, Session, authed, check_access, ok,
}

module _ (sl : Slots) (F : Type 0) where
  -- The gate lets a caller at a session exactly when the map holds it under that id, the token is
  -- the session's, and the tenant, unless it is empty, is the one that the session is pinned to.
  pub authed-eq-ok_iff :
      (m : Manager sl F) (id token tenant : Bytes) (s : Session)
      → (authed sl F m id token tenant ≡ ok s) ↔ (
          (lookup Bytes-discrete id m.sessions ≡ some s)
          × (token ≡ s.token)
          × ((tenant ≡ []) ⊎ (tenant ≡ s.tenant)))
  unfolding authed check_access
  authed-eq-ok_iff m id token tenant s = ((λ h. ground arith), (λ h. ground arith))

  -- A caller who is not let in sees that the session is not there, or that it is forbidden.
  pub authed-err :
      (m : Manager sl F) (id token tenant : Bytes) (e : Error)
      → authed sl F m id token tenant ≡ err e
      → (e ≡ not_found) ⊎ (e ≡ forbidden)
  unfolding authed check_access
  authed-err m id token tenant e h = ground (arith, h)

  pub is_kernel-denied :
      (m : Manager sl F) (id token tenant : Bytes) (e : Error)
      → authed sl F m id token tenant ≡ err e
      → is_kernel sl F m id token tenant ≡ err e
  unfolding is_kernel
  is_kernel-denied m id token tenant e h = rw (h, is_kernel) refl
