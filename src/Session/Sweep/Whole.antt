-- ===== src/Session/Sweep/Whole.antt =====
-- internal/session/manager.go: `Sweep` as a whole.
use isobox.Prelude.{
  All, Bool, Bytes, Bytes-discrete, Distinct, List, Option-cases, [], ap, arith, false, if_neg, inl,
  inr, lookup, none, refl, some, some-inj, subst, sym, true, ℕ, ◌-◌, ◌∙◌, ◌∷◌, ◌≡◌, ◌≢◌, ◌≤◌, ◌⊎◌,
}
use isobox.Sched.Laws.{Slots}
use isobox.Session.{Manager, Config, Session}
use isobox.Session.Sweep.{Sized, Pass, sweep, must_go, sort_sized, set_used}
use isobox.Session.Sweep.Sorted.{sort_sized-All, sort_sized-Apart, sort_sized-sizes}
use isobox.Session.Sweep.Bounds.{Within, usage, Measured, CullOk, cull-CullOk}
use isobox.Session.Sweep.Loop.{
  PassOk, IsKeyed, sessions_of, Unlike, awaits, sum_du, visit_all-PassOk,
}
use isobox.Session.Teardown.Balance.{IsBalanced}

ids_apart :
    (k : Bytes) (m : List (Bytes × Session))
    → IsKeyed m
    → lookup Bytes-discrete k m ≡ none
    → All (λ t. t.id ≢ k) (sessions_of m)
unfolding lookup
ids_apart k [] h e = tt
ids_apart k ((j, s) ∷ m) h e = (ground arith, ids_apart k m h.1 (ground arith))

keyed-Unlike :
    (m : List (Bytes × Session)) → IsKeyed m → Distinct Bytes-discrete m → Unlike (sessions_of m)
keyed-Unlike [] h d = tt
keyed-Unlike ((j, s) ∷ m) h d = (ids_apart s.id m h.1 (rw h.0 d.0), keyed-Unlike m h.1 d.1)

-- A keyed map with distinct keys holds each of its sessions under that session's id.
keyed-waiting :
    (big m : List (Bytes × Session))
    → IsKeyed m
    → Distinct Bytes-discrete m
    → Within m big
    → All (λ s. lookup Bytes-discrete s.id big ≡ some s) (sessions_of m)
unfolding lookup
keyed-waiting big [] h d w = tt
keyed-waiting big ((j, s) ∷ m) h d w =
    (w s.id s (ground arith), keyed-waiting big m h.1 d.1 (λ q t e. w q t (shown q t e)))
  where
    shown :
        (q : Bytes) (t : Session)
        → lookup Bytes-discrete q m ≡ some t
        → lookup Bytes-discrete q ((j, s) ∷ m) ≡ some t
    shown q t e = elim (Bytes-discrete q j) [
      | yes same ↦ cc (subst (λ (k : Bytes). lookup Bytes-discrete k m ≡ none) (sym same) d.0)
      | no other ↦ rw (if_neg _ other) e
    ]

awaits-lookup :
    (q : Bytes) (s : Session) (m : List (Bytes × Session))
    → IsKeyed m
    → lookup Bytes-discrete q m ≡ some s
    → awaits q (sessions_of m) ≡ true
unfolding lookup
awaits-lookup q s [] h e = cc
awaits-lookup q s ((j, t) ∷ m) h e = ground (arith, awaits-lookup q s m h.1)

nothing_across :
    (ss : List Session) → All (λ (s : Session). All (λ (l : Sized). l.session.id ≢ s.id) []) ss
nothing_across [] = tt
nothing_across (s ∷ ss) = (tt, nothing_across ss)

module _ (sl : Slots) (F : Type 0) (du : Bytes → ℕ) (now : ℕ) where
  usage-sum_du :
      (c : Config) (m : List (Bytes × Session))
      → usage sl F du m ≡ sum_du sl F du now c (sessions_of m)
  usage-sum_du c [] = refl
  usage-sum_du c ((j, s) ∷ m) = omega (arith, usage-sum_du c m)

  start-PassOk :
      (m : Manager sl F)
      → IsBalanced sl F m
      → IsKeyed m.sessions
      → PassOk sl F du now m.config
          (record { manager = m; live = []; total = 0 })
          (sessions_of m.sessions)
  start-PassOk m v k = record {
    balanced = v;
    config = refl;
    waiting = keyed-waiting m.sessions m.sessions k v.distinct (λ q s e. e);
    measured = tt;
    unlike = keyed-Unlike m.sessions k v.distinct;
    apart = tt;
    across = nothing_across (sessions_of m.sessions);
    counted = refl;
    used = omega (arith, usage-sum_du m.config m.sessions);
    kept = λ q s e. inr (awaits-lookup q s m.sessions k e);
  }

  end-CullOk :
      (c : Config) (p : Pass sl F)
      → PassOk sl F du now c p []
      → CullOk sl F du p.manager (sort_sized p.live) p.total
  end-CullOk c p v = record {
    balanced = v.balanced;
    measured = sort_sized-All (Measured sl F du p.manager) p.live v.measured;
    apart = sort_sized-Apart p.live v.apart;
    counted = v.counted ∙ sym (sort_sized-sizes p.live);
    used = omega (arith, v.used);
  }

  must_go-bounds :
      (c : Config) (s : Session)
      → must_go du now c s ≡ false
      → (du s.workspace ≤ c.disk_quota) × (s.kernel ≡ none → now - s.last_activity ≤ s.idle_ttl)
  unfolding must_go
  must_go-bounds c s h = (ground arith, λ e. ground arith)

  stays : (b : Bool) → (b ≡ false) ⊎ (false ≡ true) → b ≡ false
  stays b h = ground arith

  -- All that a sweep of a balanced map brings.
  sweep_facts :
      (m : Manager sl F)
      → IsBalanced sl F m
      → IsKeyed m.sessions
      → (m' : Manager sl F) × (sweep sl F du now m ≡ some m')
        × IsBalanced sl F m'
        × (m'.used ≡ usage sl F du m'.sessions)
        × (m'.used ≤ m.global_disk_max)
        × ((q : Bytes) (s : Session)
            → lookup Bytes-discrete q m'.sessions ≡ some s
            → (lookup Bytes-discrete q m.sessions ≡ some s)
              × (du s.workspace ≤ m.disk_quota)
              × (s.kernel ≡ none → now - s.last_activity ≤ s.idle_ttl))
  unfolding sweep set_used
  sweep_facts m v k =
      let (p, visited, passed, within) =
        visit_all-PassOk sl F du now m.config (record { manager = m; live = []; total = 0 })
          (sessions_of m.sessions) (start-PassOk m v k) in
      let (m', rest, culled, balanced, used, bound, config, left) =
        cull-CullOk sl F du p.manager (sort_sized p.live) p.total (end-CullOk m.config p passed) in
      (
        record m' { used = rest },
        rw (visited, sweep, culled),
        record { distinct = balanced.distinct; matched = balanced.matched },
        sym used,
        subst (λ (c : Config). rest ≤ c.global_disk_max) passed.config bound,
        λ q s e.
            let (fits, fresh) =
              must_go-bounds m.config s
                (stays (must_go du now m.config s) (passed.kept q s (left q s e))) in
            (within q s (left q s e), fits, fresh),
      )

  -- A sweep of a balanced map, whose sessions stand under their ids, does not panic, keeps the
  -- slots accounted for, and refreshes the aggregate, which is the usage of the sessions that are
  -- left and at most the global ceiling.
  pub sweep-IsBalanced :
      (m : Manager sl F)
      → IsBalanced sl F m
      → IsKeyed m.sessions
      → (m' : Manager sl F) × (sweep sl F du now m ≡ some m')
        × IsBalanced sl F m'
        × (m'.used ≡ usage sl F du m'.sessions)
        × (m'.used ≤ m.global_disk_max)
  sweep-IsBalanced m v k =
      let (m', swept, kept, used, below, _) = sweep_facts m v k in (m', swept, kept, used, below)

  -- A session that such a sweep has left was there before, is within its own quota, and has a
  -- kernel or has not been idle past its limit.
  pub sweep-kept :
      (m m' : Manager sl F) (q : Bytes) (s : Session)
      → IsBalanced sl F m
      → IsKeyed m.sessions
      → sweep sl F du now m ≡ some m'
      → lookup Bytes-discrete q m'.sessions ≡ some s
      → (lookup Bytes-discrete q m.sessions ≡ some s)
        × (du s.workspace ≤ m.disk_quota)
        × ((s.kernel ≢ none) ⊎ (now - s.last_activity ≤ s.idle_ttl))
  sweep-kept m m' q s v k swept found =
      let (n, swept', _, _, _, left) = sweep_facts m v k in
      let same : n ≡ m' = some-inj n m' (sym swept' ∙ swept) in
      let (there, small, active) =
        left q s (ap (λ x. lookup Bytes-discrete q x.sessions) same ∙ found) in
      (
        there,
        small,
        elim (Option-cases s.kernel) [
          | inl plain ↦ inr (active plain)
          | inr (k', resident) ↦ inl (λ e. ground (arith, e, resident))
        ],
      )
