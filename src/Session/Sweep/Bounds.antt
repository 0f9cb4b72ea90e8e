-- ===== src/Session/Sweep/Bounds.antt =====
-- internal/session/manager.go: the bounds of the sessions and of the aggregate in `Sweep`.
use isobox.Prelude.{
  All, Bool-cases, Bytes, Bytes-discrete, List, [], ap, arith, inl, inr, leb, lookup,
  lookup-remove_ne, lookup-remove_self, refl, remove, some, subst, sum_by, sum_by-remove, sym, ℕ,
  ◌-◌, ◌∙◌, ◌∷◌, ◌≡◌, ◌≢◌, ◌≤◌,
}
use isobox.Sched.Laws.{Slots}
use isobox.Session.{Manager, Config, Session}
use isobox.Session.Sweep.{Sized, cull}
use isobox.Session.Sweep.Sorted.{sizes, Apart}
use isobox.Session.Teardown.Balance.{IsBalanced, drop-IsBalanced}

-- What the first map holds under an id, the second holds too.
abbrev pub Within : List (Bytes × Session) → List (Bytes × Session) → Type 0
Within small big =
    (q : Bytes) (s : Session)
    → lookup Bytes-discrete q small ≡ some s
    → lookup Bytes-discrete q big ≡ some s

pub remove-Within : (k : Bytes) (m : List (Bytes × Session)) → Within (remove Bytes-discrete k m) m
remove-Within k m q s e = elim (Bytes-discrete q k) [
  | yes p ↦ cc (lookup-remove_self Bytes-discrete k m)
  | no p ↦ sym (lookup-remove_ne Bytes-discrete k q m p) ∙ e
]

module _ (sl : Slots) (F : Type 0) (du : Bytes → ℕ) where
  -- The aggregate of what the sessions of the map use.
  abbrev pub usage : List (Bytes × Session) → ℕ
  usage = sum_by λ s. du s.workspace

  -- A measured session that the map holds.
  abbrev pub Measured : Manager sl F → Sized → Type 0
  Measured m l =
      (lookup Bytes-discrete l.session.id m.sessions ≡ some l.session)
      × (l.size ≡ du l.session.workspace)

  pub still-Measured :
      (m m' : Manager sl F) (k : Bytes) (ls : List Sized)
      → m'.sessions ≡ remove Bytes-discrete k m.sessions
      → All (λ l. l.session.id ≢ k) ls
      → All (Measured m) ls
      → All (Measured m') ls
  still-Measured m m' k [] e f h = tt
  still-Measured m m' k (l ∷ ls) e f h = (
    (rw (e, lookup-remove_ne Bytes-discrete k l.session.id m.sessions f.0) h.0.0, h.0.1),
    still-Measured m m' k ls e f.1 h.1,
  )

  -- What the second loop needs of the sessions that it may drop.
  pub record CullOk (m : Manager sl F) (ls : List Sized) (total : ℕ) : Type 0 where
    pub balanced : IsBalanced sl F m
    pub measured : All (Measured m) ls
    pub apart : Apart ls
    pub counted : total ≡ sizes ls
    pub used : usage m.sessions ≡ total

  -- The second loop ends without a panic, under the ceiling, and adds nothing to the map.
  pub cull-CullOk :
      (m : Manager sl F) (ls : List Sized) (total : ℕ)
      → CullOk m ls total
      → (m' : Manager sl F) × (rest : ℕ) × (cull sl F m ls total ≡ some (m', rest))
        × IsBalanced sl F m'
        × (usage m'.sessions ≡ rest)
        × (rest ≤ m.global_disk_max)
        × (m'.config ≡ m.config)
        × Within m'.sessions m.sessions
  unfolding cull
  cull-CullOk m [] total v =
      (m, total, refl, v.balanced, v.used, omega (arith, v.counted), refl, λ q s e. e)
  cull-CullOk m (l ∷ ls) total v = elim (Bool-cases (leb total m.global_disk_max)) [
    | inl fits ↦ (m, total, rw (fits, cull), v.balanced, v.used, ground arith, refl, λ q s e. e)
    | inr over ↦
        let (m', dropped, balanced, left, config) =
          drop-IsBalanced sl F m l.session v.balanced v.measured.0.0 in
        let next : CullOk m' ls (total - l.size) = record {
          balanced = balanced;
          measured = still-Measured m m' l.session.id ls left v.apart.0 v.measured.1;
          apart = v.apart.1;
          counted = omega (arith, v.counted);
          used = omega (
            arith,
            v.used,
            v.measured.0.1,
            ap usage left,
            sum_by-remove Bytes-discrete (λ (s : Session). du s.workspace) l.session.id l.session
                m.sessions v.balanced.distinct v.measured.0.0,
          );
        } in
        let (m'', rest, culled, ok'', used, bound, same, within) =
          cull-CullOk m' ls (total - l.size) next in
        (
          m'',
          rest,
          rw (over, cull, dropped) culled,
          ok'',
          used,
          subst (λ (c : Config). rest ≤ c.global_disk_max) config bound,
          same ∙ config,
          λ q s e. remove-Within l.session.id m.sessions q s (
              subst (λ (k : List (Bytes × Session)). lookup Bytes-discrete q k ≡ some s) left
                (within q s e)),
        )
  ]
