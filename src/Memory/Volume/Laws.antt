-- ===== src/Memory/Volume/Laws.antt =====
-- internal/memory/volume.go: the single-writer lock of a volume.
use isobox.Prelude.{
  Bool, Bytes, Bytes-discrete, Option, Sum-cases, [], ap, arith, false, if◌then◌else◌, inl, inr,
  is_empty, lookup, lookup-update_self, none, not, refl, some, subst, sym, true, ℕ, ◌∙◌, ◌∷◌, ◌≡◌,
  ◌≢◌, ◌⊎◌,
}
use isobox.Memory.Volume.{
  hold, Checked, refuses, read_only, to_lock, check_attach, bad_tenant, bad_id, Manager, Volume,
  Disk, attach, find, lock, set_holder, host_path, key_of, busy, delete, is_id, is_tenant, VolError,
  volume_locked, vol_not_found,
}

guards-inr :
    (a b : Bool) (r : VolError ⊎ Volume) (v : Volume)
    → (if not a then inl bad_tenant else if not b then inl bad_id else r) ≡ inr v
    → (a ≡ true) × (b ≡ true)
guards-inr true true r v h = (refl, refl)
guards-inr true false r v h = ground arith
guards-inr false b r v h = ground arith

found-inr :
    (o : Option Volume) (v : Volume)
    → (elim o as (λ _. VolError ⊎ Volume) [ none ↦ inl vol_not_found | some u ↦ inr u ]) ≡ inr v
    → o ≡ some v
found-inr none v h = ground arith
found-inr (some u) v h = ground arith

guards-rest :
    (a b : Bool) (r : VolError ⊎ Volume) (v : Volume)
    → (if not a then inl bad_tenant else if not b then inl bad_id else r) ≡ inr v
    → r ≡ inr v
guards-rest true true r v h = h
guards-rest true false r v h = ground arith
guards-rest false b r v h = ground arith

pub find-lookup :
    (m : Manager) (tenant id : Bytes) (v : Volume)
    → find m tenant id ≡ inr v
    → lookup Bytes-discrete (key_of tenant id) m.vols ≡ some v
unfolding find
find-lookup m tenant id v h =
    found-inr (lookup Bytes-discrete (key_of tenant id) m.vols) v
      (guards-rest (is_tenant tenant) (is_id id) _ v h)

find-valid :
    (m : Manager) (tenant id : Bytes) (v : Volume)
    → find m tenant id ≡ inr v
    → (is_tenant tenant ≡ true) × (is_id id ≡ true)
unfolding find
find-valid m tenant id v h = guards-inr (is_tenant tenant) (is_id id) _ v h

find-set_holder :
    (m : Manager) (tenant id s : Bytes) (v : Volume)
    → find m tenant id ≡ inr v
    → find (set_holder m (key_of tenant id) v s) tenant id ≡ inr (record v { rw_holder = s })
unfolding find set_holder
find-set_holder m tenant id s v h =
    let (named, numbered) = find-valid m tenant id v h in
    rw (lookup-update_self, named, numbered) refl

lock-held :
    (m : Manager) (tenant id t q : Bytes) (v : Volume)
    → v.rw_holder ≢ []
    → t ≢ v.rw_holder
    → (lock m tenant id v t q).1 ≡ inl volume_locked
unfolding lock
lock-held m tenant id t q v held other = ground arith

Checked-cases :
    (c : Checked)
    → ((e : VolError) × (c ≡ refuses e))
      ⊎ ((q : Bytes) × (c ≡ read_only q))
      ⊎ ((v : Volume) × (q : Bytes) × (c ≡ to_lock v q))
Checked-cases (refuses e) = inl (e, refl)
Checked-cases (read_only q) = inr (inl (q, refl))
Checked-cases (to_lock v q) = inr (inr (v, q, refl))

inr-inj : (v u : Volume) → ◌≡◌ {A = VolError ⊎ Volume} (inr v) (inr u) → v ≡ u
inr-inj v u h = ground arith

-- What checks that go on to the lock have passed.
check_attach-found :
    (m : Manager) (d : Disk) (tenant id s path : Bytes) (want_rw : Bool) (v : Volume)
    → check_attach m d tenant id s want_rw ≡ to_lock v path
    → find m tenant id ≡ inr v
unfolding check_attach
check_attach-found m d tenant id s path want_rw v h = elim (Sum-cases (find m tenant id)) [
  | inl (e, missing) ↦ absurd (ground (arith, h, missing))
  | inr (u, found) ↦ elim (Sum-cases (host_path m d.real tenant id)) [
    | inl (e, outside) ↦ absurd (ground (arith, h, found, outside))
    | inr (q, inside) ↦
        let same : u ≡ v = ground (arith, h, found, inside) in found ∙ ap (λ x. inr x) same
  ]
]

-- An attach by another session, while the lock is held.
attach-locked :
    (m : Manager) (d : Disk) (tenant id t path : Bytes) (v : Volume)
    → find m tenant id ≡ inr v
    → v.rw_holder ≢ []
    → t ≢ v.rw_holder
    → (attach m d tenant id t true).1 ≢ inr (path, true)
unfolding attach
attach-locked m d tenant id t path v found held other h =
    elim (Checked-cases (check_attach m d tenant id t true)) [
      | inl (e, refused) ↦ ground (arith, h, refused)
      | inr (inl (q, shared)) ↦ ground (arith, h, shared)
      | inr (inr (u, q, passed)) ↦
          let there = check_attach-found m d tenant id t q true u passed in
          let same : v ≡ u = inr-inj v u (sym found ∙ there) in
          let refused =
            lock-held m tenant id t q u (subst (λ x. x.rw_holder ≢ []) same held)
              (subst (λ x. t ≢ x.rw_holder) same other) in
          ground (arith, h, passed, refused)
    ]

delete-busy :
    (m : Manager) (size : ℕ) (tenant id : Bytes) (v : Volume)
    → find m tenant id ≡ inr v
    → is_empty v.rw_holder ≡ false
    → delete m size tenant id ≡ (m, inl busy)
unfolding delete
delete-busy m size tenant id v found held = rw (found, delete, held) refl

is_empty-false : (s : Bytes) → s ≢ [] → is_empty s ≡ false
is_empty-false [] h = absurd (h refl)
is_empty-false (c ∷ s) h = refl

granted-lock :
    (n n' : Manager) (tenant id s q path : Bytes) (w : Volume)
    → lock n tenant id w s q ≡ (n', inr (path, true))
    → ((w.rw_holder ≡ []) ⊎ (w.rw_holder ≡ s)) × (hold n (key_of tenant id) w s ≡ n')
unfolding lock
granted-lock n n' tenant id s q path w h = (ground arith, ground arith)

pub hold-there :
    (n : Manager) (key s : Bytes) (w : Volume)
    → lookup Bytes-discrete key n.vols ≡ some w
    → hold n key w s ≡ set_holder n key w s
unfolding hold
hold-there n key s w h = rw (h, hold) refl

hold-gone :
    (n : Manager) (key s : Bytes) (w : Volume)
    → lookup Bytes-discrete key n.vols ≡ none
    → hold n key w s ≡ n
unfolding hold
hold-gone n key s w h = rw (h, hold) refl

find-found :
    (m n : Manager) (tenant id : Bytes) (v w : Volume)
    → find m tenant id ≡ inr v
    → lookup Bytes-discrete (key_of tenant id) n.vols ≡ some w
    → find n tenant id ≡ inr w
unfolding find
find-found m n tenant id v w found there =
    let (named, numbered) = find-valid m tenant id v found in rw (named, numbered, there) refl

-- An Attach for writing whose checks ran on `m` and whose lock section ran on any later state `n`,
-- where its pointer leads to `w`, and that was granted. If the volume is still in the map then, the
-- session is its holder and took the place of nobody else: it was free, or its own. From then on
-- the lock section of any other session's Attach fails, and so does its whole Attach, whatever the
-- disk answers it, and the volume's deletion. If a Delete has taken the volume out of the map
-- before the lock section, then the grant changes nothing, and no lock is held.
pub attach-IsExclusive :
    (m n n' : Manager) (d e : Disk) (tenant id s t path other : Bytes) (size : ℕ) (v w : Volume)
    → s ≢ []
    → t ≢ s
    → check_attach m d tenant id s true ≡ to_lock v path
    → (lookup Bytes-discrete (key_of tenant id) n.vols ≡ some w)
      ⊎ (lookup Bytes-discrete (key_of tenant id) n.vols ≡ none)
    → lock n tenant id w s path ≡ (n', inr (path, true))
    → ((find n tenant id ≡ inr w)
        × ((w.rw_holder ≡ []) ⊎ (w.rw_holder ≡ s))
        × (find n' tenant id ≡ inr (record w { rw_holder = s }))
        × ((lock n' tenant id (record w { rw_holder = s }) t other).1 ≡ inl volume_locked)
        × ((attach n' e tenant id t true).1 ≢ inr (other, true))
        × (delete n' size tenant id ≡ (n', inl busy)))
      ⊎ ((lookup Bytes-discrete (key_of tenant id) n.vols ≡ none) × (n ≡ n'))
attach-IsExclusive m n n' d e tenant id s t path other size v w named apart checked (inl there) h =
    let (free, put) = granted-lock n n' tenant id s path path w h in
    let found =
      find-found m n tenant id v w (check_attach-found m d tenant id s path true v checked) there in
    let holds =
      subst (λ x. find x tenant id ≡ inr (record w { rw_holder = s }))
        (sym (hold-there n (key_of tenant id) s w there) ∙ put)
        (find-set_holder n tenant id s w found) in
    inl (
      found,
      free,
      holds,
      lock-held n' tenant id t other _ named apart,
      attach-locked n' e tenant id t other _ holds named apart,
      delete-busy n' size tenant id _ holds (is_empty-false s named),
    )
attach-IsExclusive m n n' d e tenant id s t path other size v w named apart checked (inr gone) h =
    let (free, put) = granted-lock n n' tenant id s path path w h in
    inr (gone, sym (hold-gone n (key_of tenant id) s w gone) ∙ put)
