-- ===== src/Memory/Volume/Scan/Laws.antt =====
-- internal/memory/volume.go: what a sweep keeps of the index and of the disk.
use isobox.Prelude.{
  All, All-append, Bool, Bool-cases, Bytes, Bytes-discrete, Distinct, List, Option-cases, [], arith,
  false, inl, inr, lookup, map, none, refl, select, some, subst, true, ℕ, ◌↔◌, ◌∷◌, ◌≡◌, ◌⊎◌,
}
use isobox.Memory.Volume.{Manager, Volume, key_of, data_dir}
use isobox.Memory.Volume.Scan.{
  Entry, TenantEntry, is_orphan, orphans, drop_gone, is_stray, listed, sum_du, sweep, sweep_orphans,
}

-- What stands on the disk where an indexed volume should be is a directory of a volume's name.
abbrev pub Agrees : List (Bytes × Volume) → List TenantEntry → Type 0
Agrees vols [] = Unit
Agrees vols (t ∷ ts) =
    All
      (λ (e : Entry).
        (lookup Bytes-discrete (key_of t.name e.name) vols ≡ none) ⊎ (is_stray e ≡ false))
      (listed t)
    × Agrees vols ts

-- A removal does not concern an indexed volume.
abbrev pub Spares : List (Bytes × Volume) → Bytes × Bytes → Type 0
Spares vols p = lookup Bytes-discrete (key_of p.0 p.1) vols ≡ none

is_orphan-unknown :
    (vols : List (Bytes × Volume)) (tenant : Bytes) (e : Entry)
    → is_stray e ≡ false
    → is_orphan vols tenant e ≡ true
    → lookup Bytes-discrete (key_of tenant e.name) vols ≡ none
unfolding is_orphan
is_orphan-unknown vols tenant e sound h =
    elim (Option-cases (lookup Bytes-discrete (key_of tenant e.name) vols)) [
      | inl unknown ↦ unknown
      | inr (v, known) ↦ absurd (ground (arith, h, sound, known))
    ]

select-Spares :
    (vols : List (Bytes × Volume)) (tenant : Bytes) (es : List Entry)
    → All
        (λ (e : Entry).
          (lookup Bytes-discrete (key_of tenant e.name) vols ≡ none) ⊎ (is_stray e ≡ false))
        es
    → All (Spares vols) (map (λ (e : Entry). (tenant, e.name)) (select (is_orphan vols tenant) es))
select-Spares vols tenant [] h = tt
select-Spares vols tenant (e ∷ es) h =
    split (is_orphan vols tenant e) refl (select-Spares vols tenant es h.1)
  where
    rest : List Entry
    rest = select (is_orphan vols tenant) es

    split :
        (b : Bool)
        → is_orphan vols tenant e ≡ b
        → All (Spares vols) (map (λ (e : Entry). (tenant, e.name)) rest)
        → All
            (Spares vols)
            (map (λ (e : Entry). (tenant, e.name)) (elim b [ true ↦ e ∷ rest | false ↦ rest ]))
    split false healthy later = later
    split true orphan later = (
      elim h.0 [ inl unknown ↦ unknown | inr sound ↦ is_orphan-unknown vols tenant e sound orphan ],
      later,
    )

orphans-Spares :
    (vols : List (Bytes × Volume)) (ts : List TenantEntry)
    → Agrees vols ts
    → All (Spares vols) (orphans vols ts)
unfolding orphans
orphans-Spares vols [] h = tt
orphans-Spares vols (t ∷ ts) h =
    All-append (Spares vols)
      (map (λ (e : Entry). (t.name, e.name)) (select (is_orphan vols t.name) (listed t)))
      (orphans vols ts) (select-Spares vols t.name (listed t) h.0) (orphans-Spares vols ts h.1)

drop_gone-lookup :
    (found : Bytes → Bool) (m : Manager) (vs : List (Bytes × Volume)) (k : Bytes) (v : Volume)
    → Distinct Bytes-discrete vs
    → (lookup Bytes-discrete k (drop_gone found m vs) ≡ some v)
      ↔ ((lookup Bytes-discrete k vs ≡ some v) × (found (data_dir m v.tenant v.id) ≡ true))
unfolding drop_gone lookup
drop_gone-lookup found m [] k v d = ((λ h. ground (arith, h)), (λ h. ground (arith, h)))
drop_gone-lookup found m ((j, w) ∷ vs) k v d =
    let (to, from) = drop_gone-lookup found m vs k v d.1 in
    let head : j ≡ k → lookup Bytes-discrete k vs ≡ none =
      λ e. subst (λ i. lookup Bytes-discrete i vs ≡ none) e d.0 in
    ((λ h. ground (arith, h, to, head)), (λ h. ground (arith, h, from, head)))

drop_gone-keys :
    (found : Bytes → Bool) (m : Manager) (vs : List (Bytes × Volume)) (k : Bytes)
    → lookup Bytes-discrete k vs ≡ none
    → lookup Bytes-discrete k (drop_gone found m vs) ≡ none
unfolding drop_gone lookup
drop_gone-keys found m [] k h = refl
drop_gone-keys found m ((j, w) ∷ vs) k h = ground (arith, drop_gone-keys found m vs k)

drop_gone-Distinct :
    (found : Bytes → Bool) (m : Manager) (vs : List (Bytes × Volume))
    → Distinct Bytes-discrete vs
    → Distinct Bytes-discrete (drop_gone found m vs)
unfolding drop_gone
drop_gone-Distinct found m [] d = tt
drop_gone-Distinct found m ((j, w) ∷ vs) d = elim (Bool-cases (found (data_dir m w.tenant w.id))) [
  | inl there ↦
      rw (there, drop_gone) (drop_gone-keys found m vs j d.0, drop_gone-Distinct found m vs d.1)
  | inr gone ↦ rw (gone, drop_gone) (drop_gone-Distinct found m vs d.1)
]

-- A sweep of an index without double keys, where the disk has directories of a volume's name for
-- the indexed volumes. It removes the directory of no indexed volume; it keeps in the index, each
-- with its holder, exactly the volumes whose data is still there; and the usage is refreshed to
-- what these take.
pub sweep-Spares :
    (du : Bytes → Bytes → ℕ) (found : Bytes → Bool) (m : Manager) (ts : List TenantEntry)
    → Distinct Bytes-discrete m.vols
    → Agrees m.vols ts
    → (m' : Manager) × (removed : List (Bytes × Bytes)) × (sweep du found m (some ts)
        ≡ (m', removed))
      × All (Spares m.vols) removed
      × Distinct Bytes-discrete m'.vols
      × ((k : Bytes) (v : Volume)
          → (lookup Bytes-discrete k m'.vols ≡ some v) ↔ (
              (lookup Bytes-discrete k m.vols ≡ some v)
              × (found (data_dir m v.tenant v.id) ≡ true)))
      × (m'.used ≡ sum_du du m'.vols)
unfolding sweep sweep_orphans
sweep-Spares du found m ts d h =
    let swept = sweep du found m (some ts) in
    (
      swept.0,
      swept.1,
      refl,
      orphans-Spares m.vols ts h,
      drop_gone-Distinct found m m.vols d,
      λ k v. drop_gone-lookup found m m.vols k v d,
      refl,
    )
