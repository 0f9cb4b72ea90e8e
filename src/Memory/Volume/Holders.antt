-- ===== src/Memory/Volume/Holders.antt =====
-- internal/memory/volume.go: the locks of a session that is not there, and an Attach undone.
use isobox.Prelude.{
  All, All-lookup, Bool-cases, Bytes, Bytes-discrete, List, Sum-cases, [], arith, inl, inr,
  is_empty, lookup-update_self, ltb, not, refl, sym, true, update-lookup, update-update_self, ◌&&◌,
  ◌∷◌, ◌≡◌, ◌≢◌, ◌⊎◌,
}
use isobox.Memory.Volume.{
  Manager, check_attach, Volume, VolError, lock, key_of, release_all, release_each, set_holder,
  volume_locked, Disk, attach, data_dir, disk_full, find, host_path, is_disk_full, release,
  vol_quota,
}
use isobox.Strings.{str_eq}
use isobox.Memory.Volume.Laws.{find-lookup, hold-there}

-- No volume is locked by the session.
pub record IsFreeOf (session : Bytes) (m : Manager) : Type 0 where
  pub unheld : All (λ e. e.1.rw_holder ≢ session) m.vols

release_each_same :
    (session : Bytes) (vs : List (Bytes × Volume))
    → All (λ e. e.1.rw_holder ≢ session) vs
    → release_each session vs ≡ vs
unfolding release_each
release_each_same session [] h = refl
release_each_same session ((k, v) ∷ vs) h =
    rw (release_each_same session vs h.1) (ground (arith, h.0))

-- A ReleaseAll of a session that holds nothing.
pub release_all_same :
    (session : Bytes) (m : Manager) → IsFreeOf session m → release_all m session ≡ m
unfolding release_all
release_all_same session m h = rw (release_each_same session m.vols h.unheld) refl

lock_cases :
    (m : Manager) (tenant id s path : Bytes) (v : Volume)
    → find m tenant id ≡ inr v
    → ((e : VolError) × (lock m tenant id v s path ≡ (m, inl e)))
      ⊎ (((v.rw_holder ≡ []) ⊎ (v.rw_holder ≡ s))
          × (lock m tenant id v s path ≡ (set_holder m (key_of tenant id) v s, inr (path, true))))
unfolding lock
lock_cases m tenant id s path v found =
    let there = hold-there m (key_of tenant id) s v (find-lookup m tenant id v found) in
    elim (Bool-cases (not (is_empty v.rw_holder) && not (str_eq v.rw_holder s))) [
      | inl held ↦ inl (volume_locked, rw (held, lock) refl)
      | inr free ↦ inr (ground arith, rw (lock, free, there) refl)
    ]

-- An Attach for writing is refused and changes nothing, or it sets the holder of a volume that
-- was free or its own.
pub attach_cases :
    (m : Manager) (d : Disk) (tenant id s : Bytes)
    → ((e : VolError) × (attach m d tenant id s true ≡ (m, inl e)))
      ⊎ ((v : Volume) × (path : Bytes) × (find m tenant id ≡ inr v)
          × ((v.rw_holder ≡ []) ⊎ (v.rw_holder ≡ s))
          × (attach m d tenant id s true ≡ (set_holder m (key_of tenant id) v s, inr (path, true))))
unfolding attach check_attach
attach_cases m d tenant id s = elim (Sum-cases (find m tenant id)) [
  | inl (e, missing) ↦ inl (e, rw (attach, check_attach, missing) refl)
  | inr (v, found) ↦ elim (Sum-cases (host_path m d.real tenant id)) [
    | inl (e, outside) ↦ inl (e, rw (attach, check_attach, found, outside) refl)
    | inr (path, inside) ↦
        elim (Bool-cases (ltb m.disk_quota (d.dir_size (data_dir m tenant id)))) [
          | inl over ↦ inl (vol_quota, rw (attach, check_attach, found, inside, over) refl)
          | inr fits ↦
              elim (Bool-cases
                (ltb 0 m.min_free_bytes && not (str_eq v.rw_holder s) && is_disk_full m d.free)) [
                  | inl full ↦
                      inl (disk_full, rw (attach, check_attach, found, inside, fits, full) refl)
                  | inr room ↦ elim (lock_cases m tenant id s path v found) [
                    | inl (e, held) ↦
                        inl (e, rw (attach, check_attach, found, inside, fits, room, held) refl)
                    | inr (free, locked) ↦ inr (
                      v,
                      path,
                      found,
                      free,
                      rw (attach, check_attach, found, inside, fits, room, locked) refl,
                    )
                  ]
                ]
        ]
  ]
]

str_eq_self : (s : Bytes) → str_eq s s ≡ true
str_eq_self s = ground arith

-- A Release after such an Attach, by a session that held nothing, undoes it.
pub release-set_holder :
    (m : Manager) (tenant id s : Bytes) (v : Volume)
    → find m tenant id ≡ inr v
    → v.rw_holder ≡ []
    → release (set_holder m (key_of tenant id) v s) tenant id s ≡ m
unfolding release set_holder
release-set_holder m tenant id s v found free =
    let k = key_of tenant id in
    let back : record v { rw_holder = [] } ≡ v = rw (sym free) refl in
    let there = find-lookup m tenant id v found in
    rw
      (
        lookup-update_self Bytes-discrete k (record v { rw_holder = s }) m.vols,
        release,
        str_eq_self s,
        update-update_self Bytes-discrete k (record v { rw_holder = [] })
            (record v { rw_holder = s }) m.vols,
        back,
        update-lookup Bytes-discrete k v m.vols there,
      )
      refl

-- The holder that an Attach replaces is nobody, for a session that held nothing.
pub free_before :
    (m : Manager) (tenant id s : Bytes) (v : Volume)
    → IsFreeOf s m
    → find m tenant id ≡ inr v
    → (v.rw_holder ≡ []) ⊎ (v.rw_holder ≡ s)
    → v.rw_holder ≡ []
free_before m tenant id s v h found (inl free) = free
free_before m tenant id s v h found (inr own) = absurd (
    All-lookup Bytes-discrete (λ e. e.1.rw_holder ≢ s) (key_of tenant id) v m.vols h.unheld
      (find-lookup m tenant id v found) own)
