-- ===== src/Memory/Volume/Tests.antt =====
-- Two sessions that want to write to one volume, and a sweep of the disk under it.
use isobox.Prelude.{
  All, Bytes, Bytes-discrete, Distinct, List, [], arith, codes, false, inl, inr, lookup, none, refl,
  remove, some, true, update, ℕ_discrete, ◌↔◌, ◌∷◌, ◌≡◌, ◌≢◌, ◌⊎◌,
}
use isobox.Memory.Volume.{
  hold, check_attach, to_lock, delete, busy, volume_locked, Manager, Volume, Config, Disk, attach,
  find, lock, set_holder, host_path, data_dir, is_tenant, is_id, has_form, key_of, is_disk_full,
}
use isobox.Memory.Volume.Laws.{attach-IsExclusive}
use isobox.Memory.Volume.Scan.{TenantEntry, Entry, sweep, sum_du}
use isobox.Memory.Volume.Scan.Laws.{Agrees, Spares, sweep-Spares}
use isobox.Paths.{clean, join_path}

abbrev pub public : Bytes
public = codes "public"

abbrev pub volume_id : Bytes
volume_id = codes "vol_00000000-0000-4000-8000-00000000000a"

abbrev pub volume : Volume
volume = record {
  id = volume_id;
  tenant = public;
  name = codes "memory";
  created_at = 1;
  rw_holder = [];
}

abbrev pub manager_with : Volume → Manager
manager_with v =
    let c : Config = record {
      root = codes "/v";
      disk_quota = 100;
      global_disk_max = 1000;
      max_vol_per_tenant = 10;
      min_free_bytes = 0;
    } in
    record {
      config = c;
      vols = (codes "public/vol_00000000-0000-4000-8000-00000000000a", v) ∷ [];
      used = 10;
    }

abbrev pub disk : Disk
disk = record { real = some; dir_size = λ p. 10; free = none }

abbrev held : Volume
held = record volume { rw_holder = codes "s" }

abbrev data_path : Bytes
data_path = codes "/v/public/vol_00000000-0000-4000-8000-00000000000a/data"

checked :
    check_attach (manager_with volume) disk public volume_id (codes "s") true
    ≡ to_lock volume data_path
unfolding check_attach find host_path data_dir is_tenant is_id has_form key_of is_disk_full lookup
    join_path clean
checked = ground arith

indexed : lookup Bytes-discrete (key_of public volume_id) (manager_with volume).vols ≡ some volume
unfolding key_of lookup
indexed = ground arith

granted :
    lock (manager_with volume) public volume_id volume (codes "s") data_path
    ≡ (manager_with held, inr (data_path, true))
unfolding lock hold set_holder key_of lookup update
granted = ground arith

attach-IsExclusive_example :
    ((find (manager_with volume) public volume_id ≡ inr volume)
      × ((volume.rw_holder ≡ []) ⊎ (volume.rw_holder ≡ codes "s"))
      × (find (manager_with held) public volume_id ≡ inr held)
      × ((lock (manager_with held) public volume_id held (codes "t") (codes "/x")).1
          ≡ inl volume_locked)
      × ((attach (manager_with held) disk public volume_id (codes "t") true).1
          ≢ inr (codes "/x", true))
      × (delete (manager_with held) 10 public volume_id ≡ (manager_with held, inl busy)))
    ⊎ ((lookup Bytes-discrete (key_of public volume_id) (manager_with volume).vols ≡ none)
        × (manager_with volume ≡ manager_with held))
attach-IsExclusive_example =
    attach-IsExclusive (manager_with volume) (manager_with volume) (manager_with held) disk disk
      public volume_id (codes "s") (codes "t") data_path (codes "/x") 10 volume volume
      (ground arith) (ground arith) checked (inl indexed) granted

-- A Delete between the checks and the lock section: write access to a volume that is gone.
abbrev emptied : Manager
emptied = record (manager_with volume) { vols = []; used = 0 }

deleted_before_lock :
    (delete (manager_with volume) 10 public volume_id
      ≡ (emptied, inr (codes "/v/public/vol_00000000-0000-4000-8000-00000000000a")))
    × (lock emptied public volume_id volume (codes "s") data_path
        ≡ (emptied, inr (data_path, true)))
unfolding delete lock hold set_holder find is_tenant is_id has_form key_of lookup remove join_path
    clean
deleted_before_lock = (ground arith, ground arith)

-- A tenant's directory with the volume's and a stray file.
abbrev tree : List TenantEntry
tree =
    let v : Entry = record { name = volume_id; is_directory = true; meta = none; age = some 1 } in
    let f : Entry = record { name = codes "x"; is_directory = false; meta = none; age = none } in
    record { name = public; is_directory = true; entries = some (v ∷ f ∷ []) } ∷ []

tree-Agrees : Agrees (manager_with volume).vols tree
unfolding is_id has_form key_of lookup is_tenant Bytes-discrete ℕ_discrete
tree-Agrees = ((inr refl, (inl (ground arith), tt)), tt)

sweep-Spares_example :
    (m' : Manager) × (removed : List (Bytes × Bytes)) × (sweep
        (λ t n. 7)
        (λ p. true)
        (manager_with volume)
        (some tree)
      ≡ (m', removed))
    × All (Spares (manager_with volume).vols) removed
    × Distinct Bytes-discrete m'.vols
    × ((k : Bytes) (v : Volume)
        → (lookup Bytes-discrete k m'.vols ≡ some v)
          ↔ ((lookup Bytes-discrete k (manager_with volume).vols ≡ some v) × (true ≡ true)))
    × (m'.used ≡ sum_du (λ t n. 7) m'.vols)
unfolding lookup
sweep-Spares_example =
    sweep-Spares (λ t n. 7) (λ p. true) (manager_with volume) tree (refl, tt) tree-Agrees
