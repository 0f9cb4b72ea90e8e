-- ===== src/Memory/Volume/Scan.antt =====
-- internal/memory/volume.go: the index against the directories of the disk (`NewManager`, `scan`,
-- `SweepOrphans`, `Sweep`), and the views of it (`Get`, `List`, `OverQuota`, `Count`). What
-- os.ReadDir, os.Stat and the meta files say is an input; what os.RemoveAll removes is a list of
-- tenants and names, the last one first.
pub mod Laws
use isobox.Prelude.{
  Bool, Bytes, Bytes-discrete, List, Option, [], false, if◌then◌else◌, is_empty, lookup, ltb, map,
  none, not, select, some, update, ℕ, ◌&&◌, ◌*◌, ◌++◌, ◌+◌, ◌||◌, ◌∷◌,
}
use isobox.Memory.Volume.{
  Config, Manager, Volume, data_dir, is_id, is_tenant, key_of, with_defaults,
}
use isobox.Strings.{str_eq}
use isobox.Kernel.{second}

-- `meta`, as far as the index reads it.
pub record Meta : Type 0 where
  pub id : Bytes
  pub tenant : Bytes
  pub name : Bytes
  pub created_at : ℕ

-- An entry below a tenant's directory: its name, whether it is a directory, its meta file where
-- it has a readable one, and the time since its last change, none where the stat fails.
pub record Entry : Type 0 where
  pub name : Bytes
  pub is_directory : Bool
  pub meta : Option Meta
  pub age : Option ℕ

-- An entry of the root, with what it holds, none where that cannot be listed.
pub record TenantEntry : Type 0 where
  pub name : Bytes
  pub is_directory : Bool
  pub entries : Option (List Entry)

-- `orphanGrace`
abbrev pub orphan_grace : ℕ
orphan_grace = 60 * second

-- A meta file that agrees with its own path.
pub has_meta : Bytes → Entry → Bool
has_meta tenant e = elim e.meta [
  | none ↦ false
  | some md ↦ str_eq md.id e.name && str_eq md.tenant tenant
]

-- `!ve.IsDir() || !idRe.MatchString(id)`
abbrev is_stray : Entry → Bool
is_stray e = not e.is_directory || not (is_id e.name)

-- The entries of a tenant, empty where they cannot be read.
abbrev listed : TenantEntry → List Entry
listed t =
    if not t.is_directory || not (is_tenant t.name)
    then []
    else elim t.entries [ none ↦ [] | some es ↦ es ]

-- The index, the bytes found and what was removed, during a scan.
pub record Found : Type 0 where
  pub vols : List (Bytes × Volume)
  pub total : ℕ
  pub removed : List (Bytes × Bytes)

-- The volume of a meta file.
abbrev volume_of : Meta → Volume
volume_of md = record {
  id = md.id;
  tenant = md.tenant;
  name = md.name;
  created_at = md.created_at;
  rw_holder = [];
}

-- One entry of scan.
pub scan_entry : (Bytes → Bytes → ℕ) → Bytes → Found → Entry → Found
unfolding has_meta
scan_entry du tenant f e = elim e.meta [
  | none ↦ record f { removed = (tenant, e.name) ∷ f.removed }
  | some md ↦
      if is_stray e || not (has_meta tenant e)
      then record f { removed = (tenant, e.name) ∷ f.removed }
      else record f {
        vols = update Bytes-discrete (key_of tenant e.name) (volume_of md) f.vols;
        total = f.total + du tenant e.name;
      }
]

scan_entries : (Bytes → Bytes → ℕ) → Bytes → Found → List Entry → Found
unfolding scan_entry
scan_entries du tenant f [] = f
scan_entries du tenant f (e ∷ es) = scan_entries du tenant (scan_entry du tenant f e) es

scan_tenants : (Bytes → Bytes → ℕ) → Found → List TenantEntry → Found
unfolding scan_entries
scan_tenants du f [] = f
scan_tenants du f (t ∷ ts) = scan_tenants du (scan_entries du t.name f (listed t)) ts

-- `scan`, of what the root holds; `du` is dirSize of a volume's data.
pub scan :
    (Bytes → Bytes → ℕ) → Manager → Option (List TenantEntry) → Manager × List (Bytes × Bytes)
unfolding scan_tenants
scan du m none = (m, [])
scan du m (some ts) =
    let f = scan_tenants du (record { vols = m.vols; total = 0; removed = [] }) ts in
    (record m { vols = f.vols; used = f.total }, f.removed)

-- `NewManager`; none where it returns an error.
pub new_manager :
    (Bytes → Bytes → ℕ)
    → Config
    → Bool
    → Option (List TenantEntry)
    → Option (Manager × List (Bytes × Bytes))
unfolding scan
new_manager du c made tree =
    if is_empty c.root || not made
    then none
    else some (scan du (record { config = with_defaults c; vols = []; used = 0 }) tree)

-- Whether SweepOrphans removes an entry, from the keys that it has snapshotted.
pub is_orphan : List (Bytes × Volume) → Bytes → Entry → Bool
unfolding has_meta
is_orphan vols tenant e = is_stray e || elim (lookup Bytes-discrete (key_of tenant e.name) vols) [
  | some _ ↦ false
  | none ↦
      not (has_meta tenant e) && not (elim e.age [ none ↦ false | some n ↦ ltb n orphan_grace ])
]

pub orphans : List (Bytes × Volume) → List TenantEntry → List (Bytes × Bytes)
unfolding is_orphan
orphans vols [] = []
orphans vols (t ∷ ts) =
    map (λ (e : Entry). (t.name, e.name)) (select (is_orphan vols t.name) (listed t))
    ++ orphans vols ts

-- The last loop of SweepOrphans: the entries whose data is gone.
pub drop_gone : (Bytes → Bool) → Manager → List (Bytes × Volume) → List (Bytes × Volume)
drop_gone found m [] = []
drop_gone found m ((k, v) ∷ vs) =
    let rest = drop_gone found m vs in
    if found (data_dir m v.tenant v.id) then (k, v) ∷ rest else rest

-- `SweepOrphans`; `found` tells whether a stat finds the path.
pub sweep_orphans :
    (Bytes → Bool) → Manager → Option (List TenantEntry) → Manager × List (Bytes × Bytes)
unfolding orphans drop_gone
sweep_orphans found m none = (m, [])
sweep_orphans found m (some ts) = (record m { vols = drop_gone found m m.vols }, orphans m.vols ts)

abbrev pub sum_du : (Bytes → Bytes → ℕ) → List (Bytes × Volume) → ℕ
sum_du du [] = 0
sum_du du ((k, v) ∷ vs) = du v.tenant v.id + sum_du du vs

-- `Sweep`
pub sweep :
    (Bytes → Bytes → ℕ)
    → (Bytes → Bool)
    → Manager
    → Option (List TenantEntry)
    → Manager × List (Bytes × Bytes)
unfolding sweep_orphans
sweep du found m tree =
    let (m', removed) = sweep_orphans found m tree in
    (record m' { used = sum_du du m'.vols }, removed)
