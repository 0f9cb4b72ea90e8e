-- ===== src/Memory/Volume.antt =====
-- internal/memory/volume.go: the volumes of the tenants and their single-writer lock. The
-- directories, their sizes and the system calls are inputs; a volume that the map's pointer leads
-- to is put back under its key. A time is a number of nanoseconds.
pub mod Laws
pub mod Holders
pub mod Scan
pub mod Views
pub mod Tests
use isobox.Prelude.{
  Bool, Bytes, Bytes-discrete, List, Option, [], all, codes, false, if◌then◌else◌, inl, inr,
  is_empty, leb, length, lookup, ltb, none, not, remove, some, true, update, ℕ, ◌&&◌, ◌*◌, ◌++◌,
  ◌+◌, ◌-◌, ◌==◌, ◌^◌, ◌||◌, ◌∷◌, ◌⊎◌,
}
use isobox.Strings.{str_eq, to_lower, trim_space, has_prefix}
use isobox.Paths.{join_path, slash}
use isobox.Kernel.{default}

pub data VolError : Type 0 where
  vol_not_found exists bad_name bad_id bad_tenant vol_quota disk_full too_many : VolError
  volume_locked busy containment failed : VolError

-- `Volume`; no holder is the empty text, as in the source.
pub record Volume : Type 0 where
  pub id : Bytes
  pub tenant : Bytes
  pub name : Bytes
  pub created_at : ℕ
  pub rw_holder : Bytes

-- `Config`
pub record Config : Type 0 where
  pub root : Bytes
  pub disk_quota : ℕ
  pub global_disk_max : ℕ
  pub max_vol_per_tenant : ℕ
  pub min_free_bytes : ℕ

-- `Manager`; the map is an association list.
pub record Manager : Type 0 where
  pub config : Config
  pub open config use *
  pub vols : List (Bytes × Volume)
  pub used : ℕ

-- The defaults of NewManager.
pub with_defaults : Config → Config
with_defaults c = record {
  root = c.root;
  disk_quota = default c.disk_quota (512 * 2 ^ 20);
  global_disk_max = default c.global_disk_max (8 * 2 ^ 30);
  max_vol_per_tenant = default c.max_vol_per_tenant 100;
  min_free_bytes = c.min_free_bytes;
}

abbrev is_between : ℕ → ℕ → ℕ → Bool
is_between lo hi c = leb lo c && leb c hi

abbrev is_hex : ℕ → Bool
is_hex c = is_between 48 57 c || is_between 97 102 c

abbrev is_alnum : ℕ → Bool
is_alnum c = is_between 48 57 c || is_between 65 90 c || is_between 97 122 c

-- `tenantRe`
pub is_tenant : Bytes → Bool
is_tenant t = str_eq t (codes "public") || all is_hex t && is_between 8 64 (length t)

-- A text of a form in which 'h' stands for a digit of lower-case hex.
pub has_form : Bytes → Bytes → Bool
has_form [] s = is_empty s
has_form (f ∷ form) [] = false
has_form (f ∷ form) (c ∷ s) = (if f == 104 then is_hex c else c == f) && has_form form s

-- `idRe`
pub is_id : Bytes → Bool
unfolding has_form
is_id = has_form (codes "vol_hhhhhhhh-hhhh-hhhh-hhhh-hhhhhhhhhhhh")

-- `nameRe`
pub is_volume_name : Bytes → Bool
is_volume_name [] = false
is_volume_name (c ∷ s) =
    is_alnum c
    && leb (length s) 63
    && all (λ d. is_alnum d || (d == 32) || (d == 46) || (d == 95) || (d == 45)) s

-- `key`
pub key_of : Bytes → Bytes → Bytes
key_of tenant id = tenant ++ slash ∷ id

-- `dataDir`
pub data_dir : Manager → Bytes → Bytes → Bytes
data_dir m tenant id = join_path (join_path (join_path m.root tenant) id) (codes "data")

-- The loop of Create over the volumes: how many the tenant has, or none where one has the name.
-- The names are of ASCII, where EqualFold compares the lower cases.
pub count_named : Bytes → Bytes → List (Bytes × Volume) → Option ℕ
count_named tenant name [] = some 0
count_named tenant name ((k, v) ∷ vs) =
    let rest = count_named tenant name vs in
    if str_eq v.tenant tenant
    then (if str_eq (to_lower v.name) (to_lower name)
        then none
        else elim rest [ none ↦ none | some n ↦ some (n + 1) ])
    else rest

-- `DiskFull`; `free` is what statfs reports, none where it fails.
pub is_disk_full : Manager → Option ℕ → Bool
is_disk_full m free =
    leb m.global_disk_max m.used || elim free [ none ↦ false | some n ↦ ltb n m.min_free_bytes ]

-- What the system answers during one Create: the free space, the new id, whether the directories
-- and the meta file were made, and the time.
pub record Made : Type 0 where
  pub free : Option ℕ
  pub uuid : Bytes
  pub made : Bool
  pub now : ℕ

-- The end of Create: the new volume's entry.
pub add_volume : Manager → Bytes → Bytes → Made → Manager × (VolError ⊎ Volume)
unfolding key_of
add_volume m tenant name a =
    let v : Volume = record {
      id = codes "vol_" ++ a.uuid;
      tenant = tenant;
      name = name;
      created_at = a.now;
      rw_holder = [];
    } in
    if a.made
    then (record m { vols = update Bytes-discrete (key_of tenant v.id) v m.vols }, inr v)
    else (m, inl failed)

-- `Create`
pub create : Manager → Bytes → Bytes → Made → Manager × (VolError ⊎ Volume)
unfolding is_tenant is_volume_name is_disk_full count_named add_volume
create m tenant asked a =
    let trimmed = trim_space asked in
    let name = if is_empty trimmed then codes "memory" else trimmed in
    if not (is_tenant tenant)
    then (m, inl bad_tenant)
    else if not (is_volume_name name)
    then (m, inl bad_name)
    else if ltb 0 m.min_free_bytes && is_disk_full m a.free
    then (m, inl disk_full)
    else elim (count_named tenant name m.vols) [
      | none ↦ (m, inl exists)
      | some n ↦
          if leb m.max_vol_per_tenant n
          then (m, inl too_many)
          else if leb m.global_disk_max m.used
          then (m, inl disk_full)
          else add_volume m tenant name a
    ]

-- `lookup`
pub find : Manager → Bytes → Bytes → VolError ⊎ Volume
unfolding is_tenant is_id key_of
find m tenant id =
    if not (is_tenant tenant)
    then inl bad_tenant
    else if not (is_id id)
    then inl bad_id
    else elim (lookup Bytes-discrete (key_of tenant id) m.vols) [
      | none ↦ inl vol_not_found
      | some v ↦ inr v
    ]

-- `HostPath` of a volume that was found; `real` resolves symbolic links, none where it fails.
pub host_path : Manager → (Bytes → Option Bytes) → Bytes → Bytes → VolError ⊎ Bytes
unfolding data_dir
host_path m real tenant id = elim (real (join_path m.root tenant)) [
  | none ↦ inl containment
  | some root ↦ elim (real (data_dir m tenant id)) [
    | none ↦ inl containment
    | some path ↦
        if not (str_eq path root) && not (has_prefix path (root ++ slash ∷ []))
        then inl containment
        else inr path
  ]
]

-- `v.rwHolder = …` through the map's pointer.
pub set_holder : Manager → Bytes → Volume → Bytes → Manager
set_holder m key v holder = record m {
  vols = update Bytes-discrete key (record v { rw_holder = holder }) m.vols;
}

-- `v.rwHolder = sessionID` in Attach: a volume that a Delete has taken out of the map meanwhile is
-- still what the pointer leads to, but the map does not see the change.
pub hold : Manager → Bytes → Volume → Bytes → Manager
unfolding set_holder
hold m key v session = elim (lookup Bytes-discrete key m.vols) [
  | none ↦ m
  | some _ ↦ set_holder m key v session
]

-- The lock section of Attach; `v` is what its pointer leads to when the lock is taken. The section
-- does not look the volume up again.
pub lock : Manager → Bytes → Bytes → Volume → Bytes → Bytes → Manager × (VolError ⊎ (Bytes × Bool))
unfolding key_of hold
lock m tenant id v session path =
    if not (is_empty v.rw_holder) && not (str_eq v.rw_holder session)
    then (m, inl volume_locked)
    else (hold m (key_of tenant id) v session, inr (path, true))

-- What the disk answers during an Attach.
pub record Disk : Type 0 where
  pub real : Bytes → Option Bytes
  pub dir_size : Bytes → ℕ
  pub free : Option ℕ

-- What Attach comes to before its lock section: a refusal, a read-only grant, or the pointer to the
-- volume and the host path with which it goes on to the lock.
pub data Checked : Type 0 where
  refuses : VolError → Checked
  read_only : Bytes → Checked
  to_lock : Volume → Bytes → Checked

-- The checks of Attach, without the lock of its last section: other calls may run between them and
-- the lock section.
pub check_attach : Manager → Disk → Bytes → Bytes → Bytes → Bool → Checked
unfolding find host_path is_disk_full data_dir
check_attach m d tenant id session want_rw = elim (find m tenant id) [
  | inl e ↦ refuses e
  | inr v ↦ elim (host_path m d.real tenant id) [
    | inl e ↦ refuses e
    | inr path ↦
        if not want_rw
        then read_only path
        else if ltb m.disk_quota (d.dir_size (data_dir m tenant id))
        then refuses vol_quota
        else if ltb 0 m.min_free_bytes && not (str_eq v.rw_holder session) && is_disk_full m d.free
        then refuses disk_full
        else to_lock v path
  ]
]

-- `Attach` with no other call between its checks and its lock section; the answer is the host path
-- and whether it may be written.
pub attach : Manager → Disk → Bytes → Bytes → Bytes → Bool → Manager × (VolError ⊎ (Bytes × Bool))
unfolding check_attach lock
attach m d tenant id session want_rw = elim (check_attach m d tenant id session want_rw) [
  | refuses e ↦ (m, inl e)
  | read_only path ↦ (m, inr (path, false))
  | to_lock v path ↦ lock m tenant id v session path
]

-- `Release`
pub release : Manager → Bytes → Bytes → Bytes → Manager
unfolding key_of set_holder
release m tenant id session = elim (lookup Bytes-discrete (key_of tenant id) m.vols) [
  | none ↦ m
  | some v ↦ if str_eq v.rw_holder session then set_holder m (key_of tenant id) v [] else m
]

-- The loop of ReleaseAll.
pub release_each : Bytes → List (Bytes × Volume) → List (Bytes × Volume)
release_each session [] = []
release_each session ((k, v) ∷ vs) =
    (k, if str_eq v.rw_holder session then record v { rw_holder = [] } else v)
    ∷ release_each session vs

-- `ReleaseAll`
pub release_all : Manager → Bytes → Manager
unfolding release_each
release_all m session = record m { vols = release_each session m.vols }

-- `Delete`, up to the removal of the directory; `size` is the size of the data.
pub delete : Manager → ℕ → Bytes → Bytes → Manager × (VolError ⊎ Bytes)
unfolding find key_of
delete m size tenant id = elim (find m tenant id) [
  | inl e ↦ (m, inl e)
  | inr v ↦ if not (is_empty v.rw_holder) then (m, inl busy) else (
    record m { vols = remove Bytes-discrete (key_of tenant id) m.vols; used = m.used - size },
    inr (join_path (join_path m.root tenant) id),
  )
]
