-- ===== src/Memory/Volume/Views.antt =====
-- internal/memory/volume.go: what the manager tells of its volumes.
use isobox.Prelude.{
  Bool, Bytes, List, if◌then◌else◌, inl, inr, is_empty, length, ltb, map, not, select, ℕ, ◌⊎◌,
}
use isobox.Memory.Volume.{Manager, Volume, VolError, data_dir, find, is_tenant, bad_tenant}
use isobox.Strings.{str_eq}

-- `Info`
pub record Info : Type 0 where
  pub id : Bytes
  pub name : Bytes
  pub created_at : ℕ
  pub disk_bytes : ℕ
  pub attached_rw : Bool

-- `infoOf`; `du` is dirSize.
pub info_of : (Bytes → ℕ) → Manager → Volume → Info
info_of du m v = record {
  id = v.id;
  name = v.name;
  created_at = v.created_at;
  disk_bytes = du (data_dir m v.tenant v.id);
  attached_rw = not (is_empty v.rw_holder);
}

-- `Get`
pub get : (Bytes → ℕ) → Manager → Bytes → Bytes → VolError ⊎ Info
unfolding info_of
get du m tenant id = elim (find m tenant id) [ inl e ↦ inl e | inr v ↦ inr (info_of du m v) ]

-- The volumes of a tenant.
pub owned : Bytes → List (Bytes × Volume) → List Volume
owned tenant vols =
    select (λ (v : Volume). str_eq v.tenant tenant) (map (λ (e : Bytes × Volume). e.1) vols)

-- `List`; `sort_names` is the sort of the answer by name.
pub list : (List Info → List Info) → (Bytes → ℕ) → Manager → Bytes → VolError ⊎ List Info
unfolding info_of owned
list sort_names du m tenant =
    if is_tenant tenant
    then inr (sort_names (map (info_of du m) (owned tenant m.vols)))
    else inl bad_tenant

-- `OverQuota`
pub over_quota : (Bytes → ℕ) → Manager → Bytes → Bytes → VolError ⊎ (Bool × ℕ)
over_quota du m tenant id = elim (find m tenant id) [
  | inl e ↦ inl e
  | inr v ↦ let size = du (data_dir m tenant id) in inr (ltb m.disk_quota size, size)
]

-- `Count`
pub count : Manager → ℕ
count m = length m.vols
