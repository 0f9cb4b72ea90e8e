-- ===== src/Api/Volumes.antt =====
-- internal/api/volumes.go: the handlers of the volumes.
use isobox.Prelude.{Bytes, List, Option, codes, inl, inr, none, some, ℕ, ◌⊎◌}
use isobox.Memory.Volume.{Made, create, delete, VolError, Volume, Manager}
use isobox.Memory.Volume
use isobox.Memory.Volume.Views.{Info, get, list}
use isobox.Api.Errors.{write_vol_err}
use isobox.Api.Reply.{Response, refused, sent, failure}
use isobox.Api.Gate.{req_tenant}

-- The answer of a handler to a result of the manager.
abbrev pub reply_vol {ℓ} : {A : Type ℓ} → ℕ → VolError ⊎ A → Response A
reply_vol status (inl e) = refused (write_vol_err e)
reply_vol status (inr a) = sent status a

-- `handleCreateVolume`; a name that does not decode is none.
pub handle_create_volume :
    Volume.Manager → Made → Option Bytes → Option Bytes → Volume.Manager × Response Volume
handle_create_volume m a context name = elim (req_tenant context) [
  | inl r ↦ (m, refused r)
  | inr tenant ↦ elim name [
    | none ↦ (m, refused (failure 400 (codes "invalid_json")))
    | some n ↦ let (m', r) = create m tenant n a in (m', reply_vol 201 r)
  ]
]

-- `handleListVolumes`
pub handle_list_volumes :
    (List Info → List Info) → (Bytes → ℕ) → Volume.Manager → Option Bytes → Response (List Info)
handle_list_volumes sort_names du m context = elim (req_tenant context) [
  | inl r ↦ refused r
  | inr tenant ↦ reply_vol 200 (list sort_names du m tenant)
]

-- `handleGetVolume`
pub handle_get_volume : (Bytes → ℕ) → Volume.Manager → Option Bytes → Bytes → Response Info
handle_get_volume du m context id = elim (req_tenant context) [
  | inl r ↦ refused r
  | inr tenant ↦ reply_vol 200 (get du m tenant id)
]

-- `handleDeleteVolume`; `size` is the size of the volume's data, and the answer carries the
-- directory that goes.
pub handle_delete_volume :
    Volume.Manager → ℕ → Option Bytes → Bytes → Volume.Manager × Response Bytes
handle_delete_volume m size context id = elim (req_tenant context) [
  | inl r ↦ (m, refused r)
  | inr tenant ↦ let (m', r) = delete m size tenant id in (m', reply_vol 204 r)
]
