-- ===== src/Api/Errors.antt =====
-- internal/api: how the handlers answer the errors of the session manager, the volumes and the
-- key-value store. An error that the source's `default` branch answers carries no further detail.
pub mod Laws
use isobox.Prelude.{Bool, codes, if◌then◌else◌}
use isobox.Api.Reply.{Reply, failure, failure_after}
use isobox.Session.{
  not_found, forbidden, capacity, quota, bad_path, is_dir, disk_full, too_many, kernel_disabled,
  kernel_busy, wrong_type, system_failed, Error,
}
use isobox.Memory.Volume.{VolError}
use isobox.Memory.Kv.{KvError}

-- `writeCreateSessErr`
pub write_create_sess_err : Error → Reply
write_create_sess_err too_many = failure_after 5 429 (codes "too_many_sessions")
write_create_sess_err disk_full = failure 507 (codes "storage_full")
write_create_sess_err kernel_disabled = failure 400 (codes "kernel_disabled")
write_create_sess_err kernel_busy = failure_after 5 429 (codes "kernel_busy")
write_create_sess_err _ = failure 400 (codes "create_failed")

-- `writeSessErr`; `missing` tells of a failing system call whether it is os.ErrNotExist.
pub write_sess_err : Bool → Error → Reply
write_sess_err missing not_found = failure 404 (codes "session_not_found")
write_sess_err missing forbidden = failure 401 (codes "invalid_session_token")
write_sess_err missing capacity = failure_after 1 429 (codes "capacity")
write_sess_err missing quota = failure 413 (codes "quota_exceeded")
write_sess_err missing bad_path = failure 400 (codes "invalid_path")
write_sess_err missing is_dir = failure 400 (codes "is_a_directory")
write_sess_err missing kernel_disabled = failure 400 (codes "kernel_disabled")
write_sess_err missing kernel_busy = failure_after 5 429 (codes "kernel_busy")
write_sess_err missing wrong_type = failure 409 (codes "wrong_session_type")
write_sess_err missing system_failed =
    if missing then failure 404 (codes "not_found") else failure 500 (codes "internal")
write_sess_err missing _ = failure 500 (codes "internal")

-- `writeVolErr`
pub write_vol_err : VolError → Reply
write_vol_err VolError.vol_not_found = failure 404 (codes "volume_not_found")
write_vol_err VolError.exists = failure 409 (codes "volume_name_exists")
write_vol_err VolError.volume_locked = failure 409 (codes "volume_locked")
write_vol_err VolError.busy = failure 409 (codes "volume_busy")
write_vol_err VolError.vol_quota = failure 413 (codes "volume_quota_exceeded")
write_vol_err VolError.disk_full = failure 507 (codes "storage_full")
write_vol_err VolError.too_many = failure 429 (codes "too_many_volumes")
write_vol_err VolError.bad_name = failure 400 (codes "invalid_name")
write_vol_err VolError.bad_id = failure 400 (codes "invalid_request")
write_vol_err VolError.bad_tenant = failure 400 (codes "invalid_request")
write_vol_err VolError.containment = failure 400 (codes "invalid_request")
write_vol_err VolError.failed = failure 500 (codes "internal")

-- `writeKVErr`
pub write_kv_err : KvError → Reply
write_kv_err KvError.not_found = failure 404 (codes "not_found")
write_kv_err KvError.quota = failure 413 (codes "quota_exceeded")
write_kv_err KvError.value_size = failure 413 (codes "value_too_large")
write_kv_err KvError.bad_namespace = failure 400 (codes "invalid_namespace")
write_kv_err KvError.bad_key = failure 400 (codes "invalid_key")
write_kv_err KvError.failed = failure 500 (codes "internal")
