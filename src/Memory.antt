-- ===== src/Memory.antt =====
-- internal/memory: the key-value store and the volumes of a tenant.
pub mod Kv
pub mod Volume
