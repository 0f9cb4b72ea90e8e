-- ===== src/Memory/Kv/Store.antt =====
-- internal/memory/kv.go: the store of all tenants' files. What bbolt opens at a path, and the
-- keys of a file's expiry index in ascending order, are inputs.
use isobox.Prelude.{
  Bool, Bytes, Bytes-discrete, List, Option, [], codes, false, if◌then◌else◌, inl, inr, is_empty,
  leb, lookup, ltb, none, not, some, true, update, ℕ, ◌&&◌, ◌++◌, ◌+◌, ◌||◌, ◌∷◌, ◌⊎◌,
}
use isobox.Paths.{join_path, clean, dir}
use isobox.Memory.Kv.{Bolt, Codec, valid_tenant, read_counter, used_key, count_key, parse_ttl_key}
use isobox.Memory.Kv.Sweep.{sweep_db}
use isobox.Strings.{str_eq}

-- The errors of the store: a bad tenant, a closed store, a file that does not open.
pub data StoreError : Type 0 where
  bad_tenant closed open_failed : StoreError

module _ (b : Bolt) (c : Codec) where
  -- `Store`; the open files are an association list.
  pub record Store : Type 0 where
    pub dir_path : Bytes
    pub min_free_bytes : ℕ
    pub is_closed : Bool
    pub dbs : List (Bytes × b.Db)

  -- `Open`; none where it returns an error.
  pub open_store : Bytes → Bool → ℕ → Option Store
  open_store dir_path made min_free_bytes =
      if is_empty dir_path || not made
      then none
      else some (record {
        dir_path = dir_path;
        min_free_bytes = min_free_bytes;
        is_closed = false;
        dbs = [];
      })

  -- `DiskFull`; `free` is what statfs reports, none where it fails.
  pub is_disk_full : Store → Option ℕ → Bool
  is_disk_full s free = elim free [ none ↦ false | some n ↦ ltb n s.min_free_bytes ]

  -- `path`
  pub path_of : Store → Bytes → Option Bytes
  path_of s tenant =
      let p = join_path s.dir_path (tenant ++ codes ".bolt") in
      if not (valid_tenant tenant) || not (str_eq (dir p) (clean s.dir_path)) then none else some p

  -- `getDB`
  pub get_db : Store → (Bytes → Option b.Db) → Bytes → Store × (StoreError ⊎ b.Db)
  unfolding path_of
  get_db s opened tenant = elim (path_of s tenant) [
    | none ↦ (s, inl bad_tenant)
    | some p ↦ elim (lookup Bytes-discrete tenant s.dbs) [
      | some d ↦ (s, inr d)
      | none ↦ if s.is_closed then (s, inl closed) else elim (opened p) [
        | none ↦ (s, inl open_failed)
        | some d ↦ (record s { dbs = update Bytes-discrete tenant d s.dbs }, inr d)
      ]
    ]
  ]

  -- `Close`
  pub close : Store → Store
  close s = record s { is_closed = true; dbs = [] }

  -- The loop of Stats over the expiry index.
  pub expired_pending : ℕ → List Bytes → ℕ
  expired_pending now [] = 0
  expired_pending now (k ∷ ks) =
      let rest = expired_pending now ks in
      elim (parse_ttl_key k) [ none ↦ 0 | some (ns, key, ts) ↦ if leb ts now then rest + 1 else 0 ]

  -- `Stats`; `on_disk` tells whether the tenant's file is there.
  pub stats :
      Store
      → (Bytes → Option b.Db)
      → (b.Db → List Bytes)
      → Bool
      → ℕ
      → Bytes
      → Store × (StoreError ⊎ (ℕ × ℕ × ℕ))
  unfolding get_db expired_pending
  stats s opened index_keys on_disk now tenant =
      let untouched : Bool = elim (lookup Bytes-discrete tenant s.dbs) [
        | none ↦ not on_disk && elim (path_of s tenant) [ none ↦ false | some _ ↦ true ]
        | some _ ↦ false
      ] in
      if not (valid_tenant tenant)
      then (s, inl bad_tenant)
      else if untouched
      then (s, inr (0, 0, 0))
      else (let (s', r) = get_db s opened tenant in
          (
            s',
            elim r [
              | inl e ↦ inl e
              | inr d ↦ inr (
                read_counter b c d used_key,
                read_counter b c d count_key,
                expired_pending now (index_keys d),
              )
            ],
          ))

  -- The loop of SweepExpired.
  pub sweep_dbs : (b.Db → List Bytes) → ℕ → List (Bytes × b.Db) → List (Bytes × b.Db) × ℕ
  sweep_dbs index_keys now [] = ([], 0)
  sweep_dbs index_keys now ((t, d) ∷ ds) =
      let (d', n) = sweep_db b c d now (index_keys d) in
      let (ds', reclaimed) = sweep_dbs index_keys now ds in ((t, d') ∷ ds', n + reclaimed)

  -- `SweepExpired`
  pub sweep_expired : Store → (b.Db → List Bytes) → ℕ → Store × ℕ
  unfolding sweep_dbs
  sweep_expired s index_keys now =
      let (dbs, reclaimed) = sweep_dbs index_keys now s.dbs in (record s { dbs = dbs }, reclaimed)
