-- ===== src/Memory/Kv/Sweep.antt =====
-- internal/memory/kv.go: `sweepDB`, the removal of what has expired, along the expiry index.
use isobox.Prelude.{
  Bytes, List, [], if◌then◌else◌, is_empty, ltb, none, some, ℕ, ◌&&◌, ◌+◌, ◌-◌, ◌==◌, ◌||◌, ◌∷◌,
}
use isobox.Memory.Kv.{
  Bolt, Codec, read_counter, write_meta, parse_ttl_key, size_of, ns_bucket, ttl_bucket, count_key,
  used_key,
}

module _ (b : Bolt) (c : Codec) where
  -- What one due entry of the index does to the sweep's transaction: the file, the counters and
  -- the number of records reclaimed.
  pub sweep_one : ℕ → b.Db × ℕ × ℕ × ℕ → Bytes → b.Db × ℕ × ℕ × ℕ
  sweep_one now (d, used, count, reclaimed) k =
      let gone : b.Db × ℕ × ℕ × ℕ = (b.delete d ttl_bucket k, used, count, reclaimed) in
      elim (parse_ttl_key k) [
        | none ↦ gone
        | some (ns, key, ts) ↦
            if is_empty ns && is_empty key then gone else elim (b.get d (ns_bucket ns) key) [
              | none ↦ gone
              | some raw ↦
                  let taken : b.Db × ℕ × ℕ × ℕ = (
                    b.delete (b.delete d (ns_bucket ns) key) ttl_bucket k,
                    used - size_of key raw,
                    count - 1,
                    reclaimed + 1,
                  ) in
                  elim (c.decode raw) [
                    | none ↦ taken
                    | some e ↦ if (e.expires_at == 0) || ltb now e.expires_at then gone else taken
                  ]
            ]
      ]

  sweep_all : ℕ → b.Db × ℕ × ℕ × ℕ → List Bytes → b.Db × ℕ × ℕ × ℕ
  unfolding sweep_one
  sweep_all now t [] = t
  sweep_all now t (k ∷ ks) = sweep_all now (sweep_one now t k) ks

  -- The due entries of the index, whose keys are in ascending order.
  pub due : ℕ → List Bytes → List Bytes
  due now [] = []
  due now (k ∷ ks) =
      let rest = due now ks in
      elim (parse_ttl_key k) [
        | none ↦ k ∷ rest
        | some (ns, key, ts) ↦ if ltb now ts then [] else k ∷ rest
      ]

  -- `sweepDB`, from the keys of the index.
  pub sweep_db : b.Db → ℕ → List Bytes → b.Db × ℕ
  unfolding due sweep_all
  sweep_db d now index_keys =
      let batch = due now index_keys in
      let (d', used, count, reclaimed) =
        sweep_all now (d, read_counter b c d used_key, read_counter b c d count_key, 0) batch in
      if is_empty batch then (d, 0) else (write_meta b c d' used count, reclaimed)
