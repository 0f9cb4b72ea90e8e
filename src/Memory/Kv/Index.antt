-- ===== src/Memory/Kv/Index.antt =====
-- internal/memory/kv.go: the bytes of the counters and of the expiry index.
use isobox.Prelude.{
  Bytes, [], ap, arith, drop, false, inr, length, length-append, ltb, none, refl, some, subst, suc,
  sym, take, take_none, zero, ℕ, ◌%◌, ◌*◌, ◌++◌, ◌+◌, ◌-◌, ◌/◌, ◌<◌, ◌^◌, ◌||◌, ◌∷◌, ◌≡◌, ◌≤◌,
}
use isobox.Memory.Kv.{
  ns_bucket, index, previous, size_of, count_key, Bolt, Codec, big_endian, read_big_endian, ttl_key,
  parse_ttl_key, put, write_meta, read_counter, used_key, meta_bucket, max_bytes, max_keys,
  store_entry,
}
use isobox.Memory.Kv.Laws.{put-passed, unless-none}

-- The numbers of so many bytes.
abbrev Fits : ℕ → ℕ → Type 0
Fits zero n = n ≡ 0
Fits (suc width) n = Fits width (n / 256)

read-append :
    (a : ℕ) (xs : Bytes) (y : ℕ) → read_big_endian a (xs ++ y ∷ []) ≡ read_big_endian a xs * 256 + y
unfolding read_big_endian
read-append a [] y = refl
read-append a (x ∷ xs) y = read-append (a * 256 + x) xs y

read-big_endian : (width n : ℕ) → Fits width n → read_big_endian 0 (big_endian width n) ≡ n
unfolding big_endian read_big_endian
read-big_endian zero n h = sym h
read-big_endian (suc width) n h =
    omega (
      arith,
      read-append 0 (big_endian width (n / 256)) (n % 256),
      read-big_endian width (n / 256) h,
    )

pub take-front : (p r : Bytes) → take (length p) (p ++ r) ≡ p
take-front [] r = take_none zero r refl
take-front (x ∷ p) r = ap (◌∷◌ x) (take-front p r)

pub drop-front : (p r : Bytes) → drop (length p) (p ++ r) ≡ r
drop-front [] r = refl
drop-front (x ∷ p) r = drop-front p r

lt-false : (a b : ℕ) → b ≤ a → ltb a b ≡ false
lt-false a b h = ground arith

parse_ttl_key-parts :
    (k ns key : Bytes) (ts : ℕ)
    → read_big_endian 0 (take 8 k) ≡ ts
    → read_big_endian 0 (take 2 (drop 8 k)) ≡ length ns
    → drop 10 k ≡ ns ++ key
    → ltb (length k) 10 ≡ false
    → ltb (length k) (10 + length ns) ≡ false
    → parse_ttl_key k ≡ some (ns, key, ts)
unfolding parse_ttl_key
parse_ttl_key-parts k ns key ts time width rest long fits =
    rw (parse_ttl_key, long, width, fits, rest, time, take-front ns key, drop-front ns key) refl

-- An index key leads back to its namespace, key and time, for every time and namespace that fit
-- their eight and two bytes.
pub parse_ttl_key-ttl_key :
    (ts : ℕ) (ns key : Bytes)
    → ts < 2 ^ 64
    → length ns < 2 ^ 16
    → parse_ttl_key (ttl_key ts ns key) ≡ some (ns, key, ts)
unfolding ttl_key big_endian
parse_ttl_key-ttl_key ts ns key t n =
    let sum = length-append ns key in
    parse_ttl_key-parts (ttl_key ts ns key) ns key ts (read-big_endian 8 ts (omega arith))
      (read-big_endian 2 (length ns) (omega arith)) refl (lt-false _ _ (omega arith))
      (lt-false _ _ (omega (arith, sum)))

module _ (b : Bolt) (c : Codec) where
  read_counter-count :
      (d : b.Db) (used count : ℕ)
      → Fits 8 count
      → read_counter b c (write_meta b c d used count) count_key ≡ count
  unfolding read_counter write_meta
  read_counter-count d used count h = rw (read_counter, b.get-put_self) (read-big_endian 8 count h)

  read_counter-used :
      (d : b.Db) (used count : ℕ)
      → Fits 8 used
      → read_counter b c (write_meta b c d used count) used_key ≡ used
  unfolding read_counter write_meta
  read_counter-used d used count h =
      let other =
        b.get-put_ne (b.put d meta_bucket used_key (big_endian 8 used)) meta_bucket count_key
          (big_endian 8 count) meta_bucket used_key (inr (ground arith)) in
      rw (read_counter, other, b.get-put_self) (read-big_endian 8 used h)

  write_meta-quota :
      (d : b.Db) (used count : ℕ)
      → (ltb max_bytes used || ltb max_keys count) ≡ false
      → (read_counter b c (write_meta b c d used count) used_key ≤ max_bytes)
        × (read_counter b c (write_meta b c d used count) count_key ≤ max_keys)
  write_meta-quota d used count h =
      let bytes : used ≤ max_bytes = ground arith in
      let keys : count ≤ max_keys = ground arith in
      (
        subst (λ n. n ≤ max_bytes) (sym (read_counter-used d used count (omega (arith, bytes))))
            bytes,
        subst (λ n. n ≤ max_keys) (sym (read_counter-count d used count (omega (arith, keys))))
            keys,
      )

  store_entry-quota :
      (d d' : b.Db) (ns key : Bytes) (expires : ℕ) (encoded : Bytes)
      → store_entry b c d ns key expires encoded ≡ (d', none)
      → (read_counter b c d' used_key ≤ max_bytes) × (read_counter b c d' count_key ≤ max_keys)
  unfolding store_entry
  store_entry-quota d d' ns key expires encoded h =
      let (old_size, added, e) = previous b c d ns key (b.get d (ns_bucket ns) key) in
      let used = (read_counter b c d used_key + size_of key encoded) - old_size in
      let count = read_counter b c d count_key + added in
      let (within, w) = unless-none _ d _ d' h in
      subst
        (λ x. (read_counter b c x used_key ≤ max_bytes) × (read_counter b c x count_key ≤ max_keys))
        w
        (write_meta-quota (index b c (b.put e (ns_bucket ns) key encoded) ns key expires) used count
          within)

  -- A Put that succeeds leaves the tenant within its quotas of bytes and keys, as the counters of
  -- its file tell them.
  pub put-quota :
      (d d' : b.Db) (now : ℕ) (ns key val content_type : Bytes) (ttl : ℕ)
      → put b c d now ns key val content_type ttl ≡ (d', none)
      → (read_counter b c d' used_key ≤ max_bytes) × (read_counter b c d' count_key ≤ max_keys)
  put-quota d d' now ns key val content_type ttl h =
      let (encoded, passed, done, stored) = put-passed b c d d' now ns key val content_type ttl h in
      store_entry-quota d d' ns key _ encoded stored
