-- ===== src/Memory/Kv.antt =====
-- internal/memory/kv.go: the key-value store of one tenant. Its bbolt file is a parameter with
-- the documented behaviour of buckets, and the gob encoding a pair of functions. A bucket that
-- does not exist is an empty one, as every operation here treats it. A time is a number of
-- nanoseconds, 0 for the zero time. `commits` tells whether the transaction is written.
pub mod Laws
pub mod Index
pub mod Frame
pub mod Sweep
pub mod Listing
pub mod Store
pub mod History
mod Tests
use isobox.Prelude.{
  Bool, Bytes, Option, [], all, codes, drop, if◌then◌else◌, inl, inr, is_empty, leb, length, ltb,
  none, not, some, suc, take, zero, ℕ, ◌%◌, ◌&&◌, ◌*◌, ◌++◌, ◌+◌, ◌-◌, ◌/◌, ◌==◌, ◌^◌, ◌||◌, ◌∷◌,
  ◌≡◌, ◌≢◌, ◌⊎◌,
}
use isobox.Strings.{str_eq}

pub record Bolt : Type 1 where
  pub Db : Type 0
  pub get : Db → Bytes → Bytes → Option Bytes
  pub put : Db → Bytes → Bytes → Bytes → Db
  pub delete : Db → Bytes → Bytes → Db
  pub get-put_self : (d : Db) (b k v : Bytes) → get (put d b k v) b k ≡ some v
  pub get-put_ne :
      (d : Db) (b k v c q : Bytes) → ((c ≢ b) ⊎ (q ≢ k)) → get (put d b k v) c q ≡ get d c q
  pub get-delete_self : (d : Db) (b k : Bytes) → get (delete d b k) b k ≡ none
  pub get-delete_ne :
      (d : Db) (b k c q : Bytes) → ((c ≢ b) ⊎ (q ≢ k)) → get (delete d b k) c q ≡ get d c q

pub data KvError : Type 0 where
  not_found quota bad_namespace bad_key value_size failed : KvError

-- `record`
pub record Entry : Type 0 where
  pub value : Bytes
  pub content_type : Bytes
  pub expires_at : ℕ
  pub updated_at : ℕ

-- encodeRecord and decodeRecord: what was encoded is decoded again.
pub record Codec : Type 0 where
  pub encode : Entry → Option Bytes
  pub decode : Bytes → Option Entry
  pub decode-encode : (e : Entry) (s : Bytes) → encode e ≡ some s → decode s ≡ some e

abbrev pub max_bytes : ℕ
max_bytes = 10 * 2 ^ 20

abbrev pub max_keys : ℕ
max_keys = 10_000

abbrev pub max_value : ℕ
max_value = 8 * 2 ^ 20

abbrev pub meta_bucket : Bytes
meta_bucket = codes "_meta"

abbrev pub ttl_bucket : Bytes
ttl_bucket = codes "_ttl"

abbrev pub used_key : Bytes
used_key = codes "usedBytes"

abbrev pub count_key : Bytes
count_key = codes "keyCount"

abbrev is_between : ℕ → ℕ → ℕ → Bool
is_between lo hi c = leb lo c && leb c hi

-- `validTenant`
pub valid_tenant : Bytes → Bool
valid_tenant t =
    str_eq t (codes "public")
    || (length t == 64) && all (λ c. is_between 48 57 c || is_between 97 102 c) t

abbrev is_namespace_char : ℕ → Bool
is_namespace_char c =
    is_between 97 122 c
    || is_between 65 90 c
    || is_between 48 57 c
    || (c == 95)
    || (c == 45)
    || (c == 46)
    || (c == 58)

-- `validNamespace`
pub valid_namespace : Bytes → Bool
valid_namespace ns = not (is_empty ns || ltb 128 (length ns)) && all is_namespace_char ns

-- `binary.BigEndian.PutUint64` and `PutUint16`: the low bytes of a number, the high one first.
unfoldable pub big_endian : ℕ → ℕ → Bytes
big_endian zero n = []
big_endian (suc width) n = big_endian width (n / 256) ++ (n % 256 ∷ [])

-- `binary.BigEndian.Uint64` and `Uint16`, from the number read so far.
unfoldable pub read_big_endian : ℕ → Bytes → ℕ
read_big_endian n [] = n
read_big_endian n (b ∷ bs) = read_big_endian (n * 256 + b) bs

-- `nsBucketName`
pub ns_bucket : Bytes → Bytes
ns_bucket ns = codes "ns:" ++ ns

-- `ttlKey`
pub ttl_key : ℕ → Bytes → Bytes → Bytes
unfolding big_endian
ttl_key ts ns key = big_endian 8 ts ++ big_endian 2 (length ns) ++ ns ++ key

-- `parseTTLKey`
pub parse_ttl_key : Bytes → Option (Bytes × Bytes × ℕ)
unfolding read_big_endian
parse_ttl_key k =
    let ns_len = read_big_endian 0 (take 2 (drop 8 k)) in
    let rest = drop 10 k in
    if ltb (length k) 10
    then none
    else if ltb (length k) (10 + ns_len)
    then none
    else some (take ns_len rest, drop ns_len rest, read_big_endian 0 (take 8 k))

-- `sizeOf`
pub size_of : Bytes → Bytes → ℕ
size_of key encoded = length key + length encoded

-- The checks of a key.
pub bad_key_length : Bytes → Bool
bad_key_length key = is_empty key || ltb 512 (length key)

module _ (b : Bolt) (c : Codec) where
  -- One counter of readKVMeta: 0 unless eight bytes are stored.
  pub read_counter : b.Db → Bytes → ℕ
  unfolding read_big_endian
  read_counter d k = elim (b.get d meta_bucket k) [
    | none ↦ 0
    | some v ↦ if length v == 8 then read_big_endian 0 v else 0
  ]

  -- `writeKVMeta`; a negative number is written as 0, which is what ∸ gives here.
  pub write_meta : b.Db → ℕ → ℕ → b.Db
  unfolding big_endian
  write_meta d used count =
      b.put (b.put d meta_bucket used_key (big_endian 8 used)) meta_bucket count_key
        (big_endian 8 count)

  -- The expiry index loses the entry of a stored record.
  pub un_index : b.Db → Bytes → Bytes → Bytes → b.Db
  unfolding ttl_key
  un_index d ns key raw = elim (c.decode raw) [
    | none ↦ d
    | some e ↦ if e.expires_at == 0 then d else b.delete d ttl_bucket (ttl_key e.expires_at ns key)
  ]

  -- What stood under the key: its size, how many entries it adds, and the file without its index.
  pub previous : b.Db → Bytes → Bytes → Option Bytes → ℕ × ℕ × b.Db
  unfolding un_index size_of
  previous d ns key none = (0, 1, d)
  previous d ns key (some raw) = (size_of key raw, 0, un_index d ns key raw)

  -- The expiry index gains the entry of a new record.
  pub index : b.Db → Bytes → Bytes → ℕ → b.Db
  unfolding ttl_key
  index d ns key expires =
      if expires == 0 then d else b.put d ttl_bucket (ttl_key expires ns key) []

  -- The transaction of Put. `(used + new) - old` is 0 where the source's difference is negative,
  -- which is what the source then stores.
  pub store_entry : b.Db → Bytes → Bytes → ℕ → Bytes → b.Db × Option KvError
  unfolding previous index write_meta size_of read_counter ns_bucket
  store_entry d ns key expires encoded =
      let (old_size, added, d') = previous d ns key (b.get d (ns_bucket ns) key) in
      let used = (read_counter d used_key + size_of key encoded) - old_size in
      let count = read_counter d count_key + added in
      if ltb max_bytes used || ltb max_keys count then (d, some quota) else (
        write_meta (index (b.put d' (ns_bucket ns) key encoded) ns key expires) used count,
        none,
      )

  -- The checks of Put before it opens the file.
  pub check_put : Bytes → Bytes → Bytes → Option KvError
  unfolding valid_namespace bad_key_length
  check_put ns key val =
      if not (valid_namespace ns)
      then some bad_namespace
      else if bad_key_length key
      then some bad_key
      else if ltb max_value (length val)
      then some value_size
      else none

  -- The record that Put writes.
  pub new_entry : ℕ → ℕ → Bytes → Bytes → Entry
  new_entry now ttl val content_type = record {
    value = val;
    content_type = content_type;
    expires_at = if ltb 0 ttl then now + ttl else 0;
    updated_at = now;
  }

  -- `Put` on the tenant's open file.
  pub put : b.Db → ℕ → Bytes → Bytes → Bytes → Bytes → ℕ → b.Db × Option KvError
  unfolding check_put new_entry store_entry
  put d now ns key val content_type ttl = elim (check_put ns key val) [
    | some e ↦ (d, some e)
    | none ↦
        let e = new_entry now ttl val content_type in
        elim (c.encode e) [
          | none ↦ (d, some failed)
          | some encoded ↦
              if ltb max_value (length encoded)
              then (d, some value_size)
              else store_entry d ns key e.expires_at encoded
        ]
  ]

  -- Whether a record is past its expiry.
  pub is_expired : ℕ → Entry → Bool
  is_expired now e = not (e.expires_at == 0) && leb e.expires_at now

  -- The view of Get.
  pub live_entry : ℕ → Option Bytes → KvError ⊎ Entry
  unfolding is_expired
  live_entry now none = inl not_found
  live_entry now (some raw) = elim (c.decode raw) [
    | none ↦ inl not_found
    | some e ↦ if is_expired now e then inl not_found else inr e
  ]

  -- `Get`, without the hash that it adds as an etag.
  pub get : b.Db → ℕ → Bytes → Bytes → KvError ⊎ Entry
  unfolding valid_namespace bad_key_length live_entry ns_bucket
  get d now ns key =
      if not (valid_namespace ns)
      then inl bad_namespace
      else if bad_key_length key
      then inl bad_key
      else live_entry now (b.get d (ns_bucket ns) key)

  -- `Delete`
  pub delete : b.Db → Bytes → Bytes → b.Db × Option KvError
  unfolding valid_namespace bad_key_length un_index write_meta size_of read_counter ns_bucket
  delete d ns key =
      if not (valid_namespace ns)
      then (d, some bad_namespace)
      else if bad_key_length key
      then (d, some bad_key)
      else elim (b.get d (ns_bucket ns) key) [
        | none ↦ (d, none)
        | some raw ↦ (
          write_meta (b.delete (un_index d ns key raw) (ns_bucket ns) key)
              (read_counter d used_key - size_of key raw) (read_counter d count_key - 1),
          none,
        )
      ]
