-- ===== src/Memory/Kv/Laws.antt =====
-- internal/memory/kv.go: `Put` followed by `Get`.
use isobox.Prelude.{
  Bool, Bool-cases, Bytes, Option, Option-cases, [], arith, false, if◌then◌else◌, inl, inr, none,
  refl, some, subst, true, ℕ, ◌+◌, ◌<◌, ◌==◌, ◌∙◌, ◌≡◌, ◌≢◌, ◌⊎◌,
}
use isobox.Memory.Kv.{
  get, put, valid_namespace, bad_key_length, quota, Bolt, Codec, store_entry, write_meta, index,
  ns_bucket, ttl_bucket, meta_bucket, used_key, count_key, previous, KvError, check_put, is_expired,
  new_entry, Entry, live_entry,
}

pub ns_bucket-ne : (ns : Bytes) → (ns_bucket ns ≢ meta_bucket) × (ns_bucket ns ≢ ttl_bucket)
unfolding ns_bucket
ns_bucket-ne ns = (ground arith, ground arith)

-- A transaction that is not rolled back.
pub unless-none :
    {D : Type 0} (over : Bool) (d w d' : D)
    → ◌≡◌ {A = D × Option KvError} (if over then (d, some quota) else (w, none)) (d', none)
    → (over ≡ false) × (w ≡ d')
unless-none true d w d' h = ground arith
unless-none false d w d' h = ground arith

module _ (b : Bolt) (c : Codec) where
  -- The counters and the expiry index are not in the bucket of a namespace.
  pub write_meta-get :
      (d : b.Db) (used count : ℕ) (ns q : Bytes)
      → b.get (write_meta b c d used count) (ns_bucket ns) q ≡ b.get d (ns_bucket ns) q
  unfolding write_meta
  write_meta-get d used count ns q =
      b.get-put_ne _ meta_bucket count_key _ (ns_bucket ns) q (inl (ns_bucket-ne ns).0)
      ∙ b.get-put_ne d meta_bucket used_key _ (ns_bucket ns) q (inl (ns_bucket-ne ns).0)

  pub index-get :
      (d : b.Db) (ns key : Bytes) (expires : ℕ) (ms q : Bytes)
      → b.get (index b c d ns key expires) (ns_bucket ms) q ≡ b.get d (ns_bucket ms) q
  unfolding index
  index-get d ns key expires ms q = elim (Bool-cases (expires == 0)) [
    | inl e ↦ rw e refl
    | inr e ↦ rw e (b.get-put_ne d ttl_bucket _ [] (ns_bucket ms) q (inl (ns_bucket-ne ms).1))
  ]

  -- A transaction that is written leaves the new record under its key.
  pub store_entry-get :
      (d d' : b.Db) (ns key : Bytes) (expires : ℕ) (encoded : Bytes)
      → store_entry b c d ns key expires encoded ≡ (d', none)
      → b.get d' (ns_bucket ns) key ≡ some encoded
  unfolding store_entry
  store_entry-get d d' ns key expires encoded h =
      let (old_size, added, e) = previous b c d ns key (b.get d (ns_bucket ns) key) in
      let (within, w) = unless-none _ d _ d' h in
      subst (λ x. b.get x (ns_bucket ns) key ≡ some encoded) w
        (write_meta-get _ _ _ ns key
          ∙ index-get _ ns key expires ns key
          ∙ b.get-put_self _ (ns_bucket ns) key encoded)

  -- What a Put that succeeds has passed.
  pub put-passed :
      (d d' : b.Db) (now : ℕ) (ns key val content_type : Bytes) (ttl : ℕ)
      → put b c d now ns key val content_type ttl ≡ (d', none)
      → (encoded : Bytes) × (check_put b c ns key val ≡ none)
        × (c.encode (new_entry b c now ttl val content_type) ≡ some encoded)
        × (store_entry b c d ns key (new_entry b c now ttl val content_type).expires_at encoded
            ≡ (d', none))
  unfolding put
  put-passed d d' now ns key val content_type ttl h =
      let e = new_entry b c now ttl val content_type in
      elim (Option-cases (check_put b c ns key val)) [
        | inr (e, refused) ↦ absurd (ground (arith, h, refused))
        | inl passed ↦ elim (Option-cases (c.encode e)) [
          | inl lost ↦ absurd (ground (arith, h, passed, lost))
          | inr (encoded, done) ↦ (encoded, passed, done, ground (arith, h, passed, done))
        ]
      ]

  pub check_put-none :
      (ns key val : Bytes)
      → check_put b c ns key val ≡ none
      → (valid_namespace ns ≡ true) × (bad_key_length key ≡ false)
  unfolding check_put
  check_put-none ns key val h = (ground arith, ground arith)

  new_entry-live :
      (now ttl later : ℕ) (val content_type : Bytes)
      → ((ttl ≡ 0) ⊎ (later < now + ttl))
      → is_expired b c later (new_entry b c now ttl val content_type) ≡ false
  unfolding is_expired new_entry
  new_entry-live now ttl later val content_type h = ground arith

  live_entry-found :
      (later : ℕ) (raw : Bytes) (e : Entry)
      → c.decode raw ≡ some e
      → is_expired b c later e ≡ false
      → live_entry b c later (some raw) ≡ inr e
  unfolding live_entry
  live_entry-found later raw e found live = rw (live_entry, found, live) refl

  -- What a Put has stored, a Get returns until the record expires: the value, the content type and
  -- the expiry, given that the Put succeeded.
  pub put-get :
      (d d' : b.Db) (now : ℕ) (ns key val content_type : Bytes) (ttl later : ℕ)
      → put b c d now ns key val content_type ttl ≡ (d', none)
      → ((ttl ≡ 0) ⊎ (later < now + ttl))
      → get b c d' later ns key ≡ inr (new_entry b c now ttl val content_type)
  unfolding get
  put-get d d' now ns key val content_type ttl later h live =
      let e = new_entry b c now ttl val content_type in
      let (encoded, passed, done, stored) = put-passed d d' now ns key val content_type ttl h in
      let (valid, short) = check_put-none ns key val passed in
      let there = store_entry-get d d' ns key e.expires_at encoded stored in
      rw (valid, short, there)
        (live_entry-found later encoded e (c.decode-encode e encoded done)
          (new_entry-live now ttl later val content_type live))
