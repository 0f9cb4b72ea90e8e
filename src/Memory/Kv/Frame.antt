-- ===== src/Memory/Kv/Frame.antt =====
-- internal/memory/kv.go: the records that a Put does not name, and the one that a Delete names.
use isobox.Prelude.{
  Bool-cases, Bytes, Option, Option-cases, ap, arith, drop, false, inl, inr, none, refl, some,
  subst, true, ℕ, ◌-◌, ◌==◌, ◌∙◌, ◌≡◌, ◌≢◌, ◌⊎◌,
}
use isobox.Memory.Kv.{
  Bolt, Codec, not_found, put, get, delete, store_entry, previous, un_index, ns_bucket, size_of,
  read_counter, used_key, count_key, ttl_bucket, valid_namespace, bad_key_length, live_entry,
}
use isobox.Memory.Kv.Laws.{write_meta-get, index-get, put-passed, unless-none, ns_bucket-ne}

ns_bucket-inj : (ns ms : Bytes) → ms ≢ ns → ns_bucket ms ≢ ns_bucket ns
unfolding ns_bucket
ns_bucket-inj ns ms h e = h (ap (λ (s : Bytes). drop 3 s) e)

-- Another key, in this namespace or another, stands elsewhere in the file.
pub elsewhere :
    (ns key ms q : Bytes) → ((ms ≢ ns) ⊎ (q ≢ key)) → (ns_bucket ms ≢ ns_bucket ns) ⊎ (q ≢ key)
elsewhere ns key ms q (inl h) = inl (ns_bucket-inj ns ms h)
elsewhere ns key ms q (inr h) = inr h

module _ (b : Bolt) (c : Codec) where
  pub un_index-get :
      (d : b.Db) (ns key raw ms q : Bytes)
      → b.get (un_index b c d ns key raw) (ns_bucket ms) q ≡ b.get d (ns_bucket ms) q
  unfolding un_index
  un_index-get d ns key raw ms q = elim (Option-cases (c.decode raw)) [
    | inl junk ↦ rw (un_index, junk) refl
    | inr (e, found) ↦ elim (Bool-cases (e.expires_at == 0)) [
      | inl lasting ↦ rw (un_index, found, lasting) refl
      | inr timed ↦
          rw (un_index, found, timed)
            (b.get-delete_ne d ttl_bucket _ (ns_bucket ms) q (inl (ns_bucket-ne ms).1))
    ]
  ]

  previous-get :
      (d : b.Db) (ns key ms q : Bytes) (old : Option Bytes)
      → b.get (previous b c d ns key old).2 (ns_bucket ms) q ≡ b.get d (ns_bucket ms) q
  unfolding previous
  previous-get d ns key ms q none = refl
  previous-get d ns key ms q (some raw) = un_index-get d ns key raw ms q

  pub store_entry-get_ne :
      (d d' : b.Db) (ns key : Bytes) (expires : ℕ) (encoded ms q : Bytes)
      → ((ms ≢ ns) ⊎ (q ≢ key))
      → store_entry b c d ns key expires encoded ≡ (d', none)
      → b.get d' (ns_bucket ms) q ≡ b.get d (ns_bucket ms) q
  unfolding store_entry
  store_entry-get_ne d d' ns key expires encoded ms q apart h =
      let (old_size, added, e) = previous b c d ns key (b.get d (ns_bucket ns) key) in
      let (within, w) = unless-none _ d _ d' h in
      subst (λ x. b.get x (ns_bucket ms) q ≡ b.get d (ns_bucket ms) q) w
        (write_meta-get b c _ _ _ ms q
          ∙ index-get b c _ ns key expires ms q
          ∙ b.get-put_ne e (ns_bucket ns) key encoded (ns_bucket ms) q (elsewhere ns key ms q apart)
          ∙ previous-get d ns key ms q (b.get d (ns_bucket ns) key))

  -- A Put leaves every other record as it was: what a Get of another key, or of this key in
  -- another namespace, answers at any time does not change, given that the Put succeeded.
  pub put-get_ne :
      (d d' : b.Db) (now : ℕ) (ns key val content_type : Bytes) (ttl later : ℕ) (ms q : Bytes)
      → ((ms ≢ ns) ⊎ (q ≢ key))
      → put b c d now ns key val content_type ttl ≡ (d', none)
      → get b c d' later ms q ≡ get b c d later ms q
  unfolding get
  put-get_ne d d' now ns key val content_type ttl later ms q apart h =
      let (encoded, passed, done, stored) = put-passed b c d d' now ns key val content_type ttl h in
      rw (store_entry-get_ne d d' ns key _ encoded ms q apart stored) refl

  pub delete_entry :
      (d d' : b.Db) (ns key : Bytes)
      → delete b c d ns key ≡ (d', none)
      → (valid_namespace ns ≡ true)
        × (bad_key_length key ≡ false)
        × (b.get d' (ns_bucket ns) key ≡ none)
  unfolding delete
  delete_entry d d' ns key h = elim (Bool-cases (valid_namespace ns)) [
    | inr bad ↦ absurd (ground (arith, h, bad))
    | inl valid ↦ elim (Bool-cases (bad_key_length key)) [
      | inl long ↦ absurd (ground (arith, h, valid, long))
      | inr short ↦ elim (Option-cases (b.get d (ns_bucket ns) key)) [
        | inl missing ↦ (
          valid,
          short,
          subst (λ x. b.get x (ns_bucket ns) key ≡ none) (ground (arith, h, valid, short, missing))
              missing,
        )
        | inr (raw, found) ↦
            let gone =
              write_meta-get b c (b.delete (un_index b c d ns key raw) (ns_bucket ns) key)
                (read_counter b c d used_key - size_of key raw) (read_counter b c d count_key - 1)
                ns key
              ∙ b.get-delete_self (un_index b c d ns key raw) (ns_bucket ns) key in
            (
              valid,
              short,
              subst (λ x. b.get x (ns_bucket ns) key ≡ none)
                  (ground (arith, h, valid, short, found)) gone,
            )
      ]
    ]
  ]

  -- After a Delete that succeeded, no Get finds the key again.
  pub delete-get :
      (d d' : b.Db) (ns key : Bytes) (later : ℕ)
      → delete b c d ns key ≡ (d', none)
      → get b c d' later ns key ≡ inl not_found
  unfolding get live_entry
  delete-get d d' ns key later h =
      let (valid, short, gone) = delete_entry d d' ns key h in rw (valid, short, gone) refl
