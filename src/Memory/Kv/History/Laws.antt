-- ===== src/Memory/Kv/History/Laws.antt =====
-- internal/memory/kv.go: Put, Delete and Get beside a plain map.
use isobox.Prelude.{
  Bool-cases, Bytes, List, Option, Option-cases, [], arith, inl, inr, none, refl, some, subst, ℕ,
  ◌∙◌, ◌≡◌, ◌≢◌, ◌⊎◌, Bytes-discrete, ◌∷◌, ap, ◌-◌,
}
use isobox.Memory.Kv.{
  Bolt, Codec, Entry, KvError, live_entry, ns_bucket, store_entry, get, put, delete, check_put,
  new_entry, un_index, valid_namespace, bad_key_length, read_counter, used_key, count_key, size_of,
}
use isobox.Memory.Kv.History.{
  Records, Call, write, erase, perform, perform_all, answers, replay, record_call, assign,
  looked_up,
}
use isobox.Memory.Kv.Laws.{put-passed, store_entry-get, write_meta-get}
use isobox.Memory.Kv.Frame.{store_entry-get_ne, delete_entry, un_index-get, elsewhere}

module _ (b : Bolt) (c : Codec) where
  -- What the bytes under a key hold.
  decoded : Option Bytes → Option Entry
  decoded none = none
  decoded (some raw) = c.decode raw

  -- The record that the file holds under a key.
  held : b.Db → Records
  unfolding decoded
  held d ns key = decoded (b.get d (ns_bucket ns) key)

  -- The file shows what the map holds.
  Shows : b.Db → Records → Type 0
  unfolding held
  Shows d f = (ns key : Bytes) → held d ns key ≡ f ns key

  get-held :
      (d : b.Db) (later : ℕ) (ns key : Bytes)
      → get b c d later ns key ≡ looked_up b c later ns key (held d ns key)
  unfolding get looked_up live_entry held
  get-held d later ns key = elim (Option-cases (b.get d (ns_bucket ns) key)) [
    | inl missing ↦ rw missing refl
    | inr (raw, found) ↦ elim (Option-cases (c.decode raw)) [
      | inl junk ↦ rw (found, live_entry, junk) refl
      | inr (e, fine) ↦ rw (found, live_entry, fine) refl
    ]
  ]

  store_entry-refused :
      (d d' : b.Db) (ns key : Bytes) (expires : ℕ) (encoded : Bytes) (e : KvError)
      → store_entry b c d ns key expires encoded ≡ (d', some e)
      → d ≡ d'
  unfolding store_entry
  store_entry-refused d d' ns key expires encoded e h = ground arith

  put-refused :
      (d d' : b.Db) (now : ℕ) (ns key val content_type : Bytes) (ttl : ℕ) (e : KvError)
      → put b c d now ns key val content_type ttl ≡ (d', some e)
      → d ≡ d'
  unfolding put
  put-refused d d' now ns key val content_type ttl e h =
      let n = new_entry b c now ttl val content_type in
      elim (Option-cases (check_put b c ns key val)) [
        | inr (x, refused) ↦ ground (arith, h, refused)
        | inl passed ↦ elim (Option-cases (c.encode n)) [
          | inl lost ↦ ground (arith, h, passed, lost)
          | inr (encoded, done) ↦
              let inner = store_entry-refused d d' ns key n.expires_at encoded e in
              ground (arith, h, passed, done, inner)
        ]
      ]

  delete-refused :
      (d d' : b.Db) (ns key : Bytes) (e : KvError) → delete b c d ns key ≡ (d', some e) → d ≡ d'
  unfolding delete
  delete-refused d d' ns key e h = ground arith

  delete-get_ne :
      (d d' : b.Db) (ns key ms q : Bytes)
      → ((ms ≢ ns) ⊎ (q ≢ key))
      → delete b c d ns key ≡ (d', none)
      → b.get d' (ns_bucket ms) q ≡ b.get d (ns_bucket ms) q
  unfolding delete
  delete-get_ne d d' ns key ms q apart h = elim (Bool-cases (valid_namespace ns)) [
    | inr bad ↦ absurd (ground (arith, h, bad))
    | inl valid ↦ elim (Bool-cases (bad_key_length key)) [
      | inl long ↦ absurd (ground (arith, h, valid, long))
      | inr short ↦ elim (Option-cases (b.get d (ns_bucket ns) key)) [
        | inl missing ↦
            subst (λ x. b.get x (ns_bucket ms) q ≡ b.get d (ns_bucket ms) q)
              (ground (arith, h, valid, short, missing)) refl
        | inr (raw, found) ↦
            subst (λ x. b.get x (ns_bucket ms) q ≡ b.get d (ns_bucket ms) q)
              (ground (arith, h, valid, short, found))
              (write_meta-get b c (b.delete (un_index b c d ns key raw) (ns_bucket ns) key)
                  (read_counter b c d used_key - size_of key raw) (read_counter b c d count_key - 1)
                  ms q
                ∙ b.get-delete_ne (un_index b c d ns key raw) (ns_bucket ns) key (ns_bucket ms) q
                    (elsewhere ns key ms q apart)
                ∙ un_index-get b c d ns key raw ms q)
      ]
    ]
  ]

  Shows-assign :
      (d d' : b.Db) (f : Records) (ns key : Bytes) (o : Option Entry)
      → Shows d f
      → held d' ns key ≡ o
      → ((ms q : Bytes)
          → ((ms ≢ ns) ⊎ (q ≢ key))
          → b.get d' (ns_bucket ms) q ≡ b.get d (ns_bucket ms) q)
      → Shows d' (assign f ns key o)
  unfolding held Shows
  Shows-assign d d' f ns key o shown there others = λ ms q. elim (Bytes-discrete ms ns) [
    | no other ↦ ap decoded (others ms q (inl other)) ∙ shown ms q ∙ ground (arith, other)
    | yes same ↦ elim (Bytes-discrete q key) [
      | no other ↦ ap decoded (others ms q (inr other)) ∙ shown ms q ∙ ground (arith, other)
      | yes equal ↦ rw (same, equal) (there ∙ ground arith)
    ]
  ]

  put-Shows :
      (d d' : b.Db) (f : Records) (now : ℕ) (ns key val content_type : Bytes) (ttl : ℕ)
      → Shows d f
      → put b c d now ns key val content_type ttl ≡ (d', none)
      → Shows d' (assign f ns key (some (new_entry b c now ttl val content_type)))
  unfolding held
  put-Shows d d' f now ns key val content_type ttl shown h =
      let n = new_entry b c now ttl val content_type in
      let (encoded, passed, done, stored) = put-passed b c d d' now ns key val content_type ttl h in
      let there = store_entry-get b c d d' ns key n.expires_at encoded stored in
      Shows-assign d d' f ns key (some n) shown (ap decoded there ∙ c.decode-encode n encoded done)
        (λ ms q apart. store_entry-get_ne b c d d' ns key n.expires_at encoded ms q apart stored)

  delete-Shows :
      (d d' : b.Db) (f : Records) (ns key : Bytes)
      → Shows d f
      → delete b c d ns key ≡ (d', none)
      → Shows d' (assign f ns key none)
  unfolding held
  delete-Shows d d' f ns key shown h =
      Shows-assign d d' f ns key none shown (ap decoded (delete_entry b c d d' ns key h).2)
        (λ ms q apart. delete-get_ne d d' ns key ms q apart h)

  perform-Shows :
      (d d' : b.Db) (f : Records) (call : Call) (out : Option KvError)
      → Shows d f
      → perform b c d call ≡ (d', out)
      → Shows d' (record_call b c f call out)
  unfolding perform record_call
  perform-Shows d d' f (write now ns key val content_type ttl) (some e) shown h =
      subst (λ x. Shows x f) (put-refused d d' now ns key val content_type ttl e h) shown
  perform-Shows d d' f (write now ns key val content_type ttl) none shown h =
      put-Shows d d' f now ns key val content_type ttl shown h
  perform-Shows d d' f (erase ns key) (some e) shown h =
      subst (λ x. Shows x f) (delete-refused d d' ns key e h) shown
  perform-Shows d d' f (erase ns key) none shown h = delete-Shows d d' f ns key shown h

  perform_all-Shows :
      (d : b.Db) (f : Records) (calls : List Call)
      → Shows d f
      → Shows (perform_all b c d calls) (replay b c f calls (answers b c d calls))
  unfolding perform_all answers replay
  perform_all-Shows d f [] shown = shown
  perform_all-Shows d f (call ∷ calls) shown =
      let (d', out) = perform b c d call in
      perform_all-Shows d' (record_call b c f call out) calls
        (perform-Shows d d' f call out shown refl)

  -- The store implements a plain map: after any sequence of Puts and Deletes on a file without
  -- records, a Get at any time answers what the map holds that takes the calls that succeeded, in
  -- their order, and none that was refused.
  pub perform_all-replay :
      (d : b.Db) (calls : List Call) (later : ℕ) (ns key : Bytes)
      → ((ms q : Bytes) → b.get d (ns_bucket ms) q ≡ none)
      → get b c (perform_all b c d calls) later ns key
        ≡ looked_up b c later ns key (replay b c (λ ms q. none) calls (answers b c d calls) ns key)
  unfolding Shows held
  perform_all-replay d calls later ns key empty =
      get-held (perform_all b c d calls) later ns key
      ∙ ap (looked_up b c later ns key)
          (perform_all-Shows d (λ ms q. none) calls (λ ms q. ap decoded (empty ms q)) ns key)
