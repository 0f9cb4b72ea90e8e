-- ===== src/Memory/Kv/Tests.antt =====
-- A store whose buckets are a function, and an encoding with a length in front.
use isobox.Prelude.{
  ℕ_discrete, Bytes, Bytes-discrete, List, [], Option, arith, codes, drop, inl, inr, ite, length,
  none, refl, some, some-inj, subst, take, ◌++◌, ◌∷◌, ◌≡◌, ◌≢◌, ◌≤◌, ◌⊎◌,
}
use isobox.Memory.Kv.Frame.{put-get_ne, delete-get}
use isobox.Memory.Kv.{
  not_found, bad_namespace, delete, ttl_key, big_endian, Bolt, Codec, Entry, put, get, new_entry,
  read_counter, used_key, count_key, max_bytes, max_keys, parse_ttl_key, check_put, valid_namespace,
  bad_key_length, store_entry, previous, size_of, ns_bucket, index, write_meta,
}
use isobox.Memory.Kv.Laws.{put-get}
use isobox.Memory.Kv.History.{Call, write, erase, answers, perform, perform_all, replay, looked_up}
use isobox.Memory.Kv.History.Laws.{perform_all-replay}
use isobox.Memory.Kv.Index.{put-quota, parse_ttl_key-ttl_key, take-front, drop-front}

abbrev Buckets : Type 0
Buckets = Bytes → Bytes → Option Bytes

abbrev set : Buckets → Bytes → Bytes → Option Bytes → Buckets
set d b k v = λ c q. ite (Bytes-discrete c b) (ite (Bytes-discrete q k) v (d c q)) (d c q)

set_self : (d : Buckets) (b k : Bytes) (v : Option Bytes) → set d b k v b k ≡ v
set_self d b k v = ground arith

set_ne :
    (d : Buckets) (b k : Bytes) (v : Option Bytes) (c q : Bytes)
    → ((c ≢ b) ⊎ (q ≢ k))
    → set d b k v c q ≡ d c q
set_ne d b k v c q h = ground arith

abbrev buckets : Bolt
buckets = record {
  Db = Buckets;
  get = λ d b k. d b k;
  put = λ d b k v. set d b k (some v);
  delete = λ d b k. set d b k none;
  get-put_self = λ d b k v. set_self d b k (some v);
  get-put_ne = λ d b k v c q h. set_ne d b k (some v) c q h;
  get-delete_self = λ d b k. set_self d b k none;
  get-delete_ne = λ d b k c q h. set_ne d b k none c q h;
}

abbrev encode : Entry → Option Bytes
encode e = some (e.expires_at ∷ e.updated_at ∷ length e.value ∷ e.value ++ e.content_type)

abbrev decode : Bytes → Option Entry
decode (x ∷ u ∷ n ∷ s) =
    some (record { value = take n s; content_type = drop n s; expires_at = x; updated_at = u })
decode _ = none

decode-encode_lem : (e : Entry) (s : Bytes) → encode e ≡ some s → decode s ≡ some e
decode-encode_lem e s h =
    subst (λ x. decode x ≡ some e) (some-inj _ s h)
      (rw (take-front e.value e.content_type, drop-front e.value e.content_type) refl)

abbrev codec : Codec
codec = record { encode = encode; decode = decode; decode-encode = decode-encode_lem }

abbrev nothing : Buckets
nothing = λ b k. none

-- The file after a Put of "hello" under "k" at time 5, for 10 nanoseconds.
abbrev stored : Buckets
stored = (put buckets codec nothing 5 (codes "ns") (codes "k") (codes "hello") (codes "text") 10).0

stored_ok :
    put buckets codec nothing 5 (codes "ns") (codes "k") (codes "hello") (codes "text") 10
    ≡ (stored, none)
unfolding put check_put valid_namespace bad_key_length store_entry previous size_of ns_bucket
    read_counter
stored_ok = refl

put-get_example :
    get buckets codec stored 14 (codes "ns") (codes "k")
    ≡ inr (new_entry buckets codec 5 10 (codes "hello") (codes "text"))
put-get_example =
    put-get buckets codec nothing stored 5 (codes "ns") (codes "k") (codes "hello") (codes "text")
      10 14 stored_ok (inr (omega arith))

put-quota_example :
    (read_counter buckets codec stored used_key ≤ max_bytes)
    × (read_counter buckets codec stored count_key ≤ max_keys)
put-quota_example =
    put-quota buckets codec nothing stored 5 (codes "ns") (codes "k") (codes "hello") (codes "text")
      10 stored_ok

parse_ttl_key-ttl_key_example :
    parse_ttl_key (ttl_key 15 (codes "ns") (codes "k")) ≡ some (codes "ns", codes "k", 15)
parse_ttl_key-ttl_key_example =
    parse_ttl_key-ttl_key 15 (codes "ns") (codes "k") (omega arith) (omega arith)

put-get_ne_example :
    get buckets codec stored 9 (codes "other") (codes "k")
    ≡ get buckets codec nothing 9 (codes "other") (codes "k")
put-get_ne_example =
    put-get_ne buckets codec nothing stored 5 (codes "ns") (codes "k") (codes "hello")
      (codes "text") 10 9 (codes "other") (codes "k") (inl (ground arith)) stored_ok

-- The file after a Delete of that key.
abbrev deleted : Buckets
deleted = (delete buckets codec stored (codes "ns") (codes "k")).0

deleted_ok : delete buckets codec stored (codes "ns") (codes "k") ≡ (deleted, none)
unfolding delete valid_namespace bad_key_length put check_put store_entry previous size_of ns_bucket
    read_counter write_meta index ttl_key big_endian
deleted_ok = ground arith

delete-get_example : get buckets codec deleted 9 (codes "ns") (codes "k") ≡ inl not_found
delete-get_example = delete-get buckets codec stored deleted (codes "ns") (codes "k") 9 deleted_ok

-- A Put, a Put to a bad namespace, and a Delete of another key.
abbrev three_calls : List Call
three_calls =
    write 5 (codes "ns") (codes "k") (codes "hello") (codes "text") 10
    ∷ write 6 (codes "n/s") (codes "k") (codes "x") (codes "text") 0
    ∷ erase (codes "ns") (codes "j")
    ∷ []

three_calls-answers :
    answers buckets codec nothing three_calls ≡ none ∷ some bad_namespace ∷ none ∷ []
unfolding answers perform put delete check_put valid_namespace bad_key_length store_entry previous
    size_of ns_bucket read_counter Bytes-discrete ℕ_discrete
three_calls-answers = refl

perform_all-replay_example :
    get buckets codec (perform_all buckets codec nothing three_calls) 14 (codes "ns") (codes "k")
    ≡ looked_up buckets codec 14 (codes "ns") (codes "k") (
        replay buckets codec
          (λ ms q. none)
          three_calls
          (answers buckets codec nothing three_calls)
          (codes "ns")
          (codes "k"))
perform_all-replay_example =
    perform_all-replay buckets codec nothing three_calls 14 (codes "ns") (codes "k") (λ ms q. refl)
