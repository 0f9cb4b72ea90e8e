-- ===== src/Memory/Kv/History.antt =====
-- internal/memory/kv.go: the store under a sequence of calls, beside a plain map.
pub mod Laws
use isobox.Prelude.{
  Bytes, List, Option, [], if◌then◌else◌, inl, inr, none, not, some, ℕ, ◌&&◌, ◌∷◌, ◌⊎◌,
}
use isobox.Memory.Kv.{
  put, delete, Bolt, Codec, Entry, KvError, bad_key, bad_key_length, bad_namespace, is_expired,
  new_entry, not_found, valid_namespace,
}
use isobox.Strings.{str_eq}

-- The calls that write: Put and Delete.
pub data Call : Type 0 where
  write : ℕ → Bytes → Bytes → Bytes → Bytes → ℕ → Call
  erase : Bytes → Bytes → Call

-- The plain map of a tenant: what a namespace holds under a key.
abbrev pub Records : Type 0
Records = Bytes → Bytes → Option Entry

-- The map after an assignment.
abbrev pub assign : Records → Bytes → Bytes → Option Entry → Records
assign f ns key o = λ ms q. if str_eq ms ns && str_eq q key then o else f ms q

module _ (b : Bolt) (c : Codec) where
  -- A call on the file.
  unfoldable pub perform : b.Db → Call → b.Db × Option KvError
  perform d (write now ns key val content_type ttl) = put b c d now ns key val content_type ttl
  perform d (erase ns key) = delete b c d ns key

  -- The file after the calls, one after the other.
  pub perform_all : b.Db → List Call → b.Db
  perform_all d [] = d
  perform_all d (call ∷ calls) = perform_all (perform d call).0 calls

  -- What the calls answer.
  unfoldable pub answers : b.Db → List Call → List (Option KvError)
  answers d [] = []
  answers d (call ∷ calls) = (perform d call).1 ∷ answers (perform d call).0 calls

  -- A call on the plain map: it changes nothing when it is refused.
  pub record_call : Records → Call → Option KvError → Records
  record_call f call (some e) = f
  record_call f (write now ns key val content_type ttl) none =
      assign f ns key (some (new_entry b c now ttl val content_type))
  record_call f (erase ns key) none = assign f ns key none

  -- The plain map after the calls, each with its answer.
  pub replay : Records → List Call → List (Option KvError) → Records
  replay f [] outs = f
  replay f (call ∷ calls) [] = f
  replay f (call ∷ calls) (out ∷ outs) = replay (record_call f call out) calls outs

  -- What a Get answers of the plain map.
  pub looked_up : ℕ → Bytes → Bytes → Option Entry → KvError ⊎ Entry
  looked_up now ns key o =
      if not (valid_namespace ns)
      then inl bad_namespace
      else if bad_key_length key
      then inl bad_key
      else elim o [
        | none ↦ inl not_found
        | some e ↦ if is_expired b c now e then inl not_found else inr e
      ]
