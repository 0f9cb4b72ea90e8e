-- ===== src/Api/Memory.antt =====
-- internal/api/memory.go: the handlers of the key-value store. Each works on the tenant's open
-- file, none where the store refuses to open it. A body above its limit is none, and what
-- strconv.Atoi answers of the X-TTL-Seconds header is an input: none for no header.
use isobox.Prelude.{
  Bool, Bytes, List, Option, codes, if◌then◌else◌, inl, inr, is_empty, none, not, some, ℕ, ◌&&◌,
  ◌⊎◌,
}
use isobox.Memory.Kv.{Bolt, Codec, Entry, KvError, put, get, delete}
use isobox.Memory.Kv.Listing.{list}
use isobox.Api.Errors.{write_kv_err}
use isobox.Api.Reply.{Response, refused, sent, failure}
use isobox.Api.Gate.{req_tenant}
use isobox.Api.Sessions.{seconds}
use isobox.Strings.{str_eq}

-- The value of a number header: a text that is no number, or a negative one, is refused.
pub ttl_of : Option (Option ℕ) → Option ℕ
ttl_of none = some 0
ttl_of (some none) = none
ttl_of (some (some n)) = some (seconds n)

-- What a read carries: the value, its content type and its expiry; or that it is unchanged.
pub data KvBody : Type 0 where
  value_of : (value content_type : Bytes) (expires_at : ℕ) → KvBody
  not_modified : KvBody

module _ (b : Bolt) (c : Codec) where
  after_put : b.Db × Option KvError → b.Db × Response (Unit {0})
  after_put (d, none) = (d, sent 204 tt)
  after_put (d, some e) = (d, refused (write_kv_err e))

  -- `handleKVPut`
  pub handle_kv_put :
      Option Bytes
      → b.Db
      → Bool
      → ℕ
      → Bytes
      → Bytes
      → Option Bytes
      → Option (Option ℕ)
      → Bytes
      → b.Db × Response (Unit {0})
  unfolding after_put ttl_of
  handle_kv_put context d disk_full now ns key body ttl_header content_type =
      elim (req_tenant context) [
        | inl r ↦ (d, refused r)
        | inr tenant ↦
            if disk_full then (d, refused (failure 507 (codes "storage_full"))) else elim body [
              | none ↦ (d, refused (failure 413 (codes "too_large")))
              | some val ↦ elim (ttl_of ttl_header) [
                | none ↦ (d, refused (failure 400 (codes "invalid_ttl")))
                | some ttl ↦ after_put (put b c d now ns key val content_type ttl)
              ]
            ]
      ]

  read_reply : (Bytes → Bytes) → Bytes → KvError ⊎ Entry → Response KvBody
  read_reply etag match (inl e) = refused (write_kv_err e)
  read_reply etag match (inr e) =
      let tag = etag e.value in
      if not (is_empty tag) && not (is_empty match) && str_eq match tag
      then sent 304 not_modified
      else sent 200 (
          value_of e.value
            (if is_empty e.content_type then codes "application/octet-stream" else e.content_type)
            e.expires_at)

  -- `handleKVGet`; `etag` is the store's hash of a value, `match` the If-None-Match header.
  pub handle_kv_get :
      Option Bytes → b.Db → ℕ → (Bytes → Bytes) → Bytes → Bytes → Bytes → Response KvBody
  unfolding read_reply
  handle_kv_get context d now etag match ns key = elim (req_tenant context) [
    | inl r ↦ refused r
    | inr tenant ↦ read_reply etag match (get b c d now ns key)
  ]

  -- `handleKVDelete`
  pub handle_kv_delete : Option Bytes → b.Db → Bytes → Bytes → b.Db × Response (Unit {0})
  unfolding after_put
  handle_kv_delete context d ns key = elim (req_tenant context) [
    | inl r ↦ (d, refused r)
    | inr tenant ↦ after_put (delete b c d ns key)
  ]

-- `handleKVList`; a limit that is no number is 0.
pub handle_kv_list :
    Option Bytes
    → Codec
    → (Bytes → Bytes)
    → (Bytes → Option Bytes)
    → ℕ
    → (Bytes → List (Bytes × Bytes))
    → Bytes
    → Bytes
    → Option ℕ
    → Bytes
    → Response (List Bytes × Bytes)
handle_kv_list context c encode decode now bucket ns prefix limit cursor =
    elim (req_tenant context) [
      | inl r ↦ refused r
      | inr tenant ↦
          elim (list c encode decode now bucket ns prefix (elim limit [ none ↦ 0 | some n ↦ n ])
            cursor) [ inl e ↦ refused (write_kv_err e) | inr answer ↦ sent 200 answer ]
    ]
