-- ===== src/Api/Gate/Tests.antt =====
-- A request with a bearer token.
use isobox.Prelude.{
  Bytes, Bytes-discrete, [], arith, codes, false, inl, inr, length, lookup, none, refl, true,
  ℕ_discrete, ◌∷◌, ◌≡◌,
}
use isobox.Auth.{new_key_store, derive_tenant}
use isobox.Auth.Laws.{Configured}
use isobox.Strings.{trim_space, trim_left, trim_right}
use isobox.Api.RateLimit.{IpLimiter, middleware, admit, bucket_of}
use isobox.Api.RateLimit.Tests.{tokens}
use isobox.Api.Gate.{memory_gate, Headers, is_bearer, request_key}
use isobox.Api.Gate.Laws.{memory_gate-eq-inr_iff}

-- A hash with digests of 32 bytes.
abbrev hashed : Bytes → Bytes
hashed k =
    length k
    ∷ 1
    ∷ 2
    ∷ 3
    ∷ 4
    ∷ 5
    ∷ 6
    ∷ 7
    ∷ 8
    ∷ 9
    ∷ 10
    ∷ 11
    ∷ 12
    ∷ 13
    ∷ 14
    ∷ 15
    ∷ 16
    ∷ 17
    ∷ 18
    ∷ 19
    ∷ 20
    ∷ 21
    ∷ 22
    ∷ 23
    ∷ 24
    ∷ 25
    ∷ 26
    ∷ 27
    ∷ 28
    ∷ 29
    ∷ 30
    ∷ 31
    ∷ []

length-hashed : (k : Bytes) → length (hashed k) ≡ 32
length-hashed k = refl

abbrev with_key : Headers
with_key = record { api_key = []; authorization = codes "Bearer  k12 " }

key-Configured :
    Configured hashed (derive_tenant hashed (codes "k12")) (codes "k0" ∷ codes " k12 " ∷ [])
unfolding Configured trim_space trim_left trim_right
key-Configured = inr (inl (ground arith, refl))

request_key_run : request_key with_key ≡ codes "k12"
unfolding request_key is_bearer trim_space trim_left trim_right Bytes-discrete ℕ_discrete
request_key_run = refl

abbrev fresh : IpLimiter tokens
fresh = record { clients = []; per_min = 60; burst = 1 }

unlimited : (middleware tokens fresh 1 (codes "a")).1 ≡ none
unfolding middleware admit bucket_of lookup
unlimited = refl

memory_gate-eq-inr_iff_example :
    (memory_gate hashed tokens true false
      (new_key_store hashed (codes "k0" ∷ codes " k12 " ∷ []))
      fresh
      1
      (codes "a")
      with_key).1
    ≡ inr (derive_tenant hashed (request_key with_key))
memory_gate-eq-inr_iff_example =
    (memory_gate-eq-inr_iff hashed length-hashed tokens false (codes "k0" ∷ codes " k12 " ∷ [])
        fresh 1 (codes "a") with_key (derive_tenant hashed (request_key with_key))).1
      (
        unlimited,
        (λ e. ground (arith, e, request_key_run)),
        refl,
        rw request_key_run key-Configured,
      )
