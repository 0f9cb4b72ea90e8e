-- ===== src/Api/Gate/Laws.antt =====
-- Who gets past the middleware.
use isobox.Prelude.{
  Bool, Bytes, List, Option, [], arith, codes, false, inl, inr, length, none, refl, some, true, ℕ,
  ◌↔◌, ◌≡◌, ◌≢◌, ◌⊎◌,
}
use isobox.Api.Gate.{
  Headers, auth_middleware, req_tenant, request_key, require_tenant_key, tenant_from, memory_gate,
  behind_key, after_limiter,
}
use isobox.Api.Reply.{Reply}
use isobox.Api.RateLimit.{Rate, IpLimiter, middleware, admit}
use isobox.Auth.{resolve, derive_tenant, new_key_store}
use isobox.Auth.Laws.{derive_tenant-ne_public, resolve-new_key_store_iff, Configured}
use isobox.Strings.{join}
use isobox.Paths.{split}

-- The routes of persistent memory turn the public tenant away.
behind_key-eq-inr_iff :
    (x : Reply ⊎ Bytes) (t : Bytes)
    → (behind_key true x ≡ inr t) ↔ ((x ≡ inr t) × (t ≢ []) × (t ≢ codes "public"))
unfolding behind_key require_tenant_key req_tenant tenant_from
behind_key-eq-inr_iff (inl r) t = ((λ e. ground arith), (λ e. ground arith))
behind_key-eq-inr_iff (inr u) t = ((λ e. ground arith), (λ e. ground arith))

-- What a handler takes for the tenant is what the middleware stamped.
pub req_tenant-eq-inr :
    (context : Option Bytes) (t : Bytes) → req_tenant context ≡ inr t → context ≡ some t
unfolding req_tenant tenant_from
req_tenant-eq-inr none t h = ground (arith, h)
req_tenant-eq-inr (some u) t h = ground (arith, h)

pub req_tenant-some : (t : Bytes) → t ≢ [] → req_tenant (some t) ≡ inr t
unfolding req_tenant tenant_from
req_tenant-some t h = ground (arith, h)

module _ (sha256 : Bytes → Bytes) where
  -- The middleware, as what it lets through.
  pub auth_middleware-eq-inr_iff :
      (require_auth : Bool) (tenants : List Bytes) (h : Headers) (t : Bytes)
      → (auth_middleware sha256 require_auth tenants h ≡ inr t) ↔ (
          ((request_key h ≡ []) × (require_auth ≡ false) × (t ≡ codes "public"))
          ⊎ ((request_key h ≢ []) × (resolve sha256 tenants (request_key h) ≡ some t)))
  unfolding auth_middleware
  auth_middleware-eq-inr_iff require_auth tenants h t = ((λ e. ground arith), (λ e. ground arith))

  behind_gate-eq-inr_iff :
      ((k : Bytes) → length (sha256 k) ≡ 32)
      → (require_auth : Bool) (raw : List Bytes) (h : Headers) (t : Bytes)
      → (behind_key true (auth_middleware sha256 require_auth (new_key_store sha256 raw) h) ≡ inr t)
        ↔ ((request_key h ≢ [])
            × (t ≡ derive_tenant sha256 (request_key h))
            × Configured sha256 (derive_tenant sha256 (request_key h)) raw)
  behind_gate-eq-inr_iff size require_auth raw h t =
      let (split, join) =
        behind_key-eq-inr_iff (auth_middleware sha256 require_auth (new_key_store sha256 raw) h)
          t in
      let (passed, admit) =
        auth_middleware-eq-inr_iff require_auth (new_key_store sha256 raw) h t in
      let (known, back) = resolve-new_key_store_iff sha256 raw (request_key h) t in
      let (named, filled) = derive_tenant-ne_public sha256 (request_key h) (size (request_key h)) in
      (
        (λ e.
            let (e', _, not_public) = split e in
            elim (passed e') [
              | inl q ↦ absurd (not_public q.2)
              | inr q ↦ elim (known q.1) [
                | inl p ↦ absurd (not_public p.1)
                | inr p ↦ (q.0, p.0, p.1)
              ]
            ]),
        (λ q. join (admit (inr (q.0, back (inr (q.1, q.2)))), rw q.1 filled, rw q.1 named)),
      )

  after_limiter-eq-inr_iff :
      (m ra : Bool) (tenants : List Bytes) (h : Headers) (o : Option Reply) (t : Bytes)
      → (after_limiter sha256 m ra tenants h o ≡ inr t)
        ↔ ((o ≡ none) × (behind_key m (auth_middleware sha256 ra tenants h) ≡ inr t))
  unfolding after_limiter
  after_limiter-eq-inr_iff m ra tenants h none t = ((λ e. (refl, e)), (λ e. e.1))
  after_limiter-eq-inr_iff m ra tenants h (some r) t = ((λ e. ground arith), (λ e. ground arith))

  -- With MemoryRequireKey set, a request to a route under /v1/memory or /v1/volumes reaches its
  -- handler as the tenant `t` exactly when the rate limiter lets its address through, it carries
  -- a key, a configured key has the tenant derived from that key, and `t` is that tenant, whatever
  -- RequireAuth is; given that a digest has 32 bytes.
  pub memory_gate-eq-inr_iff :
      ((k : Bytes) → length (sha256 k) ≡ 32)
      → (rate : Rate) (require_auth : Bool) (raw : List Bytes) (l : IpLimiter rate) (now : ℕ)
        (ip : Bytes) (h : Headers) (t : Bytes)
      → ((memory_gate sha256 rate true require_auth (new_key_store sha256 raw) l now ip h).1
          ≡ inr t)
        ↔ (((middleware rate l now ip).1 ≡ none)
            × (request_key h ≢ [])
            × (t ≡ derive_tenant sha256 (request_key h))
            × Configured sha256 (derive_tenant sha256 (request_key h)) raw)
  unfolding memory_gate
  memory_gate-eq-inr_iff size rate require_auth raw l now ip h t =
      let (limited, unlimited) =
        after_limiter-eq-inr_iff true require_auth (new_key_store sha256 raw) h
          (middleware rate l now ip).1 t in
      let (to, from) = behind_gate-eq-inr_iff size require_auth raw h t in
      (
        (λ e. let (free, e') = limited e in let (a, b, c) = to e' in (free, a, b, c)),
        (λ q. unlimited (q.0, from (q.1, q.2, q.3))),
      )
