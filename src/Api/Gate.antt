-- ===== src/Api/Gate.antt =====
-- internal/api/router.go: `authMiddleware`, `requireTenantKey` and the chain of the routes, and `reqTenant` of
-- internal/api/sessions.go. What a middleware lets through is the tenant it stamps into the
-- request's context.
pub mod Laws
mod Tests
use isobox.Prelude.{
  Bool, Bytes, List, Option, [], codes, drop, if◌then◌else◌, inl, inr, is_empty, length, ltb, none,
  some, take, ℕ, ◌&&◌, ◌||◌, ◌⊎◌,
}
use isobox.Strings.{trim_space, str_eq}
use isobox.Auth.{resolve}
use isobox.Api.RateLimit.{Rate, IpLimiter, middleware}
use isobox.Api.Reply.{Reply, failure}

-- The headers that authMiddleware reads.
pub record Headers : Type 0 where
  pub api_key : Bytes
  pub authorization : Bytes

-- `len(b) > 7 && b[:7] == "Bearer "`
pub is_bearer : Bytes → Bool
is_bearer b = ltb 7 (length b) && str_eq (take 7 b) (codes "Bearer ")

-- The key of a request: X-API-Key, else the bearer token.
unfoldable pub request_key : Headers → Bytes
unfolding is_bearer
request_key h =
    let key = trim_space h.api_key in
    if is_empty key && is_bearer h.authorization then trim_space (drop 7 h.authorization) else key

-- `TenantFrom`
pub tenant_from : Option Bytes → Option Bytes
tenant_from none = none
tenant_from (some t) = if is_empty t then none else some t

-- The tenant, empty where there is none.
abbrev given : Bytes → Option Bytes → Bytes
given d none = d
given d (some t) = t

-- `requireTenantKey`
pub require_tenant_key : Bool → Option Bytes → Option Reply
unfolding tenant_from
require_tenant_key memory_require_key context =
    let tenant = given [] (tenant_from context) in
    if memory_require_key && (is_empty tenant || str_eq tenant (codes "public"))
    then some (failure 403 (codes "api_key_required"))
    else none

-- `reqTenant`
pub req_tenant : Option Bytes → Reply ⊎ Bytes
unfolding tenant_from
req_tenant context =
    if is_empty (given [] (tenant_from context))
    then inl (failure 500 (codes "no_tenant"))
    else inr (given [] (tenant_from context))

-- `requireTenantKey` and the handler's `reqTenant`, behind what authMiddleware lets through.
pub behind_key : Bool → Reply ⊎ Bytes → Reply ⊎ Bytes
unfolding require_tenant_key req_tenant
behind_key memory_require_key (inl r) = inl r
behind_key memory_require_key (inr t) = elim (require_tenant_key memory_require_key (some t)) [
  | some r ↦ inl r
  | none ↦ req_tenant (some t)
]

module _ (sha256 : Bytes → Bytes) where
  -- `authMiddleware`; the context of an admitted request is the tenant.
  pub auth_middleware : Bool → List Bytes → Headers → Reply ⊎ Bytes
  unfolding request_key
  auth_middleware require_auth tenants h =
      let key = request_key h in
      let unauthorized = inl (failure 401 (codes "unauthorized")) in
      if is_empty key
      then (if require_auth then unauthorized else inr (codes "public"))
      else elim (resolve sha256 tenants key) [ none ↦ unauthorized | some t ↦ inr t ]

  -- authMiddleware and what stands behind it, for a request that the limiter lets through.
  after_limiter : Bool → Bool → List Bytes → Headers → Option Reply → Reply ⊎ Bytes
  unfolding auth_middleware behind_key
  after_limiter memory_require_key require_auth tenants h (some r) = inl r
  after_limiter memory_require_key require_auth tenants h none =
      behind_key memory_require_key (auth_middleware require_auth tenants h)

  -- The chain of the routes under /v1/memory and /v1/volumes: the rate limiter, authMiddleware,
  -- requireTenantKey, and reqTenant of the handlers. `ip` is the request's client_ip.
  pub memory_gate :
      (rate : Rate)
      → Bool
      → Bool
      → List Bytes
      → IpLimiter rate
      → ℕ
      → Bytes
      → Headers
      → IpLimiter rate × (Reply ⊎ Bytes)
  unfolding after_limiter
  memory_gate rate memory_require_key require_auth tenants l now ip h =
      let (l', limited) = middleware rate l now ip in
      (l', after_limiter memory_require_key require_auth tenants h limited)
