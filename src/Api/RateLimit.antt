-- ===== src/Api/RateLimit.antt =====
-- internal/api/ratelimit.go: a bucket of tokens for each client address. The limiter of
-- golang.org/x/time/rate is a parameter. Times are nanoseconds. A request's look-up of its bucket
-- and the Allow on it are one step.
pub mod Laws
pub mod Tests
use isobox.Prelude.{
  Bool, Bytes, Bytes-discrete, List, Option, [], codes, if◌then◌else◌, is_empty, lookup, ltb, none,
  not, some, update, ℕ, ◌&&◌, ◌*◌, ◌-◌, ◌==◌, ◌^◌, ◌∷◌,
}
use isobox.Strings.{trim_space}
use isobox.Api.Reply.{Reply, failure_after}

-- `rate.Limiter`: `new_limiter per_min burst` is NewLimiter with per_min / 60 events a second, and
-- `allow` the bucket after Allow at a time, and its answer.
pub record Rate : Type 1 where
  pub Bucket : Type 0
  pub new_limiter : ℕ → ℕ → Bucket
  pub allow : Bucket → ℕ → Bucket × Bool

-- The key of a request. `split_host` is net.SplitHostPort's host, `is_loopback` tells of a text that
-- net.ParseIP reads it as a loopback address.
pub client_ip : (Bytes → Option Bytes) → (Bytes → Bool) → Bytes → Bytes → Bytes
client_ip split_host is_loopback remote real_ip =
    let host : Bytes = elim (split_host remote) [ none ↦ remote | some h ↦ h ] in
    let forwarded = trim_space real_ip in
    if is_loopback host && not (is_empty forwarded) then forwarded else host

module _ (r : Rate) where
  -- `entry`
  pub record Entry : Type 0 where
    pub lim : r.Bucket
    pub seen : ℕ

  -- `ipLimiter`
  pub record IpLimiter : Type 0 where
    pub clients : List (Bytes × Entry)
    pub per_min : ℕ
    pub burst : ℕ

  -- `newIPLimiter`; a number below 1 becomes the default.
  pub new_ip_limiter : ℕ → ℕ → IpLimiter
  new_ip_limiter per_min burst = record {
    clients = [];
    per_min = if per_min == 0 then 30 else per_min;
    burst = if burst == 0 then 10 else burst;
  }

  -- The bucket that a map holds for an address, or a new one.
  unfoldable pub bucket_of : IpLimiter → Option Entry → r.Bucket
  bucket_of l none = r.new_limiter l.per_min l.burst
  bucket_of l (some e) = e.lim

  -- `get` and the Allow on its bucket: the limiter after both, and whether the request may pass.
  unfoldable pub admit : IpLimiter → ℕ → Bytes → IpLimiter × Bool
  unfolding bucket_of
  admit l now ip =
      let (bucket, ok) = r.allow (bucket_of l (lookup Bytes-discrete ip l.clients)) now in
      let e : Entry = record { lim = bucket; seen = now } in
      (record l { clients = update Bytes-discrete ip e l.clients }, ok)

  -- `middleware`: the refusal, or none where the next handler runs.
  unfoldable pub middleware : IpLimiter → ℕ → Bytes → IpLimiter × Option Reply
  unfolding admit
  middleware l now ip =
      let (l', ok) = admit l now ip in
      (l', if ok then none else some (failure_after 1 429 (codes "rate_limited")))

  -- Whether a bucket is idle for more than fifteen minutes.
  pub is_stale : ℕ → Entry → Bool
  is_stale now e = ltb (15 * 60 * 10 ^ 9) (now - e.seen)

  -- One tick of `janitor` on the map.
  pub evict : ℕ → List (Bytes × Entry) → List (Bytes × Entry)
  unfolding is_stale
  evict now [] = []
  evict now ((ip, e) ∷ m) =
      let rest = evict now m in if is_stale now e then rest else (ip, e) ∷ rest

  -- One tick of `janitor`.
  pub janitor : ℕ → IpLimiter → IpLimiter
  unfolding evict
  janitor now l = record l { clients = evict now l.clients }
