-- ===== src/Api/RateLimit/Laws.antt =====
-- internal/api/ratelimit.go: the requests of one address among those of others.
use isobox.Prelude.{
  Bool-cases, Bytes, Bytes-discrete, Distinct, List, Option, [], ap, arith, false, if◌then◌else◌,
  inl, inr, lookup, lookup-update_ne, lookup-update_self, none, refl, some, subst, sym,
  update-Distinct, ℕ, ◌∙◌, ◌∷◌, ◌≡◌, ◌≢◌,
}
use isobox.Strings.{str_eq}
use isobox.Api.Reply.{Reply}
use isobox.Api.RateLimit.{
  Rate, Entry, IpLimiter, middleware, evict, janitor, is_stale, admit, bucket_of,
}
use isobox.Strings.Laws.{str_eq_refl}

-- What happens to the limiter: a request of an address at a time, or a tick of the janitor.
pub data Event : Type 0 where
  asks : ℕ → Bytes → Event
  ticks : ℕ → Event

-- The events without the requests of other addresses.
abbrev pub only : Bytes → List Event → List Event
only a [] = []
only a (asks now ip ∷ es) = let rest = only a es in if str_eq ip a then asks now ip ∷ rest else rest
only a (ticks now ∷ es) = ticks now ∷ only a es

module _ (r : Rate) where
  -- What the requests of an address are answered.
  pub answers : Bytes → IpLimiter r → List Event → List (Option Reply)
  answers a l [] = []
  answers a l (asks now ip ∷ es) =
      let (l', out) = middleware r l now ip in
      let rest = answers a l' es in if str_eq ip a then out ∷ rest else rest
  answers a l (ticks now ∷ es) = answers a (janitor r now l) es

  -- What a tick leaves of a bucket.
  abbrev kept : ℕ → Option (Entry r) → Option (Entry r)
  kept now none = none
  kept now (some e) = if is_stale r now e then none else some e

  lookup-evict :
      (now : ℕ) (q : Bytes) (m : List (Bytes × Entry r))
      → Distinct Bytes-discrete m
      → lookup Bytes-discrete q (evict r now m) ≡ kept now (lookup Bytes-discrete q m)
  unfolding evict lookup
  lookup-evict now q [] d = refl
  lookup-evict now q ((ip, e) ∷ m) d =
      let rest = lookup-evict now q m d.1 in
      elim (Bytes-discrete q ip) [
        | no other ↦ elim (Bool-cases (is_stale r now e)) [
          | inl stale ↦ rw (evict, stale) (rest ∙ ground arith)
          | inr fresh ↦ rw (evict, fresh) ground (arith, rest, other)
        ]
        | yes equal ↦ elim (Bool-cases (is_stale r now e)) [
          | inl stale ↦
              rw (evict, stale)
                (rest
                  ∙ ap (kept now) (ap (λ x. lookup Bytes-discrete x m) equal ∙ d.0)
                  ∙ ground (arith, equal, stale))
          | inr fresh ↦ rw (evict, fresh, equal) ground (arith, fresh)
        ]
      ]

  evict-Distinct :
      (now : ℕ) (m : List (Bytes × Entry r))
      → Distinct Bytes-discrete m
      → Distinct Bytes-discrete (evict r now m)
  unfolding evict
  evict-Distinct now [] d = tt
  evict-Distinct now ((ip, e) ∷ m) d =
      let rest = evict-Distinct now m d.1 in
      let absent : lookup Bytes-discrete ip (evict r now m) ≡ none =
        lookup-evict now ip m d.1 ∙ ap (kept now) d.0 in
      elim (Bool-cases (is_stale r now e)) [
        | inl stale ↦ rw (evict, stale) rest
        | inr fresh ↦ rw (evict, fresh) (absent, rest)
      ]

  -- Two limiters that serve an address alike.
  record Agree (a : Bytes) (l k : IpLimiter r) : Type 0 where
    distinct : Distinct Bytes-discrete l.clients
    distinct' : Distinct Bytes-discrete k.clients
    same : lookup Bytes-discrete a l.clients ≡ lookup Bytes-discrete a k.clients
    rate : l.per_min ≡ k.per_min
    burst : l.burst ≡ k.burst

  evict-Agree :
      (a : Bytes) (now : ℕ) (l k : IpLimiter r)
      → Agree a l k
      → Agree a (janitor r now l) (janitor r now k)
  unfolding janitor
  evict-Agree a now l k v = record {
    distinct = evict-Distinct now l.clients v.distinct;
    distinct' = evict-Distinct now k.clients v.distinct';
    same =
        lookup-evict now a l.clients v.distinct
        ∙ ap (kept now) v.same
        ∙ sym (lookup-evict now a k.clients v.distinct');
    rate = v.rate;
    burst = v.burst;
  }

  -- A request of another address leaves the bucket alone.
  other-Agree :
      (a : Bytes) (now : ℕ) (ip : Bytes) (l k : IpLimiter r)
      → a ≢ ip
      → Agree a l k
      → Agree a (middleware r l now ip).0 k
  unfolding middleware admit
  other-Agree a now ip l k apart v = record {
    distinct = update-Distinct Bytes-discrete ip _ l.clients v.distinct;
    distinct' = v.distinct';
    same = lookup-update_ne Bytes-discrete ip a _ l.clients apart ∙ v.same;
    rate = v.rate;
    burst = v.burst;
  }

  alike :
      (l k : IpLimiter r) (o : Option (Entry r))
      → l.per_min ≡ k.per_min
      → l.burst ≡ k.burst
      → bucket_of r l o ≡ bucket_of r k o
  unfolding bucket_of
  alike l k none p q = ap (λ n. r.new_limiter n l.burst) p ∙ ap (r.new_limiter k.per_min) q
  alike l k (some e) p q = refl

  same_bucket :
      (a : Bytes) (l k : IpLimiter r)
      → Agree a l k
      → bucket_of r l (lookup Bytes-discrete a l.clients)
        ≡ bucket_of r k (lookup Bytes-discrete a k.clients)
  unfolding bucket_of
  same_bucket a l k v =
      ap (bucket_of r l) v.same ∙ alike l k (lookup Bytes-discrete a k.clients) v.rate v.burst

  -- A request of the address itself has the same answer from both.
  own-Agree :
      (a : Bytes) (now : ℕ) (l k : IpLimiter r)
      → Agree a l k
      → Agree a (middleware r l now a).0 (middleware r k now a).0
        × ((middleware r l now a).1 ≡ (middleware r k now a).1)
  unfolding middleware admit
  own-Agree a now l k v =
      let bucket = same_bucket a l k v in
      (
        record {
          distinct = update-Distinct Bytes-discrete a _ l.clients v.distinct;
          distinct' = update-Distinct Bytes-discrete a _ k.clients v.distinct';
          same =
              lookup-update_self Bytes-discrete a _ l.clients
              ∙ ap (λ x. some (record { lim = (r.allow x now).0; seen = now })) bucket
              ∙ sym (lookup-update_self Bytes-discrete a _ k.clients);
          rate = v.rate;
          burst = v.burst;
        },
        rw bucket refl,
      )

  answers-Agree :
      (a : Bytes) (l k : IpLimiter r) (es : List Event)
      → Agree a l k
      → answers a l es ≡ answers a k (only a es)
  unfolding answers
  answers-Agree a l k [] v = refl
  answers-Agree a l k (ticks now ∷ es) v =
      answers-Agree a (janitor r now l) (janitor r now k) es (evict-Agree a now l k v)
  answers-Agree a l k (asks now ip ∷ es) v = elim (Bytes-discrete ip a) [
    | yes own ↦
        let (kept_same, out) = own-Agree a now l k v in
        let rest = answers-Agree a (middleware r l now a).0 (middleware r k now a).0 es kept_same in
        subst (λ x. answers a l (asks now x ∷ es) ≡ answers a k (only a (asks now x ∷ es)))
          (sym own)
          (rw (str_eq_refl a, str_eq_refl a)
            (ap (λ o. o ∷ answers a (middleware r l now a).0 es) out
              ∙ ap (λ t. (middleware r k now a).1 ∷ t) rest))
    | no other ↦
        let rest =
          answers-Agree a (middleware r l now ip).0 k es
            (other-Agree a now ip l k (λ e. other (sym e)) v) in
        let differs : str_eq ip a ≡ false = ground (arith, other) in rw differs rest
  ]

  -- The answers to one client's requests are those that it would get alone: they do not depend on
  -- the requests of other addresses, whatever their number and order and the ticks of the janitor,
  -- given that the map has one entry for each address.
  pub answers-only :
      (a : Bytes) (l : IpLimiter r) (es : List Event)
      → Distinct Bytes-discrete l.clients
      → answers a l es ≡ answers a l (only a es)
  answers-only a l es d =
      answers-Agree a l l es
        (record { distinct = d; distinct' = d; same = refl; rate = refl; burst = refl })
