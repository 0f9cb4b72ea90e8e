-- ===== src/Api/RateLimit/Tests.antt =====
-- Buckets of tokens that are never refilled.
use isobox.Prelude.{List, [], codes, ltb, ℕ, ◌-◌, ◌^◌, ◌∷◌, ◌≡◌}
use isobox.Api.RateLimit.{Rate, IpLimiter}
use isobox.Api.RateLimit.Laws.{Event, asks, ticks, only, answers, answers-only}

abbrev pub tokens : Rate
tokens = record {
  Bucket = ℕ;
  new_limiter = λ per_min burst. burst;
  allow = λ n now. (n - 1, ltb 0 n);
}

-- Three requests of "a" and two of "b", with one token for each.
abbrev crowd : List Event
crowd =
    asks 1 (codes "b")
    ∷ asks 2 (codes "a")
    ∷ asks 3 (codes "b")
    ∷ asks 4 (codes "a")
    ∷ ticks (10 ^ 13)
    ∷ asks (10 ^ 13) (codes "a")
    ∷ []

abbrev fresh : IpLimiter tokens
fresh = record { clients = []; per_min = 60; burst = 1 }

answers-only_example :
    answers tokens (codes "a") fresh crowd
    ≡ answers tokens (codes "a") fresh (only (codes "a") crowd)
answers-only_example = answers-only tokens (codes "a") fresh crowd tt
