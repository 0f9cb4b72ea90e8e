-- ===== src/Executor/WarmPool/Laws.antt =====
-- internal/executor/warmpool.go: the log of the pool, counted against its ready containers.
use isobox.Prelude.{
  Bool, Bool-cases, Bytes, Bytes-discrete, List, Option, [], arith, false, if◌then◌else◌, inl, inr,
  none, refl, some, true, ℕ, ◌+◌, ◌||◌, ◌∷◌, ◌≡◌, ◌≤◌,
}
use isobox.Executor.{Spec}
use isobox.Prelude.Float.{Float64}
use isobox.Executor.WarmPool.{
  PoolConfig, new_warm_pool, WarmPool, Event, booted, ran, removed, lease, leased_of, replenish,
  close, add_ready, removals, retire, take,
}
use isobox.Strings.{str_eq}

abbrev one_if : Bool → ℕ
one_if true = 1
one_if false = 0

-- The number of boots, jobs and removals of a container's name in a log.
pub boots : Bytes → List Event → ℕ
boots n [] = 0
boots n (booted m ∷ l) = one_if (str_eq m n) + boots n l
boots n (ran m ∷ l) = boots n l
boots n (removed m ∷ l) = boots n l

pub jobs : Bytes → List Event → ℕ
jobs n [] = 0
jobs n (booted m ∷ l) = jobs n l
jobs n (ran m ∷ l) = one_if (str_eq m n) + jobs n l
jobs n (removed m ∷ l) = jobs n l

pub removes : Bytes → List Event → ℕ
removes n [] = 0
removes n (booted m ∷ l) = removes n l
removes n (ran m ∷ l) = removes n l
removes n (removed m ∷ l) = one_if (str_eq m n) + removes n l

pub occurrences : Bytes → List Bytes → ℕ
occurrences n [] = 0
occurrences n (m ∷ ms) = one_if (str_eq m n) + occurrences n ms

removals_counts :
    (n : Bytes) (ms : List Bytes) (l : List Event)
    → (boots n (removals Unit ms l) ≡ boots n l)
      × (jobs n (removals Unit ms l) ≡ jobs n l)
      × (removes n (removals Unit ms l) ≡ occurrences n ms + removes n l)
unfolding removals boots jobs removes occurrences
removals_counts n [] l = (refl, refl, omega arith)
removals_counts n (m ∷ ms) l =
    let (b, j, r) = removals_counts n ms (removed m ∷ l) in (b, j, omega (arith, r))

-- Whether a container is leased, and the leases without one of it.
abbrev holds : Bytes → List Bytes → Bool
holds n [] = false
holds n (m ∷ ms) = str_eq m n || holds n ms

unfoldable pub without : Bytes → List Bytes → List Bytes
without n [] = []
without n (m ∷ ms) = let rest = without n ms in if str_eq m n then ms else m ∷ rest

occurrences-without :
    (n q : Bytes) (ms : List Bytes)
    → holds q ms ≡ true
    → occurrences n ms ≡ one_if (str_eq q n) + occurrences n (without q ms)
unfolding occurrences without
occurrences-without n q [] h = cc
occurrences-without n q (m ∷ ms) h = elim (Bytes-discrete m q) [
  | yes same ↦ ground (arith, same)
  | no other ↦
      let rest = occurrences-without n q ms (ground (arith, h, other)) in
      ground (arith, rest, other)
]

-- A step of the pool, with what docker answers in it: a boot of Prime, the lease of an Execute, the
-- end of its exec, the boot of a replacement that returns, and Close.
pub data Call (F : Type 0) : Type 0 where
  primes : Bytes → Call F
  starts : Spec F → Bool → Call F
  ends : Bytes → Call F
  replenishes : Option Bytes → Call F
  closes : Call F

-- The pool, and the containers that an Execute has leased and not yet retired.
pub record Running (F : Type 0) : Type 0 where
  pub pool : WarmPool F
  pub leased : List Bytes

module _ (F : Type 0) where
  abbrev began : List Bytes → WarmPool F × Option Bytes → Running F
  began ls (p, none) = record { pool = p; leased = ls }
  began ls (p, some name) = record { pool = p; leased = name ∷ ls }

  -- Only a leased container's exec can end.
  unfoldable pub step : Running F → Call F → Running F
  step r (primes name) = record r { pool = add_ready F r.pool name }
  step r (starts s streaming) = began r.leased (lease F r.pool s streaming)
  step r (ends name) =
      if holds name r.leased
      then record { pool = retire F r.pool name; leased = without name r.leased }
      else r
  step r (replenishes name) = record r { pool = replenish F r.pool name }
  step r closes = record r { pool = close F r.pool }

  unfoldable pub history : Running F → List (Call F) → Running F
  unfolding step
  history r [] = r
  history r (call ∷ calls) = history (step r call) calls

  -- Every boot of a name is a ready container, a leased one or a removal, and a job takes a lease
  -- that still runs or a removal.
  pub IsAccounted : Bytes → Running F → Type 0
  IsAccounted n r =
      (boots n r.pool.log
        ≡ occurrences n r.pool.ready + occurrences n r.leased + removes n r.pool.log)
      × (jobs n r.pool.log ≤ occurrences n r.leased + removes n r.pool.log)

  starts-IsAccounted :
      (n : Bytes) (r : Running F) (s : Spec F) (streaming : Bool)
      → IsAccounted n r
      → IsAccounted n (began r.leased (lease F r.pool s streaming))
  unfolding IsAccounted lease leased_of take boots jobs removes occurrences
  starts-IsAccounted n r s streaming (e, j) = (ground (arith, e, j), ground (arith, e, j))

  ends-IsAccounted :
      (n : Bytes) (r : Running F) (name : Bytes)
      → IsAccounted n r
      → holds name r.leased ≡ true
      → IsAccounted n (record { pool = retire F r.pool name; leased = without name r.leased })
  unfolding IsAccounted retire boots jobs removes
  ends-IsAccounted n r name (e, j) held =
      let less = occurrences-without n name r.leased held in
      (omega (arith, e, less), omega (arith, j, less))

  step-IsAccounted :
      (n : Bytes) (r : Running F) (call : Call F) → IsAccounted n r → IsAccounted n (step r call)
  unfolding step IsAccounted add_ready replenish close boots jobs removes occurrences
  step-IsAccounted n r (primes name) (e, j) = (omega (arith, e), j)
  step-IsAccounted n r (starts s streaming) v = starts-IsAccounted n r s streaming v
  step-IsAccounted n r (ends name) v = elim (Bool-cases (holds name r.leased)) [
    | inl held ↦ rw held (ends-IsAccounted n r name v held)
    | inr free ↦ rw free v
  ]
  step-IsAccounted n r (replenishes none) v = v
  step-IsAccounted n r (replenishes (some name)) (e, j) = elim (Bool-cases r.pool.closed) [
    | inl h ↦ rw (h, replenish) (omega (arith, e), omega (arith, j))
    | inr h ↦ rw (h, replenish) (omega (arith, e), j)
  ]
  step-IsAccounted n r closes (e, j) =
      let (b, k, d) = removals_counts n r.pool.ready r.pool.log in
      (omega (arith, b, e, d), omega (arith, j, k, d))

  history-IsAccounted :
      (n : Bytes) (r : Running F) (calls : List (Call F))
      → IsAccounted n r
      → IsAccounted n (history r calls)
  unfolding history
  history-IsAccounted n r [] v = v
  history-IsAccounted n r (call ∷ calls) v =
      history-IsAccounted n (step r call) calls (step-IsAccounted n r call v)

  -- Whatever steps a new pool makes, in whatever order (boots, leases, ends of execs, replacements
  -- that come in late, a close while containers are leased), every container that was booted is
  -- ready, leased or removed, and the jobs of a name are at most its running leases and its
  -- removals; so a container that was booted once has at most one job.
  pub new-IsAccounted :
      (fl : Float64 F) (one_point_five : F) (c : PoolConfig F) (calls : List (Call F)) (n : Bytes)
      → IsAccounted n
          (history (record { pool = new_warm_pool F fl one_point_five c; leased = [] }) calls)
  unfolding IsAccounted new_warm_pool boots occurrences removes jobs
  new-IsAccounted fl one_point_five c calls n =
      history-IsAccounted n (record { pool = new_warm_pool F fl one_point_five c; leased = [] })
        calls (omega arith, omega arith)
