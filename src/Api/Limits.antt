-- ===== src/Api/Limits.antt =====
-- internal/api/execute.go: the request's files and its resource limits. A number of a request
-- that is negative is 0 here: every field with a floor is raised to it from either.
use isobox.Prelude.{
  Bool, Bytes, List, Option, [], arith, false, if◌then◌else◌, is_empty, ltb, none, not, some, ℕ,
  ◌&&◌, ◌*◌, ◌^◌, ◌∷◌, ◌≡◌, ◌≤◌,
}
use isobox.Prelude.Float.{Float64, IsOrdered}
use isobox.Executor.{Limits, Spec, File}
use isobox.Registry.{Runtime, build_spec, default_limits}

-- `limitsOverride`
pub record Override (F : Type 0) : Type 0 where
  pub memory_bytes : Option ℕ
  pub cpus : Option F
  pub pids : Option ℕ
  pub output_bytes : Option ℕ
  pub wall_time_ms : Option ℕ

-- `clamp64`, `clampInt`
pub clamp : ℕ → ℕ → ℕ → ℕ
clamp v lo hi = if ltb v lo then lo else if ltb hi v then hi else v

-- The clamp of the CPUs.
pub clamp_cpus : {F : Type 0} → Float64 F → F → F
clamp_cpus fl c =
    let raised = if fl.lt c fl.zero_point_one then fl.zero_point_one else c in
    if fl.lt fl.two raised then fl.two else raised

-- A pointer field of the override.
abbrev given {ℓ} : {A : Type ℓ} → A → Option A → A
given v none = v
given v (some w) = w

-- The overrides on the language's defaults.
pub overridden : {F : Type 0} → Limits F → Option (Override F) → Limits F
overridden d none = d
overridden d (some o) = record d {
  memory_bytes = given d.memory_bytes o.memory_bytes;
  cpus = given d.cpus o.cpus;
  pids = given d.pids o.pids;
  output_bytes = given d.output_bytes o.output_bytes;
  wall_time_ms = given d.wall_time_ms o.wall_time_ms;
}

-- `clampLimits`
pub clamp_limits : {F : Type 0} → Float64 F → Limits F → Option (Override F) → Limits F
unfolding clamp clamp_cpus overridden
clamp_limits fl d o =
    let l = overridden d o in
    record {
      memory_bytes = clamp l.memory_bytes (8 * 2 ^ 20) (512 * 2 ^ 20);
      cpus = clamp_cpus fl l.cpus;
      pids = clamp l.pids 1 256;
      output_bytes = clamp l.output_bytes (2 ^ 10) (256 * 2 ^ 10);
      wall_time_ms = clamp l.wall_time_ms 100 20_000;
      compile_time_ms = l.compile_time_ms;
    }

-- `execRequest`, as far as buildSpec reads it.
pub record Request (F : Type 0) : Type 0 where
  pub code : Bytes
  pub files : List File
  pub stdin : Bytes
  pub args : List Bytes
  pub limits : Option (Override F)
  pub network : Bool

-- `buildSpec`; none for errNoSource.
unfoldable pub spec_of_request :
    {F : Type 0} → Float64 F → (Bytes → F) → Runtime → Request F → Option (Spec F)
unfolding clamp_limits
spec_of_request fl parse l r =
    let single : File = record { name = l.source_file; content = r.code; encoding = [] } in
    let files = if is_empty r.files && not (is_empty r.code) then single ∷ [] else r.files in
    if is_empty files
    then none
    else some (
        build_spec l files r.stdin r.args (clamp_limits fl (default_limits fl parse l) r.limits)
          r.network)

-- The limits within the hard ceilings.
pub record IsBounded {F : Type 0} (fl : Float64 F) (l : Limits F) : Type 0 where
  pub memory_floor : 8 * 2 ^ 20 ≤ l.memory_bytes
  pub memory_ceiling : l.memory_bytes ≤ 512 * 2 ^ 20
  pub pids_floor : 1 ≤ l.pids
  pub pids_ceiling : l.pids ≤ 256
  pub output_floor : 2 ^ 10 ≤ l.output_bytes
  pub output_ceiling : l.output_bytes ≤ 256 * 2 ^ 10
  pub wall_floor : 100 ≤ l.wall_time_ms
  pub wall_ceiling : l.wall_time_ms ≤ 20_000
  pub cpus_ceiling : fl.lt fl.two l.cpus ≡ false
  pub cpus_floor : fl.lt l.cpus fl.zero_point_one ≡ false

clamp-bounds : (v lo hi : ℕ) → lo ≤ hi → (lo ≤ clamp v lo hi) × (clamp v lo hi ≤ hi)
unfolding clamp
clamp-bounds v lo hi h = (ground arith, ground arith)

clamp_cpus-bounds :
    {F : Type 0} (fl : Float64 F) (c : F)
    → IsOrdered fl
    → (fl.lt fl.two (clamp_cpus fl c) ≡ false) × (fl.lt (clamp_cpus fl c) fl.zero_point_one ≡ false)
unfolding clamp_cpus
clamp_cpus-bounds fl c o =
    let irr = o.lt_irrefl in
    let high = o.low_lt_high in
    (ground (arith, irr fl.two), ground (arith, irr fl.zero_point_one, high))

-- Whatever defaults and overrides clampLimits is given, the limits that it makes of them are within
-- the floors and the hard ceilings, given that the float64 constants are in order.
pub clamp_limits-IsBounded :
    {F : Type 0} (fl : Float64 F) (d : Limits F) (o : Option (Override F))
    → IsOrdered fl
    → IsBounded fl (clamp_limits fl d o)
unfolding clamp_limits
clamp_limits-IsBounded fl d o h =
    let l = overridden d o in
    let (memory, memory') = clamp-bounds l.memory_bytes (8 * 2 ^ 20) (512 * 2 ^ 20) (omega arith) in
    let (pids, pids') = clamp-bounds l.pids 1 256 (omega arith) in
    let (output, output') = clamp-bounds l.output_bytes (2 ^ 10) (256 * 2 ^ 10) (omega arith) in
    let (wall, wall') = clamp-bounds l.wall_time_ms 100 20_000 (omega arith) in
    let (cpus', cpus) = clamp_cpus-bounds fl l.cpus h in
    record {
      memory_floor = memory;
      memory_ceiling = memory';
      pids_floor = pids;
      pids_ceiling = pids';
      output_floor = output;
      output_ceiling = output';
      wall_floor = wall;
      wall_ceiling = wall';
      cpus_ceiling = cpus';
      cpus_floor = cpus;
    }
