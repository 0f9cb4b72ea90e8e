-- ===== src/Registry.antt =====
-- internal/registry/registry.go: the runtimes. What the file holds after YAML decoding is an
-- input, none where reading or decoding fails; the environment of a language is an association list.
-- The map byKey is an association list; its pointers into `all` are the languages themselves.
use isobox.Prelude.{
  Bool, Bytes, Bytes-discrete, List, Option, [], codes, false, if◌then◌else◌, is_empty, lookup,
  none, not, some, true, update, ℕ, ◌*◌, ◌++◌, ◌^◌, ◌||◌, ◌∷◌,
}
use isobox.Prelude.Float.{Float64}
use isobox.Executor.{Limits, Spec, File, Language}
use isobox.Kernel.{default}
use isobox.Strings.{to_lower, trim_space}

-- `RegistryLimits`; a number that is not positive is 0 here.
pub record RegistryLimits : Type 0 where
  pub memory_bytes : ℕ
  pub cpus : Bytes
  pub pids_limit : ℕ
  pub wall_time_sec : ℕ
  pub compile_time_sec : ℕ
  pub output_bytes : ℕ

-- `Language` of the registry.
pub record Runtime : Type 0 where
  pub name : Bytes
  pub version : Bytes
  pub aliases : List Bytes
  pub image : Bytes
  pub source_file : Bytes
  pub compile : List Bytes
  pub run : List Bytes
  pub workdir : Bytes
  pub env : List (Bytes × Bytes)
  pub scratch_exec : Bool
  pub scratch_mb : ℕ
  pub limits : RegistryLimits

pub record Registry : Type 0 where
  pub by_key : List (Bytes × Runtime)
  pub all : List Runtime

-- One key of a language, and the key with its version.
pub index_key : Runtime → Bytes → List (Bytes × Runtime) → List (Bytes × Runtime)
index_key l k m =
    let lk = to_lower k in
    update Bytes-discrete (lk ++ codes "@" ++ l.version) l (update Bytes-discrete lk l m)

pub index_keys : Runtime → List Bytes → List (Bytes × Runtime) → List (Bytes × Runtime)
unfolding index_key
index_keys l [] m = m
index_keys l (k ∷ ks) m = index_keys l ks (index_key l k m)

-- The default of the working directory.
pub filled : Runtime → Runtime
filled l = record l { workdir = if is_empty l.workdir then codes "/box" else l.workdir }

-- The required fields.
pub is_complete : Runtime → Bool
is_complete l = not (is_empty l.name || (is_empty l.image || is_empty l.run))

-- The loop of Load; none at the first incomplete entry.
pub load_all : List Runtime → Registry → Option Registry
unfolding index_keys filled is_complete
load_all [] r = some r
load_all (l ∷ ls) r =
    let l' = filled l in
    let rest = load_all ls (record {
      by_key = index_keys l' (l'.name ∷ l'.aliases) r.by_key;
      all = r.all ++ (l' ∷ []);
    }) in
    if is_complete l' then rest else none

-- `Load`
pub load : Option (List Runtime) → Option Registry
unfolding load_all
load none = none
load (some []) = none
load (some (l ∷ ls)) = load_all (l ∷ ls) (record { by_key = []; all = [] })

-- `Reload`: the registry after it, and whether it succeeded.
pub reload : Registry → Option (List Runtime) → Registry × Bool
unfolding load
reload r file = elim (load file) [ none ↦ (r, false) | some r' ↦ (r', true) ]

-- `Resolve`
unfoldable pub resolve : Registry → Bytes → Bytes → Option Runtime
resolve r name version =
    let name' = to_lower (trim_space name) in
    let plain = lookup Bytes-discrete name' r.by_key in
    if is_empty version
    then plain
    else elim (lookup Bytes-discrete (name' ++ codes "@" ++ trim_space version) r.by_key) [
      | some l ↦ some l
      | none ↦ plain
    ]

-- `DefaultLimits`; `parse` is strconv.ParseFloat, 0 where it fails.
pub default_limits : {F : Type 0} → Float64 F → (Bytes → F) → Runtime → Limits F
default_limits fl parse l =
    let cpus = parse l.limits.cpus in
    record {
      memory_bytes = default l.limits.memory_bytes (256 * 2 ^ 20);
      cpus = if fl.le cpus fl.zero then fl.one else cpus;
      pids = default l.limits.pids_limit 128;
      output_bytes = default l.limits.output_bytes (64 * 2 ^ 10);
      wall_time_ms = default l.limits.wall_time_sec 10 * 1000;
      compile_time_ms = l.limits.compile_time_sec * 1000;
    }

-- `BuildSpec`
unfoldable pub build_spec :
    {F : Type 0} → Runtime → List File → Bytes → List Bytes → Limits F → Bool → Spec F
build_spec l files stdin argv limits network =
    let lang : Language = record { name = l.name; version = l.version } in
    record {
      lang = lang;
      image = l.image;
      compile = l.compile;
      run = l.run;
      workdir = l.workdir;
      env = l.env;
      scratch_exec = l.scratch_exec;
      scratch_mb = l.scratch_mb;
      mounts = [];
      files = files;
      stdin = stdin;
      argv = argv;
      limits = limits;
      network = network;
    }
