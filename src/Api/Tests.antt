-- ===== src/Api/Tests.antt =====
-- A request that asks for far too much.
use isobox.Prelude.{
  ℕ_discrete, Bytes-discrete, lookup, [], arith, codes, false, inr, leb, ltb, none, refl, some, ℕ,
  ◌*◌, ◌^◌, ◌∷◌, ◌≡◌,
}
use isobox.Strings.{trim_space, to_lower}
use isobox.Prelude.Float.{Float64, IsOrdered}
use isobox.Executor.{Limits}
use isobox.Registry.{Runtime, build_spec, default_limits, resolve}
use isobox.Api.Execute.{request_job, spec_job}
use isobox.Api.Execute.Laws.{request_job-IsBounded}
use isobox.Queue.{Job}
use isobox.Api.Limits.{Override, spec_of_request, clamp_limits, IsBounded, clamp_limits-IsBounded}
use isobox.Api.Execute.{ExecRequest}
use isobox.Executor.{File}
use isobox.Registry.{Registry}
use isobox.Api.Limits.{Request}

abbrev pub tenths : Float64 ℕ
tenths = record {
  lt = ltb;
  le = leb;
  zero_point_one = 1;
  zero = 0;
  one = 10;
  two = 20;
  format2 = λ n. n ∷ [];
}

tenths-IsOrdered : IsOrdered tenths
tenths-IsOrdered = record { lt_irrefl = λ x. ground arith; low_lt_high = refl; one_pos = refl }

abbrev usual : Limits ℕ
usual = record {
  memory_bytes = 256 * 2 ^ 20;
  cpus = 10;
  pids = 128;
  output_bytes = 65_536;
  wall_time_ms = 10_000;
  compile_time_ms = 0;
}

abbrev greedy : Override ℕ
greedy = record {
  memory_bytes = some (2 ^ 40);
  cpus = some 640;
  pids = some 0;
  output_bytes = none;
  wall_time_ms = some 1;
}

clamp_limits-IsBounded_example : IsBounded tenths (clamp_limits tenths usual (some greedy))
clamp_limits-IsBounded_example = clamp_limits-IsBounded tenths usual (some greedy) tenths-IsOrdered

abbrev shell : Runtime
shell = record {
  name = codes "sh";
  version = codes "1";
  aliases = [];
  image = codes "img";
  source_file = codes "main.sh";
  compile = [];
  run = codes "sh" ∷ [];
  workdir = codes "/box";
  env = [];
  scratch_exec = false;
  scratch_mb = 0;
  limits = record {
    memory_bytes = 0;
    cpus = [];
    pids_limit = 0;
    wall_time_sec = 0;
    compile_time_sec = 0;
    output_bytes = 0;
  };
}

abbrev one_shell : Registry
one_shell = record { by_key = (codes "sh", shell) ∷ []; all = shell ∷ [] }

abbrev script : Request ℕ
script = record {
  code = codes "ls";
  files = [];
  stdin = [];
  args = [];
  limits = some greedy;
  network = false;
}

abbrev asked : ExecRequest ℕ
asked = record { language = codes "SH"; version = []; rest = script }

abbrev main_file : File
main_file = record { name = codes "main.sh"; content = codes "ls"; encoding = [] }

abbrev script_job : Job ℕ
script_job = record {
  id = codes "j";
  language = codes "sh";
  version = codes "1";
  spec =
      build_spec shell (main_file ∷ []) [] []
        (clamp_limits tenths (default_limits tenths (λ s. 10) shell) (some greedy)) false;
}

asked_ok : request_job tenths (λ s. 10) one_shell (codes "j") (some asked) ≡ inr script_job
unfolding request_job spec_job spec_of_request resolve trim_space lookup Bytes-discrete to_lower
    ℕ_discrete
asked_ok = refl

request_job-IsBounded_example :
    (l : Runtime) × (resolve one_shell (codes "SH") [] ≡ some l)
    × (spec_job tenths (λ s. 10) (codes "j") script l ≡ inr script_job)
    × IsBounded tenths script_job.spec.limits
request_job-IsBounded_example =
    request_job-IsBounded tenths (λ s. 10) one_shell (codes "j") asked script_job tenths-IsOrdered
      asked_ok
