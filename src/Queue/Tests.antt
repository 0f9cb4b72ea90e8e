-- ===== src/Queue/Tests.antt =====
-- Two jobs on a bus that is a list of payloads and a list of results.
use isobox.Prelude.{
  Bytes, Bytes-discrete, List, Option, [], ap, arith, codes, drop, false, if◌then◌else◌, ite,
  length, none, refl, some, some-inj, sym, take, ℕ, ◌++◌, ◌∙◌, ◌∷◌, ◌≡◌, ◌≢◌,
}
use isobox.Executor.{Spec, Language, Limits}
use isobox.Queue.{Job, Ran, Broker, Json, capacity, Envelope, no_result, local_run}
use isobox.Sched.Tests.{counting}
use isobox.Sched.{Limiter}
use isobox.Sched.Laws.{IsSound, limiter_slots, Slots}
use isobox.Queue.Laws.{local_run-held}
use isobox.Strings.{str_eq}

abbrev language : Language
language = record { name = codes "sh"; version = codes "1" }

abbrev no_limits : Limits ℕ
no_limits = record {
  memory_bytes = 0;
  cpus = 0;
  pids = 0;
  output_bytes = 0;
  wall_time_ms = 0;
  compile_time_ms = 0;
}

abbrev sample : Spec ℕ
sample = record {
  lang = language;
  image = codes "img";
  compile = [];
  run = codes "sh" ∷ [];
  workdir = codes "/box";
  env = [];
  scratch_exec = false;
  scratch_mb = 0;
  mounts = [];
  files = [];
  stdin = [];
  argv = [];
  limits = no_limits;
  network = false;
}

abbrev job_of : Bytes → Job ℕ
job_of id = record { id = id; language = codes "sh"; version = codes "1"; spec = sample }

-- The jobs that come back are the sample's, and the results those with a code and an output only.
abbrev opened_env : Bytes → Option Envelope
opened_env (code ∷ n ∷ text) = some (record {
  result = record no_result { exit_code = code; stdout = take n text };
  err = drop n text;
})
opened_env _ = none

abbrev closed_env : Envelope → Bytes
closed_env e = e.result.exit_code ∷ length e.result.stdout ∷ e.result.stdout ++ e.err

abbrev json : Json ℕ
json = record {
  marshal = λ j. some j.id;
  unmarshal = λ p. some (job_of p);
  marshal_env = closed_env;
  unmarshal_env = opened_env;
  IsText = λ j. job_of j.id ≡ j;
  IsPlain = λ e. opened_env (closed_env e) ≡ some e;
  unmarshal-marshal = λ j p text made. ap some (ap job_of (sym (some-inj _ _ made)) ∙ text);
  unmarshal-marshal_env = λ e plain. plain;
}

-- The payloads that wait, and the results.
abbrev Lists : Type 0
Lists = List Bytes × (Bytes → List Bytes)

abbrev pushed : (Bytes → List Bytes) → Bytes → Bytes → Bytes → List Bytes
pushed r key v q = ite (Bytes-discrete q key) (r q ++ (v ∷ [])) (r q)

pushed_self : (r : Bytes → List Bytes) (key v : Bytes) → pushed r key v key ≡ r key ++ (v ∷ [])
pushed_self r key v = ground arith

pushed_ne : (r : Bytes → List Bytes) (key v q : Bytes) → q ≢ key → pushed r key v q ≡ r q
pushed_ne r key v q apart = ground arith

abbrev take_first : Lists → Option (Lists × Bytes × Bytes)
take_first ([], r) = none
take_first (p ∷ ps, r) = some ((ps, r), codes "0-1", p)

abbrev pop_first : Lists → List Bytes → Option (Lists × Bytes)
pop_first b [] = none
pop_first b (v ∷ vs) = some (b, v)

take_first-next :
    (b : Lists) (p : Bytes) (ps : List Bytes)
    → b.0 ≡ p ∷ ps
    → (c : Lists) × (i : Bytes) × (take_first b ≡ some (c, i, p))
      × (c.0 ≡ ps)
      × ((q : Bytes) → c.1 q ≡ b.1 q)
take_first-next (w, r) p ps e = ((ps, r), codes "0-1", rw e refl, refl, λ q. refl)

abbrev lists : Broker
lists = record {
  Bus = Lists;
  add = λ b p. some (b.0 ++ (p ∷ []), b.1);
  read_group = take_first;
  ack = λ b i. b;
  auto_claim = λ b. some (b, []);
  publish = λ b key v. some (b.0, pushed b.1 key v);
  pop_result = λ b key. pop_first b (b.1 key);
  waiting = λ b. b.0;
  results = λ b q. b.1 q;
  waiting-add = λ b c p h. ap (λ x. x.0) (sym (some-inj _ _ h));
  results-add = λ b c p q h. ap (λ x. x.1 q) (sym (some-inj _ _ h));
  read_group-next = take_first-next;
  waiting-ack = λ b i. refl;
  results-ack = λ b i q. refl;
  waiting-publish = λ b c q v h. ap (λ x. x.0) (sym (some-inj _ _ h));
  results-publish_self = λ b c q v h. ap (λ x. x.1 q) (sym (some-inj _ _ h)) ∙ pushed_self b.1 q v;
  results-publish_ne =
      λ b c q v r h apart. ap (λ x. x.1 r) (sym (some-inj _ _ h)) ∙ pushed_ne b.1 q v r apart;
  pop_result-first = λ b q v vs h. (b, rw h refl);
}

-- The first job ends with code 3, the others find no slot.
abbrev ran_of : Job ℕ → Ran
ran_of j =
    if str_eq j.id (codes "a")
    then (record no_result { exit_code = 3; stdout = codes "hi" }, none)
    else (no_result, some capacity)

abbrev two_jobs : List (Job ℕ)
two_jobs = job_of (codes "a") ∷ job_of (codes "b") ∷ []

abbrev idle : Lists
idle = ([], λ q. [])

abbrev queued : Lists
queued = (codes "a" ∷ codes "b" ∷ [], λ q. [])

abbrev slots : Slots
slots = limiter_slots counting

abbrev one_held : Limiter counting
one_held = record { sem = record { size = 2; holders = 1 }; max = 2; in_use = 1 }

one_held-Good : IsSound counting one_held
one_held-Good = record { gauge = refl; sized = refl; bounded = omega arith; positive = omega arith }

local_run-held_example :
    (t : Limiter counting) × (out : Ran) × (local_run slots one_held false (no_result, none)
      ≡ some (t, out))
    × IsSound counting t
    × (t.in_use ≡ 1)
    × (out ≡ (
        if (slots.take_slot one_held false).1
        then (no_result, none)
        else (no_result, some capacity)))
local_run-held_example = local_run-held slots one_held false (no_result, none) one_held-Good
