-- ===== src/Api/Execute.antt =====
-- internal/api/execute.go: `handleExecute`, but for its stream of events. A body that is no JSON
-- is none; the id of the job and what Submit brings are inputs.
pub mod Laws
use isobox.Prelude.{
  Bool, Bytes, Option, codes, if◌then◌else◌, inl, inr, is_empty, none, not, some, ◌&&◌, ◌⊎◌,
}
use isobox.Prelude.Float.{Float64}
use isobox.Executor.{Outcome}
use isobox.Registry.{Runtime, Registry, resolve}
use isobox.Api.Limits.{Request, spec_of_request}
use isobox.Api.Reply.{Reply, Response, refused, sent, failure, failure_after}
use isobox.Queue.{Job, Ran, capacity, other}
use isobox.Strings.{trim_space}

-- `execRequest`
pub record ExecRequest (F : Type 0) : Type 0 where
  pub language : Bytes
  pub version : Bytes
  pub rest : Request F

-- `execResponse`; `warned` tells whether it carries the warning on the network.
pub record ExecResponse : Type 0 where
  pub language : Bytes
  pub version : Bytes
  pub backend : Bytes
  pub run : Outcome
  pub warned : Bool

module _ {F : Type 0} (fl : Float64 F) (parse : Bytes → F) where
  -- The job of a request that names a known runtime.
  unfoldable pub spec_job : Bytes → Request F → Runtime → Reply ⊎ Job F
  spec_job uuid r lang = elim (spec_of_request fl parse lang r) [
    | none ↦ inl (failure 400 (codes "no_source"))
    | some spec ↦
        inr (record { id = uuid; language = lang.name; version = lang.version; spec = spec })
  ]

  -- The checks of a request, and the job that it submits.
  unfoldable pub request_job : Registry → Bytes → Option (ExecRequest F) → Reply ⊎ Job F
  unfolding spec_job
  request_job reg uuid none = inl (failure 400 (codes "invalid_json"))
  request_job reg uuid (some r) =
      if is_empty (trim_space r.language)
      then inl (failure 400 (codes "language_required"))
      else elim (resolve reg r.language r.version) [
        | none ↦ inl (failure 400 (codes "unknown_language"))
        | some lang ↦ spec_job uuid r.rest lang
      ]

  -- The answer to a job, of what Submit brings.
  pub job_reply : Bytes → Job F → Ran → Response ExecResponse
  job_reply backend j (res, some capacity) = refused (failure_after 1 429 (codes "capacity"))
  job_reply backend j (res, some (other text)) = refused (failure 500 (codes "execution_failed"))
  job_reply backend j (res, none) = sent 200 (record {
    language = j.language;
    version = j.version;
    backend = backend;
    run = res;
    warned = j.spec.network && not res.network;
  })

  -- `handleExecute`, of what Submit brings for each job.
  pub handle_execute :
      Registry → Bytes → Bytes → (Job F → Ran) → Option (ExecRequest F) → Response ExecResponse
  unfolding request_job job_reply
  handle_execute reg backend uuid submit body = elim (request_job reg uuid body) [
    | inl r ↦ refused r
    | inr j ↦ job_reply backend j (submit j)
  ]
