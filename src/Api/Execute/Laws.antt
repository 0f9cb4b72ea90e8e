-- ===== src/Api/Execute/Laws.antt =====
-- internal/api/execute.go: the jobs that handleExecute submits.
use isobox.Prelude.{Bytes, Option-cases, arith, inl, inr, some, subst, ◌≡◌}
use isobox.Prelude.Float.{Float64, IsOrdered}
use isobox.Registry.{Runtime, Registry, resolve, build_spec, default_limits}
use isobox.Api.Limits.{Request, spec_of_request, IsBounded, clamp_limits, clamp_limits-IsBounded}
use isobox.Queue.{Job}
use isobox.Api.Execute.{ExecRequest, request_job, spec_job}
use isobox.Executor.{Spec}

module _ {F : Type 0} (fl : Float64 F) (parse : Bytes → F) where
  spec_of_request-IsBounded :
      (l : Runtime) (r : Request F) (s : Spec F)
      → IsOrdered fl
      → spec_of_request fl parse l r ≡ some s
      → IsBounded fl s.limits
  unfolding spec_of_request build_spec
  spec_of_request-IsBounded l r s o h =
      let limits = clamp_limits fl (default_limits fl parse l) r.limits in
      let same : limits ≡ s.limits = ground arith in
      subst (IsBounded fl) same (clamp_limits-IsBounded fl (default_limits fl parse l) r.limits o)

  spec_job-IsBounded :
      (uuid : Bytes) (r : Request F) (l : Runtime) (j : Job F)
      → IsOrdered fl
      → spec_job fl parse uuid r l ≡ inr j
      → IsBounded fl j.spec.limits
  unfolding spec_job
  spec_job-IsBounded uuid r l j o h = elim (Option-cases (spec_of_request fl parse l r)) [
    | inl bad ↦ absurd (ground (arith, h, bad))
    | inr (s, good) ↦
        let same : s ≡ j.spec = ground (arith, h, good) in
        subst (λ (x : Spec F). IsBounded fl x.limits) same (spec_of_request-IsBounded l r s o good)
  ]

  -- Every job that a request submits to the queue is built from the runtime that the registry
  -- resolves the request to, and its limits are within the floors and the hard ceilings, given that
  -- the float64 constants are in order.
  pub request_job-IsBounded :
      (reg : Registry) (uuid : Bytes) (r : ExecRequest F) (j : Job F)
      → IsOrdered fl
      → request_job fl parse reg uuid (some r) ≡ inr j
      → (l : Runtime) × (resolve reg r.language r.version ≡ some l)
        × (spec_job fl parse uuid r.rest l ≡ inr j)
        × IsBounded fl j.spec.limits
  unfolding request_job
  request_job-IsBounded reg uuid r j o h = elim (Option-cases (resolve reg r.language r.version)) [
    | inl bad ↦ absurd (ground (arith, h, bad))
    | inr (l, good) ↦
        let made : spec_job fl parse uuid r.rest l ≡ inr j = ground (arith, h, good) in
        (l, good, made, spec_job-IsBounded uuid r.rest l j o made)
  ]
