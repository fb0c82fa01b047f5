-- ===== src/Planner/Conditions/Envelope.antt =====
-- validateInterference, validateVersions and validateNumerical of pkg/planner/planner.go reject exactly
-- where their conditions fail.
use claim2kernel.Base.{
  All, Map, Option, String, [], ap, arith, false, is_some, lookup, none, not, not-false, refl, some,
  true, ◌||◌, ◌∙◌, ◌∷◌, ◌≡◌,
}
use claim2kernel.Contract.Semver.Range.{Matching, match_version_range, matched, version_error}
use claim2kernel.Contract.Types.{KernelProfile, KernelRequest, Range}
use claim2kernel.Float64.{Float64, ltf}
use claim2kernel.Planner.{is_finite, named}
use claim2kernel.Planner.Checks.{
  Checks, Checks-id, Checks-iff, Checks-reject, Checks-reject_if, Checks-then,
}
use claim2kernel.Planner.Conditions.{
  InterferenceHolds, MetricHolds, NumericalHolds, VersionHolds, VersionsHold,
}
use claim2kernel.Planner.Envelope.{
  check_matching, check_metric, check_metrics, check_version, check_versions, unknown_metrics,
  validate_interference, validate_numerical, validate_versions,
}

Checks-unknown_metrics :
    (metrics : Map Range) (obs : Map Float64)
    → Checks
        (All (λ (e : String × Float64). is_some (lookup metrics e.0) ≡ true) obs)
        (unknown_metrics metrics obs)
unfolding unknown_metrics
Checks-unknown_metrics metrics [] = Checks-id tt
Checks-unknown_metrics metrics ((name, v) ∷ obs) =
    Checks-then
      (Checks-iff (not-false (is_some (lookup metrics name))) (λ h. rw h)
        (Checks-reject_if (not (is_some (lookup metrics name))) "UNKNOWN_INTERFERENCE"
          (named "spec.interference." name)))
      (Checks-unknown_metrics metrics obs)

Checks-check_metric :
    (name : String) (rng : Range) (o : Option Float64)
    → Checks (MetricHolds rng o) (check_metric name rng o)
unfolding check_metric
Checks-check_metric name rng none = Checks-reject _ _ (λ k. absurd (cc (k.given)))
Checks-check_metric name rng (some v) =
    Checks-iff
      (λ h. record {
        value = v;
        given = refl;
        finite_value = ground arith;
        not_below = ground arith;
        not_above = ground arith;
      })
      (λ k.
        let same : v ≡ k.value = cc (k.given) in
        rw same (ground (arith, k.finite_value, k.not_below, k.not_above)))
      (Checks-reject_if (not (is_finite v) || ltf v rng.minimum || ltf rng.maximum v)
        "INTERFERENCE_OUT_OF_ENVELOPE" (named "spec.interference." name))

Checks-check_metrics :
    (metrics : Map Range) (obs : Map Float64)
    → Checks
        (All (λ (e : String × Range). MetricHolds e.1 (lookup obs e.0)) metrics)
        (check_metrics metrics obs)
unfolding check_metrics
Checks-check_metrics [] obs = Checks-id tt
Checks-check_metrics ((name, rng) ∷ metrics) obs =
    Checks-then (Checks-check_metric name rng (lookup obs name)) (Checks-check_metrics metrics obs)

-- validateInterference keeps a decision admissible exactly when every observed metric is calibrated
-- and every calibrated metric is observed, finite and inside its range.
pub Checks-validate_interference :
    (p : KernelProfile) (obs : Map Float64)
    → Checks (InterferenceHolds p.spec.interference.metrics obs) (validate_interference p obs)
unfolding validate_interference
Checks-validate_interference p obs =
    Checks-iff (λ c. record { known = c.0; inside = c.1 }) (λ k. (k.known, k.inside))
      (Checks-then (Checks-unknown_metrics p.spec.interference.metrics obs)
        (Checks-check_metrics p.spec.interference.metrics obs))

Checks-check_matching :
    (component : String) (m : Matching) → Checks (m ≡ matched true) (check_matching component m)
unfolding check_matching
Checks-check_matching component (version_error err) = Checks-reject _ _ (λ e. cc (e))
Checks-check_matching component (matched true) =
    Checks-iff (λ _. refl) (λ _. refl)
      (Checks-reject_if false "UNSUPPORTED_VERSION" (named "spec.versions." component))
Checks-check_matching component (matched false) =
    Checks-iff (λ e. absurd (cc (e))) (λ e. absurd (cc (e)))
      (Checks-reject_if true "UNSUPPORTED_VERSION" (named "spec.versions." component))

Checks-check_version :
    (component expr : String) (o : Option String)
    → Checks (VersionHolds expr o) (check_version component expr o)
unfolding check_version
Checks-check_version component expr none = Checks-reject _ _ (λ k. absurd (cc (k.given)))
Checks-check_version component expr (some v) =
    Checks-iff (λ h. record { version = v; given = refl; supported = h })
      (λ k.
        let same : v ≡ k.version = cc (k.given) in
        ap (λ w. match_version_range w expr) same ∙ k.supported)
      (Checks-check_matching component (match_version_range v expr))

Checks-check_versions :
    (required versions : Map String)
    → Checks (VersionsHold required versions) (check_versions required versions)
unfolding check_versions
Checks-check_versions [] versions = Checks-id tt
Checks-check_versions ((component, expr) ∷ required) versions =
    Checks-then (Checks-check_version component expr (lookup versions component))
      (Checks-check_versions required versions)

-- validateVersions keeps a decision admissible exactly when every component of the contract has a
-- version that MatchVersionRange finds in its range.
pub Checks-validate_versions :
    (p : KernelProfile) (versions : Map String)
    → Checks (VersionsHold p.spec.versions versions) (validate_versions p versions)
unfolding validate_versions
Checks-validate_versions p versions = Checks-check_versions p.spec.versions versions

-- validateNumerical keeps a decision admissible exactly when the certified bound is not above the
-- request's budget and the observed error is not above the certified bound.
pub Checks-validate_numerical :
    (p : KernelProfile) (r : KernelRequest)
    → Checks (NumericalHolds p.spec.numerical r.spec.max_numerical_error) (validate_numerical p r)
unfolding validate_numerical
Checks-validate_numerical p r =
    Checks-iff (λ c. record { within_budget = c.0; observed_within = c.1 })
      (λ k. (k.within_budget, k.observed_within))
      (Checks-then
        (Checks-reject_if (ltf r.spec.max_numerical_error p.spec.numerical.upper_bound)
          "NUMERICAL_BUDGET_UNSATISFIED" "spec.maxNumericalError")
        (Checks-reject_if (ltf p.spec.numerical.upper_bound p.spec.numerical.observed_max)
          "INVALID_NUMERICAL_CERTIFICATE" "profile.spec.numerical"))
