-- ===== src/Planner/Envelope.antt =====
-- validateInterference, validateVersions and validateNumerical of pkg/planner/planner.go.
use claim2kernel.Base.{Map, Option, String, [], is_some, lookup, none, not, some, ◌||◌, ◌∷◌}
use claim2kernel.Contract.Semver.Range.{Matching, match_version_range, matched, version_error}
use claim2kernel.Contract.Types.{KernelProfile, KernelRequest, Range}
use claim2kernel.Float64.{Float64, ltf}
use claim2kernel.Planner.{Decision, is_finite, named, reject, reject_if}

unfoldable pub unknown_metrics : Map Range → Map Float64 → Decision → Decision
unfolding reject_if
unknown_metrics metrics [] d = d
unknown_metrics metrics ((name, v) ∷ obs) d = unknown_metrics metrics obs (
    reject_if (not (is_some (lookup metrics name))) "UNKNOWN_INTERFERENCE"
      (named "spec.interference." name) d)

unfoldable pub check_metric : String → Range → Option Float64 → Decision → Decision
unfolding reject reject_if is_finite
check_metric name rng none d = reject "MISSING_INTERFERENCE" (named "spec.interference." name) d
check_metric name rng (some v) d =
    reject_if (not (is_finite v) || ltf v rng.minimum || ltf rng.maximum v)
      "INTERFERENCE_OUT_OF_ENVELOPE" (named "spec.interference." name) d

unfoldable pub check_metrics : Map Range → Map Float64 → Decision → Decision
unfolding check_metric
check_metrics [] obs d = d
check_metrics ((name, rng) ∷ metrics) obs d =
    check_metrics metrics obs (check_metric name rng (lookup obs name) d)

unfoldable pub validate_interference : KernelProfile → Map Float64 → Decision → Decision
unfolding unknown_metrics check_metrics
validate_interference p obs d =
    check_metrics p.spec.interference.metrics obs
      (unknown_metrics p.spec.interference.metrics obs d)

unfoldable pub check_matching : String → Matching → Decision → Decision
unfolding reject reject_if
check_matching component (version_error err) d =
    reject "INVALID_VERSION" (named "spec.versions." component) d
check_matching component (matched m) d =
    reject_if (not m) "UNSUPPORTED_VERSION" (named "spec.versions." component) d

unfoldable pub check_version : String → String → Option String → Decision → Decision
unfolding reject check_matching match_version_range
check_version component expr none d = reject "MISSING_VERSION" (named "spec.versions." component) d
check_version component expr (some v) d = check_matching component (match_version_range v expr) d

unfoldable pub check_versions : Map String → Map String → Decision → Decision
unfolding check_version
check_versions [] versions d = d
check_versions ((component, expr) ∷ required) versions d =
    check_versions required versions (check_version component expr (lookup versions component) d)

unfoldable pub validate_versions : KernelProfile → Map String → Decision → Decision
unfolding check_versions
validate_versions p versions d = check_versions p.spec.versions versions d

unfoldable pub validate_numerical : KernelProfile → KernelRequest → Decision → Decision
unfolding reject_if
validate_numerical p r d =
    let n = p.spec.numerical in
    reject_if (ltf n.upper_bound n.observed_max) "INVALID_NUMERICAL_CERTIFICATE"
      "profile.spec.numerical"
      (reject_if (ltf r.spec.max_numerical_error n.upper_bound) "NUMERICAL_BUDGET_UNSATISFIED"
        "spec.maxNumericalError" d)
