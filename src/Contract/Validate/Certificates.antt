-- ===== src/Contract/Validate/Certificates.antt =====
-- validateProfileBase of pkg/contract/validate.go: the numerical and latency certificates, the
-- interference envelope, versions and device assertions.
use claim2kernel.Base.{
  Bool, List, Map, Option, String, [], contains, false, if◌then◌else◌, length, lookup, ltb, nat_eq,
  none, not, some, suc, true, ℕ, ◌*◌, ◌++◌, ◌==◌, ◌||◌, ◌∷◌,
}
use claim2kernel.Base.Int.{leb_ℤ, ltb_ℤ, pos, ℤ, ◌+ℤ◌}
use claim2kernel.Contract.Checks.{coverage_slack, finite, finite_non_negative, prob, prob_closed}
use claim2kernel.Contract.Env.{Env, Time, minutes}
use claim2kernel.Contract.Semver.Range.{match_version_range, matched, version_error}
use claim2kernel.Contract.Types.{
  DeviceAssertion, InputDomain, InterferenceEnvelope, LatencyCertificate, LinearModel,
  NumericalCertificate, ProfileSpec, Range,
}
use claim2kernel.Contract.Validate.Domain.{feature_reference}
use claim2kernel.Contract.Validate.Issues.{
  Issue, bad_assertion, bad_coverage, bad_interference, bad_latency_budgets, bad_max_age,
  bad_method, bad_model, bad_model_feature, bad_numerical, bad_sample_counts, bad_version_range,
  calibrated_after_creation, calibrated_after_expiry, calibrated_invalid, coefficient_missing,
  coefficient_not_finite, duplicate_order, empty_version_entry, flag, order_differs,
  too_many_assertions, too_many_metrics, too_many_model_features, too_many_versions,
}
use claim2kernel.Contract.Value.{Value, unset}
use claim2kernel.Float64.{Float64, ltf, ◌+f◌}

unfoldable pub numerical_issues : NumericalCertificate → List Issue
numerical_issues n =
    flag
      (n.metric == ""
        || not (finite_non_negative n.upper_bound)
        || not (finite_non_negative n.observed_max)
        || ltf n.upper_bound n.observed_max
        || leb_ℤ n.test_sample_count (pos 0))
      bad_numerical

-- MaxCertificateAgeSeconds
abbrev pub max_certificate_age_seconds : ℕ
max_certificate_age_seconds = 5 * 366 * 24 * 60 * 60

unfoldable pub order_issues :
    InputDomain → InterferenceEnvelope → Map Float64 → List String → List String → List Issue
unfolding feature_reference
order_issues d e coefficients seen [] = []
order_issues d e coefficients seen (name ∷ names) =
    flag (contains seen name) (duplicate_order name)
    ++ (elim (lookup coefficients name) [ none ↦ coefficient_missing name ∷ [] | some c ↦ [] ]
        ++ (elim (feature_reference name d e) [
          | none ↦ []
          | some err ↦ bad_model_feature name err ∷ []
        ]
            ++ order_issues d e coefficients (name ∷ seen) names))

unfoldable pub coefficient_issues : Map Float64 → List Issue
unfolding finite
coefficient_issues [] = []
coefficient_issues ((name, c) ∷ cs) =
    flag (not (finite c)) (coefficient_not_finite name) ++ coefficient_issues cs

unfoldable pub model_issues : InputDomain → InterferenceEnvelope → LinearModel → List Issue
unfolding finite finite_non_negative order_issues coefficient_issues
model_issues d e m =
    flag (not (finite m.intercept_us) || not (finite_non_negative m.ridge_lambda)) bad_model
    ++ (flag (ltb 64 (length m.feature_order) || ltb 64 (length m.coefficients))
          too_many_model_features
        ++ (order_issues d e m.coefficients [] m.feature_order
            ++ (flag (not (nat_eq (length m.feature_order) (length m.coefficients))) order_differs
                ++ coefficient_issues m.coefficients)))

-- `a.After(b.Add(d))`, where `b` was read
abbrev pub later_than : Time → Option Time → ℤ → Bool
later_than a none d = false
later_than a (some b) d = ltb_ℤ (b +ℤ d) a

-- `!a.Before(b)`, where `b` was read
abbrev pub reaches : Time → Option Time → Bool
reaches a none = false
reaches a (some b) = leb_ℤ b a

module _ (env : Env) where
  unfoldable pub calibration_issues : String → Option Time → Option Time → List Issue
  unfolding ◌+ℤ◌
  calibration_issues calibrated created expires = elim (env.parse_time calibrated) [
    | none ↦ calibrated_invalid ∷ []
    | some t ↦
        flag (later_than t created (minutes 5)) calibrated_after_creation
        ++ flag (reaches t expires) calibrated_after_expiry
  ]

  unfoldable pub latency_issues : LatencyCertificate → Option Time → Option Time → List Issue
  unfolding prob prob_closed finite_non_negative coverage_slack calibration_issues
  latency_issues l created expires =
      flag (not (contains ("split-conformal" ∷ "one-sided-tolerance" ∷ []) l.method)) bad_method
      ++ (flag
            (not (prob l.quantile)
              || not (prob l.confidence)
              || not (finite_non_negative l.residual_upper_us)
              || not (finite_non_negative l.io_budget_us)
              || not (finite_non_negative l.runtime_jitter_us))
            bad_latency_budgets
          ++ (flag (leb_ℤ l.calibration_sample_count (pos 0) || leb_ℤ l.test_sample_count (pos 0))
                bad_sample_counts
              ++ (flag
                    (not (prob_closed l.observed_coverage)
                      || ltf (l.observed_coverage +f coverage_slack) l.quantile)
                    bad_coverage
                  ++ (flag
                        (leb_ℤ l.max_age_seconds (pos 0)
                          || ltb_ℤ (pos max_certificate_age_seconds) l.max_age_seconds)
                        bad_max_age
                      ++ calibration_issues l.calibrated_at created expires))))

unfoldable pub metric_issues : Map Range → List Issue
unfolding finite
metric_issues [] = []
metric_issues ((name, r) ∷ rs) =
    flag (name == "" || not (finite r.minimum) || not (finite r.maximum) || ltf r.maximum r.minimum)
      (bad_interference name)
    ++ metric_issues rs

unfoldable pub range_issues : String → String → List Issue
unfolding match_version_range
range_issues component expr =
    if component == "" || expr == ""
    then empty_version_entry ∷ []
    else elim (match_version_range "1.0.0" expr) [
      | matched b ↦ []
      | version_error err ↦ bad_version_range component err ∷ []
    ]

unfoldable pub version_issues : Map String → List Issue
unfolding range_issues
version_issues [] = []
version_issues ((component, expr) ∷ vs) = range_issues component expr ++ version_issues vs

abbrev pub assertion_ops : List String
assertion_ops = "eq" ∷ "ne" ∷ "gte" ∷ "lte" ∷ "contains" ∷ []

abbrev pub is_unset : Value → Bool
is_unset unset = true
is_unset _ = false

unfoldable pub assertion_issues : ℕ → List DeviceAssertion → List Issue
assertion_issues i [] = []
assertion_issues i (a ∷ rest) =
    flag (a.attribute == "" || not (contains assertion_ops a.op) || is_unset a.value)
      (bad_assertion i)
    ++ assertion_issues (suc i) rest

unfoldable pub envelope_issues : ProfileSpec → List Issue
unfolding metric_issues version_issues assertion_issues
envelope_issues s =
    metric_issues s.interference.metrics
    ++ (flag (ltb 64 (length s.interference.metrics)) too_many_metrics
        ++ (version_issues s.versions
            ++ (flag (ltb 64 (length s.versions)) too_many_versions
                ++ (flag (ltb 64 (length s.device_assertions)) too_many_assertions
                    ++ assertion_issues 0 s.device_assertions))))
