-- ===== src/Contract/Validate/Ood.antt =====
-- validateProfileBase of pkg/contract/validate.go: the OOD certificate, policy and provenance.
-- Nothing is returned where the matrix check panics.
use mathlib.Core.Option
use claim2kernel.Base.{
  List, Option, String, [], contains, if◌then◌else◌, leb, length, ltb, nat_eq, none, not, some, ℕ,
  ◌&&◌, ◌++◌, ◌==◌, ◌||◌, ◌∷◌,
}
use claim2kernel.Base.Int.{leb_ℤ, pos}
use claim2kernel.Contract.Checks.{
  coverage_slack, digest_ok, finite, finite_positive, matrix_tolerance, prob, prob_closed,
}
use claim2kernel.Contract.Matrix.{positive_definite_symmetric}
use claim2kernel.Contract.Semver.{non_empty}
use claim2kernel.Contract.Types.{
  InputDomain, InterferenceEnvelope, OodCertificate, PolicySpec, Provenance,
}
use claim2kernel.Contract.Validate.Domain.{feature_reference}
use claim2kernel.Contract.Validate.Issues.{
  Issue, bad_compiler_digest, bad_ood_feature, bad_ood_method, bad_ood_numbers,
  duplicate_ood_feature, fallback_reserved, flag, not_fail_closed, ood_dimensions,
  ood_entry_not_finite, ood_mean_not_finite, ood_not_definite, ood_not_square,
  provenance_incomplete, too_many_ood_features,
}
use claim2kernel.Float64.{Float64, ltf, ◌+f◌}

unfoldable pub mean_issues : List Float64 → List Issue
unfolding finite
mean_issues [] = []
mean_issues (x ∷ _) = flag (not (finite x)) ood_mean_not_finite

abbrev pub rest_of : List Float64 → List Float64
rest_of [] = []
rest_of (_ ∷ xs) = xs

-- The loop over the features beside the means that are left.
unfoldable pub ood_feature_issues :
    InputDomain → InterferenceEnvelope → List String → List String → List Float64 → List Issue
unfolding feature_reference mean_issues
ood_feature_issues d e seen [] mean = []
ood_feature_issues d e seen (name ∷ names) mean =
    flag (contains seen name) (duplicate_ood_feature name)
    ++ (elim (feature_reference name d e) [ none ↦ [] | some err ↦ bad_ood_feature name err ∷ [] ]
        ++ (mean_issues mean ++ ood_feature_issues d e (name ∷ seen) names (rest_of mean)))

unfoldable pub entry_issues : List Float64 → List Issue
unfolding finite
entry_issues [] = []
entry_issues (x ∷ xs) = flag (not (finite x)) ood_entry_not_finite ++ entry_issues xs

-- A row of another length ends the loop.
unfoldable pub matrix_issues : ℕ → List (List Float64) → List Issue
unfolding entry_issues
matrix_issues n [] = []
matrix_issues n (row ∷ rows) =
    let rest = matrix_issues n rows in
    if not (nat_eq (length row) n) then ood_not_square ∷ [] else entry_issues row ++ rest

unfoldable pub definite_issues : OodCertificate → Option (List Issue)
unfolding positive_definite_symmetric matrix_tolerance
definite_issues o =
    if leb (length o.features) 64 && nat_eq (length o.inverse_covariance) (length o.features)
    then Option.map (λ b. flag (not b) ood_not_definite)
        (positive_definite_symmetric o.inverse_covariance matrix_tolerance)
    else some []

unfoldable pub ood_shape_issues : InputDomain → InterferenceEnvelope → OodCertificate → List Issue
unfolding ood_feature_issues matrix_issues
ood_shape_issues d e o =
    flag (not (o.method == "mahalanobis-conformal")) bad_ood_method
    ++ (flag
          (not (non_empty o.features)
            || not (nat_eq (length o.mean) (length o.features))
            || not (nat_eq (length o.inverse_covariance) (length o.features)))
          ood_dimensions
        ++ (flag (ltb 64 (length o.features)) too_many_ood_features
            ++ (ood_feature_issues d e [] o.features o.mean
                ++ matrix_issues (length o.features) o.inverse_covariance)))

unfoldable pub ood_number_issues : OodCertificate → List Issue
unfolding finite_positive prob prob_closed coverage_slack
ood_number_issues o =
    flag
      (not (finite_positive o.threshold)
        || not (prob o.coverage)
        || leb_ℤ o.calibration_sample_count (pos 0)
        || not (prob_closed o.observed_test_inlier_rate)
        || ltf (o.observed_test_inlier_rate +f coverage_slack) o.coverage
        || not (finite_positive o.regularization))
      bad_ood_numbers

unfoldable pub ood_issues :
    InputDomain → InterferenceEnvelope → OodCertificate → Option (List Issue)
unfolding ood_shape_issues definite_issues ood_number_issues
ood_issues d e o =
    if o.required
    then Option.map (λ definite. ood_shape_issues d e o ++ (definite ++ ood_number_issues o))
        (definite_issues o)
    else some []

unfoldable pub policy_issues : PolicySpec → Provenance → List Issue
unfolding digest_ok
policy_issues p pr =
    flag (not p.fail_closed) not_fail_closed
    ++ (flag (non_empty p.fallback_profiles) fallback_reserved
        ++ (flag
              (pr.compiler == ""
                || not (digest_ok pr.source_digest)
                || not (digest_ok pr.dataset_digest))
              provenance_incomplete
            ++ flag (not (pr.compiler_digest == "") && not (digest_ok pr.compiler_digest))
                bad_compiler_digest))
