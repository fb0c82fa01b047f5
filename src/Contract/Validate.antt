-- ===== src/Contract/Validate.antt =====
-- pkg/contract/validate.go: the validation of a profile and of a request. A profile's validation
-- gives its issues, or nothing where the Go code panics (see Contract/Matrix).
pub mod Issues
pub mod Artifact
pub mod Domain
pub mod Certificates
pub mod Ood
pub mod Request
use mathlib.Core.Option
use claim2kernel.Base.{Bool, List, Option, [], map, none, some, ◌++◌, ◌∷◌}
use claim2kernel.Contract.Digest.{verify_seal}
use claim2kernel.Contract.Env.{Env}
use claim2kernel.Contract.Types.{KernelProfile}
use claim2kernel.Contract.Validate.Artifact.{
  artifact_issues, header_issues, read_time, target_issues,
}
use claim2kernel.Contract.Validate.Certificates.{
  envelope_issues, latency_issues, model_issues, numerical_issues,
}
use claim2kernel.Contract.Validate.Domain.{domain_issues, resource_issues}
use claim2kernel.Contract.Validate.Issues.{Issue, bad_seal, flag, profile_is_nil, seal_required}
use claim2kernel.Contract.Validate.Ood.{ood_issues, policy_issues}

module _ (env : Env) where
  -- What precedes the OOD certificate.
  unfoldable pub leading_issues : KernelProfile → List Issue
  unfolding header_issues artifact_issues target_issues domain_issues resource_issues
      numerical_issues latency_issues model_issues envelope_issues read_time
  leading_issues p =
      let s = p.spec in
      header_issues env p
      ++ (artifact_issues s.artifact
          ++ (target_issues s.target
              ++ (domain_issues s.input_domain
                  ++ (resource_issues s.precision s.resources
                      ++ (numerical_issues s.numerical
                          ++ (latency_issues env s.latency (read_time env p.metadata.created_at)
                                (read_time env p.metadata.expires_at)
                              ++ (model_issues s.input_domain s.interference s.latency.model
                                  ++ envelope_issues s)))))))

  -- validateProfileBase
  unfoldable pub validate_profile_base : Option KernelProfile → Option (List Issue)
  unfolding leading_issues ood_issues policy_issues
  validate_profile_base none = some (profile_is_nil ∷ [])
  validate_profile_base (some p) =
      Option.map (λ ood. leading_issues p ++ (ood ++ policy_issues p.spec.policy p.spec.provenance))
        (ood_issues p.spec.input_domain p.spec.interference p.spec.ood)

  unfoldable pub seal_issues : Option KernelProfile → Bool → List Issue
  unfolding verify_seal
  seal_issues none require_seal = flag require_seal seal_required
  seal_issues (some p) require_seal = elim p.seal [
    | none ↦ flag require_seal seal_required
    | some s ↦ elim (verify_seal env p) [ none ↦ [] | some err ↦ bad_seal err ∷ [] ]
  ]

  -- ValidateProfile: no issue is no error
  unfoldable pub validate_profile : Option KernelProfile → Bool → Option (List Issue)
  unfolding validate_profile_base seal_issues
  validate_profile p require_seal =
      Option.map (λ issues. issues ++ seal_issues p require_seal) (validate_profile_base p)
