-- ===== src/Contract/Accepted.antt =====
-- What SealProfile of pkg/contract/digest.go seals, ValidateProfile of pkg/contract/validate.go accepts.
use claim2kernel.Base.{
  Option, [], ap, none, not, refl, some, subst, sym, true, ◌++◌, ◌==◌, ◌∙◌, ◌≡◌,
}
use claim2kernel.Base.Int.{pos}
use claim2kernel.Base.Maybe.{map-some}
use claim2kernel.Base.Text.{codes}
use claim2kernel.Contract.Checks.{valid_name}
use claim2kernel.Contract.Demands.{append-empty}
use claim2kernel.Contract.Digest.{verify_seal}
use claim2kernel.Contract.Env.{Env, Time}
use claim2kernel.Contract.Sealed.{
  Lawful, seal_unsealed-valid, seal_valid-Attached, time_issues-readable, verify_seal-Attached,
}
use claim2kernel.Contract.Sealing.{seal_profile, seal_unsealed}
use claim2kernel.Contract.Types.{KernelProfile, Seal, api_version_v1alpha1, profile_kind}
use claim2kernel.Contract.Validate.{
  leading_issues, seal_issues, validate_profile, validate_profile_base,
}
use claim2kernel.Contract.Validate.Artifact.{header_issues, time_issues}
use claim2kernel.Contract.Validate.Certificates.{envelope_issues}
use claim2kernel.Contract.Validate.Issues.{
  bad_api_version, bad_kind, bad_name, created_invalid, created_required, expires_invalid,
  expires_required, flag, version_required,
}
use claim2kernel.Contract.Validate.Ood.{policy_issues}

module _ (env : Env) where
  -- The two times of a valid header are readable.
  header_issues-readable :
      (p : KernelProfile)
      → header_issues env p ≡ []
      → ((t : Time) × (env.parse_time p.metadata.created_at ≡ some t))
        × ((t : Time) × (env.parse_time p.metadata.expires_at ≡ some t))
  unfolding header_issues
  header_issues-readable p h =
      let a =
        (append-empty (flag (not (p.api_version == api_version_v1alpha1)) bad_api_version) _ h).1 in
      let b = (append-empty (flag (not (p.kind == profile_kind)) bad_kind) _ a).1 in
      let c = (append-empty (flag (not (valid_name (codes p.metadata.name))) bad_name) _ b).1 in
      let d = (append-empty (flag (p.metadata.version == "") version_required) _ c).1 in
      let (created, e) =
        append-empty (time_issues env p.metadata.created_at created_required created_invalid) _ d in
      let expires =
        (append-empty (time_issues env p.metadata.expires_at expires_required expires_invalid) _
          e).0 in
      (
        time_issues-readable env (pos 0) p.metadata.created_at created_required created_invalid
            created,
        time_issues-readable env (pos 0) p.metadata.expires_at expires_required expires_invalid
            expires,
      )

  pub base-readable :
      (p : KernelProfile)
      → validate_profile_base env (some p) ≡ some []
      → ((t : Time) × (env.parse_time p.metadata.created_at ≡ some t))
        × ((t : Time) × (env.parse_time p.metadata.expires_at ≡ some t))
  unfolding validate_profile_base leading_issues
  base-readable p h =
      let (ood, found, joined) =
        map-some
          (λ is. leading_issues env p ++ (is ++ policy_issues p.spec.policy p.spec.provenance)) _
          h in
      let leading = (append-empty (leading_issues env p) _ joined).0 in
      header_issues-readable p (append-empty (header_issues env p) _ leading).0

  -- The rest of the validation does not read the seal.
  base-seal :
      (p : KernelProfile) (s : Option Seal)
      → validate_profile_base env (some (record p { seal = s }))
        ≡ validate_profile_base env (some p)
  unfolding validate_profile_base leading_issues header_issues envelope_issues
  base-seal p s = refl

  seal_issues-none :
      (p : KernelProfile) (s : Seal)
      → p.seal ≡ some s
      → verify_seal env p ≡ none
      → seal_issues env (some p) true ≡ []
  unfolding seal_issues
  seal_issues-none p s e h = simp (e, h, seal_issues)

  validated :
      (p : KernelProfile)
      → validate_profile_base env (some p) ≡ some []
      → seal_issues env (some p) true ≡ []
      → validate_profile env (some p) true ≡ some []
  unfolding validate_profile
  validated p h k = rw (h, k, validate_profile) refl

-- A profile that SealProfile seals passes ValidateProfile with the seal required, where the written time
-- reads back and a digest is 64 hexadecimal digits.
pub seal_profile-accepted :
    (env : Env) (now : Time) (p q : KernelProfile)
    → Lawful env now
    → seal_profile env now (some p) ≡ some (some q, none)
    → validate_profile env (some q) true ≡ some []
unfolding seal_profile
seal_profile-accepted env now p q laws h =
    let unsealed : KernelProfile = record p { seal = none } in
    let (issues, based, tried) =
      map-some (seal_unsealed env now unsealed) (validate_profile_base env (some unsealed)) h in
    let (empty, valid) = seal_unsealed-valid env now unsealed q issues tried in
    let base = based ∙ ap some empty in
    let a = seal_valid-Attached env now unsealed q valid in
    let ((created, c), (expires, e)) = base-readable env unsealed base in
    let verified = verify_seal-Attached env now unsealed q created expires laws a c e in
    let s : Seal = record {
      contract_digest = a.contract;
      model_digest = a.model;
      sealed_at = env.format_time now;
    } in
    let sealed : q.seal ≡ some s = ap (λ (x : KernelProfile). x.seal) (sym a.result) in
    validated env q
      (subst (λ x. validate_profile_base env (some x) ≡ some []) a.result
        (base-seal env unsealed (some s) ∙ base))
      (seal_issues-none env q s sealed verified)
