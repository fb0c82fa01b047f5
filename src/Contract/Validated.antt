-- ===== src/Contract/Validated.antt =====
-- What a profile that ValidateProfile of pkg/contract/validate.go accepts with its seal has.
use claim2kernel.Base.{
  ==-true, Bool-cases, Option, Option-cases, String, [], ap, arith, inl, inr, none, not, not-false,
  refl, some, sym, true, ◌++◌, ◌==◌, ◌||◌, ◌∙◌, ◌≡◌,
}
use claim2kernel.Base.Int.{leb_ℤ, ltb_ℤ, pos}
use claim2kernel.Base.Maybe.{map-some}
use claim2kernel.Base.Text.{codes}
use claim2kernel.Contract.Checks.{digest_ok}
use claim2kernel.Contract.Demands.{append-empty}
use claim2kernel.Contract.Digest.{check_seal, compare_digest, contract_digest, or_else, verify_seal}
use claim2kernel.Contract.Env.{Env}
use claim2kernel.Contract.Paths.{escapes}
use claim2kernel.Contract.Total.{flag-empty}
use claim2kernel.Contract.Types.{KernelProfile, Seal}
use claim2kernel.Contract.Validate.{
  leading_issues, seal_issues, validate_profile, validate_profile_base,
}
use claim2kernel.Contract.Validate.Artifact.{artifact_issues, header_issues}
use claim2kernel.Contract.Validate.Issues.{
  SealError, bad_artifact_digest, bad_artifact_path, bad_size, contract_mismatch,
  contract_unmarshalled, flag,
}
use claim2kernel.Contract.Validate.Ood.{policy_issues}

module _ (env : Env) where
  or_else-cleared : (a b : Option SealError) → or_else env a b ≡ none → (a ≡ none) × (b ≡ none)
  unfolding or_else
  or_else-cleared none b h = (refl, h)
  or_else-cleared (some err) b h = absurd (cc (h))

  compare_digest-cleared :
      (d : String) (o : Option String) (u m : SealError)
      → compare_digest env u m d o ≡ none
      → o ≡ some d
  unfolding compare_digest
  compare_digest-cleared d none u m h = absurd (cc (h))
  compare_digest-cleared d (some w) u m h = elim (Bool-cases (d == w)) [
    | inl same ↦ ap some (sym (==-true d w same))
    | inr other ↦ absurd (cc (rw (other, compare_digest) at h))
  ]

module _ (env : Env) (p : KernelProfile) (h : validate_profile env (some p) true ≡ some []) where
  pub validate_profile-base : validate_profile_base env (some p) ≡ some []
  unfolding validate_profile
  validate_profile-base =
      let (issues, based, joined) =
        map-some (λ is. is ++ seal_issues env (some p) true) (validate_profile_base env (some p))
          h in
      based ∙ ap some (append-empty issues _ joined).0

  validate_profile-seal_issues : seal_issues env (some p) true ≡ []
  unfolding validate_profile
  validate_profile-seal_issues =
      let (issues, based, joined) =
        map-some (λ is. is ++ seal_issues env (some p) true) (validate_profile_base env (some p))
          h in
      (append-empty issues _ joined).1

  pub validate_profile-seal : (s : Seal) × (p.seal ≡ some s)
  unfolding seal_issues
  validate_profile-seal = elim (Option-cases p.seal) [
    | inl gone ↦ absurd (cc (rw (gone, seal_issues) at validate_profile-seal_issues))
    | inr found ↦ found
  ]

  artifact_issues-cleared : artifact_issues p.spec.artifact ≡ []
  unfolding validate_profile_base leading_issues
  artifact_issues-cleared =
      let (ood, found, joined) =
        map-some
          (λ is. leading_issues env p ++ (is ++ policy_issues p.spec.policy p.spec.provenance)) _
          validate_profile-base in
      let leading = (append-empty (leading_issues env p) _ joined).0 in
      let rest = (append-empty (header_issues env p) _ leading).1 in
      (append-empty (artifact_issues p.spec.artifact) _ rest).0

  -- The artifact's digest is well-formed and its size is positive.
  artifact_sound :
      (digest_ok p.spec.artifact.digest ≡ true) × (ltb_ℤ (pos 0) p.spec.artifact.size_bytes ≡ true)
  unfolding artifact_issues
  artifact_sound =
      let a = p.spec.artifact in
      let later =
        (append-empty (flag (escapes (codes a.path)) bad_artifact_path) _
          artifact_issues-cleared).1 in
      let (digest, sizes) =
        append-empty (flag (not (digest_ok a.digest)) bad_artifact_digest) _ later in
      let size = (append-empty (flag (leb_ℤ a.size_bytes (pos 0)) bad_size) _ sizes).0 in
      (
        not-false _ (flag-empty _ bad_artifact_digest digest),
        ground (arith, flag-empty _ bad_size size),
      )

  pub artifact_digest-ok : digest_ok p.spec.artifact.digest ≡ true
  artifact_digest-ok = artifact_sound.0

  pub artifact_size-positive : ltb_ℤ (pos 0) p.spec.artifact.size_bytes ≡ true
  artifact_size-positive = artifact_sound.1

  module _ (s : Seal) (e : p.seal ≡ some s) where
    validate_profile-verify_seal : verify_seal env p ≡ none
    unfolding seal_issues
    validate_profile-verify_seal = elim (Option-cases (verify_seal env p)) [
      | inl fine ↦ fine
      | inr (err, bad) ↦ absurd (cc (rw (e, bad, seal_issues) at validate_profile-seal_issues))
    ]

    check_seal-cleared : check_seal env p s ≡ none
    unfolding verify_seal
    check_seal-cleared = rw (e, verify_seal) at validate_profile-verify_seal

    pub sealed_digest-ok : digest_ok s.contract_digest ≡ true
    unfolding check_seal
    sealed_digest-ok = elim (Bool-cases (digest_ok s.contract_digest)) [
      | inl good ↦ good
      | inr bad ↦ absurd (cc (rw (bad, check_seal) at check_seal-cleared))
    ]

    -- The seal states the digest of the profile's contents.
    pub contract_digest-sealed : contract_digest env p ≡ some s.contract_digest
    unfolding check_seal compare_digest
    contract_digest-sealed =
        let m = check_seal-cleared in
        elim (Bool-cases (not (digest_ok s.contract_digest) || not (digest_ok s.model_digest))) [
          | inl bad ↦ absurd (cc (rw (bad, check_seal) at m))
          | inr good ↦
              let rest = (or_else-cleared env _ _ (rw (good, check_seal) at m)).1 in
              compare_digest-cleared env s.contract_digest (contract_digest env p)
                contract_unmarshalled contract_mismatch (or_else-cleared env _ _ rest).0
        ]
