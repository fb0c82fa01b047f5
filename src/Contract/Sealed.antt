-- ===== src/Contract/Sealed.antt =====
-- What SealProfile of pkg/contract/digest.go seals, ValidateProfile accepts.
use claim2kernel.Base.{
  Bool-cases, List, Option, Option-cases, String, [], eq_iff, false, inl, inr, none, refl, some,
  subst, true, ◌==◌, ◌∷◌, ◌≡◌,
}
use claim2kernel.Base.Int.{ltb_ℤ, ◌-ℤ◌}
use claim2kernel.Contract.Checks.{digest_ok}
use claim2kernel.Contract.Digest.{
  check_seal, compare_digest, contract_digest, digest_bytes, model_digest, model_payload, or_else,
  seal_times, verify_seal,
}
use claim2kernel.Contract.Env.{Env, Time, minutes}
use claim2kernel.Contract.Sealing.{attach_seal, seal_unsealed, seal_valid, time_or_zero}
use claim2kernel.Contract.Types.{KernelProfile, Seal}
use claim2kernel.Contract.Validate.Artifact.{time_issues}
use claim2kernel.Contract.Validate.Issues.{Issue, SealError}

-- What the two libraries document: the written time reads back, and a digest is 64 hexadecimal digits.
pub record Lawful (env : Env) (now : Time) : Type 0 where
  pub time_read_back : env.parse_time (env.format_time now) ≡ some now
  pub digest_wellformed : (s : String) → digest_ok (digest_bytes env s) ≡ true

module _ (env : Env) (now : Time) where
  -- A seal that was attached, and how.
  pub record Attached (p q : KernelProfile) : Type 0 where
    pub contract : String
    pub model : String
    pub contract_computed : contract_digest env p ≡ some contract
    pub model_computed : model_digest env p ≡ some model
    pub begun : ltb_ℤ now (time_or_zero (env.parse_time p.metadata.created_at) -ℤ minutes 5) ≡ false
    pub unexpired : ltb_ℤ now (time_or_zero (env.parse_time p.metadata.expires_at)) ≡ true
    pub result :
        record p {
          seal = some (record {
            contract_digest = contract;
            model_digest = model;
            sealed_at = env.format_time now;
          });
        }
        ≡ q

  pub seal_valid-Attached :
      (p q : KernelProfile) → seal_valid env now p ≡ (some q, none) → Attached p q
  unfolding seal_valid attach_seal
  seal_valid-Attached p q h =
      elim (Bool-cases
        (ltb_ℤ now (time_or_zero (env.parse_time p.metadata.created_at) -ℤ minutes 5))) [
          | inl bad ↦ absurd (cc (rw (bad, seal_valid) at h))
          | inr begun ↦
              elim (Bool-cases (ltb_ℤ now (time_or_zero (env.parse_time p.metadata.expires_at)))) [
                | inr bad ↦ absurd (cc (rw (begun, bad, seal_valid) at h))
                | inl ahead ↦ elim (Option-cases (contract_digest env p)) [
                  | inl bad ↦ absurd (cc (rw (begun, ahead, bad, seal_valid, attach_seal) at h))
                  | inr (c, found) ↦ elim (Option-cases (model_digest env p)) [
                    | inl bad ↦
                        absurd (cc (rw (begun, ahead, found, bad, seal_valid, attach_seal) at h))
                    | inr (m, made) ↦ record {
                      contract = c;
                      model = m;
                      contract_computed = found;
                      model_computed = made;
                      begun = begun;
                      unexpired = ahead;
                      result = cc (rw (begun, ahead, found, made, seal_valid, attach_seal) at h);
                    }
                  ]
                ]
              ]
        ]

  pub seal_unsealed-valid :
      (p q : KernelProfile) (issues : List Issue)
      → seal_unsealed env now p issues ≡ (some q, none)
      → (issues ≡ []) × (seal_valid env now p ≡ (some q, none))
  unfolding seal_unsealed
  seal_unsealed-valid p q [] h = (refl, h)
  seal_unsealed-valid p q (i ∷ issues) h = absurd (cc (h))

  digest_ok-contract :
      (p : KernelProfile) (d : String)
      → Lawful env now
      → contract_digest env p ≡ some d
      → digest_ok d ≡ true
  unfolding contract_digest
  digest_ok-contract p d laws h =
      elim (Option-cases (env.marshal_profile (record p { seal = none }))) [
        | inl bad ↦ absurd (cc (rw (bad, contract_digest) at h))
        | inr (bytes, e) ↦
            let same : digest_bytes env bytes ≡ d = cc (rw (e, contract_digest) at h) in
            subst (λ x. digest_ok x ≡ true) same (laws.digest_wellformed bytes)
      ]

  digest_ok-model :
      (p : KernelProfile) (d : String)
      → Lawful env now
      → model_digest env p ≡ some d
      → digest_ok d ≡ true
  unfolding model_digest
  digest_ok-model p d laws h = elim (Option-cases (env.marshal_model (model_payload env p))) [
    | inl bad ↦ absurd (cc (rw (bad, model_digest) at h))
    | inr (bytes, e) ↦
        let same : digest_bytes env bytes ≡ d = cc (rw (e, model_digest) at h) in
        subst (λ x. digest_ok x ≡ true) same (laws.digest_wellformed bytes)
  ]

  pub time_issues-readable :
      (s : String) (a b : Issue)
      → time_issues env s a b ≡ []
      → (t : Time) × (env.parse_time s ≡ some t)
  unfolding time_issues
  time_issues-readable s a b h = elim (Bool-cases (s == "")) [
    | inl bad ↦ absurd (cc (rw (bad, time_issues) at h))
    | inr given ↦ elim (Option-cases (env.parse_time s)) [
      | inl bad ↦ absurd (cc (rw (given, bad, time_issues) at h))
      | inr found ↦ found
    ]
  ]

  abbrev sealed_with : KernelProfile → String → String → KernelProfile
  sealed_with p contract model = record p {
    seal = some (record {
      contract_digest = contract;
      model_digest = model;
      sealed_at = env.format_time now;
    });
  }

  compare_digest-computed :
      (u m : SealError) (d : String) (o : Option String)
      → o ≡ some d
      → compare_digest env u m d o ≡ none
  unfolding compare_digest
  compare_digest-computed u m d none h = absurd (cc (h))
  compare_digest-computed u m d (some e) h =
      let same : (d == e) ≡ true = (eq_iff d e).1 (cc (h)) in rw (same, compare_digest) refl

  or_else-none : (a b : Option SealError) → a ≡ none → b ≡ none → or_else env a b ≡ none
  unfolding or_else
  or_else-none none b h k = k
  or_else-none (some err) b h k = absurd (cc (h))

  seal_times-none :
      (p : KernelProfile) (s : Seal) (sealed created expires : Time)
      → env.parse_time s.sealed_at ≡ some sealed
      → env.parse_time p.metadata.created_at ≡ some created
      → env.parse_time p.metadata.expires_at ≡ some expires
      → ltb_ℤ sealed (created -ℤ minutes 5) ≡ false
      → ltb_ℤ sealed expires ≡ true
      → seal_times env p s ≡ none
  unfolding seal_times
  seal_times-none p s sealed created expires a b c d e = rw (a, b, c, d, e, seal_times) refl

  check_seal-none :
      (p : KernelProfile) (s : Seal)
      → digest_ok s.contract_digest ≡ true
      → digest_ok s.model_digest ≡ true
      → seal_times env p s ≡ none
      → contract_digest env p ≡ some s.contract_digest
      → model_digest env p ≡ some s.model_digest
      → check_seal env p s ≡ none
  unfolding check_seal
  check_seal-none p s a b c d e =
      rw (a, b, check_seal)
        (or_else-none _ _ c (
          or_else-none _ _ (compare_digest-computed _ _ s.contract_digest _ d)
            (compare_digest-computed _ _ s.model_digest _ e)))

  pub verify_seal-Attached :
      (p q : KernelProfile) (created expires : Time)
      → Lawful env now
      → Attached p q
      → env.parse_time p.metadata.created_at ≡ some created
      → env.parse_time p.metadata.expires_at ≡ some expires
      → verify_seal env q ≡ none
  unfolding verify_seal contract_digest model_digest model_payload
  verify_seal-Attached p q created expires laws a c e =
      let sealed = sealed_with p a.contract a.model in
      let s : Seal = record {
        contract_digest = a.contract;
        model_digest = a.model;
        sealed_at = env.format_time now;
      } in
      subst (λ x. verify_seal env x ≡ none) a.result
        (check_seal-none sealed s (digest_ok-contract p a.contract laws a.contract_computed)
          (digest_ok-model p a.model laws a.model_computed)
          (seal_times-none sealed s now created expires laws.time_read_back c e
            (subst (λ o. ltb_ℤ now (time_or_zero o -ℤ minutes 5) ≡ false) c a.begun)
            (subst (λ o. ltb_ℤ now (time_or_zero o) ≡ true) e a.unexpired))
          a.contract_computed a.model_computed)
