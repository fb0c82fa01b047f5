-- ===== src/Planner/Sound.antt =====
-- Evaluate of pkg/planner/planner.go is fail-closed: what an admissible decision guarantees.
use claim2kernel.Base.{
  ==-true, Bool-cases, List, Option, String, [], ap, arith, false, if◌then◌else◌, inl, inr, is_some,
  none, not, refl, some, subst, sym, true, ◌&&◌, ◌==◌, ◌∙◌, ◌∷◌, ◌≡◌, ◌⊎◌,
}
use claim2kernel.Base.Maybe.{map-some}
use claim2kernel.Contract.Env.{Env, Time}
use claim2kernel.Contract.Fresh.{certificate_fresh}
use claim2kernel.Contract.Semver.{non_empty}
use claim2kernel.Contract.Types.{KernelProfile, KernelRequest}
use claim2kernel.Contract.Validate.{validate_profile}
use claim2kernel.Contract.Validate.Issues.{Issue}
use claim2kernel.Contract.Validate.Request.{validate_request}
use claim2kernel.Planner.{Decision, RuntimeEvidence, reject}
use claim2kernel.Planner.Checks.{Checks, Checks-reject_if, Checks-then, Figures, figures}
use claim2kernel.Planner.Composed.{Checks-validate_runtime, RuntimeHolds, validate_model_passes}
use claim2kernel.Planner.Conditions.{InputsHold, InterferenceHolds, NumericalHolds, VersionsHold}
use claim2kernel.Planner.Conditions.Envelope.{
  Checks-validate_interference, Checks-validate_numerical, Checks-validate_versions,
}
use claim2kernel.Planner.Conditions.Inputs.{Checks-validate_inputs}
use claim2kernel.Planner.Evaluate.{
  evaluate, evaluate_issues, evaluate_pair, evaluate_request, evaluate_valid, new_decision,
  observed, or_given, sort_reasons, validate_envelope, validate_identity, validate_model,
  validate_runtime,
}
use claim2kernel.Planner.Features.{model_features-Resolves}
use claim2kernel.Planner.Model.{model_features}
use claim2kernel.Planner.Scored.{LatencyHolds, ScoreHolds, latency_figures}

-- The request names this contract, or none.
abbrev pub IsRequired : KernelProfile → KernelRequest → Type 0
IsRequired p r = (r.spec.required_profile ≡ "") ⊎ (r.spec.required_profile ≡ p.metadata.name)

IsRequired-of_test :
    (p : KernelProfile) (r : KernelRequest)
    → (not (r.spec.required_profile == "") && not (r.spec.required_profile == p.metadata.name))
      ≡ false
    → IsRequired p r
IsRequired-of_test p r h = elim (Bool-cases (r.spec.required_profile == "")) [
  | inl e ↦ inl (==-true r.spec.required_profile "" e)
  | inr n ↦ inr (==-true r.spec.required_profile p.metadata.name (ground arith))
]

none_of_test {ℓ} : {A : Type ℓ} (o : Option A) → is_some o ≡ false → o ≡ none
none_of_test none h = refl
none_of_test (some a) h = absurd (cc (h))

module _ (env : Env) (clock : Time) where
  validate_identity_passes :
      (p : KernelProfile) (r : KernelRequest) (ev : RuntimeEvidence) (d : Decision)
      → (validate_identity env clock p r ev d).admissible ≡ true
      → IsRequired p r × (certificate_fresh env (or_given ev.now clock) p ≡ none)
  unfolding validate_identity
  validate_identity_passes p r ev d h =
      let (_, (named_here, fresh)) =
        (Checks-then
            (Checks-reject_if
              (not (r.spec.required_profile == "")
                && not (r.spec.required_profile == p.metadata.name))
              "PROFILE_MISMATCH" "spec.requiredProfile")
            (Checks-reject_if (is_some (certificate_fresh env (or_given ev.now clock) p))
              "STALE_CERTIFICATE" "profile")).passes
          d h in
      (IsRequired-of_test p r named_here, none_of_test _ fresh)

  -- What an admissible decision says of the contract, the request and the evidence.
  pub record Admitted (phase : String) (p : KernelProfile) (r : KernelRequest)
      (ev : RuntimeEvidence) (d : Decision) : Type 0 where
    pub required : IsRequired p r
    pub fresh : certificate_fresh env (or_given ev.now clock) p ≡ none
    pub inputs : InputsHold p.spec.input_domain r.spec.inputs
    pub interference :
        InterferenceHolds p.spec.interference.metrics
          (observed phase ev.interference r.spec.interference)
    pub versions : VersionsHold p.spec.versions (observed phase ev.versions r.spec.versions)
    pub numerical : NumericalHolds p.spec.numerical r.spec.max_numerical_error
    pub latency : LatencyHolds p r (latency_figures (figures d))
    pub score : p.spec.ood.required ≡ true → ScoreHolds p.spec.ood d.ood_score
    pub runtime : phase ≡ "runtime" → RuntimeHolds p ev

  pub Checks-validate_envelope :
      (phase : String) (p : KernelProfile) (r : KernelRequest) (ev : RuntimeEvidence)
      → Checks
          (((InputsHold p.spec.input_domain r.spec.inputs
                × InterferenceHolds p.spec.interference.metrics
                    (observed phase ev.interference r.spec.interference))
              × VersionsHold p.spec.versions (observed phase ev.versions r.spec.versions))
            × NumericalHolds p.spec.numerical r.spec.max_numerical_error)
          (validate_envelope env clock phase p r ev)
  unfolding validate_envelope
  Checks-validate_envelope phase p r ev =
      Checks-then
        (Checks-then
          (Checks-then (Checks-validate_inputs p r)
            (Checks-validate_interference p (observed phase ev.interference r.spec.interference)))
          (Checks-validate_versions p (observed phase ev.versions r.spec.versions)))
        (Checks-validate_numerical p r)

  sort_reasons-keeps :
      (d : Decision)
      → ((sort_reasons d).admissible ≡ d.admissible) × (figures (sort_reasons d) ≡ figures d)
  unfolding sort_reasons
  sort_reasons-keeps d = (refl, refl)

  runtime_of_test :
      (phase : String) (p : KernelProfile) (ev : RuntimeEvidence)
      → (if phase == "runtime" then RuntimeHolds p ev else Unit {0})
      → phase ≡ "runtime"
      → RuntimeHolds p ev
  runtime_of_test phase p ev c e =
      subst (λ s. if s == "runtime" then RuntimeHolds p ev else Unit {0}) e c

  evaluate_valid_passes :
      (phase : String) (p : KernelProfile) (r : KernelRequest) (ev : RuntimeEvidence)
      (start d : Decision)
      → evaluate_valid env clock phase p r ev start ≡ some d
      → d.admissible ≡ true
      → Admitted phase p r ev d
  unfolding evaluate_valid
  evaluate_valid_passes phase p r ev start d h a =
      let given = observed phase ev.interference r.spec.interference in
      let identified = validate_identity env clock p r ev start in
      let enveloped = validate_envelope env clock phase p r ev identified in
      let s = model_features p r given enveloped in
      let (e, modelled, sorted) =
        map-some (λ x. sort_reasons (validate_runtime phase p ev x)) (validate_model p r s) h in
      let f = validate_runtime phase p ev e in
      let last = Checks-validate_runtime phase p ev in
      let (keeps_flag, keeps_figures) = sort_reasons-keeps f in
      let (kept, attested) =
        last.passes e (sym keeps_flag ∙ ap (λ (x : Decision). x.admissible) sorted ∙ a) in
      let same : figures e ≡ figures d =
        sym (last.keeps e) ∙ sym keeps_figures ∙ ap figures sorted in
      let m =
        validate_model_passes p r s enveloped e (model_features-Resolves p r given enveloped)
          modelled kept in
      let (before, (((inputs, interference), versions), numerical)) =
        (Checks-validate_envelope phase p r ev).passes identified m.before in
      let (required, fresh) = validate_identity_passes p r ev start before in
      record {
        required = required;
        fresh = fresh;
        inputs = inputs;
        interference = interference;
        versions = versions;
        numerical = numerical;
        latency = subst (λ (x : Figures). LatencyHolds p r (latency_figures x)) same m.latency;
        score = λ q. subst (λ (x : Figures). ScoreHolds p.spec.ood x.score) same (m.score q);
        runtime = runtime_of_test phase p ev attested;
      }

  pub not_rejected :
      (code field : String) (s d : Decision)
      → some (reject code field s) ≡ some d
      → d.admissible ≡ true
      → ⊥
  unfolding reject
  not_rejected code field s d h a = cc (h, a)

  empty_of_test {ℓ} : {A : Type ℓ} (xs : List A) → non_empty xs ≡ false → xs ≡ []
  empty_of_test [] h = refl
  empty_of_test (x ∷ xs) h = absurd (cc (h))

  evaluate_request_passes :
      (phase : String) (p : KernelProfile) (r : KernelRequest) (ev : RuntimeEvidence)
      (start d : Decision)
      → evaluate_request env clock phase (some p) (some r) ev start ≡ some d
      → d.admissible ≡ true
      → (validate_request (some r) ≡ []) × Admitted phase p r ev d
  unfolding evaluate_request evaluate_pair
  evaluate_request_passes phase p r ev start d h a =
      elim (Bool-cases (non_empty (validate_request (some r)))) [
        | inl bad ↦ absurd (not_rejected _ _ start d (rw (bad, evaluate_request) at h) a)
        | inr good ↦ (
          empty_of_test _ good,
          evaluate_valid_passes phase p r ev start d
              (rw (good, evaluate_request, evaluate_pair) at h) a,
        )
      ]

  evaluate_issues_passes :
      (issues : Option (List Issue)) (phase : String) (p : KernelProfile) (r : KernelRequest)
      (ev : RuntimeEvidence) (start d : Decision)
      → evaluate_issues env clock issues phase (some p) (some r) ev start ≡ some d
      → d.admissible ≡ true
      → (issues ≡ some []) × (validate_request (some r) ≡ []) × Admitted phase p r ev d
  unfolding evaluate_issues
  evaluate_issues_passes none phase p r ev start d h a = absurd (cc (h))
  evaluate_issues_passes (some []) phase p r ev start d h a =
      let (valid, k) = evaluate_request_passes phase p r ev start d h a in (refl, valid, k)
  evaluate_issues_passes (some (i ∷ is)) phase p r ev start d h a =
      absurd (not_rejected _ _ start d h a)

  -- Evaluate returns an admissible decision only where the phase is "plan" or "runtime", the profile
  -- passes its validation with a seal, the request passes its own, and everything else holds that
  -- the contract demands of the request and, in the runtime phase, of the evidence.
  pub evaluate_sound :
      (p : KernelProfile) (r : KernelRequest) (phase : String) (ev : RuntimeEvidence) (d : Decision)
      → evaluate env clock (some p) (some r) phase ev ≡ some d
      → d.admissible ≡ true
      → ((phase ≡ "plan") ⊎ (phase ≡ "runtime"))
        × (validate_profile env (some p) true ≡ some [])
        × (validate_request (some r) ≡ [])
        × Admitted phase p r ev d
  unfolding evaluate
  evaluate_sound p r phase ev d h a = elim (Bool-cases (phase == "plan")) [
    | inl plan ↦
        let (v, q, k) =
          evaluate_issues_passes (validate_profile env (some p) true) phase p r ev
            (new_decision phase (some p)) d (rw (plan, evaluate) at h) a in
        (inl (==-true phase "plan" plan), v, q, k)
    | inr other ↦ elim (Bool-cases (phase == "runtime")) [
      | inl runtime ↦
          let (v, q, k) =
            evaluate_issues_passes (validate_profile env (some p) true) phase p r ev
              (new_decision phase (some p)) d (rw (other, runtime, evaluate) at h) a in
          (inr (==-true phase "runtime" runtime), v, q, k)
      | inr neither ↦ absurd (
          not_rejected "INVALID_PHASE" "phase" (new_decision phase (some p)) d
            (rw (other, neither, evaluate) at h) a)
    ]
  ]
