-- ===== src/Planner/Reasons.antt =====
-- Evaluate of pkg/planner/planner.go: a decision and its reasons agree.
use claim2kernel.Base.{
  Bool-cases, List, Option, String, [], inl, inr, is_some, none, not, refl, some, subst, true, ◌&&◌,
  ◌==◌, ◌∷◌, ◌≡◌,
}
use claim2kernel.Base.Maybe.{map-some}
use claim2kernel.Contract.Env.{Env, Time}
use claim2kernel.Contract.Fresh.{certificate_fresh}
use claim2kernel.Contract.Semver.{non_empty}
use claim2kernel.Contract.Types.{KernelProfile, KernelRequest}
use claim2kernel.Contract.Validate.{validate_profile}
use claim2kernel.Contract.Validate.Issues.{Issue}
use claim2kernel.Contract.Validate.Request.{validate_request}
use claim2kernel.Planner.{Decision, RuntimeEvidence, reject_if}
use claim2kernel.Planner.Checks.{Consistent, reject-Consistent, reject_if-Consistent}
use claim2kernel.Planner.Composed.{Checks-validate_runtime}
use claim2kernel.Planner.Consistent.{
  resolve_features-Consistent, sort_reasons-Consistent, validate_model-Consistent,
}
use claim2kernel.Planner.Evaluate.{
  evaluate, evaluate_issues, evaluate_pair, evaluate_request, evaluate_valid, new_decision,
  observed, or_given, sort_reasons, validate_envelope, validate_identity, validate_model,
  validate_runtime,
}
use claim2kernel.Planner.Model.{add_new, model_features}
use claim2kernel.Planner.Sound.{Checks-validate_envelope}

-- The evaluation, where there is one, agrees with its reasons.
abbrev Agreeing : Option Decision → Type 0
Agreeing o = (d : Decision) → o ≡ some d → Consistent d

Agreeing-some : (d : Decision) → Consistent d → Agreeing (some d)
Agreeing-some d k e h = subst Consistent (some-injective h) k
  where
    some-injective : some d ≡ some e → d ≡ e
    some-injective h = cc (h)

new_decision-Consistent :
    (phase : String) (p : Option KernelProfile) → Consistent (new_decision phase p)
unfolding new_decision
new_decision-Consistent phase p = refl

module _ (env : Env) (clock : Time) where
  validate_identity-Consistent :
      (p : KernelProfile) (r : KernelRequest) (ev : RuntimeEvidence) (d : Decision)
      → Consistent d
      → Consistent (validate_identity env clock p r ev d)
  unfolding validate_identity
  validate_identity-Consistent p r ev d k =
      reject_if-Consistent (is_some (certificate_fresh env (or_given ev.now clock) p))
        "STALE_CERTIFICATE" "profile"
        (reject_if
          (not (r.spec.required_profile == "") && not (r.spec.required_profile == p.metadata.name))
          "PROFILE_MISMATCH" "spec.requiredProfile" d)
        (reject_if-Consistent
          (not (r.spec.required_profile == "") && not (r.spec.required_profile == p.metadata.name))
          "PROFILE_MISMATCH" "spec.requiredProfile" d k)

  evaluate_valid-Agreeing :
      (phase : String) (p : KernelProfile) (r : KernelRequest) (ev : RuntimeEvidence)
      (start : Decision)
      → Consistent start
      → Agreeing (evaluate_valid env clock phase p r ev start)
  unfolding evaluate_valid model_features
  evaluate_valid-Agreeing phase p r ev start k d h =
      let given = observed phase ev.interference r.spec.interference in
      let enveloped =
        validate_envelope env clock phase p r ev (validate_identity env clock p r ev start) in
      let (e, modelled, sorted) =
        map-some (λ x. sort_reasons (validate_runtime phase p ev x))
          (validate_model p r (model_features p r given enveloped)) h in
      let resolved =
        resolve_features-Consistent r.spec.inputs given
          (add_new p.spec.latency.model.feature_order p.spec.ood.features)
          (record { decision = enveloped; values = []; complete = true })
          ((Checks-validate_envelope env clock phase p r ev).consistent _
            (validate_identity-Consistent p r ev start k)) in
      let model =
        validate_model-Consistent p r (model_features p r given enveloped) e resolved modelled in
      subst Consistent sorted (
        sort_reasons-Consistent (validate_runtime phase p ev e)
          ((Checks-validate_runtime phase p ev).consistent e model))

  evaluate_request-Agreeing :
      (phase : String) (p : Option KernelProfile) (r : Option KernelRequest) (ev : RuntimeEvidence)
      (start : Decision)
      → Consistent start
      → Agreeing (evaluate_request env clock phase p r ev start)
  unfolding evaluate_request evaluate_pair
  evaluate_request-Agreeing phase p r ev start k =
      elim (Bool-cases (non_empty (validate_request r))) [
        | inl bad ↦
            rw (bad, evaluate_request)
              (Agreeing-some _ (reject-Consistent "INVALID_REQUEST" "request" start))
        | inr good ↦ rw (good, evaluate_request) (pair p r)
      ]
    where
      pair :
          (p : Option KernelProfile) (r : Option KernelRequest)
          → Agreeing (evaluate_pair env clock phase p r ev start)
      pair (some p) (some r) = evaluate_valid-Agreeing phase p r ev start k
      pair none r = λ d h. absurd (cc (h))
      pair (some p) none = λ d h. absurd (cc (h))

  evaluate_issues-Agreeing :
      (issues : Option (List Issue)) (phase : String) (p : Option KernelProfile)
      (r : Option KernelRequest) (ev : RuntimeEvidence) (start : Decision)
      → Consistent start
      → Agreeing (evaluate_issues env clock issues phase p r ev start)
  unfolding evaluate_issues
  evaluate_issues-Agreeing none phase p r ev start k = λ d h. absurd (cc (h))
  evaluate_issues-Agreeing (some []) phase p r ev start k =
      evaluate_request-Agreeing phase p r ev start k
  evaluate_issues-Agreeing (some (i ∷ issues)) phase p r ev start k =
      Agreeing-some _ (reject-Consistent "INVALID_PROFILE" "profile" start)

  -- The decision of Evaluate is admissible exactly when it states no reason, for any profile, request,
  -- phase and evidence.
  pub evaluate-Consistent :
      (p : Option KernelProfile) (r : Option KernelRequest) (phase : String) (ev : RuntimeEvidence)
      (d : Decision)
      → evaluate env clock p r phase ev ≡ some d
      → Consistent d
  unfolding evaluate
  evaluate-Consistent p r phase ev d h =
      let start = new_decision phase p in
      let fresh = new_decision-Consistent phase p in
      elim (Bool-cases (not (phase == "plan") && not (phase == "runtime"))) [
        | inl bad ↦
            Agreeing-some _ (reject-Consistent "INVALID_PHASE" "phase" start) d
              (rw (bad, evaluate) at h)
        | inr good ↦
            evaluate_issues-Agreeing (validate_profile env p true) phase p r ev start fresh d
              (rw (good, evaluate) at h)
      ]
