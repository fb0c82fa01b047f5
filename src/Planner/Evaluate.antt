-- ===== src/Planner/Evaluate.antt =====
-- Evaluate of pkg/planner/planner.go. Nothing is returned where the Go code panics. `clock` is what
-- `time.Now()` answers.
use mathlib.Core.Option
use claim2kernel.Base.{
  Bool, List, Map, Option, String, [], if◌then◌else◌, is_some, none, not, some, true, ◌&&◌, ◌==◌,
  ◌||◌, ◌∷◌,
}
use claim2kernel.Base.Text.{codes, text_lt}
use claim2kernel.Contract.Env.{Env, Time}
use claim2kernel.Contract.Fresh.{certificate_fresh}
use claim2kernel.Contract.Semver.{non_empty}
use claim2kernel.Contract.Types.{KernelProfile, KernelRequest}
use claim2kernel.Contract.Validate.{validate_profile}
use claim2kernel.Contract.Validate.Issues.{Issue}
use claim2kernel.Contract.Validate.Request.{validate_request}
use claim2kernel.Float64.{Float64, f0, ltf, ◌+f◌, ◌-f◌}
use claim2kernel.Planner.{Decision, Reason, RuntimeEvidence, is_finite, reject, reject_if}
use claim2kernel.Planner.Devices.{validate_dra}
use claim2kernel.Planner.Envelope.{validate_interference, validate_numerical, validate_versions}
use claim2kernel.Planner.Inputs.{validate_inputs}
use claim2kernel.Planner.Model.{Resolution, model_features, predict, validate_ood}

-- The order of `sort.SliceStable`: by code, then by field.
unfoldable pub reason_less : Reason → Reason → Bool
unfolding text_lt
reason_less a b =
    if a.code == b.code
    then text_lt (codes a.field) (codes b.field)
    else text_lt (codes a.code) (codes b.code)

-- A stable sort: an element goes in front of the first that is greater.
unfoldable pub insert_reason : Reason → List Reason → List Reason
unfolding reason_less
insert_reason x [] = x ∷ []
insert_reason x (y ∷ ys) = if reason_less x y then x ∷ y ∷ ys else y ∷ insert_reason x ys

unfoldable pub sort_onto : List Reason → List Reason → List Reason
unfolding insert_reason
sort_onto sorted [] = sorted
sort_onto sorted (x ∷ xs) = sort_onto (insert_reason x sorted) xs

unfoldable pub sort_reasons : Decision → Decision
unfolding sort_onto
sort_reasons d = record d { reasons = sort_onto [] d.reasons }

abbrev pub profile_name : Option KernelProfile → String
profile_name none = ""
profile_name (some p) = p.metadata.name

abbrev pub sealed_digest : Option KernelProfile → String
sealed_digest none = ""
sealed_digest (some p) = elim p.seal [ none ↦ "" | some s ↦ s.contract_digest ]

unfoldable pub new_decision : String → Option KernelProfile → Decision
new_decision phase p = record {
  admissible = true;
  phase = phase;
  profile = profile_name p;
  contract_digest = sealed_digest p;
  predicted_compute_us = f0;
  latency_upper_us = f0;
  available_us = f0;
  latency_margin_us = f0;
  ood_score = f0;
  ood_threshold = f0;
  reasons = [];
}

abbrev pub or_given {ℓ} : {A : Type ℓ} → Option A → A → A
or_given none a = a
or_given (some b) a = b

-- The evidence replaces the request's own observations in the runtime phase, where it is given.
abbrev pub observed {ℓ} : {A : Type ℓ} → String → Option A → A → A
observed phase given own = if phase == "runtime" then or_given given own else own

unfoldable pub judge_latency : Decision → Decision
unfolding reject reject_if is_finite
judge_latency d =
    if not (is_finite d.latency_upper_us) || ltf d.latency_upper_us f0
    then reject "INVALID_LATENCY_BOUND" "profile.spec.latency" d
    else reject_if (ltf d.available_us d.latency_upper_us) "LATENCY_SLO_UNSATISFIED"
        "spec.deadlineUS" d

unfoldable pub predicted : KernelProfile → Map Float64 → Decision → Decision
unfolding reject_if is_finite predict
predicted p values d =
    let m = p.spec.latency.model in
    let x = predict m values m.feature_order m.intercept_us in
    reject_if (not (is_finite x) || ltf x f0) "INVALID_PREDICTION" "spec.latency.model"
      (record d { predicted_compute_us = x })

-- The composed bound, the time available and the margin between them.
unfoldable pub composed : KernelProfile → KernelRequest → Decision → Decision
unfolding ◌+f◌ ◌-f◌
composed p r d =
    let l = p.spec.latency in
    let upper =
      d.predicted_compute_us +f l.residual_upper_us +f l.io_budget_us +f l.runtime_jitter_us in
    let available = r.spec.deadline_us -f r.spec.safety_margin_us in
    record d {
      latency_upper_us = upper;
      available_us = available;
      latency_margin_us = available -f upper;
    }

-- What follows where every feature was found.
unfoldable pub validate_latency :
    KernelProfile → KernelRequest → Map Float64 → Decision → Option Decision
unfolding predicted composed judge_latency validate_ood
validate_latency p r values d =
    validate_ood p values (judge_latency (composed p r (predicted p values d)))

unfoldable pub validate_model : KernelProfile → KernelRequest → Resolution → Option Decision
unfolding validate_latency
validate_model p r s =
    if s.complete then validate_latency p r s.values s.decision else some s.decision

abbrev pub request_name_or_gpu : String → String
request_name_or_gpu name = if name == "" then "gpu" else name

unfoldable pub validate_runtime : String → KernelProfile → RuntimeEvidence → Decision → Decision
unfolding reject validate_dra
validate_runtime phase p ev d =
    if phase == "runtime"
    then elim ev.metadata [
      | none ↦ reject "DRA_METADATA_REQUIRED" "runtime.metadata" d
      | some m ↦ validate_dra p m (request_name_or_gpu ev.dra_request_name) d
    ]
    else d

module _ (env : Env) (clock : Time) where
  -- The checks of identity and freshness.
  unfoldable pub validate_identity :
      KernelProfile → KernelRequest → RuntimeEvidence → Decision → Decision
  unfolding reject_if certificate_fresh
  validate_identity p r ev d =
      reject_if (is_some (certificate_fresh env (or_given ev.now clock) p)) "STALE_CERTIFICATE"
        "profile"
        (reject_if
          (not (r.spec.required_profile == "") && not (r.spec.required_profile == p.metadata.name))
          "PROFILE_MISMATCH" "spec.requiredProfile" d)

  unfoldable pub validate_envelope :
      String → KernelProfile → KernelRequest → RuntimeEvidence → Decision → Decision
  unfolding validate_inputs validate_interference validate_versions validate_numerical
  validate_envelope phase p r ev d = validate_numerical p r (
      validate_versions p (observed phase ev.versions r.spec.versions) (
        validate_interference p (observed phase ev.interference r.spec.interference)
          (validate_inputs p r d)))

  -- The part of `Evaluate` behind its early returns.
  unfoldable pub evaluate_valid :
      String → KernelProfile → KernelRequest → RuntimeEvidence → Decision → Option Decision
  unfolding validate_identity validate_envelope model_features validate_model validate_runtime
      sort_reasons
  evaluate_valid phase p r ev d =
      Option.map (λ e. sort_reasons (validate_runtime phase p ev e))
        (validate_model p r (
          model_features p r (observed phase ev.interference r.spec.interference)
            (validate_envelope phase p r ev (validate_identity p r ev d))))

  -- A nil profile or request never passes its validation.
  unfoldable pub evaluate_pair :
      String
      → Option KernelProfile
      → Option KernelRequest
      → RuntimeEvidence
      → Decision
      → Option Decision
  unfolding evaluate_valid
  evaluate_pair phase (some p) (some r) ev d = evaluate_valid phase p r ev d
  evaluate_pair phase _ _ ev d = none

  unfoldable pub evaluate_request :
      String
      → Option KernelProfile
      → Option KernelRequest
      → RuntimeEvidence
      → Decision
      → Option Decision
  unfolding evaluate_pair validate_request reject
  evaluate_request phase p r ev d =
      if non_empty (validate_request r)
      then some (reject "INVALID_REQUEST" "request" d)
      else evaluate_pair phase p r ev d

  unfoldable pub evaluate_issues :
      Option (List Issue)
      → String
      → Option KernelProfile
      → Option KernelRequest
      → RuntimeEvidence
      → Decision
      → Option Decision
  unfolding evaluate_request reject
  evaluate_issues none phase p r ev d = none
  evaluate_issues (some issues) phase p r ev d =
      if non_empty issues
      then some (reject "INVALID_PROFILE" "profile" d)
      else evaluate_request phase p r ev d

  -- Evaluate
  unfoldable pub evaluate :
      Option KernelProfile → Option KernelRequest → String → RuntimeEvidence → Option Decision
  unfolding evaluate_issues validate_profile new_decision reject
  evaluate p r phase ev =
      let d = new_decision phase p in
      if not (phase == "plan") && not (phase == "runtime")
      then some (reject "INVALID_PHASE" "phase" d)
      else evaluate_issues (validate_profile env p true) phase p r ev d
