-- ===== src/Planner/Samples/Decisions.antt =====
-- pkg/planner/planner.go on the sample profile.
use claim2kernel.Base.{String, [], contains, insert, lookup, refl, some, true, ◌≡◌, ◌⊎◌}
use claim2kernel.Base.Int.{pos}
use claim2kernel.Contract.Validate.{validate_profile}
use claim2kernel.Contract.Validate.Request.{validate_request}
use claim2kernel.Contract.Value.{number}
use claim2kernel.Float64.{absf, dyadic, f0, f1, is_inf, is_nan, lef, ltf, maxf, ◌*f◌, ◌-f◌}
use claim2kernel.Planner.{Decision}
use claim2kernel.Planner.Checks.{Checks, Consistent}
use claim2kernel.Planner.Conditions.{InterferenceHolds, VersionsHold}
use claim2kernel.Planner.Conditions.Envelope.{
  Checks-validate_interference, Checks-validate_versions,
}
use claim2kernel.Planner.Conditions.Inside.{Checks-validate_inputs_inside, InputsInside}
use claim2kernel.Planner.Envelope.{validate_interference, validate_versions}
use claim2kernel.Planner.Evaluate.{evaluate}
use claim2kernel.Planner.Inputs.{validate_inputs}
use claim2kernel.Planner.Optimal.{SelectHolds, select_best}
use claim2kernel.Planner.Reasons.{evaluate-Consistent}
use claim2kernel.Planner.Samples.{
  sample_catalog, sample_decision, sample_domain, sample_env, sample_evidence, sample_profile,
  sample_request, sample_spec,
}
use claim2kernel.Planner.Select.{select}
use claim2kernel.Planner.Sound.{Admitted, evaluate_sound}
use claim2kernel.Planner.Total.{evaluate_total}

abbrev runtime_phase : String
runtime_phase = "runtime"

evaluate_sound_example :
    ((runtime_phase ≡ "plan") ⊎ (runtime_phase ≡ "runtime"))
    × (validate_profile sample_env (some sample_profile) true ≡ some [])
    × (validate_request (some sample_request) ≡ [])
    × Admitted sample_env
        (pos 0)
        "runtime"
        sample_profile
        sample_request
        sample_evidence
        sample_decision
unfolding evaluate is_nan dyadic is_inf ltf ◌*f◌ maxf f1 absf lookup contains lef f0 insert
evaluate_sound_example =
    evaluate_sound sample_env (pos 0) sample_profile sample_request runtime_phase sample_evidence
      sample_decision refl refl

select_best_example :
    SelectHolds sample_env
      (pos 0)
      (some sample_request)
      "runtime"
      sample_evidence
      sample_catalog.profiles
      (some sample_profile, sample_decision)
unfolding select evaluate is_nan dyadic is_inf ltf ◌*f◌ maxf f1 absf lookup contains lef f0 insert
select_best_example =
    select_best sample_env (pos 0) (some sample_request) "runtime" sample_evidence sample_catalog
      (some sample_profile, sample_decision) refl

validate_inputs_example :
    Checks
      (InputsInside sample_domain sample_request.spec.inputs)
      (validate_inputs sample_profile sample_request)
unfolding is_nan dyadic number
validate_inputs_example =
    Checks-validate_inputs_inside sample_profile sample_request (refl, tt) ((refl, refl), tt)

validate_interference_example :
    Checks
      (InterferenceHolds sample_spec.interference.metrics sample_request.spec.interference)
      (validate_interference sample_profile sample_request.spec.interference)
validate_interference_example =
    Checks-validate_interference sample_profile sample_request.spec.interference

validate_versions_example :
    Checks
      (VersionsHold sample_spec.versions sample_request.spec.versions)
      (validate_versions sample_profile sample_request.spec.versions)
validate_versions_example = Checks-validate_versions sample_profile sample_request.spec.versions

evaluate_total_example :
    (d : Decision) × (evaluate sample_env
        (pos 0)
        (some sample_profile)
        (some sample_request)
        runtime_phase
        sample_evidence
      ≡ some d)
unfolding validate_profile is_nan dyadic is_inf ltf ◌*f◌ maxf f1 absf lookup contains lef f0 ◌-f◌
evaluate_total_example =
    evaluate_total sample_env (pos 0) sample_profile (some sample_request) runtime_phase
      sample_evidence [] refl

evaluate-Consistent_example : Consistent sample_decision
unfolding evaluate is_nan dyadic is_inf ltf ◌*f◌ maxf f1 absf lookup contains lef f0 insert
evaluate-Consistent_example =
    evaluate-Consistent sample_env (pos 0) (some sample_profile) (some sample_request) runtime_phase
      sample_evidence sample_decision refl
