-- ===== src/Statecheck/Samples.antt =====
-- Traces on which pkg/statecheck/statecheck.go is run.
use claim2kernel.Base.{
  All, List, String, [], contains, false, insert, lookup, refl, some, true, ◌&&◌, ◌++◌, ◌↔◌, ◌∷◌,
  ◌≡◌,
}
use claim2kernel.Float64.{Float64, dyadic, f0, f1, is_inf, is_nan, lef}
use claim2kernel.Statecheck.{
  Checker, Event, Violation, check, check_from, finite_non_negative, kind_of, start, step,
}
use claim2kernel.Statecheck.Durable.{check_valid_iff, dispatch-IsCertified}
use claim2kernel.Statecheck.History.{IsCertified}
use claim2kernel.Statecheck.Lifecycle.{Lifecycle}
use claim2kernel.Statecheck.Report.{IsWithin, check_prefix, check_report, is_empty}

abbrev half : Float64
half = dyadic 1 1

abbrev event : String → Event
event kind = record {
  event_type = kind;
  profile = "p";
  request = "r";
  contract_digest = "c";
  artifact_digest = "a";
  device_fingerprint = "gpu-0";
  precision = "fp32";
  numerical_upper_bound = half;
  numerical_budget = f1;
}

abbrev opening : List Event
opening = event "publish" ∷ event "admit" ∷ []

abbrev whole : List Event
whole = event "publish" ∷ event "admit" ∷ event "dispatch" ∷ event "complete" ∷ []

dispatch-IsCertified_example : IsCertified (event "dispatch") (event "admit" ∷ event "publish" ∷ [])
unfolding check check_from step kind_of lookup finite_non_negative is_nan dyadic is_inf lef f0
    insert contains f1
dispatch-IsCertified_example =
    dispatch-IsCertified opening (event "complete" ∷ []) (event "dispatch") refl refl

check_valid_iff_example :
    ((check (some (record { events = whole }))).valid ≡ true)
    ↔ ((t : Checker) × Lifecycle t whole start)
check_valid_iff_example = check_valid_iff whole

check_report_example :
    let r = check (some (record { events = event "dispatch" ∷ opening })) in
    (r.valid ≡ is_empty r.violations) × All (IsWithin 0 3) r.violations
check_report_example = check_report (event "dispatch" ∷ opening)

check_prefix_example :
    let short = check (some (record { events = event "dispatch" ∷ [] })) in
    let long = check (some (record { events = event "dispatch" ∷ opening })) in
    (extra : List Violation) × (long.violations ≡ short.violations ++ extra)
    × (long.valid ≡ (short.valid && is_empty extra))
check_prefix_example = check_prefix (event "dispatch" ∷ []) opening

-- A revoked contract is not published again, under any name.
revoked_trace_invalid :
    (check (
      some (record {
        events = event "publish" ∷ event "revoke" ∷ record (event "publish") { profile = "q" } ∷ [];
      }))).valid
    ≡ false
unfolding check check_from step kind_of lookup finite_non_negative is_nan dyadic is_inf lef f0
    insert contains f1
revoked_trace_invalid = refl
