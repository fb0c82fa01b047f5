-- ===== src/Planner/Samples/Contracts.antt =====
-- pkg/contract/validate.go and pkg/dra/metadata.go on the sample profile, request and metadata.
use mathlib.Core.List.Memᴰ.{head}
use claim2kernel.Base.{
  List, [], arith, contains, length, lookup, none, refl, some, true, ◌↔◌, ◌∷◌, ◌≡◌, ◌≤◌,
}
use claim2kernel.Base.Int.{pos}
use claim2kernel.Contract.Accepted.{seal_profile-accepted}
use claim2kernel.Contract.Checks.{digest_ok, finite, matrix_tolerance}
use claim2kernel.Contract.Digest.{digest_bytes}
use claim2kernel.Contract.Fresh.{certificate_fresh}
use claim2kernel.Contract.Matrix.{positive_definite_symmetric}
use claim2kernel.Contract.Sealed.{Lawful}
use claim2kernel.Contract.Sealing.{seal_profile}
use claim2kernel.Contract.Total.{IsFitting, validate_profile-IsFitting, validate_profile_total}
use claim2kernel.Contract.Validate.{validate_profile}
use claim2kernel.Contract.Validate.Issues.{Issue}
use claim2kernel.Contract.Validate.Request.{validate_request}
use claim2kernel.Contract.Wellformed.{IsWellformed, validate_request-IsWellformed}
use claim2kernel.Contract.Window.{IsFresh, certificate_fresh_iff}
use claim2kernel.Dra.{DeviceMetadataRequest, devices_for_request, validate}
use claim2kernel.Dra.Attributes.{any_int}
use claim2kernel.Dra.Requests.{devices_for_request_validated}
use claim2kernel.Float64.{
  absf, dyadic, eqf, f0, f1, from_int, is_inf, is_nan, lef, ltf, maxf, ◌*f◌, ◌-f◌,
}
use claim2kernel.Planner.Samples.{
  gpu, sample_env, sample_metadata, sample_ood, sample_profile, sample_request,
}

validate_profile_total_example :
    (issues : List Issue) × (validate_profile sample_env (some sample_profile) true ≡ some issues)
validate_profile_total_example =
    validate_profile_total sample_env sample_profile true (λ _ _. (refl, tt))

validate_profile-IsFitting_example : IsFitting sample_ood
unfolding validate_profile is_nan dyadic is_inf ltf ◌*f◌ maxf f1 absf lookup contains lef f0 ◌-f◌
validate_profile-IsFitting_example =
    validate_profile-IsFitting sample_env sample_profile true refl refl

validate_request-IsWellformed_example :
    (validate_request (some sample_request) ≡ []) ↔ IsWellformed sample_request
validate_request-IsWellformed_example = validate_request-IsWellformed sample_request

certificate_fresh_iff_example :
    (certificate_fresh sample_env (pos 600) sample_profile ≡ none)
    ↔ IsFresh sample_env (pos 600) sample_profile
certificate_fresh_iff_example =
    certificate_fresh_iff sample_env (pos 600) sample_profile _ refl (omega arith)

abbrev gpu_request : DeviceMetadataRequest
gpu_request = record { name = "gpu"; devices = gpu ∷ [] }

devices_for_request_validated_example :
    (devices_for_request sample_metadata "gpu" ≡ some (gpu ∷ []))
    × (1 ≤ length gpu_request.devices)
    × (length gpu_request.devices ≤ 128)
unfolding validate contains
devices_for_request_validated_example =
    devices_for_request_validated sample_metadata gpu_request refl (head refl)

-- A ragged matrix makes the symmetry loop read a row out of range.
ragged_matrix : positive_definite_symmetric ((f1 ∷ f0 ∷ []) ∷ [] ∷ []) matrix_tolerance ≡ none
unfolding positive_definite_symmetric claim2kernel.Contract.Checks.finite is_nan f1 is_inf ltf ◌*f◌
    matrix_tolerance dyadic maxf absf ◌-f◌ f0
ragged_matrix = refl

-- 2^53 + 1 in a list counts as 2^53.
rounded_member : any_int (pos 9007199254740993 ∷ []) (from_int (pos 9007199254740992)) ≡ true
unfolding any_int eqf
rounded_member = refl

sample_laws : Lawful sample_env (pos 60)
unfolding lookup digest_bytes digest_ok
sample_laws = record { time_read_back = refl; digest_wellformed = λ s. refl }

seal_profile-accepted_example : validate_profile sample_env (some sample_profile) true ≡ some []
unfolding seal_profile is_nan dyadic is_inf ltf ◌*f◌ maxf f1 absf lookup contains lef f0 ◌-f◌
seal_profile-accepted_example =
    seal_profile-accepted sample_env (pos 60) (record sample_profile { seal = none }) sample_profile
      sample_laws refl
