-- ===== src/Contract/Validate/Request.antt =====
-- ValidateRequest of pkg/contract/validate.go.
use claim2kernel.Base.{
  List, Map, Option, String, [], length, ltb, none, not, some, ◌++◌, ◌==◌, ◌||◌, ◌∷◌,
}
use claim2kernel.Base.Text.{codes}
use claim2kernel.Contract.Checks.{blank, finite, finite_non_negative, finite_positive, valid_name}
use claim2kernel.Contract.Semver.{non_empty}
use claim2kernel.Contract.Types.{KernelRequest, api_version_v1alpha1, request_kind}
use claim2kernel.Contract.Validate.Certificates.{is_unset}
use claim2kernel.Contract.Validate.Issues.{
  Issue, bad_api_version, bad_deadline, bad_interference_entry, bad_kind, bad_name,
  bad_numerical_error, bad_safety_margin, bad_version_entry, flag, input_unnamed, input_unset,
  no_inputs, request_is_nil, too_many_inputs, too_many_interference, too_many_versions,
}
use claim2kernel.Contract.Value.{Value}
use claim2kernel.Float64.{Float64, lef}

unfoldable pub input_issues : Map Value → List Issue
unfolding blank
input_issues [] = []
input_issues ((k, v) ∷ m) =
    flag (blank k) input_unnamed ++ (flag (is_unset v) (input_unset k) ++ input_issues m)

unfoldable pub interference_issues : Map Float64 → List Issue
unfolding blank finite
interference_issues [] = []
interference_issues ((k, v) ∷ m) =
    flag (blank k || not (finite v)) bad_interference_entry ++ interference_issues m

unfoldable pub request_version_issues : Map String → List Issue
unfolding blank
request_version_issues [] = []
request_version_issues ((k, v) ∷ m) =
    flag (blank k || blank v) bad_version_entry ++ request_version_issues m

unfoldable pub request_issues : KernelRequest → List Issue
unfolding finite_positive finite_non_negative input_issues interference_issues
    request_version_issues valid_name
request_issues r =
    let s = r.spec in
    flag (not (r.api_version == api_version_v1alpha1)) bad_api_version
    ++ (flag (not (r.kind == request_kind)) bad_kind
        ++ (flag (not (valid_name (codes r.metadata.name))) bad_name
            ++ (flag (not (finite_positive s.deadline_us)) bad_deadline
                ++ (flag
                      (not (finite_non_negative s.safety_margin_us)
                        || lef s.deadline_us s.safety_margin_us)
                      bad_safety_margin
                    ++ (flag (not (finite_non_negative s.max_numerical_error)) bad_numerical_error
                        ++ (flag (not (non_empty s.inputs)) no_inputs
                            ++ (flag (ltb 128 (length s.inputs)) too_many_inputs
                                ++ (input_issues s.inputs
                                    ++ (interference_issues s.interference
                                        ++ (flag (ltb 64 (length s.interference))
                                              too_many_interference
                                            ++ (request_version_issues s.versions
                                                ++ flag (ltb 64 (length s.versions))
                                                    too_many_versions)))))))))))

-- ValidateRequest: no issue is no error
unfoldable pub validate_request : Option KernelRequest → List Issue
unfolding request_issues
validate_request none = request_is_nil ∷ []
validate_request (some r) = request_issues r
