-- ===== src/Contract/Validate/Issues.antt =====
-- The issues that the validators of pkg/contract/validate.go collect: a constructor for each message.
use claim2kernel.Base.{Bool, List, String, [], if◌then◌else◌, ℕ, ◌∷◌}
use claim2kernel.Contract.Semver.Range.{VersionError}

-- validateNumericFeatureReference
pub data RefError : Type 0 where
  input_undeclared input_not_numeric metric_undeclared : String → RefError
  bad_namespace : RefError

-- VerifySeal
pub data SealError : Type 0 where
  seal_missing digests_malformed sealed_at_invalid created_at_unreadable : SealError
  expires_at_unreadable sealed_outside_validity contract_unmarshalled : SealError
  contract_mismatch model_unmarshalled model_mismatch : SealError

pub data Issue : Type 0 where
  profile_is_nil request_is_nil bad_api_version bad_kind bad_name : Issue
  version_required created_required created_invalid expires_required expires_invalid : Issue
  created_after_expiry : Issue
  bad_artifact_path bad_artifact_digest bad_size bad_max_bytes over_ceiling : Issue
  bad_protocol bad_container_digest too_many_args arg_has_nul arg_too_long args_too_long : Issue
  target_incomplete bad_device_class no_features too_many_features : Issue
  feature_unnamed feature_name_invalid : Issue
  bad_range numeric_with_categories no_categories too_many_categories empty_category :
      String → Issue
  duplicate_category : String → String → Issue
  unsupported_kind : String → String → Issue
  too_many_relations : Issue
  left_unknown right_unknown left_not_numeric right_not_numeric : ℕ → String → Issue
  bad_relation_op : ℕ → String → Issue
  precision_required bad_device_count bad_min_memory too_many_counters bad_counter : Issue
  bad_numerical bad_method bad_latency_budgets bad_sample_counts bad_coverage bad_max_age : Issue
  calibrated_invalid calibrated_after_creation calibrated_after_expiry bad_model : Issue
  too_many_model_features : Issue
  duplicate_order coefficient_missing : String → Issue
  bad_model_feature : String → RefError → Issue
  order_differs : Issue
  coefficient_not_finite bad_interference : String → Issue
  too_many_metrics empty_version_entry : Issue
  bad_version_range : String → VersionError → Issue
  too_many_versions too_many_assertions : Issue
  bad_assertion : ℕ → Issue
  bad_ood_method ood_dimensions too_many_ood_features : Issue
  duplicate_ood_feature : String → Issue
  bad_ood_feature : String → RefError → Issue
  ood_mean_not_finite ood_not_square ood_entry_not_finite ood_not_definite bad_ood_numbers : Issue
  not_fail_closed fallback_reserved provenance_incomplete bad_compiler_digest : Issue
  seal_required : Issue
  bad_seal : SealError → Issue
  bad_deadline bad_safety_margin bad_numerical_error no_inputs too_many_inputs : Issue
  input_unnamed : Issue
  input_unset : String → Issue
  bad_interference_entry too_many_interference bad_version_entry : Issue
  envelope_is_nil bad_algorithm key_id_required bad_bound_digests bad_signed_at : Issue
  bad_signature_text : Issue

-- `if b { issues = append(issues, i) }`
abbrev pub flag : Bool → Issue → List Issue
flag b i = if b then i ∷ [] else []
