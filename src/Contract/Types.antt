-- ===== src/Contract/Types.antt =====
-- pkg/contract/types.go: the API objects. A pointer is an `Option`, a map an association list in the
-- order of one iteration, an `int64` an integer. Fields that no code of the package reads and that
-- only pass through (`notes`, `gitCommit`, `uid`) are kept, since the digests cover them.
use claim2kernel.Base.{Bool, List, Map, Option, String}
use claim2kernel.Base.Int.{ℤ}
use claim2kernel.Contract.Value.{Value}
use claim2kernel.Float64.{Float64}

abbrev pub api_version_v1alpha1 : String
api_version_v1alpha1 = "claim2kernel.dev/v1alpha1"

abbrev pub profile_kind : String
profile_kind = "KernelProfile"

abbrev pub request_kind : String
request_kind = "KernelRequest"

abbrev pub catalog_kind : String
catalog_kind = "KernelCatalog"

abbrev pub signature_kind : String
signature_kind = "KernelProfileSignature"

pub record ObjectMeta : Type 0 where
  pub name : String
  pub uid : String
  pub version : String
  pub created_at : String
  pub expires_at : String

pub record ArtifactSpec : Type 0 where
  pub path : String
  pub digest : String
  pub size_bytes : ℤ
  pub max_bytes : ℤ
  pub protocol : String
  pub default_args : List String
  pub container_digest : String

pub record TargetSpec : Type 0 where
  pub backend : String
  pub vendor : String
  pub architecture : String
  pub device_class : String

pub record FeatureSpec : Type 0 where
  pub kind : String
  pub required : Bool
  pub minimum : Option Float64
  pub maximum : Option Float64
  pub categories : List String
  pub ood_feature : Bool

pub record Relation : Type 0 where
  pub left : String
  pub op : String
  pub right : String

pub record InputDomain : Type 0 where
  pub features : Map FeatureSpec
  pub relations : List Relation

pub record PrecisionSpec : Type 0 where
  pub storage : String
  pub accumulation : String

pub record ResourceSpec : Type 0 where
  pub device_count : ℤ
  pub min_memory_bytes : ℤ
  pub counters : Map String

pub record NumericalCertificate : Type 0 where
  pub metric : String
  pub upper_bound : Float64
  pub observed_max : Float64
  pub test_sample_count : ℤ

pub record LinearModel : Type 0 where
  pub intercept_us : Float64
  pub coefficients : Map Float64
  pub feature_order : List String
  pub ridge_lambda : Float64

pub record LatencyCertificate : Type 0 where
  pub method : String
  pub quantile : Float64
  pub confidence : Float64
  pub residual_upper_us : Float64
  pub io_budget_us : Float64
  pub runtime_jitter_us : Float64
  pub calibration_sample_count : ℤ
  pub test_sample_count : ℤ
  pub observed_coverage : Float64
  pub model : LinearModel
  pub calibrated_at : String
  pub max_age_seconds : ℤ

pub record Range : Type 0 where
  pub minimum : Float64
  pub maximum : Float64

pub record InterferenceEnvelope : Type 0 where
  pub metrics : Map Range

pub record DeviceAssertion : Type 0 where
  pub attribute : String
  pub op : String
  pub value : Value

pub record OodCertificate : Type 0 where
  pub method : String
  pub required : Bool
  pub features : List String
  pub mean : List Float64
  pub inverse_covariance : List (List Float64)
  pub threshold : Float64
  pub coverage : Float64
  pub calibration_sample_count : ℤ
  pub observed_test_inlier_rate : Float64
  pub regularization : Float64

pub record PolicySpec : Type 0 where
  pub fail_closed : Bool
  pub fallback_profiles : List String

pub record Provenance : Type 0 where
  pub compiler : String
  pub compiler_digest : String
  pub source_digest : String
  pub dataset_digest : String
  pub git_commit : String
  pub notes : String

pub record ProfileSpec : Type 0 where
  pub artifact : ArtifactSpec
  pub target : TargetSpec
  pub input_domain : InputDomain
  pub precision : PrecisionSpec
  pub resources : ResourceSpec
  pub numerical : NumericalCertificate
  pub latency : LatencyCertificate
  pub interference : InterferenceEnvelope
  pub versions : Map String
  pub device_assertions : List DeviceAssertion
  pub ood : OodCertificate
  pub policy : PolicySpec
  pub provenance : Provenance

pub record Seal : Type 0 where
  pub contract_digest : String
  pub model_digest : String
  pub sealed_at : String

pub record KernelProfile : Type 0 where
  pub api_version : String
  pub kind : String
  pub metadata : ObjectMeta
  pub spec : ProfileSpec
  pub seal : Option Seal

pub record RequestSpec : Type 0 where
  pub deadline_us : Float64
  pub safety_margin_us : Float64
  pub max_numerical_error : Float64
  pub inputs : Map Value
  pub interference : Map Float64
  pub versions : Map String
  pub required_profile : String

pub record KernelRequest : Type 0 where
  pub api_version : String
  pub kind : String
  pub metadata : ObjectMeta
  pub spec : RequestSpec

pub record KernelCatalog : Type 0 where
  pub api_version : String
  pub kind : String
  pub metadata : ObjectMeta
  pub profiles : List KernelProfile

pub record SignatureEnvelope : Type 0 where
  pub api_version : String
  pub kind : String
  pub algorithm : String
  pub key_id : String
  pub contract_digest : String
  pub artifact_digest : String
  pub signed_at : String
  pub signature : String
