-- ===== src/Planner.antt =====
-- pkg/planner/planner.go: the decision and its reasons. A `*Decision` is threaded through the checks;
-- a reason keeps its code and field, and its formatted message is left out. An iteration over a Go map
-- follows the association list, so that statements hold for every order of iteration.
pub mod Checks
pub mod Inputs
pub mod Envelope
pub mod Model
pub mod Conditions
pub mod Devices
pub mod Evaluate
pub mod Select
pub mod Total
pub mod Consistent
pub mod Reasons
pub mod Scored
pub mod Features
pub mod Composed
pub mod Samples
pub mod Sound
pub mod Given
pub mod Best
pub mod Round
pub mod Optimal
use Prim.Native.String
use claim2kernel.Base.{
  Bool, List, Map, Option, String, [], false, if◌then◌else◌, not, ◌&&◌, ◌++◌, ◌∷◌,
}
use claim2kernel.Contract.Digest.{contract_digest}
use claim2kernel.Contract.Env.{Time}
use claim2kernel.Dra.{DeviceMetadata}
use claim2kernel.Float64.{Float64, is_inf, is_nan}

pub record RuntimeEvidence : Type 0 where
  pub now : Option Time  -- none is the zero time
  pub interference : Option (Map Float64)  -- none is a nil map
  pub versions : Option (Map String)
  pub metadata : Option DeviceMetadata
  pub dra_request_name : String

pub record Reason : Type 0 where
  pub code : String
  pub field : String

pub record Decision : Type 0 where
  pub admissible : Bool
  pub phase : String
  pub profile : String
  pub contract_digest : String
  pub predicted_compute_us : Float64
  pub latency_upper_us : Float64
  pub available_us : Float64
  pub latency_margin_us : Float64
  pub ood_score : Float64
  pub ood_threshold : Float64
  pub reasons : List Reason

-- `d.reject(code, field, …)`
unfoldable pub reject : String → String → Decision → Decision
reject code field d = record d {
  reasons = d.reasons ++ record { code = code; field = field } ∷ [];
  admissible = false;
}

-- `reject` under a condition, with the function going on either way.
unfoldable pub reject_if : Bool → String → String → Decision → Decision
unfolding reject
reject_if b code field d = if b then reject code field d else d

unfoldable pub is_finite : Float64 → Bool
is_finite v = not (is_nan v) && not (is_inf v)

abbrev pub named : String → String → String
named p name = String.◌++◌ p name
