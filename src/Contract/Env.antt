-- ===== src/Contract/Env.antt =====
-- What pkg/contract takes from the standard library and does not implement: RFC 3339 times, the JSON
-- encoding of a value, and SHA-256. A `time.Time` is a number of nanoseconds from the zero
-- `time.Time`.
use claim2kernel.Base.{Map, Option, String, ℕ, ◌*◌}
use claim2kernel.Base.Int.{pos, ℤ}
use claim2kernel.Contract.Types.{
  InputDomain, InterferenceEnvelope, KernelProfile, LatencyCertificate, NumericalCertificate,
  OodCertificate,
}

abbrev pub Time : Type 0
Time = ℤ

abbrev pub minutes : ℕ → ℤ
minutes n = pos (n * 60000000000)

-- The anonymous struct of ModelDigest.
pub record ModelPayload : Type 0 where
  pub input_domain : InputDomain
  pub numerical : NumericalCertificate
  pub latency : LatencyCertificate
  pub interference : InterferenceEnvelope
  pub ood : OodCertificate
  pub versions : Map String

-- signaturePayload
pub record SignaturePayload : Type 0 where
  pub domain : String
  pub key_id : String
  pub contract_digest : String
  pub artifact_digest : String
  pub signed_at : String

pub record Env : Type 0 where
  -- time.Parse with the layout RFC3339Nano, and UTC().Format with it
  pub parse_time : String → Option Time
  pub format_time : Time → String
  -- json.Marshal: nothing for a value that it refuses
  pub marshal_profile : KernelProfile → Option String
  pub marshal_model : ModelPayload → Option String
  pub marshal_signature : SignaturePayload → Option String
  -- the lowercase hexadecimal SHA-256 of the bytes
  pub sha256_hex : String → String
