-- ===== src/Contract/Signature.antt =====
-- pkg/contract/signature.go: detached signatures of a sealed profile. Ed25519, base64 and SHA-256 are
-- parameters; a byte sequence is a list of numbers. Nothing is returned where the Go code panics.
pub mod Pem
pub mod Verified
pub mod Envelope
pub mod Signed
pub mod Transfer
use Prim.Native.String
use mathlib.Core.Option
use Prim.Native.String.{slice}
use claim2kernel.Base.{
  Bool, Bytes, List, Option, String, [], false, if◌then◌else◌, inl, inr, is_some, length, map,
  nat_eq, none, not, some, true, ◌++◌, ◌==◌, ◌||◌, ◌∷◌, ◌⊎◌,
}
use claim2kernel.Base.Int.{ltb_ℤ, ℤ, ◌+ℤ◌, ◌-ℤ◌}
use claim2kernel.Base.Maybe.{◌>>=◌}
use claim2kernel.Contract.Checks.{digest_ok}
use claim2kernel.Contract.Digest.{contract_digest}
use claim2kernel.Contract.Env.{Env, SignaturePayload, Time, minutes}
use claim2kernel.Contract.Sealing.{time_or_zero}
use claim2kernel.Contract.Types.{
  KernelProfile, Seal, SignatureEnvelope, api_version_v1alpha1, signature_kind,
}
use claim2kernel.Contract.Validate.{validate_profile}
use claim2kernel.Contract.Validate.Issues.{
  Issue, bad_algorithm, bad_api_version, bad_bound_digests, bad_kind, bad_signature_text,
  bad_signed_at, envelope_is_nil, flag, key_id_required,
}
use claim2kernel.Contract.Value.{kind}

-- What the code calls of crypto/ed25519, encoding/base64 and crypto/sha256.
pub record Crypto : Type 0 where
  -- `privateKey.Public()`, `Sign` and `Verify`: nothing where they panic on a key of a wrong length
  pub public_key : Bytes → Option Bytes
  pub sign : Bytes → String → Option Bytes
  pub verify : Bytes → String → Bytes → Option Bool
  -- base64.StdEncoding
  pub encode : Bytes → String
  pub decode : String → Option Bytes
  -- the lowercase hexadecimal SHA-256
  pub key_hash : Bytes → String

abbrev pub signature_domain : String
signature_domain = "claim2kernel.dev/profile-signature/v1\0"

abbrev pub algorithm_name : String
algorithm_name = "Ed25519"

pub data SignatureError : Type 0 where
  unsound_profile unsound_envelope : List Issue → SignatureError
  key_mismatch bound_elsewhere outside_validity from_future predates_seal : SignatureError
  undecodable unmarshalled verification_failed sign_before_seal sign_expired : SignatureError

module _ (env : Env) (crypto : Crypto) where
  -- KeyID: the first 16 bytes of the hash
  unfoldable pub key_id : Bytes → String
  key_id key = String.◌++◌ "ed25519:" (slice (crypto.key_hash key) 0 32)

  unfoldable pub signature_payload : SignatureEnvelope → SignaturePayload
  signature_payload e = record {
    domain = signature_domain;
    key_id = e.key_id;
    contract_digest = e.contract_digest;
    artifact_digest = e.artifact_digest;
    signed_at = e.signed_at;
  }

  -- signatureMessage
  unfoldable pub signature_message : SignatureEnvelope → Option String
  unfolding signature_payload
  signature_message e = env.marshal_signature (signature_payload e)

  abbrev pub is_signature : Option Bytes → Bool
  is_signature none = false
  is_signature (some sig) = nat_eq (length sig) 64

  unfoldable pub envelope_issues_of : SignatureEnvelope → List Issue
  envelope_issues_of e =
      flag (not (e.api_version == api_version_v1alpha1)) bad_api_version
      ++ (flag (not (e.kind == signature_kind)) bad_kind
          ++ (flag (not (e.algorithm == algorithm_name)) bad_algorithm
              ++ (flag (e.key_id == "") key_id_required
                  ++ (flag (not (digest_ok e.contract_digest) || not (digest_ok e.artifact_digest))
                        bad_bound_digests
                      ++ (flag (not (is_some (env.parse_time e.signed_at))) bad_signed_at
                          ++ flag (not (is_signature (crypto.decode e.signature)))
                              bad_signature_text)))))

  -- ValidateSignatureEnvelope: no issue is no error
  unfoldable pub validate_signature_envelope : Option SignatureEnvelope → List Issue
  unfolding envelope_issues_of
  validate_signature_envelope none = envelope_is_nil ∷ []
  validate_signature_envelope (some e) = envelope_issues_of e

  -- The last steps: the signature decoded and put to Ed25519.
  unfoldable pub verify_bytes :
      Bytes → Option Bytes → Option String → Option (Option SignatureError)
  verify_bytes key none message = some (some undecodable)
  verify_bytes key (some sig) none = some (some unmarshalled)
  verify_bytes key (some sig) (some message) =
      Option.map (λ ok. if ok then none else some verification_failed)
        (crypto.verify key message sig)

  -- Whether the signature is before a readable seal's time, less the skew.
  abbrev pub before_seal : Option Time → Time → ℤ → Bool
  before_seal none signed_time skew = false
  before_seal (some sealed) signed_time skew = ltb_ℤ signed_time (sealed -ℤ skew)

  -- The envelope against a profile with its seal, the key and the time.
  unfoldable pub verify_binding :
      KernelProfile → Seal → SignatureEnvelope → Bytes → Time → ℤ → Option (Option SignatureError)
  unfolding key_id signature_message verify_bytes ◌-ℤ◌ ◌+ℤ◌
  verify_binding p s e key now skew =
      let signed_time = time_or_zero (env.parse_time e.signed_at) in
      let created = time_or_zero (env.parse_time p.metadata.created_at) in
      let expires = time_or_zero (env.parse_time p.metadata.expires_at) in
      if not (e.key_id == key_id key)
      then some (some key_mismatch)
      else if not (e.contract_digest == s.contract_digest)
          || not (e.artifact_digest == p.spec.artifact.digest)
      then some (some bound_elsewhere)
      else if ltb_ℤ signed_time (created -ℤ skew) || not (ltb_ℤ signed_time expires)
      then some (some outside_validity)
      else if ltb_ℤ (now +ℤ skew) signed_time
      then some (some from_future)
      else if before_seal (env.parse_time s.sealed_at) signed_time skew
      then some (some predates_seal)
      else verify_bytes key (crypto.decode e.signature) (signature_message e)

  -- A nil profile or envelope and a missing seal never pass the validations.
  unfoldable pub verify_parts :
      Option KernelProfile
      → Option SignatureEnvelope
      → Bytes
      → Time
      → ℤ
      → Option (Option SignatureError)
  unfolding verify_binding
  verify_parts (some p) (some e) key now skew = elim p.seal [
    | none ↦ none
    | some s ↦ verify_binding p s e key now skew
  ]
  verify_parts _ _ key now skew = none

  unfoldable pub verify_envelope :
      List Issue
      → Option KernelProfile
      → Option SignatureEnvelope
      → Bytes
      → Time
      → ℤ
      → Option (Option SignatureError)
  unfolding verify_parts validate_signature_envelope
  verify_envelope (i ∷ issues) p e key now skew = some (some (unsound_profile (i ∷ issues)))
  verify_envelope [] p e key now skew = elim (validate_signature_envelope e) [
    | [] ↦ verify_parts p e key now skew
    | i ∷ issues ↦ some (some (unsound_envelope (i ∷ issues)))
  ]

  -- VerifyProfileSignature; no error inside is the acceptance
  unfoldable pub verify_profile_signature :
      Option KernelProfile
      → Option SignatureEnvelope
      → Bytes
      → Time
      → ℤ
      → Option (Option SignatureError)
  unfolding verify_envelope validate_profile
  verify_profile_signature p e key now skew = do
    issues ← validate_profile env p true
    verify_envelope issues p e key now skew

  -- The envelope before its signature is put in.
  unfoldable pub unsigned_envelope : KernelProfile → Seal → Bytes → Time → SignatureEnvelope
  unfolding key_id
  unsigned_envelope p s key at = record {
    api_version = api_version_v1alpha1;
    kind = signature_kind;
    algorithm = algorithm_name;
    key_id = key_id key;
    contract_digest = s.contract_digest;
    artifact_digest = p.spec.artifact.digest;
    signed_at = env.format_time at;
    signature = "";
  }

  unfoldable pub sign_message :
      Bytes → SignatureEnvelope → Option String → Option (SignatureError ⊎ SignatureEnvelope)
  sign_message private_key e none = some (inl unmarshalled)
  sign_message private_key e (some message) = do
    sig ← crypto.sign private_key message
    some (inr (record e { signature = crypto.encode sig }))

  unfoldable pub sign_sealed :
      KernelProfile → Seal → Bytes → Time → Option (SignatureError ⊎ SignatureEnvelope)
  unfolding unsigned_envelope signature_message sign_message ◌-ℤ◌
  sign_sealed p s private_key at =
      if ltb_ℤ at (time_or_zero (env.parse_time s.sealed_at) -ℤ minutes 5)
      then some (inl sign_before_seal)
      else if not (ltb_ℤ at (time_or_zero (env.parse_time p.metadata.expires_at)))
      then some (inl sign_expired)
      else do
        key ← crypto.public_key private_key
        sign_message private_key (unsigned_envelope p s key at)
            (signature_message (unsigned_envelope p s key at))

  unfoldable pub sign_valid :
      List Issue → Option KernelProfile → Bytes → Time → Option (SignatureError ⊎ SignatureEnvelope)
  unfolding sign_sealed
  sign_valid (i ∷ issues) p private_key at = some (inl (unsound_profile (i ∷ issues)))
  sign_valid [] none private_key at = none
  sign_valid [] (some p) private_key at = elim p.seal [
    | none ↦ none
    | some s ↦ sign_sealed p s private_key at
  ]

  -- SignProfile
  unfoldable pub sign_profile :
      Option KernelProfile → Bytes → Time → Option (SignatureError ⊎ SignatureEnvelope)
  unfolding sign_valid validate_profile
  sign_profile p private_key at = do
    issues ← validate_profile env p true
    sign_valid issues p private_key at
