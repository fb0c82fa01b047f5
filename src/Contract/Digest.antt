-- ===== src/Contract/Digest.antt =====
-- pkg/contract/digest.go: the digests of a profile, its seal and the verification of the seal.
-- `encoding/json` over the typed profile and SHA-256 are parameters.
use Prim.Native.String
use claim2kernel.Base.{Option, String, if◌then◌else◌, none, not, some, ◌==◌, ◌||◌}
use claim2kernel.Base.Int.{ltb_ℤ, ◌-ℤ◌}
use claim2kernel.Base.Maybe.{◌>>=◌}
use claim2kernel.Contract.Checks.{digest_ok}
use claim2kernel.Contract.Env.{Env, ModelPayload, minutes}
use claim2kernel.Contract.Types.{KernelProfile, Seal}
use claim2kernel.Contract.Validate.Issues.{
  SealError, contract_mismatch, contract_unmarshalled, created_at_unreadable, digests_malformed,
  expires_at_unreadable, model_mismatch, model_unmarshalled, seal_missing, sealed_at_invalid,
  sealed_outside_validity,
}

module _ (env : Env) where
  unfoldable pub digest_bytes : String → String
  digest_bytes bytes = String.◌++◌ "sha256:" (env.sha256_hex bytes)

  -- ContractDigest: of the profile without its seal; nothing where the encoder refuses
  unfoldable pub contract_digest : KernelProfile → Option String
  unfolding digest_bytes
  contract_digest p = do
    bytes ← env.marshal_profile (record p { seal = none })
    some (digest_bytes bytes)

  unfoldable pub model_payload : KernelProfile → ModelPayload
  model_payload p = record {
    input_domain = p.spec.input_domain;
    numerical = p.spec.numerical;
    latency = p.spec.latency;
    interference = p.spec.interference;
    ood = p.spec.ood;
    versions = p.spec.versions;
  }

  unfoldable pub model_digest : KernelProfile → Option String
  unfolding digest_bytes model_payload
  model_digest p = do bytes ← env.marshal_model (model_payload p); some (digest_bytes bytes)

  -- The digest that a seal states against the one computed.
  unfoldable pub compare_digest : SealError → SealError → String → Option String → Option SealError
  compare_digest unmarshalled mismatch stated none = some unmarshalled
  compare_digest unmarshalled mismatch stated (some want) =
      if stated == want then none else some mismatch

  unfoldable pub or_else : Option SealError → Option SealError → Option SealError
  or_else none next_error = next_error
  or_else (some err) next_error = some err

  -- The seal's time in the validity interval, five minutes of skew allowed at its start.
  unfoldable pub seal_times : KernelProfile → Seal → Option SealError
  unfolding ◌-ℤ◌
  seal_times p s = elim (env.parse_time s.sealed_at) [
    | none ↦ some sealed_at_invalid
    | some sealed ↦ elim (env.parse_time p.metadata.created_at) [
      | none ↦ some created_at_unreadable
      | some created ↦ elim (env.parse_time p.metadata.expires_at) [
        | none ↦ some expires_at_unreadable
        | some expires ↦
            if ltb_ℤ sealed (created -ℤ minutes 5) || not (ltb_ℤ sealed expires)
            then some sealed_outside_validity
            else none
      ]
    ]
  ]

  unfoldable pub check_seal : KernelProfile → Seal → Option SealError
  unfolding digest_ok seal_times contract_digest model_digest compare_digest or_else
  check_seal p s =
      if not (digest_ok s.contract_digest) || not (digest_ok s.model_digest)
      then some digests_malformed
      else or_else (seal_times p s) (
          or_else
            (compare_digest contract_unmarshalled contract_mismatch s.contract_digest
              (contract_digest p))
            (compare_digest model_unmarshalled model_mismatch s.model_digest (model_digest p)))

  -- VerifySeal; nothing is no error
  unfoldable pub verify_seal : KernelProfile → Option SealError
  unfolding check_seal
  verify_seal p = elim p.seal [ none ↦ some seal_missing | some s ↦ check_seal p s ]
