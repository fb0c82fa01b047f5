-- ===== src/Launcher/Samples/Signatures.antt =====
-- pkg/contract/signature.go on the sample profile.
use claim2kernel.Base.{[], contains, lookup, none, refl, some, ◌↔◌, ◌∷◌, ◌≡◌}
use claim2kernel.Base.Int.{pos, ◌+ℤ◌, ◌-ℤ◌}
use claim2kernel.Contract.Checks.{digest_ok}
use claim2kernel.Contract.Digest.{contract_digest, digest_bytes}
use claim2kernel.Contract.Env.{minutes}
use claim2kernel.Contract.Sealed.{Lawful}
use claim2kernel.Contract.Signature.{
  key_id, sign_profile, validate_signature_envelope, verify_profile_signature,
}
use claim2kernel.Contract.Signature.Envelope.{IsWrapped, validate_signature_envelope-IsWrapped}
use claim2kernel.Contract.Signature.Pem.{KeyFiles, ed25519}
use claim2kernel.Contract.Signature.Signed.{IsKeyPair, sign_profile-verifies}
use claim2kernel.Contract.Signature.Transfer.{verify_profile_signature_binds}
use claim2kernel.Contract.Signature.Verified.{IsVerified, verify_profile_signature_iff}
use claim2kernel.Float64.{absf, dyadic, f0, f1, is_inf, is_nan, lef, ltf, maxf, ◌*f◌, ◌-f◌}
use claim2kernel.Launcher.Samples.{
  sample_crypto, sample_envelope, sample_key, sample_signature_bytes,
}
use claim2kernel.Planner.Samples.{sample_env, sample_profile, slow_profile}

sample_pair : IsKeyPair sample_crypto (1 ∷ []) sample_key
sample_pair = record {
  derived = refl;
  signs = λ m. (sample_signature_bytes, refl, refl, refl);
  reads_back = λ m sig e. e;
}

sample_time_laws : Lawful sample_env (pos 60)
unfolding lookup digest_bytes digest_ok
sample_time_laws = record { time_read_back = refl; digest_wellformed = λ s. refl }

validate_signature_envelope-IsWrapped_example :
    (validate_signature_envelope sample_env sample_crypto (some sample_envelope) ≡ [])
    ↔ IsWrapped sample_env sample_crypto sample_envelope
validate_signature_envelope-IsWrapped_example =
    validate_signature_envelope-IsWrapped sample_env sample_crypto sample_envelope

verify_profile_signature_iff_example :
    (verify_profile_signature sample_env sample_crypto
        (some sample_profile)
        (some sample_envelope)
        sample_key
        (pos 600)
        (minutes 5)
      ≡ some none)
    ↔ IsVerified sample_env sample_crypto sample_profile sample_envelope sample_key
        (pos 600)
        (minutes 5)
verify_profile_signature_iff_example =
    verify_profile_signature_iff sample_env sample_crypto sample_profile sample_envelope sample_key
      (pos 600) (minutes 5)

sample_verified :
    verify_profile_signature sample_env sample_crypto
      (some sample_profile)
      (some sample_envelope)
      sample_key
      (pos 600)
      (minutes 5)
    ≡ some none
unfolding verify_profile_signature is_nan dyadic is_inf ltf ◌*f◌ maxf f1 absf lookup contains lef f0
    ◌-f◌
sample_verified = refl

-- The other profile has the same digests under the sample's hash.
other_verified :
    verify_profile_signature sample_env sample_crypto
      (some slow_profile)
      (some sample_envelope)
      sample_key
      (pos 700)
      (minutes 4)
    ≡ some none
unfolding verify_profile_signature is_nan dyadic is_inf ltf ◌*f◌ maxf f1 absf lookup contains lef f0
    ◌-f◌
other_verified = refl

sign_profile-verifies_example :
    verify_profile_signature sample_env sample_crypto
      (some sample_profile)
      (some sample_envelope)
      sample_key
      (pos 600)
      (minutes 5)
    ≡ some none
unfolding sign_profile is_nan dyadic is_inf ltf ◌*f◌ maxf f1 absf lookup contains lef f0 ◌-f◌ ◌-ℤ◌
    ◌+ℤ◌
sign_profile-verifies_example =
    sign_profile-verifies sample_env sample_crypto sample_profile (1 ∷ []) sample_key (pos 60)
      (pos 600) sample_envelope sample_pair sample_time_laws refl refl refl

verify_profile_signature_binds_example :
    (contract_digest sample_env sample_profile ≡ contract_digest sample_env slow_profile)
    × (sample_profile.spec.artifact.digest ≡ slow_profile.spec.artifact.digest)
    × (key_id sample_env sample_crypto sample_key ≡ key_id sample_env sample_crypto sample_key)
verify_profile_signature_binds_example =
    verify_profile_signature_binds sample_env sample_crypto sample_profile slow_profile
      sample_envelope sample_key sample_key (pos 600) (pos 700) (minutes 5) (minutes 4)
      sample_verified other_verified

abbrev pub sample_files : KeyFiles
sample_files = record {
  marshal_private = λ k. some k;
  parse_private = λ b. some (ed25519 b);
  marshal_public = λ k. some k;
  parse_public = λ b. some (ed25519 b);
  pem_encode = λ label b. "pem";
  pem_decode = λ t. some (sample_key, "");
}
