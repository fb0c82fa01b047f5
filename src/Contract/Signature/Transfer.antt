-- ===== src/Contract/Signature/Transfer.antt =====
-- What two profiles under one accepted envelope of pkg/contract/signature.go have in common.
use claim2kernel.Base.{Bytes, ap, none, some, sym, ◌∙◌, ◌≡◌}
use claim2kernel.Base.Int.{ℤ}
use claim2kernel.Contract.Digest.{contract_digest}
use claim2kernel.Contract.Env.{Env, Time}
use claim2kernel.Contract.Signature.{Crypto, key_id, verify_profile_signature}
use claim2kernel.Contract.Signature.Verified.{verify_profile_signature_iff}
use claim2kernel.Contract.Types.{KernelProfile, SignatureEnvelope}
use claim2kernel.Contract.Validated.{contract_digest-sealed}

-- Two profiles under one accepted envelope, whatever the keys, the times and the skews, have contents
-- with the same digest, state the same artifact digest, and the keys have the same identifier.
pub verify_profile_signature_binds :
    (env : Env) (crypto : Crypto) (p q : KernelProfile) (e : SignatureEnvelope) (key₁ key₂ : Bytes)
    (now₁ now₂ : Time) (skew₁ skew₂ : ℤ)
    → verify_profile_signature env crypto (some p) (some e) key₁ now₁ skew₁ ≡ some none
    → verify_profile_signature env crypto (some q) (some e) key₂ now₂ skew₂ ≡ some none
    → (contract_digest env p ≡ contract_digest env q)
      × (p.spec.artifact.digest ≡ q.spec.artifact.digest)
      × (key_id env crypto key₁ ≡ key_id env crypto key₂)
verify_profile_signature_binds env crypto p q e key₁ key₂ now₁ now₂ skew₁ skew₂ h j =
    let a = (verify_profile_signature_iff env crypto p e key₁ now₁ skew₁).0 h in
    let b = (verify_profile_signature_iff env crypto q e key₂ now₂ skew₂).0 j in
    let c = contract_digest-sealed env p a.validated a.seal a.attached in
    let d = contract_digest-sealed env q b.validated b.seal b.attached in
    (
      c ∙ ap some (sym a.bound.contract ∙ b.bound.contract) ∙ sym d,
      sym a.bound.artifact ∙ b.bound.artifact,
      sym a.bound.keyed ∙ b.bound.keyed,
    )
