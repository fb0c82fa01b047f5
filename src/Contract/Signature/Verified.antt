-- ===== src/Contract/Signature/Verified.antt =====
-- What VerifyProfileSignature of pkg/contract/signature.go accepts.
use mathlib.Core.Option
use claim2kernel.Base.{
  ==-true, Bool, Bytes, List, Option, Option-cases, String, [], ap, eq_iff, false, if◌then◌else◌,
  inl, inr, none, not-false, refl, some, true, ||-eq-false, ◌↔◌, ◌∙◌, ◌∷◌, ◌≡◌,
}
use claim2kernel.Base.Int.{ltb_ℤ, ℤ, ◌+ℤ◌, ◌-ℤ◌}
use claim2kernel.Contract.Env.{Env, Time}
use claim2kernel.Contract.Sealing.{time_or_zero}
use claim2kernel.Contract.Signature.{
  Crypto, SignatureError, before_seal, key_id, signature_message, unsound_envelope,
  validate_signature_envelope, verification_failed, verify_binding, verify_bytes, verify_envelope,
  verify_parts, verify_profile_signature,
}
use claim2kernel.Contract.Signature.Envelope.{IsWrapped, validate_signature_envelope-IsWrapped}
use claim2kernel.Contract.Types.{KernelProfile, Seal, SignatureEnvelope}
use claim2kernel.Contract.Validate.{validate_profile}
use claim2kernel.Contract.Validate.Issues.{Issue}

refusal_passed :
    (b : Bool) (err : SignatureError) (rest : Option (Option SignatureError))
    → (if b then some (some err) else rest) ≡ some none
    → (b ≡ false) × (rest ≡ some none)
refusal_passed true err rest h = absurd (cc (h))
refusal_passed false err rest h = (refl, h)

judgement_true :
    (o : Option Bool)
    → Option.map (λ ok. if ok then none else some verification_failed) o ≡ some none
    → o ≡ some true
judgement_true none h = absurd (cc (h))
judgement_true (some true) h = refl
judgement_true (some false) h = absurd (cc (h))

envelope_passed :
    (is : List Issue) (rest : Option (Option SignatureError))
    → (elim is [ [] ↦ rest | j ∷ js ↦ some (some (unsound_envelope (j ∷ js))) ]) ≡ some none
    → (is ≡ []) × (rest ≡ some none)
envelope_passed [] rest k = (refl, k)
envelope_passed (j ∷ js) rest k = absurd (cc (k))

module _ (env : Env) (crypto : Crypto) where
  abbrev pub time_of : String → Time
  time_of s = time_or_zero (env.parse_time s)

  -- The envelope's key, digests and time fit the profile and the key, and Ed25519 accepts its message.
  pub record IsBound (p : KernelProfile) (s : Seal) (e : SignatureEnvelope) (key : Bytes)
      (now : Time) (skew : ℤ) : Type 0 where
    pub keyed : e.key_id ≡ key_id env crypto key
    pub contract : e.contract_digest ≡ s.contract_digest
    pub artifact : e.artifact_digest ≡ p.spec.artifact.digest
    pub begun : ltb_ℤ (time_of e.signed_at) (time_of p.metadata.created_at -ℤ skew) ≡ false
    pub unexpired : ltb_ℤ (time_of e.signed_at) (time_of p.metadata.expires_at) ≡ true
    pub past : ltb_ℤ (now +ℤ skew) (time_of e.signed_at) ≡ false
    pub sealed :
        before_seal env crypto (env.parse_time s.sealed_at) (time_of e.signed_at) skew ≡ false
    pub bytes : Bytes
    pub decoded : crypto.decode e.signature ≡ some bytes
    pub message : String
    pub marshalled : signature_message env crypto e ≡ some message
    pub accepted : crypto.verify key message bytes ≡ some true

  pub record IsVerified (p : KernelProfile) (e : SignatureEnvelope) (key : Bytes) (now : Time)
      (skew : ℤ) : Type 0 where
    pub validated : validate_profile env (some p) true ≡ some []
    pub wrapped : IsWrapped env crypto e
    pub seal : Seal
    pub attached : p.seal ≡ some seal
    pub bound : IsBound p seal e key now skew

  pub record Accepted (key : Bytes) (sig : Option Bytes) (message : Option String) : Type 0 where
    pub bytes : Bytes
    pub decoded : sig ≡ some bytes
    pub text : String
    pub marshalled : message ≡ some text
    pub accepted : crypto.verify key text bytes ≡ some true

  verify_bytes-Accepted :
      (key : Bytes) (sig : Option Bytes) (message : Option String)
      → verify_bytes env crypto key sig message ≡ some none
      → Accepted key sig message
  unfolding verify_bytes
  verify_bytes-Accepted key none message h = absurd (cc (h))
  verify_bytes-Accepted key (some b) none h = absurd (cc (h))
  verify_bytes-Accepted key (some b) (some m) h = record {
    bytes = b;
    decoded = refl;
    text = m;
    marshalled = refl;
    accepted = judgement_true (crypto.verify key m b) h;
  }

  verify_binding-IsBound :
      (p : KernelProfile) (s : Seal) (e : SignatureEnvelope) (key : Bytes) (now : Time) (skew : ℤ)
      → verify_binding env crypto p s e key now skew ≡ some none
      → IsBound p s e key now skew
  unfolding verify_binding
  verify_binding-IsBound p s e key now skew h =
      let (a, h₁) = refusal_passed _ _ _ h in
      let (b, h₂) = refusal_passed _ _ _ h₁ in
      let (c, h₃) = refusal_passed _ _ _ h₂ in
      let (d, h₄) = refusal_passed _ _ _ h₃ in
      let (f, h₅) = refusal_passed _ _ _ h₄ in
      let g = verify_bytes-Accepted key _ _ h₅ in
      let (b₀, b₁) = ||-eq-false _ _ b in
      let (c₀, c₁) = ||-eq-false _ _ c in
      record {
        keyed = ==-true e.key_id _ (not-false _ a);
        contract = ==-true e.contract_digest _ (not-false _ b₀);
        artifact = ==-true e.artifact_digest _ (not-false _ b₁);
        begun = c₀;
        unexpired = not-false _ c₁;
        past = d;
        sealed = f;
        bytes = g.bytes;
        decoded = g.decoded;
        message = g.text;
        marshalled = g.marshalled;
        accepted = g.accepted;
      }

  pub verify_binding_accepts :
      (p : KernelProfile) (s : Seal) (e : SignatureEnvelope) (key : Bytes) (now : Time) (skew : ℤ)
      → IsBound p s e key now skew
      → verify_binding env crypto p s e key now skew ≡ some none
  unfolding verify_binding verify_bytes
  verify_binding_accepts p s e key now skew k =
      let a = (eq_iff e.key_id (key_id env crypto key)).1 k.keyed in
      let b = (eq_iff e.contract_digest s.contract_digest).1 k.contract in
      let c = (eq_iff e.artifact_digest p.spec.artifact.digest).1 k.artifact in
      rw (a, b, c, k.begun, k.unexpired, k.past, k.sealed, k.decoded, k.marshalled, k.accepted) refl

  verify_envelope-some :
      (issues : List Issue) (p : KernelProfile) (e : SignatureEnvelope) (key : Bytes) (now : Time)
      (skew : ℤ)
      → verify_envelope env crypto issues (some p) (some e) key now skew ≡ some none
      → (issues ≡ [])
        × (validate_signature_envelope env crypto (some e) ≡ [])
        × (verify_parts env crypto (some p) (some e) key now skew ≡ some none)
  unfolding verify_envelope
  verify_envelope-some (i ∷ issues) p e key now skew h = absurd (cc (h))
  verify_envelope-some [] p e key now skew h =
      let (whole, parts) = envelope_passed (validate_signature_envelope env crypto (some e)) _ h in
      (refl, whole, parts)

  -- VerifyProfileSignature gives no error exactly where the profile passes its validation with a seal,
  -- the envelope is well-formed, its key and both digests are those of the key and of the profile, its
  -- time is inside the profile's validity, after the seal and not in the future, each up to the skew,
  -- and Ed25519 accepts the signature of its message.
  pub verify_profile_signature_iff :
      (p : KernelProfile) (e : SignatureEnvelope) (key : Bytes) (now : Time) (skew : ℤ)
      → (verify_profile_signature env crypto (some p) (some e) key now skew ≡ some none)
        ↔ IsVerified p e key now skew
  unfolding verify_profile_signature verify_parts verify_envelope
  verify_profile_signature_iff p e key now skew = (
    λ h. elim (Option-cases (validate_profile env (some p) true)) [
      | inl panicked ↦ absurd (cc (rw (panicked, verify_profile_signature) at h))
      | inr (issues, found) ↦
          let (clear, whole, parts) =
            verify_envelope-some issues p e key now skew
              (rw (found, verify_profile_signature) at h) in
          elim (Option-cases p.seal) [
            | inl gone ↦ absurd (cc (rw (gone, verify_parts) at parts))
            | inr (s, attached) ↦ record {
              validated = found ∙ ap some clear;
              wrapped = (validate_signature_envelope-IsWrapped env crypto e).0 whole;
              seal = s;
              attached = attached;
              bound =
                  verify_binding-IsBound p s e key now skew (rw (attached, verify_parts) at parts);
            }
          ]
    ],
    λ k.
        let whole = (validate_signature_envelope-IsWrapped env crypto e).1 k.wrapped in
        rw (k.validated, whole, k.attached, verify_profile_signature, verify_envelope, verify_parts)
          (verify_binding_accepts p k.seal e key now skew k.bound),
  )
