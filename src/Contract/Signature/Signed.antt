-- ===== src/Contract/Signature/Signed.antt =====
-- What SignProfile of pkg/contract/signature.go signs, VerifyProfileSignature accepts.
use Prim.Native.String.{slice}
use text.Mathlib.TextLemmas.{cons-append, cons≢nil}
use claim2kernel.Base.{
  ==-true, Bool-cases, Bytes, List, Option, Option-cases, String, [], ap, false, inl, inr, length,
  none, refl, some, subst, sym, true, ◌==◌, ◌∙◌, ◌∷◌, ◌≡◌,
}
use claim2kernel.Base.Int.{ltb_ℤ, ◌+ℤ◌, ◌-ℤ◌}
use claim2kernel.Contract.Env.{Env, Time, minutes}
use claim2kernel.Contract.Sealed.{Lawful}
use claim2kernel.Contract.Sealing.{time_or_zero}
use claim2kernel.Contract.Signature.{
  Crypto, before_seal, key_id, sign_message, sign_profile, sign_sealed, sign_valid,
  signature_message, signature_payload, unsigned_envelope, verify_profile_signature,
}
use claim2kernel.Contract.Signature.Envelope.{IsWrapped}
use claim2kernel.Contract.Signature.Verified.{IsBound, time_of, verify_profile_signature_iff}
use claim2kernel.Contract.Types.{KernelProfile, Seal, SignatureEnvelope}
use claim2kernel.Contract.Validate.{validate_profile}
use claim2kernel.Contract.Validate.Issues.{Issue}
use claim2kernel.Contract.Validated.{artifact_digest-ok, sealed_digest-ok, validate_profile-seal}

module _ (crypto : Crypto) where
  -- What crypto/ed25519 and encoding/base64 document: the pair's signatures are 64 bytes that verify
  -- under the public half, and the encoding reads back.
  pub record IsKeyPair (private_key key : Bytes) : Type 0 where
    pub derived : crypto.public_key private_key ≡ some key
    pub signs :
        (m : String)
        → (sig : Bytes) × (crypto.sign private_key m ≡ some sig)
          × (length sig ≡ 64)
          × (crypto.verify key m sig ≡ some true)
    pub reads_back :
        (m : String) (sig : Bytes)
        → crypto.sign private_key m ≡ some sig
        → crypto.decode (crypto.encode sig) ≡ some sig

module _ (env : Env) (crypto : Crypto) (p : KernelProfile) (private_key key : Bytes) (at : Time)
    (pair : IsKeyPair crypto private_key key) where
  -- A signed envelope, and how it came about.
  record IsSigned (s : Seal) (e : SignatureEnvelope) : Type 0 where
    pub after_seal : ltb_ℤ at (time_of env crypto s.sealed_at -ℤ minutes 5) ≡ false
    pub unexpired : ltb_ℤ at (time_of env crypto p.metadata.expires_at) ≡ true
    pub message : String
    pub marshalled :
        signature_message env crypto (unsigned_envelope env crypto p s key at) ≡ some message
    pub bytes : Bytes
    pub produced : crypto.sign private_key message ≡ some bytes
    pub result :
        record (unsigned_envelope env crypto p s key at) { signature = crypto.encode bytes } ≡ e

  sign_sealed-IsSigned :
      (s : Seal) (e : SignatureEnvelope)
      → sign_sealed env crypto p s private_key at ≡ some (inr e)
      → IsSigned s e
  unfolding sign_sealed sign_message
  sign_sealed-IsSigned s e h =
      let early = ltb_ℤ at (time_of env crypto s.sealed_at -ℤ minutes 5) in
      let valid = ltb_ℤ at (time_of env crypto p.metadata.expires_at) in
      elim (Bool-cases early) [
        | inl bad ↦ absurd (cc (rw (bad, sign_sealed) at h))
        | inr a ↦ elim (Bool-cases valid) [
          | inr bad ↦ absurd (cc (rw (a, bad, sign_sealed) at h))
          | inl b ↦
              elim (Option-cases
                (signature_message env crypto (unsigned_envelope env crypto p s key at))) [
                  | inl gone ↦
                      absurd (cc (rw (a, b, pair.derived, gone, sign_sealed, sign_message) at h))
                  | inr (m, made) ↦
                      let (sig, signs, _, _) = pair.signs m in
                      record {
                        after_seal = a;
                        unexpired = b;
                        message = m;
                        marshalled = made;
                        bytes = sig;
                        produced = signs;
                        result =
                            cc (
                              rw (a, b, pair.derived, made, signs, sign_sealed, sign_message) at h);
                      }
                ]
        ]
      ]

  sign_valid-clear :
      (issues : List Issue) (e : SignatureEnvelope)
      → sign_valid env crypto issues (some p) private_key at ≡ some (inr e)
      → (issues ≡ []) × (sign_valid env crypto [] (some p) private_key at ≡ some (inr e))
  unfolding sign_valid
  sign_valid-clear [] e h = (refl, h)
  sign_valid-clear (i ∷ issues) e h = absurd (cc (h))

  sign_profile-IsSigned :
      (e : SignatureEnvelope)
      → sign_profile env crypto (some p) private_key at ≡ some (inr e)
      → (validate_profile env (some p) true ≡ some [])
        × (s : Seal) × (p.seal ≡ some s)
        × IsSigned s e
  unfolding sign_profile sign_valid
  sign_profile-IsSigned e h = elim (Option-cases (validate_profile env (some p) true)) [
    | inl gone ↦ absurd (cc (rw (gone, sign_profile) at h))
    | inr (issues, found) ↦
        let (clear, attempt) = sign_valid-clear issues e (rw (found, sign_profile) at h) in
        let valid = found ∙ ap some clear in
        let (s, attached) = validate_profile-seal env p valid in
        (valid, s, attached, sign_sealed-IsSigned s e (rw (attached, sign_valid) at attempt))
  ]

  before_seal-signed :
      (o : Option Time)
      → ltb_ℤ at (time_or_zero o -ℤ minutes 5) ≡ false
      → before_seal env crypto o at (minutes 5) ≡ false
  before_seal-signed none h = refl
  before_seal-signed (some t) h = h

  key_id-given : (key_id env crypto key == "") ≡ false
  unfolding key_id
  key_id-given = elim (Bool-cases (key_id env crypto key == "")) [
    | inr given ↦ given
    | inl empty ↦ absurd (
        cons≢nil (
          sym (cons-append "e" "d25519:" (slice (crypto.key_hash key) 0 32))
          ∙ ==-true (key_id env crypto key) "" empty))
  ]

  signed-IsWrapped :
      (s : Seal) (e : SignatureEnvelope)
      → Lawful env at
      → validate_profile env (some p) true ≡ some []
      → p.seal ≡ some s
      → IsSigned s e
      → IsWrapped env crypto e
  unfolding unsigned_envelope
  signed-IsWrapped s e laws valid attached k =
      let (sig, signs, sized, _) = pair.signs k.message in
      let same : sig ≡ k.bytes = cc (signs, k.produced) in
      subst (IsWrapped env crypto) k.result (record {
        version = refl;
        kind = refl;
        algorithm = refl;
        keyed = key_id-given;
        contract = sealed_digest-ok env p valid s attached;
        artifact = artifact_digest-ok env p valid;
        signing_time = at;
        readable = laws.time_read_back;
        bytes = k.bytes;
        decoded = pair.reads_back k.message k.bytes k.produced;
        sized = subst (λ b. length b ≡ 64) same sized;
      })

  signed-IsBound :
      (s : Seal) (e : SignatureEnvelope) (now : Time)
      → Lawful env at
      → IsSigned s e
      → ltb_ℤ at (time_of env crypto p.metadata.created_at -ℤ minutes 5) ≡ false
      → ltb_ℤ (now +ℤ minutes 5) at ≡ false
      → IsBound env crypto p s e key now (minutes 5)
  unfolding unsigned_envelope signature_message signature_payload
  signed-IsBound s e now laws k begun past =
      let (sig, signs, _, accepted) = pair.signs k.message in
      let same : sig ≡ k.bytes = cc (signs, k.produced) in
      let read : at ≡ time_of env crypto (env.format_time at) =
        ap time_or_zero (sym laws.time_read_back) in
      subst (λ x. IsBound env crypto p s x key now (minutes 5)) k.result
        (record {
          keyed = refl;
          contract = refl;
          artifact = refl;
          begun =
              subst (λ t. ltb_ℤ t (time_of env crypto p.metadata.created_at -ℤ minutes 5) ≡ false)
                read begun;
          unexpired =
              subst (λ t. ltb_ℤ t (time_of env crypto p.metadata.expires_at) ≡ true) read
                k.unexpired;
          past = subst (λ t. ltb_ℤ (now +ℤ minutes 5) t ≡ false) read past;
          sealed =
              subst (λ t. before_seal env crypto (env.parse_time s.sealed_at) t (minutes 5) ≡ false)
                read (before_seal-signed (env.parse_time s.sealed_at) k.after_seal);
          bytes = k.bytes;
          decoded = pair.reads_back k.message k.bytes k.produced;
          message = k.message;
          marshalled = k.marshalled;
          accepted = subst (λ b. crypto.verify key k.message b ≡ some true) same accepted;
        })

-- What SignProfile signs with a key pair at a time no more than five minutes before the profile's
-- creation, VerifyProfileSignature accepts under the public key with five minutes of skew, at every
-- time no more than five minutes before the signature. The written time reads back.
pub sign_profile-verifies :
    (env : Env) (crypto : Crypto) (p : KernelProfile) (private_key key : Bytes) (at now : Time)
    (e : SignatureEnvelope)
    → IsKeyPair crypto private_key key
    → Lawful env at
    → sign_profile env crypto (some p) private_key at ≡ some (inr e)
    → ltb_ℤ at (time_of env crypto p.metadata.created_at -ℤ minutes 5) ≡ false
    → ltb_ℤ (now +ℤ minutes 5) at ≡ false
    → verify_profile_signature env crypto (some p) (some e) key now (minutes 5) ≡ some none
sign_profile-verifies env crypto p private_key key at now e pair laws h begun past =
    let (valid, s, attached, k) = sign_profile-IsSigned env crypto p private_key key at pair e h in
    (verify_profile_signature_iff env crypto p e key now (minutes 5)).1 (record {
      validated = valid;
      wrapped = signed-IsWrapped env crypto p private_key key at pair s e laws valid attached k;
      seal = s;
      attached = attached;
      bound = signed-IsBound env crypto p private_key key at pair s e now laws k begun past;
    })
