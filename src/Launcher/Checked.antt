-- ===== src/Launcher/Checked.antt =====
-- What the signature's part of Run in pkg/launcher/launcher.go has checked.
use claim2kernel.Artifact.{Os}
use claim2kernel.Base.{
  Bool, Bool-cases, Option, Option-cases, String, false, inl, inr, none, refl, some, true, ◌≡◌,
}
use claim2kernel.Base.Maybe.{◌>>=◌}
use claim2kernel.Contract.Env.{Env, Time, minutes}
use claim2kernel.Contract.Signature.{Crypto, SignatureError, verify_profile_signature}
use claim2kernel.Contract.Signature.Verified.{IsVerified, verify_profile_signature_iff}
use claim2kernel.Contract.Types.{KernelProfile, KernelRequest, SignatureEnvelope}
use claim2kernel.Launcher.{Command, Options, Process, check_signature, has_key, signature_invalid}
use claim2kernel.Planner.Evaluate.{or_given}

module _ (env : Env) (crypto : Crypto) (os : Os) (clock : Time)
    (marshal_request : KernelRequest → Option String) (run_process : Command → Process) where
  -- No signature was asked for or given, or the one given was verified at the launch's time.
  pub data IsChecked (o : Options) (p : KernelProfile) (valid : Bool) : Type 0 where
    unsigned :
        o.require_signature ≡ false → o.signature ≡ none → valid ≡ false → IsChecked o p valid
    verified :
        (e : SignatureEnvelope)
        → o.signature ≡ some e
        → IsVerified env crypto p e o.signature_public_key (or_given o.now clock) (minutes 5)
        → valid ≡ true
        → IsChecked o p valid

  verified_verdict :
      (o : Options) (p : KernelProfile) (valid : Bool) (e : SignatureEnvelope)
      → o.signature ≡ some e
      → (verdict : Option (Option SignatureError))
      → verify_profile_signature env crypto
          (some p)
          (some e)
          o.signature_public_key
          (or_given o.now clock)
          (minutes 5)
        ≡ verdict
      → (do
        v ← verdict
        elim v [ none ↦ some (inr true) | some err ↦ some (inl (signature_invalid err)) ])
        ≡ some (inr valid)
      → IsChecked o p valid
  verified_verdict o p valid e attached none found h = absurd (cc (h))
  verified_verdict o p valid e attached (some (some err)) found h = absurd (cc (h))
  verified_verdict o p valid e attached (some none) found h =
      verified e attached
        ((verify_profile_signature_iff env crypto p e o.signature_public_key (or_given o.now clock)
            (minutes 5)).0
          found)
        (cc (h))

  pub check_signature-IsChecked :
      (o : Options) (p : KernelProfile) (valid : Bool)
      → o.profile ≡ some p
      → check_signature env crypto os clock marshal_request run_process o (or_given o.now clock)
        ≡ some (inr valid)
      → IsChecked o p valid
  unfolding check_signature
  check_signature-IsChecked o p valid given h = elim (Option-cases o.signature) [
    | inl nothing ↦ elim (Bool-cases (has_key o.signature_public_key)) [
      | inl keyed ↦ elim (Bool-cases o.require_signature) [
        | inl required ↦ absurd (cc (rw (nothing, keyed, required, check_signature) at h))
        | inr free ↦ absurd (cc (rw (nothing, keyed, free, check_signature) at h))
      ]
      | inr keyless ↦ elim (Bool-cases o.require_signature) [
        | inl required ↦ absurd (cc (rw (nothing, keyless, required, check_signature) at h))
        | inr free ↦ unsigned free nothing (cc (rw (nothing, keyless, free, check_signature) at h))
      ]
    ]
    | inr (e, attached) ↦ elim (Bool-cases (has_key o.signature_public_key)) [
      | inr keyless ↦ elim (Bool-cases o.require_signature) [
        | inl required ↦ absurd (cc (rw (attached, keyless, required, check_signature) at h))
        | inr free ↦ absurd (cc (rw (attached, keyless, free, check_signature) at h))
      ]
      | inl keyed ↦ elim (Bool-cases o.require_signature) [
        | inl required ↦
            verified_verdict o p valid e attached _ refl
              (rw (attached, keyed, required, given, check_signature) at h)
        | inr free ↦
            verified_verdict o p valid e attached _ refl
              (rw (attached, keyed, free, given, check_signature) at h)
      ]
    ]
  ]
