-- ===== src/K8s/Rendered.antt =====
-- What Render of pkg/k8smanifest/render.go renders.
use claim2kernel.Base.{
  Bytes, List, Option, Option-cases, [], ap, inl, inr, none, refl, some, subst, true, ℕ, ◌==◌, ◌∙◌,
  ◌∷◌, ◌≡◌, ◌⊎◌,
}
use claim2kernel.Base.Maybe.{◌>>=◌}
use claim2kernel.Contract.Env.{Env, Time, minutes}
use claim2kernel.Contract.Signature.{
  Crypto, SignatureError, validate_signature_envelope, verify_profile_signature,
}
use claim2kernel.Contract.Signature.Pem.{KeyError, KeyFiles, parse_public_key_pem}
use claim2kernel.Contract.Signature.Verified.{IsVerified, verify_profile_signature_iff}
use claim2kernel.Contract.Types.{KernelProfile, KernelRequest, Seal, SignatureEnvelope}
use claim2kernel.Contract.Validate.{validate_profile}
use claim2kernel.Contract.Validate.Issues.{Issue}
use claim2kernel.Contract.Validate.Request.{validate_request}
use claim2kernel.K8s.{
  Manifest, RenderOptions, Rendering, check_options, inputs_missing, render, render_inputs,
  render_keyed, render_validated, render_verified, with_defaults,
}
use claim2kernel.K8s.Built.{IsBuilt, check_options-IsBuilt, guard_passed}
use claim2kernel.Planner.Evaluate.{or_given}

module _ (env : Env) (crypto : Crypto) (files : KeyFiles) (clock : Time)
    (payload_bytes : KernelProfile → KernelRequest → SignatureEnvelope → ℕ) where
  -- What stands behind a manifest.
  pub record IsRendered (o : RenderOptions) (m : Manifest) : Type 0 where
    pub profile : KernelProfile
    pub request : KernelRequest
    pub envelope : SignatureEnvelope
    pub key : Bytes
    pub profile_given : o.profile ≡ some profile
    pub request_given : o.request ≡ some request
    pub signature_given : o.signature ≡ some envelope
    pub request_valid : validate_request (some request) ≡ []
    pub parsed : parse_public_key_pem files o.public_key_pem ≡ inr key
    pub verified : IsVerified env crypto profile envelope key (or_given o.now clock) (minutes 5)
    pub built : IsBuilt (with_defaults o) profile m

  record IsAuthentic (o : RenderOptions) (p : KernelProfile) (e : SignatureEnvelope) (m : Manifest)
      : Type 0 where
    pub key : Bytes
    pub parsed : parse_public_key_pem files o.public_key_pem ≡ inr key
    pub verified : IsVerified env crypto p e key (or_given o.now clock) (minutes 5)
    pub built : IsBuilt (with_defaults o) p m

  render_verified-IsBuilt :
      (o : RenderOptions) (p : KernelProfile) (r : KernelRequest) (e : SignatureEnvelope)
      (verdict : Option SignatureError) (m : Manifest)
      → render_verified env crypto files clock payload_bytes o p r e verdict ≡ some (inr m)
      → (verdict ≡ none) × IsBuilt (with_defaults o) p m
  unfolding render_verified
  render_verified-IsBuilt o p r e (some err) m h = absurd (cc (h))
  render_verified-IsBuilt o p r e none m h = elim (Option-cases p.seal) [
    | inl bad ↦ absurd (cc (rw (bad, render_verified) at h))
    | inr (s, attached) ↦ (
      refl,
      check_options-IsBuilt (with_defaults o) p s (payload_bytes p r e) m (
          seal_found p.seal s (λ t. check_options (with_defaults o) p t (payload_bytes p r e)) m
            attached h),
    )
  ]
    where
      seal_found :
          (found : Option Seal) (s : Seal) (next : Seal → Rendering) (m : Manifest)
          → found ≡ some s
          → (found >>= next) ≡ some (inr m)
          → next s ≡ some (inr m)
      seal_found none s next m e h = absurd (cc (e))
      seal_found (some t) s next m e h =
          let same : t ≡ s = cc (e) in subst (λ x. next x ≡ some (inr m)) same h

  render_keyed-IsAuthentic :
      (o : RenderOptions) (p : KernelProfile) (r : KernelRequest) (e : SignatureEnvelope)
      (parsed : KeyError ⊎ Bytes) (m : Manifest)
      → parse_public_key_pem files o.public_key_pem ≡ parsed
      → render_keyed env crypto files clock payload_bytes o p r e parsed ≡ some (inr m)
      → IsAuthentic o p e m
  unfolding render_keyed
  render_keyed-IsAuthentic o p r e (inl err) m given h = absurd (cc (h))
  render_keyed-IsAuthentic o p r e (inr key) m given h =
      elim (Option-cases (
        verify_profile_signature env crypto (some p) (some e) key (or_given o.now clock)
          (minutes 5))) [
            | inl bad ↦ absurd (cc (rw (bad, render_keyed) at h))
            | inr (verdict, found) ↦
                let (accepted, built) =
                  render_verified-IsBuilt o p r e verdict m (rw (found, render_keyed) at h) in
                record {
                  key = key;
                  parsed = given;
                  verified =
                      (verify_profile_signature_iff env crypto p e key (or_given o.now clock)
                          (minutes 5)).0
                        (found ∙ ap some accepted);
                  built = built;
                }
          ]

  issues_cases : (is : List Issue) → (is ≡ []) ⊎ ((i : Issue) × (js : List Issue) × (is ≡ i ∷ js))
  issues_cases [] = inl refl
  issues_cases (i ∷ js) = inr (i, js, refl)

  render_validated-IsAuthentic :
      (o : RenderOptions) (p : KernelProfile) (r : KernelRequest) (e : SignatureEnvelope)
      (issues : List Issue) (m : Manifest)
      → render_validated env crypto files clock payload_bytes o p r e issues ≡ some (inr m)
      → (validate_request (some r) ≡ []) × IsAuthentic o p e m
  unfolding render_validated
  render_validated-IsAuthentic o p r e (i ∷ issues) m h = absurd (cc (h))
  render_validated-IsAuthentic o p r e [] m h = elim (issues_cases (validate_request (some r))) [
    | inr (i, js, bad) ↦ absurd (cc (rw (bad, render_validated) at h))
    | inl valid ↦ elim (issues_cases (validate_signature_envelope env crypto (some e))) [
      | inr (i, js, bad) ↦ absurd (cc (rw (valid, bad, render_validated) at h))
      | inl whole ↦ (
        valid,
        render_keyed-IsAuthentic o p r e _ m refl (rw (valid, whole, render_validated) at h),
      )
    ]
  ]

  render_inputs-IsRendered :
      (o : RenderOptions) (p : Option KernelProfile) (r : Option KernelRequest)
      (e : Option SignatureEnvelope) (m : Manifest)
      → o.profile ≡ p
      → o.request ≡ r
      → o.signature ≡ e
      → render_inputs env crypto files clock payload_bytes o p r e ≡ some (inr m)
      → IsRendered o m
  unfolding render_inputs
  render_inputs-IsRendered o none r e m a b c h = absurd (cc (h))
  render_inputs-IsRendered o (some p) none e m a b c h = absurd (cc (h))
  render_inputs-IsRendered o (some p) (some r) none m a b c h = absurd (cc (h))
  render_inputs-IsRendered o (some p) (some r) (some e) m a b c h =
      let (_, h₁) = guard_passed (o.public_key_pem == "") inputs_missing _ m h in
      elim (Option-cases (validate_profile env (some p) true)) [
        | inl bad ↦ absurd (cc (rw (bad) at h₁))
        | inr (issues, found) ↦
            let (valid, k) = render_validated-IsAuthentic o p r e issues m (rw (found) at h₁) in
            record {
              profile = p;
              request = r;
              envelope = e;
              key = k.key;
              profile_given = a;
              request_given = b;
              signature_given = c;
              request_valid = valid;
              parsed = k.parsed;
              verified = k.verified;
              built = k.built;
            }
      ]

  -- Render gives a manifest only for a valid request and a profile whose signature verifies under the
  -- given key; its image is the container digest bound in the profile, its namespace and the names of
  -- its job, its queue and its request are DNS labels, the two names it makes have at most 63
  -- characters, and the device class and count are the profile's.
  pub render-IsRendered :
      (o : RenderOptions) (m : Manifest)
      → render env crypto files clock payload_bytes o ≡ some (inr m)
      → IsRendered o m
  unfolding render
  render-IsRendered o m h =
      render_inputs-IsRendered o o.profile o.request o.signature m refl refl refl h
