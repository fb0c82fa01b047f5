-- ===== src/Contract/Signature/Envelope.antt =====
-- ValidateSignatureEnvelope of pkg/contract/signature.go accepts exactly the well-formed envelopes.
use claim2kernel.Base.{
  Bool, Bytes, Option, [], ap, arith, false, is_some, is_some-true, length, none, not, not-false,
  refl, some, true, ◌==◌, ◌||◌, ◌↔◌, ◌≡◌,
}
use claim2kernel.Contract.Checks.{digest_ok}
use claim2kernel.Contract.Demands.{Demands, Demands-append, Demands-flag, Demands-iff}
use claim2kernel.Contract.Env.{Env, Time}
use claim2kernel.Contract.Signature.{
  Crypto, algorithm_name, envelope_issues_of, is_signature, validate_signature_envelope,
}
use claim2kernel.Contract.Types.{SignatureEnvelope, api_version_v1alpha1, signature_kind}
use claim2kernel.Contract.Validate.Issues.{
  Issue, bad_algorithm, bad_api_version, bad_bound_digests, bad_kind, bad_signature_text,
  bad_signed_at, flag, key_id_required,
}
use claim2kernel.Contract.Wellformed.{Demands-or, Demands-same}

module _ (env : Env) (crypto : Crypto) where
  pub record IsWrapped (e : SignatureEnvelope) : Type 0 where
    pub version : e.api_version ≡ api_version_v1alpha1
    pub kind : e.kind ≡ signature_kind
    pub algorithm : e.algorithm ≡ algorithm_name
    pub keyed : (e.key_id == "") ≡ false
    pub contract : digest_ok e.contract_digest ≡ true
    pub artifact : digest_ok e.artifact_digest ≡ true
    pub signing_time : Time
    pub readable : env.parse_time e.signed_at ≡ some signing_time
    pub bytes : Bytes
    pub decoded : crypto.decode e.signature ≡ some bytes
    pub sized : length bytes ≡ 64

  some_of_read : (o : Option Time) → not (is_some o) ≡ false → (t : Time) × (o ≡ some t)
  some_of_read o h = is_some-true o (not-false (is_some o) h)

  bytes_of_signature :
      (o : Option Bytes)
      → not (is_signature env crypto o) ≡ false
      → (b : Bytes) × (o ≡ some b) × (length b ≡ 64)
  bytes_of_signature none h = absurd (cc (h))
  bytes_of_signature (some b) h = (b, refl, ground arith)

  signature_of_bytes :
      (o : Option Bytes) (b : Bytes)
      → o ≡ some b
      → length b ≡ 64
      → not (is_signature env crypto o) ≡ false
  signature_of_bytes o b e h = rw (e, h) refl

  Demands-digests :
      (a b : Bool) (i : Issue) → Demands ((a ≡ true) × (b ≡ true)) (flag (not a || not b) i)
  Demands-digests a b i =
      Demands-iff (λ c. (not-false a c.0, not-false b c.1)) (λ c. (ap not c.0, ap not c.1))
        (Demands-or (not a) (not b) i)

  -- ValidateSignatureEnvelope finds no issue exactly in the well-formed envelopes: both digests of the
  -- form `sha256:` and 64 digits, a readable time, and a signature that decodes to 64 bytes.
  pub validate_signature_envelope-IsWrapped :
      (e : SignatureEnvelope) → (validate_signature_envelope env crypto (some e) ≡ []) ↔ IsWrapped e
  unfolding validate_signature_envelope envelope_issues_of
  validate_signature_envelope-IsWrapped e =
      let d = Demands-append (Demands-same e.api_version api_version_v1alpha1 bad_api_version) (
        Demands-append (Demands-same e.kind signature_kind bad_kind) (
          Demands-append (Demands-same e.algorithm algorithm_name bad_algorithm) (
            Demands-append (Demands-flag (e.key_id == "") key_id_required) (
              Demands-append
                (Demands-digests (digest_ok e.contract_digest) (digest_ok e.artifact_digest)
                  bad_bound_digests)
                (Demands-append
                  (Demands-flag (not (is_some (env.parse_time e.signed_at))) bad_signed_at)
                  (Demands-flag (not (is_signature env crypto (crypto.decode e.signature)))
                    bad_signature_text)))))) in
      (
        λ h.
            let (a, (b, (c, (k, ((f, g), (i, j)))))) = d.accepts h in
            let (t, read) = some_of_read (env.parse_time e.signed_at) i in
            let (sig, found, sized) = bytes_of_signature (crypto.decode e.signature) j in
            record {
              version = a;
              kind = b;
              algorithm = c;
              keyed = k;
              contract = f;
              artifact = g;
              signing_time = t;
              readable = read;
              bytes = sig;
              decoded = found;
              sized = sized;
            },
        λ w. d.clears (
          w.version,
          (
            w.kind,
            (
              w.algorithm,
              (
                w.keyed,
                (
                  (w.contract, w.artifact),
                  (
                    rw (w.readable) refl,
                    signature_of_bytes (crypto.decode e.signature) w.bytes w.decoded w.sized,
                  ),
                ),
              ),
            ),
          ),
        ),
      )
