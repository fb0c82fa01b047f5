-- ===== src/Dra/Stream.antt =====
-- DecodeMetadataStream and ReadMetadata of pkg/dra/metadata.go: the first object of a known version in a stream of
-- JSON values. `Decoder.Decode` into a raw message, the type meta and the decoding of an object are
-- parameters.
use claim2kernel.Base.{
  ==-true, All, Bool, Bool-cases, List, Option, Option-cases, String, [], ap, arith, false,
  if◌then◌else◌, inl, inr, leb, length, length-append, ltb, nat_eq, none, not, refl, result_cases,
  some, subst, ℕ, ◌*◌, ◌++◌, ◌-◌, ◌==◌, ◌^◌, ◌||◌, ◌∙◌, ◌∷◌, ◌≡◌, ◌≤◌, ◌⊎◌,
}
use claim2kernel.Contract.Value.{kind}
use claim2kernel.Dra.{DeviceMetadata, MetadataError, api_version, metadata_kind, validate}
use claim2kernel.Jsonsafe.{JsonError, Token, decode_strict, reject_duplicate_keys}
use claim2kernel.Jsonsafe.Strict.{IsDecoded, decode_strict_iff}

pub data StreamError : Type 0 where
  no_objects stream_too_long unreadable_object : StreamError
  bad_json : JsonError → StreamError
  no_type_meta type_meta_empty too_many_unknown wrong_kind : StreamError
  bad_object : JsonError → StreamError
  bad_metadata : MetadataError → StreamError
  no_compatible : List String → StreamError
  not_opened read_failed : StreamError

abbrev pub max_metadata_bytes : ℕ
max_metadata_bytes = 4 * 2 ^ 20

abbrev pub max_unknown_versions : ℕ
max_unknown_versions = 64

-- The end of the stream: the versions that were passed over.
unfoldable pub stream_ended : List String → StreamError
stream_ended [] = no_objects
stream_ended (v ∷ vs) = no_compatible (v ∷ vs)

module _ (byte_count : String → ℕ) (tokens : String → List Token)
    (type_meta : String → Option (String × String))
    (decode : String → Option (DeviceMetadata × Bool)) where
  -- An object of the known version.
  unfoldable pub decode_known : String → String → StreamError ⊎ DeviceMetadata
  unfolding decode_strict claim2kernel.Dra.validate
  decode_known kind raw =
      if not (kind == metadata_kind)
      then inl wrong_kind
      else elim (decode_strict byte_count tokens decode raw max_metadata_bytes) [
        | inl err ↦ inl (bad_object err)
        | inr m ↦ elim (claim2kernel.Dra.validate (some m)) [
          | some err ↦ inl (bad_metadata err)
          | none ↦ inr m
        ]
      ]

  -- The loop over the raw objects, `none` being an error of the decoder, with the unknown versions.
  unfoldable pub scan : List String → List (Option String) → StreamError ⊎ DeviceMetadata
  unfolding decode_known stream_ended reject_duplicate_keys
  scan unknown [] = inl (stream_ended unknown)
  scan unknown (none ∷ rest) = inl unreadable_object
  scan unknown (some raw ∷ rest) = elim (reject_duplicate_keys (tokens raw) 64) [
    | some err ↦ inl (bad_json err)
    | none ↦ elim (type_meta raw) [
      | none ↦ inl no_type_meta
      | some (version, kind) ↦
          let later = scan (unknown ++ version ∷ []) rest in
          if version == "" || kind == ""
          then inl type_meta_empty
          else if version == api_version
          then decode_known kind raw
          else if leb max_unknown_versions (length unknown)
          then inl too_many_unknown
          else later
    ]
  ]

  -- DecodeMetadataStream
  unfoldable pub decode_metadata_stream :
      (String → List (Option String)) → String → StreamError ⊎ DeviceMetadata
  unfolding scan
  decode_metadata_stream objects input =
      if nat_eq (byte_count input) 0
      then inl no_objects
      else if ltb max_metadata_bytes (byte_count input)
      then inl stream_too_long
      else scan [] (objects input)

  -- An object of a version that is passed over.
  pub record IsForeign (raw : Option String) : Type 0 where
    pub text : String
    pub read : raw ≡ some text
    pub version : String
    pub kind : String
    pub described : type_meta text ≡ some (version, kind)
    pub other : (version == api_version) ≡ false

  -- The object that was taken.
  pub record IsTaken (raw : String) (m : DeviceMetadata) : Type 0 where
    pub described : type_meta raw ≡ some (api_version, metadata_kind)
    pub decoded : IsDecoded byte_count tokens decode raw max_metadata_bytes m
    pub valid : claim2kernel.Dra.validate (some m) ≡ none

  -- The first object of the known version, behind fewer foreign ones than are allowed.
  pub record IsFirst (allowed : ℕ) (raws : List (Option String)) (m : DeviceMetadata) : Type 0 where
    pub before : List (Option String)
    pub raw : String
    pub after : List (Option String)
    pub split : raws ≡ before ++ some raw ∷ after
    pub foreign : All IsForeign before
    pub few : length before ≤ allowed
    pub taken : IsTaken raw m

  decode_known-IsTaken :
      (kind raw : String) (m : DeviceMetadata)
      → type_meta raw ≡ some (api_version, kind)
      → decode_known kind raw ≡ inr m
      → IsTaken raw m
  unfolding decode_known
  decode_known-IsTaken kind raw m described h = elim (Bool-cases (kind == metadata_kind)) [
    | inr bad ↦ absurd (cc (rw (bad, decode_known) at h))
    | inl right ↦
        elim (result_cases (decode_strict byte_count tokens decode raw max_metadata_bytes)) [
          | inl (err, bad) ↦ absurd (cc (rw (right, bad, decode_known) at h))
          | inr (n, found) ↦ elim (Option-cases (claim2kernel.Dra.validate (some n))) [
            | inr (err, bad) ↦ absurd (cc (rw (right, found, bad, decode_known) at h))
            | inl valid ↦
                let same : n ≡ m = cc (rw (right, found, valid, decode_known) at h) in
                record {
                  described =
                      described
                      ∙ ap (λ k. some (api_version, k)) (==-true kind metadata_kind right);
                  decoded =
                      (decode_strict_iff byte_count tokens decode raw max_metadata_bytes m).0
                        (found ∙ ap inr same);
                  valid = subst (λ x. claim2kernel.Dra.validate (some x) ≡ none) same valid;
                }
          ]
        ]
  ]

  scan-IsFirst :
      (unknown : List String) (raws : List (Option String)) (m : DeviceMetadata)
      → length unknown ≤ max_unknown_versions
      → scan unknown raws ≡ inr m
      → IsFirst (max_unknown_versions - length unknown) raws m
  unfolding scan
  scan-IsFirst unknown [] m room h = absurd (cc (h))
  scan-IsFirst unknown (none ∷ rest) m room h = absurd (cc (h))
  scan-IsFirst unknown (some raw ∷ rest) m room h =
      elim (Option-cases (reject_duplicate_keys (tokens raw) 64)) [
        | inr (err, bad) ↦ absurd (cc (rw (bad, scan) at h))
        | inl clear ↦ elim (Option-cases (type_meta raw)) [
          | inl bad ↦ absurd (cc (rw (clear, bad, scan) at h))
          | inr ((version, kind), described) ↦ elim (Bool-cases (version == "" || kind == "")) [
            | inl bad ↦ absurd (cc (rw (clear, described, bad, scan) at h))
            | inr given ↦ elim (Bool-cases (version == api_version)) [
              | inl known ↦
                  let named : type_meta raw ≡ some (api_version, kind) =
                    described ∙ ap (λ v. some (v, kind)) (==-true version api_version known) in
                  record {
                    before = [];
                    raw = raw;
                    after = rest;
                    split = refl;
                    foreign = tt;
                    few = omega arith;
                    taken =
                        decode_known-IsTaken kind raw m named
                          (rw (clear, described, given, known, scan) at h);
                  }
              | inr other ↦ elim (Bool-cases (leb max_unknown_versions (length unknown))) [
                | inl full ↦ absurd (cc (rw (clear, described, given, other, full, scan) at h))
                | inr space ↦
                    let longer = length-append unknown (version ∷ []) in
                    let k =
                      scan-IsFirst (unknown ++ version ∷ []) rest m (ground (arith, space, longer))
                        (rw (clear, described, given, other, space, scan) at h) in
                    record {
                      before = some raw ∷ k.before;
                      raw = k.raw;
                      after = k.after;
                      split = ap (λ r. some raw ∷ r) k.split;
                      foreign = (
                        record {
                          text = raw;
                          read = refl;
                          version = version;
                          kind = kind;
                          described = described;
                          other = other;
                        },
                        k.foreign,
                      );
                      few = ground (arith, space, longer, k.few);
                      taken = k.taken;
                    }
              ]
            ]
          ]
        ]
      ]

  -- What DecodeMetadataStream returns is the first object of the known version in the stream, strictly
  -- decoded and valid, behind at most 64 objects of other versions; the stream is not empty and within
  -- its limit.
  pub decode_metadata_stream-IsFirst :
      (objects : String → List (Option String)) (input : String) (m : DeviceMetadata)
      → decode_metadata_stream objects input ≡ inr m
      → IsFirst 64 (objects input) m
        × (1 ≤ byte_count input)
        × (byte_count input ≤ max_metadata_bytes)
  unfolding decode_metadata_stream
  decode_metadata_stream-IsFirst objects input m h =
      elim (Bool-cases (nat_eq (byte_count input) 0)) [
        | inl bad ↦ absurd (cc (rw (bad, decode_metadata_stream) at h))
        | inr some_bytes ↦ elim (Bool-cases (ltb max_metadata_bytes (byte_count input))) [
          | inl bad ↦ absurd (cc (rw (some_bytes, bad, decode_metadata_stream) at h))
          | inr short ↦ (
            scan-IsFirst [] (objects input) m (omega arith)
                (rw (some_bytes, short, decode_metadata_stream) at h),
            ground (arith, some_bytes),
            ground (arith, short),
          )
        ]
      ]
