-- ===== src/Launcher/Samples/Documents.antt =====
-- pkg/jsonsafe/jsonsafe.go, LoadCatalog and DecodeMetadataStream on sample documents.
use claim2kernel.Base.{
  Bool, List, Option, String, [], contains, if◌then◌else◌, inr, lookup, none, refl, some, true, ℕ,
  ◌==◌, ◌↔◌, ◌∷◌, ◌≡◌, ◌≤◌,
}
use claim2kernel.Contract.Loading.{load_catalog, max_contract_bytes}
use claim2kernel.Contract.Loading.Loaded.{IsCatalog, load_catalog_iff}
use claim2kernel.Contract.Types.{KernelCatalog}
use claim2kernel.Dra.{api_version, metadata_kind}
use claim2kernel.Dra.Stream.{
  IsFirst, decode_metadata_stream, decode_metadata_stream-IsFirst, max_metadata_bytes,
}
use claim2kernel.Float64.{absf, dyadic, f0, f1, is_inf, is_nan, lef, ltf, maxf, ◌*f◌, ◌-f◌}
use claim2kernel.Jsonsafe.{
  Token, close_array, close_object, decode_strict, duplicate_key, nested_too_deep, open_array,
  open_object, reject_duplicate_keys, scalar_token, text_token,
}
use claim2kernel.Jsonsafe.Strict.{IsDecoded, decode_strict_iff}
use claim2kernel.Launcher.Samples.{sample_crypto}
use claim2kernel.Planner.Samples.{sample_catalog, sample_env, sample_metadata, sample_profile}

-- {"a": [1, "b"], "c": {}}
abbrev sample_tokens : List Token
sample_tokens =
    open_object
    ∷ text_token "a"
    ∷ open_array
    ∷ scalar_token
    ∷ text_token "b"
    ∷ close_array
    ∷ text_token "c"
    ∷ open_object
    ∷ close_object
    ∷ close_object
    ∷ []

accepted_tokens : reject_duplicate_keys sample_tokens 2 ≡ none
unfolding reject_duplicate_keys
accepted_tokens = refl

too_deep_tokens : reject_duplicate_keys sample_tokens 1 ≡ some nested_too_deep
unfolding reject_duplicate_keys
too_deep_tokens = refl

double_key :
    reject_duplicate_keys
      (open_object
        ∷ text_token "a"
        ∷ scalar_token
        ∷ text_token "a"
        ∷ scalar_token
        ∷ close_object
        ∷ [])
      0
    ≡ some (duplicate_key "a")
unfolding reject_duplicate_keys
double_key = refl

abbrev ten_bytes : String → ℕ
ten_bytes s = 10

abbrev read_tokens : String → List Token
read_tokens s = sample_tokens

abbrev decoded_to {ℓ} : {A : Type ℓ} → A → String → Option (A × Bool)
decoded_to a s = some (a, true)

decode_strict_iff_example :
    (decode_strict ten_bytes read_tokens (decoded_to sample_profile) "{}" 20 ≡ inr sample_profile)
    ↔ IsDecoded ten_bytes read_tokens (decoded_to sample_profile) "{}" 20 sample_profile
decode_strict_iff_example =
    decode_strict_iff ten_bytes read_tokens (decoded_to sample_profile) "{}" 20 sample_profile

abbrev small_catalog : KernelCatalog
small_catalog = record sample_catalog { profiles = sample_profile ∷ [] }

loaded_catalog :
    load_catalog sample_env sample_crypto ten_bytes read_tokens (decoded_to small_catalog) "{}" true
    ≡ some (inr small_catalog)
unfolding load_catalog is_nan dyadic is_inf ltf ◌*f◌ maxf f1 absf lookup contains lef f0 ◌-f◌
loaded_catalog = refl

load_catalog_iff_example :
    (load_catalog sample_env sample_crypto ten_bytes read_tokens
        (decoded_to small_catalog)
        "{}"
        true
      ≡ some (inr small_catalog))
    ↔ (IsDecoded ten_bytes read_tokens
          (decoded_to small_catalog)
          "{}"
          max_contract_bytes
          small_catalog
        × IsCatalog sample_env sample_crypto ten_bytes read_tokens small_catalog true)
load_catalog_iff_example =
    load_catalog_iff sample_env sample_crypto ten_bytes read_tokens (decoded_to small_catalog) "{}"
      true small_catalog

abbrev sample_type_meta : String → Option (String × String)
sample_type_meta s =
    if s == "old"
    then some ("metadata.resource.k8s.io/v0", "X")
    else some (api_version, metadata_kind)

abbrev sample_objects : String → List (Option String)
sample_objects s = some "old" ∷ some "current" ∷ []

decode_metadata_stream-IsFirst_example :
    IsFirst ten_bytes read_tokens sample_type_meta
      (decoded_to sample_metadata)
      64
      (sample_objects "")
      sample_metadata
    × (1 ≤ 10)
    × (10 ≤ max_metadata_bytes)
unfolding decode_metadata_stream contains
decode_metadata_stream-IsFirst_example =
    decode_metadata_stream-IsFirst ten_bytes read_tokens sample_type_meta
      (decoded_to sample_metadata) sample_objects "" sample_metadata refl
