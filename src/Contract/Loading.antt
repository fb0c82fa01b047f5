-- ===== src/Contract/Loading.antt =====
-- LoadProfile, LoadRequest, LoadCatalog and LoadSignature of pkg/contract/validate.go: strict decoding,
-- then validation. Nothing is returned where the validation panics.
pub mod Loaded
use mathlib.Core.Option
use claim2kernel.Base.{
  Bool, List, Option, String, [], contains, if◌then◌else◌, inl, inr, length, ltb, map, nat_eq, not,
  some, suc, ℕ, ◌*◌, ◌++◌, ◌==◌, ◌^◌, ◌∷◌, ◌⊎◌,
}
use claim2kernel.Base.Maybe.{◌>>=◌}
use claim2kernel.Base.Text.{codes}
use claim2kernel.Contract.Checks.{valid_name}
use claim2kernel.Contract.Env.{Env}
use claim2kernel.Contract.Signature.{Crypto, validate_signature_envelope}
use claim2kernel.Contract.Types.{
  KernelCatalog, KernelProfile, KernelRequest, SignatureEnvelope, api_version_v1alpha1,
  catalog_kind,
}
use claim2kernel.Contract.Validate.{validate_profile}
use claim2kernel.Contract.Validate.Issues.{Issue, bad_api_version, bad_kind, bad_name, flag}
use claim2kernel.Contract.Validate.Request.{validate_request}
use claim2kernel.Contract.Value.{kind}
use claim2kernel.Jsonsafe.{JsonError, Token, decode_strict}

pub data CatalogIssue : Type 0 where
  header_issue : Issue → CatalogIssue
  no_profiles too_many_profiles : CatalogIssue
  duplicate_name : ℕ → String → CatalogIssue
  invalid_entry : ℕ → List Issue → CatalogIssue

pub data LoadError : Type 0 where
  json_refused : JsonError → LoadError
  invalid : List Issue → LoadError
  invalid_catalog : List CatalogIssue → LoadError

abbrev pub max_contract_bytes : ℕ
max_contract_bytes = 4 * 2 ^ 20

abbrev pub catalog_flag : Bool → CatalogIssue → List CatalogIssue
catalog_flag b i = if b then i ∷ [] else []

abbrev pub catalog_flags : List Issue → List CatalogIssue
catalog_flags issues = map header_issue issues

module _ {A : Type 0} where
  -- The value, unless there are issues.
  unfoldable pub accept : A → List Issue → LoadError ⊎ A
  accept a [] = inr a
  accept a (i ∷ issues) = inl (invalid (i ∷ issues))

  unfoldable pub accept_catalog : A → List CatalogIssue → LoadError ⊎ A
  accept_catalog a [] = inr a
  accept_catalog a (i ∷ issues) = inl (invalid_catalog (i ∷ issues))

module _ (env : Env) (crypto : Crypto) (byte_count : String → ℕ)
    (tokens : String → List Token) where
  -- LoadProfile
  unfoldable pub load_profile :
      (String → Option (KernelProfile × Bool)) → String → Bool → Option (LoadError ⊎ KernelProfile)
  unfolding decode_strict validate_profile accept
  load_profile decode input require_seal =
      elim (decode_strict byte_count tokens decode input max_contract_bytes) [
        | inl err ↦ some (inl (json_refused err))
        | inr p ↦ Option.map (accept p) (validate_profile env (some p) require_seal)
      ]

  -- LoadRequest
  unfoldable pub load_request :
      (String → Option (KernelRequest × Bool)) → String → LoadError ⊎ KernelRequest
  unfolding decode_strict validate_request accept
  load_request decode input =
      elim (decode_strict byte_count tokens decode input max_contract_bytes) [
        | inl err ↦ inl (json_refused err)
        | inr r ↦ accept r (validate_request (some r))
      ]

  -- LoadSignature
  unfoldable pub load_signature :
      (String → Option (SignatureEnvelope × Bool)) → String → LoadError ⊎ SignatureEnvelope
  unfolding decode_strict validate_signature_envelope accept
  load_signature decode input = elim (decode_strict byte_count tokens decode input (2 ^ 20)) [
    | inl err ↦ inl (json_refused err)
    | inr s ↦ accept s (validate_signature_envelope env crypto (some s))
  ]

  abbrev pub entry_issue : ℕ → List Issue → List CatalogIssue
  entry_issue i [] = []
  entry_issue i (x ∷ xs) = invalid_entry i (x ∷ xs) ∷ []

  -- The loop over the profiles, from the index and the names seen so far.
  unfoldable pub entry_issues_from :
      Bool → ℕ → List String → List KernelProfile → Option (List CatalogIssue)
  unfolding validate_profile contains
  entry_issues_from require_seal i seen [] = some []
  entry_issues_from require_seal i seen (p ∷ ps) = do
    own ← validate_profile env (some p) require_seal
    rest ← entry_issues_from require_seal (suc i) (p.metadata.name ∷ seen) ps
    some (
        catalog_flag (contains seen p.metadata.name) (duplicate_name i p.metadata.name)
        ++ (entry_issue i own ++ rest))

  unfoldable pub catalog_issues : KernelCatalog → Bool → Option (List CatalogIssue)
  unfolding entry_issues_from valid_name
  catalog_issues c require_seal = do
    entries ← entry_issues_from require_seal 0 [] c.profiles
    some (
        catalog_flags (flag (not (c.api_version == api_version_v1alpha1)) bad_api_version)
        ++ (catalog_flags (flag (not (c.kind == catalog_kind)) bad_kind)
            ++ (catalog_flags (flag (not (valid_name (codes c.metadata.name))) bad_name)
                ++ (catalog_flag (nat_eq (length c.profiles) 0) no_profiles
                    ++ (catalog_flag (ltb 128 (length c.profiles)) too_many_profiles ++ entries)))))

  -- LoadCatalog
  unfoldable pub load_catalog :
      (String → Option (KernelCatalog × Bool)) → String → Bool → Option (LoadError ⊎ KernelCatalog)
  unfolding decode_strict catalog_issues accept_catalog
  load_catalog decode input require_seal =
      elim (decode_strict byte_count tokens decode input max_contract_bytes) [
        | inl err ↦ some (inl (json_refused err))
        | inr c ↦ Option.map (accept_catalog c) (catalog_issues c require_seal)
      ]
