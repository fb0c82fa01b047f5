-- ===== src/Contract/Loading/Loaded.antt =====
-- What LoadCatalog of pkg/contract/validate.go loads.
use claim2kernel.Base.{
  ==-true, Bool, List, Option, Option-cases, String, [], ap, arith, contains, eq_iff, false, inl,
  inr, length, ltb, nat_eq, not, not-false, refl, result_cases, some, subst, suc, true, ℕ, ◌++◌,
  ◌==◌, ◌↔◌, ◌∙◌, ◌∷◌, ◌≡◌, ◌≤◌,
}
use claim2kernel.Base.Maybe.{map-some}
use claim2kernel.Base.Text.{codes}
use claim2kernel.Contract.Checks.{valid_name}
use claim2kernel.Contract.Env.{Env}
use claim2kernel.Contract.Loading.{
  CatalogIssue, accept_catalog, catalog_flag, catalog_flags, catalog_issues, duplicate_name,
  entry_issue, entry_issues_from, load_catalog, max_contract_bytes, no_profiles, too_many_profiles,
}
use claim2kernel.Contract.Signature.{Crypto}
use claim2kernel.Contract.Types.{KernelCatalog, KernelProfile, api_version_v1alpha1, catalog_kind}
use claim2kernel.Contract.Validate.{validate_profile}
use claim2kernel.Contract.Validate.Issues.{Issue, bad_api_version, bad_kind, bad_name, flag}
use claim2kernel.Jsonsafe.{Token, decode_strict}
use claim2kernel.Jsonsafe.Strict.{IsDecoded, decode_strict_iff}

joined-empty : {A : Type 0} (xs ys : List A) → xs ++ ys ≡ [] → (xs ≡ []) × (ys ≡ [])
joined-empty [] ys h = (refl, h)
joined-empty (x ∷ xs) ys h = absurd (cc (h))

catalog_flag-empty : (b : Bool) (i : CatalogIssue) → catalog_flag b i ≡ [] → b ≡ false
catalog_flag-empty true i h = absurd (cc (h))
catalog_flag-empty false i h = refl

catalog_flags-empty : (b : Bool) (i : Issue) → catalog_flags (flag b i) ≡ [] → b ≡ false
catalog_flags-empty true i h = absurd (cc (h))
catalog_flags-empty false i h = refl

accept_catalog-empty :
    (c d : KernelCatalog) (issues : List CatalogIssue)
    → accept_catalog c issues ≡ inr d
    → (issues ≡ []) × (c ≡ d)
unfolding accept_catalog
accept_catalog-empty c d [] h = (refl, cc (h))
accept_catalog-empty c d (i ∷ issues) h = absurd (cc (h))

module _ (env : Env) (crypto : Crypto) (byte_count : String → ℕ)
    (tokens : String → List Token) where
  entry_issue-empty :
      (i : ℕ) (own : List Issue) → entry_issue env crypto byte_count tokens i own ≡ [] → own ≡ []
  entry_issue-empty i [] h = refl
  entry_issue-empty i (x ∷ xs) h = absurd (cc (h))

  -- Every profile is valid, and its name is none of those before it.
  pub AreEntries : Bool → List String → List KernelProfile → Type 0
  AreEntries require_seal seen [] = Unit
  AreEntries require_seal seen (p ∷ ps) =
      (contains seen p.metadata.name ≡ false)
      × (validate_profile env (some p) require_seal ≡ some [])
      × AreEntries require_seal (p.metadata.name ∷ seen) ps

  entry_issues_from-AreEntries :
      (require_seal : Bool) (i : ℕ) (seen : List String) (ps : List KernelProfile)
      → entry_issues_from env crypto byte_count tokens require_seal i seen ps ≡ some []
      → AreEntries require_seal seen ps
  unfolding entry_issues_from AreEntries
  entry_issues_from-AreEntries require_seal i seen [] h = tt
  entry_issues_from-AreEntries require_seal i seen (p ∷ ps) h =
      let name = p.metadata.name in
      elim (Option-cases (validate_profile env (some p) require_seal)) [
        | inl bad ↦ absurd (cc (rw (bad, entry_issues_from) at h))
        | inr (own, checked) ↦
            elim (Option-cases (
              entry_issues_from env crypto byte_count tokens require_seal (suc i) (name ∷ seen)
                ps)) [
                  | inl bad ↦ absurd (cc (rw (checked, bad, entry_issues_from) at h))
                  | inr (rest, others) ↦
                      let joined : catalog_flag (contains seen name) (duplicate_name i name)
                            ++ (entry_issue env crypto byte_count tokens i own ++ rest)
                          ≡ [] =
                        cc (rw (checked, others, entry_issues_from) at h) in
                      let (a, b) = joined-empty _ _ joined in
                      let (c, d) =
                        joined-empty (entry_issue env crypto byte_count tokens i own) rest b in
                      (
                        catalog_flag-empty _ (duplicate_name i name) a,
                        checked ∙ ap some (entry_issue-empty i own c),
                        entry_issues_from-AreEntries require_seal (suc i) (name ∷ seen) ps
                            (others ∙ ap some d),
                      )
                ]
      ]

  entry_issues_from-none :
      (require_seal : Bool) (i : ℕ) (seen : List String) (ps : List KernelProfile)
      → AreEntries require_seal seen ps
      → entry_issues_from env crypto byte_count tokens require_seal i seen ps ≡ some []
  unfolding entry_issues_from AreEntries
  entry_issues_from-none require_seal i seen [] k = refl
  entry_issues_from-none require_seal i seen (p ∷ ps) k =
      rw
        (
          k.0,
          k.1,
          entry_issues_from-none require_seal (suc i) (p.metadata.name ∷ seen) ps k.2,
          entry_issues_from,
        )
        refl

  pub record IsCatalog (c : KernelCatalog) (require_seal : Bool) : Type 0 where
    pub version : c.api_version ≡ api_version_v1alpha1
    pub kind : c.kind ≡ catalog_kind
    pub name : valid_name (codes c.metadata.name) ≡ true
    pub some_profiles : 1 ≤ length c.profiles
    pub few_profiles : length c.profiles ≤ 128
    pub entries : AreEntries require_seal [] c.profiles

  catalog_issues-IsCatalog :
      (c : KernelCatalog) (require_seal : Bool)
      → catalog_issues env crypto byte_count tokens c require_seal ≡ some []
      → IsCatalog c require_seal
  unfolding catalog_issues
  catalog_issues-IsCatalog c require_seal h =
      elim (Option-cases
        (entry_issues_from env crypto byte_count tokens require_seal 0 [] c.profiles)) [
          | inl bad ↦ absurd (cc (rw (bad, catalog_issues) at h))
          | inr (entries, found) ↦
              let (a, h₁) =
                joined-empty
                  (catalog_flags
                    (flag (not (c.api_version == api_version_v1alpha1)) bad_api_version))
                  _ (cc (rw (found, catalog_issues) at h)) in
              let (b, h₂) =
                joined-empty (catalog_flags (flag (not (c.kind == catalog_kind)) bad_kind)) _ h₁ in
              let (d, h₃) =
                joined-empty
                  (catalog_flags (flag (not (valid_name (codes c.metadata.name))) bad_name)) _ h₂ in
              let (e, h₄) =
                joined-empty (catalog_flag (nat_eq (length c.profiles) 0) no_profiles) _ h₃ in
              let (f, g) =
                joined-empty (catalog_flag (ltb 128 (length c.profiles)) too_many_profiles) _ h₄ in
              let few = catalog_flag-empty _ too_many_profiles f in
              let given = catalog_flag-empty _ no_profiles e in
              record {
                version =
                    ==-true c.api_version _ (not-false _ (catalog_flags-empty _ bad_api_version a));
                kind = ==-true c.kind _ (not-false _ (catalog_flags-empty _ bad_kind b));
                name = not-false _ (catalog_flags-empty _ bad_name d);
                some_profiles = ground (arith, given);
                few_profiles = ground (arith, few);
                entries =
                    entry_issues_from-AreEntries require_seal 0 [] c.profiles (found ∙ ap some g);
              }
        ]

  catalog_issues-none :
      (c : KernelCatalog) (require_seal : Bool)
      → IsCatalog c require_seal
      → catalog_issues env crypto byte_count tokens c require_seal ≡ some []
  unfolding catalog_issues
  catalog_issues-none c require_seal k =
      let a = (eq_iff c.api_version api_version_v1alpha1).1 k.version in
      let b = (eq_iff c.kind catalog_kind).1 k.kind in
      let given : nat_eq (length c.profiles) 0 ≡ false = ground (arith, k.some_profiles) in
      let few : ltb 128 (length c.profiles) ≡ false = ground (arith, k.few_profiles) in
      rw
        (
          entry_issues_from-none require_seal 0 [] c.profiles k.entries,
          a,
          b,
          k.name,
          given,
          few,
          catalog_issues,
        )
        refl

  -- LoadCatalog returns a catalog exactly where it decodes strictly, its header is right, and it has 1
  -- to 128 profiles, each of them valid and with a name that none before it has.
  pub load_catalog_iff :
      (decode : String → Option (KernelCatalog × Bool)) (input : String) (require_seal : Bool)
      (c : KernelCatalog)
      → (load_catalog env crypto byte_count tokens decode input require_seal ≡ some (inr c))
        ↔ (IsDecoded byte_count tokens decode input max_contract_bytes c × IsCatalog c require_seal)
  unfolding load_catalog accept_catalog
  load_catalog_iff decode input require_seal c =
      let decoding = decode_strict_iff byte_count tokens decode input max_contract_bytes in
      (
        λ h. elim (result_cases (decode_strict byte_count tokens decode input max_contract_bytes)) [
          | inl (err, bad) ↦ absurd (cc (rw (bad, load_catalog) at h))
          | inr (d, found) ↦
              let (issues, checked, taken) =
                map-some (accept_catalog d)
                  (catalog_issues env crypto byte_count tokens d require_seal)
                  (rw (found, load_catalog) at h) in
              let (clear, same) = accept_catalog-empty d c issues taken in
              (
                (decoding c).0 (found ∙ ap inr same),
                subst (λ x. IsCatalog x require_seal) same
                    (catalog_issues-IsCatalog d require_seal (checked ∙ ap some clear)),
              )
        ],
        λ k.
            rw
              (
                (decoding c).1 k.0,
                catalog_issues-none c require_seal k.1,
                load_catalog,
                accept_catalog,
              )
              refl,
      )
