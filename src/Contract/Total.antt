-- ===== src/Contract/Total.antt =====
-- Where the validation of a profile in pkg/contract/validate.go does not panic, and what it leaves of
-- the dimensions of a required OOD certificate.
use claim2kernel.Base.{
  All, Bool, Bool-cases, List, [], arith, false, inl, inr, leb, length, ltb, nat_eq, not, refl,
  some, suc, true, zero, ℕ, ◌&&◌, ◌++◌, ◌+◌, ◌<◌, ◌==◌, ◌||◌, ◌∙◌, ◌∷◌, ◌≡◌,
}
use claim2kernel.Base.Maybe.{map-some}
use claim2kernel.Contract.Checks.{finite, matrix_tolerance}
use claim2kernel.Contract.Demands.{append-empty}
use claim2kernel.Contract.Env.{Env}
use claim2kernel.Contract.Matrix.{
  asymmetric, cholesky, index, positive_definite_symmetric, row_symmetric, rows_symmetric,
}
use claim2kernel.Contract.Semver.{non_empty}
use claim2kernel.Contract.Types.{InputDomain, InterferenceEnvelope, KernelProfile, OodCertificate}
use claim2kernel.Contract.Validate.{
  leading_issues, seal_issues, validate_profile, validate_profile_base,
}
use claim2kernel.Contract.Validate.Issues.{
  Issue, bad_ood_method, flag, ood_dimensions, ood_not_definite, too_many_ood_features,
}
use claim2kernel.Contract.Validate.Ood.{
  definite_issues, entry_issues, matrix_issues, ood_feature_issues, ood_issues, ood_number_issues,
  ood_shape_issues, policy_issues,
}
use claim2kernel.Float64.{Float64}

-- Every row has the length.
abbrev pub IsWide : ℕ → List (List Float64) → Type 0
IsWide n rows = All (λ (row : List Float64). length row ≡ n) rows

-- A required certificate has a square matrix.
abbrev pub IsSquare : OodCertificate → Type 0
IsSquare o =
    o.required ≡ true
    → (length o.inverse_covariance ≡ length o.features)
    → IsWide (length o.inverse_covariance) o.inverse_covariance

index_total : {A : Type 0} (xs : List A) (i : ℕ) → i < length xs → (a : A) × (index xs i ≡ some a)
unfolding index
index_total [] i h = absurd (omega arith)
index_total (x ∷ xs) zero h = (x, refl)
index_total (x ∷ xs) (suc i) h = index_total xs i (omega arith)

row_symmetric_total :
    (tolerance : Float64) (i n : ℕ) (row : List Float64) (rows : List (List Float64))
    → i < n
    → IsWide n rows
    → (b : Bool) × (row_symmetric tolerance i row rows ≡ some b)
unfolding row_symmetric
row_symmetric_total tolerance i n [] rows h w = (true, refl)
row_symmetric_total tolerance i n (x ∷ row) [] h w = (true, refl)
row_symmetric_total tolerance i n (x ∷ row) (r ∷ rows) h w = elim (Bool-cases (finite x)) [
  | inr bad ↦ (false, rw (bad, row_symmetric) refl)
  | inl good ↦
      let (y, found) = index_total r i (rw w.0 h) in
      let (b, rest) = row_symmetric_total tolerance i n row rows h w.1 in
      elim (Bool-cases (asymmetric tolerance x y)) [
        | inl odd ↦ (false, rw (good, found, odd, row_symmetric) refl)
        | inr even ↦ (b, rw (good, found, even, row_symmetric) rest)
      ]
]

rows_symmetric_total :
    (tolerance : Float64) (i : ℕ) (rest a : List (List Float64))
    → i + length rest ≡ length a
    → IsWide (length a) a
    → (b : Bool) × (rows_symmetric tolerance i rest a ≡ some b)
unfolding rows_symmetric
rows_symmetric_total tolerance i [] a h w = (true, refl)
rows_symmetric_total tolerance i (row ∷ rest) a h w =
    let (b, e) = row_symmetric_total tolerance i (length a) row a (omega arith) w in
    let (c, f) = rows_symmetric_total tolerance (suc i) rest a (omega arith) w in
    elim (Bool-cases (nat_eq (length row) (length a))) [
      | inr bad ↦ (false, rw (bad, rows_symmetric) refl)
      | inl good ↦ elim (Bool-cases b) [
        | inl yes_row ↦ (c, rw (good, e, yes_row, rows_symmetric) f)
        | inr no_row ↦ (false, rw (good, e, no_row, rows_symmetric) refl)
      ]
    ]

positive_definite_total :
    (a : List (List Float64)) (tolerance : Float64)
    → IsWide (length a) a
    → (b : Bool) × (positive_definite_symmetric a tolerance ≡ some b)
unfolding positive_definite_symmetric
positive_definite_total [] tolerance w = (false, refl)
positive_definite_total (row ∷ rows) tolerance w =
    let (b, e) = rows_symmetric_total tolerance 0 (row ∷ rows) (row ∷ rows) (omega arith) w in
    elim (Bool-cases b) [
      | inl good ↦
          (cholesky tolerance [] (row ∷ rows), rw (e, good, positive_definite_symmetric) refl)
      | inr bad ↦ (false, rw (e, bad, positive_definite_symmetric) refl)
    ]

definite_issues_total :
    (o : OodCertificate)
    → (length o.inverse_covariance ≡ length o.features
        → IsWide (length o.inverse_covariance) o.inverse_covariance)
    → (issues : List Issue) × (definite_issues o ≡ some issues)
unfolding definite_issues
definite_issues_total o w =
    elim (Bool-cases
      (leb (length o.features) 64 && nat_eq (length o.inverse_covariance) (length o.features))) [
        | inr skipped ↦ ([], rw (skipped, definite_issues) refl)
        | inl checked ↦
            let (b, e) =
              positive_definite_total o.inverse_covariance matrix_tolerance (w (ground arith)) in
            (flag (not b) ood_not_definite, rw (checked, e, definite_issues) refl)
      ]

ood_issues-required :
    (d : InputDomain) (e : InterferenceEnvelope) (o : OodCertificate) (definite : List Issue)
    → o.required ≡ true
    → definite_issues o ≡ some definite
    → ood_issues d e o ≡ some (ood_shape_issues d e o ++ (definite ++ ood_number_issues o))
unfolding ood_issues
ood_issues-required d e o definite q found = simp (q, found, ood_issues)

ood_issues_total :
    (d : InputDomain) (e : InterferenceEnvelope) (o : OodCertificate)
    → IsSquare o
    → (issues : List Issue) × (ood_issues d e o ≡ some issues)
unfolding ood_issues
ood_issues_total d e o w = elim (Bool-cases o.required) [
  | inr skipped ↦ ([], rw (skipped, ood_issues) refl)
  | inl checked ↦
      let (definite, found) = definite_issues_total o (w checked) in
      (
        ood_shape_issues d e o ++ (definite ++ ood_number_issues o),
        ood_issues-required d e o definite checked found,
      )
]

-- ValidateProfile does not panic on a profile whose OOD certificate, where one is required and has as
-- many rows as features, has a square matrix.
pub validate_profile_total :
    (env : Env) (p : KernelProfile) (require_seal : Bool)
    → IsSquare p.spec.ood
    → (issues : List Issue) × (validate_profile env (some p) require_seal ≡ some issues)
unfolding validate_profile validate_profile_base
validate_profile_total env p require_seal w =
    let (ood, e) = ood_issues_total p.spec.input_domain p.spec.interference p.spec.ood w in
    (
      (leading_issues env p ++ (ood ++ policy_issues p.spec.policy p.spec.provenance))
          ++ seal_issues env (some p) require_seal,
      rw (e, validate_profile, validate_profile_base) refl,
    )

pub flag-empty : (b : Bool) (i : Issue) → flag b i ≡ [] → b ≡ false
flag-empty true i h = absurd (cc (h))
flag-empty false i h = refl

matrix_issues-empty :
    (n : ℕ) (rows : List (List Float64)) → matrix_issues n rows ≡ [] → IsWide n rows
unfolding matrix_issues
matrix_issues-empty n [] h = tt
matrix_issues-empty n (row ∷ rows) h = elim (Bool-cases (nat_eq (length row) n)) [
  | inr bad ↦ absurd (cc (rw (bad, matrix_issues) at h))
  | inl good ↦ (
    ground (arith, good),
    matrix_issues-empty n rows
        (append-empty (entry_issues row) _ (rw (good, matrix_issues) at h)).1,
  )
]

-- The dimensions of a required certificate.
pub record IsFitting (o : OodCertificate) : Type 0 where
  pub means : length o.mean ≡ length o.features
  pub rows : length o.inverse_covariance ≡ length o.features
  pub columns : IsWide (length o.features) o.inverse_covariance

ood_shape_issues-empty :
    (d : InputDomain) (e : InterferenceEnvelope) (o : OodCertificate)
    → ood_shape_issues d e o ≡ []
    → IsFitting o
unfolding ood_shape_issues
ood_shape_issues-empty d e o h =
    let rest =
      (append-empty (flag (not (o.method == "mahalanobis-conformal")) bad_ood_method) _ h).1 in
    let misfit : Bool =
      not (non_empty o.features)
      || not (nat_eq (length o.mean) (length o.features))
      || not (nat_eq (length o.inverse_covariance) (length o.features)) in
    let (dims, after) = append-empty (flag misfit ood_dimensions) _ rest in
    let last = (append-empty (flag (ltb 64 (length o.features)) too_many_ood_features) _ after).1 in
    let rows = (append-empty (ood_feature_issues d e [] o.features o.mean) _ last).1 in
    let fits = flag-empty misfit ood_dimensions dims in
    record {
      means = ground (arith, fits);
      rows = ground (arith, fits);
      columns = matrix_issues-empty (length o.features) o.inverse_covariance rows;
    }

-- A profile that ValidateProfile accepts has, where its OOD certificate is required, one mean, one row
-- and one column for each feature of the certificate.
pub validate_profile-IsFitting :
    (env : Env) (p : KernelProfile) (require_seal : Bool)
    → validate_profile env (some p) require_seal ≡ some []
    → p.spec.ood.required ≡ true
    → IsFitting p.spec.ood
unfolding validate_profile validate_profile_base ood_issues
validate_profile-IsFitting env p require_seal h q =
    let (issues, based, sealed) =
      map-some (λ is. is ++ seal_issues env (some p) require_seal) _ h in
    let (ood, found, joined) =
      map-some (λ is. leading_issues env p ++ (is ++ policy_issues p.spec.policy p.spec.provenance))
        _ based in
    let none_based = (append-empty issues _ sealed).0 in
    let none_ood =
      (append-empty ood _ (append-empty (leading_issues env p) _ (joined ∙ none_based)).1).0 in
    let (definite, tested, shaped) =
      map-some
        (λ is.
          ood_shape_issues p.spec.input_domain p.spec.interference p.spec.ood
          ++ (is ++ ood_number_issues p.spec.ood))
        (definite_issues p.spec.ood) (rw (q, ood_issues) at found) in
    ood_shape_issues-empty p.spec.input_domain p.spec.interference p.spec.ood
      (append-empty _ _ (shaped ∙ none_ood)).0
