-- ===== src/Planner/Model.antt =====
-- modelFeatures, the latency prediction and validateOOD of pkg/planner/planner.go. Nothing is returned
-- where the Go code indexes out of range.
use claim2kernel.Base.{
  Bool, List, Map, Option, String, [], contains, false, if◌then◌else◌, insert, lookup, none, not,
  some, true, ◌++◌, ◌||◌, ◌∷◌,
}
use claim2kernel.Contract.Checks.{after_prefix}
use claim2kernel.Contract.Types.{KernelProfile, KernelRequest, LinearModel, OodCertificate}
use claim2kernel.Contract.Value.{Value}
use claim2kernel.Float64.{Float64, f0, ltf, ◌*f◌, ◌+f◌, ◌-f◌}
use claim2kernel.Planner.{Decision, is_finite, named, reject, reject_if}
use claim2kernel.Planner.Inputs.{number_at}

-- The names of the latency model, then those of the OOD detector that are new.
unfoldable pub add_new : List String → List String → List String
add_new names [] = names
add_new names (name ∷ rest) =
    add_new (if contains names name then names else names ++ name ∷ []) rest

-- The decision, the values found so far and whether none is missing.
pub record Resolution : Type 0 where
  pub decision : Decision
  pub values : Map Float64
  pub complete : Bool

unfoldable pub missing_feature : String → String → Resolution → Resolution
unfolding reject
missing_feature code field s = record s {
  decision = reject code field s.decision;
  complete = false;
}

unfoldable pub found_feature : String → Float64 → Resolution → Resolution
found_feature name v s = record s { values = insert s.values name v }

abbrev pub finite_only : Option Float64 → Option Float64
finite_only none = none
finite_only (some v) = if is_finite v then some v else none

unfoldable pub add_feature : String → String → String → Option Float64 → Resolution → Resolution
unfolding missing_feature found_feature
add_feature name field key none s = missing_feature "MODEL_FEATURE_MISSING" (named field key) s
add_feature name field key (some v) s = found_feature name v s

unfoldable pub resolve_feature : Map Value → Map Float64 → String → Resolution → Resolution
unfolding add_feature missing_feature number_at is_finite after_prefix
resolve_feature inputs interference name s = elim (after_prefix "input." name) [
  | some key ↦ add_feature name "spec.inputs." key (number_at inputs key) s
  | none ↦ elim (after_prefix "interference." name) [
    | some key ↦ add_feature name "spec.interference." key (finite_only (lookup interference key)) s
    | none ↦ missing_feature "INVALID_MODEL_FEATURE" "profile.spec.latency.model" s
  ]
]

unfoldable pub resolve_features : Map Value → Map Float64 → List String → Resolution → Resolution
unfolding resolve_feature
resolve_features inputs interference [] s = s
resolve_features inputs interference (name ∷ names) s =
    resolve_features inputs interference names (resolve_feature inputs interference name s)

unfoldable pub model_features : KernelProfile → KernelRequest → Map Float64 → Decision → Resolution
unfolding add_new resolve_features
model_features p r interference d =
    resolve_features r.spec.inputs interference
      (add_new p.spec.latency.model.feature_order p.spec.ood.features)
      (record { decision = d; values = []; complete = true })

-- `m[name]` of a map of numbers, zero for a missing key
abbrev pub value_or_zero : Option Float64 → Float64
value_or_zero none = f0
value_or_zero (some v) = v

unfoldable pub predict : LinearModel → Map Float64 → List String → Float64 → Float64
predict m values [] sum = sum
predict m values (name ∷ names) sum =
    predict m values names
      (sum +f value_or_zero (lookup m.coefficients name) *f value_or_zero (lookup values name))

-- delta[i] for the features that are left, beside the means that are left; nothing in the left case
-- is an index out of range, and a missing feature is named in the right one.
pub data Deltas : Type 0 where
  out_of_bounds : Deltas
  unavailable : String → Deltas
  deltas : List Float64 → Deltas

abbrev pub cons_delta : Float64 → Deltas → Deltas
cons_delta x (deltas xs) = deltas (x ∷ xs)
cons_delta x out_of_bounds = out_of_bounds
cons_delta x (unavailable name) = unavailable name

unfoldable pub compute_deltas : Map Float64 → List String → List Float64 → Deltas
compute_deltas values [] mean = deltas []
compute_deltas values (name ∷ names) [] = elim (lookup values name) [
  | none ↦ unavailable name
  | some v ↦ out_of_bounds
]
compute_deltas values (name ∷ names) (m ∷ mean) =
    let rest = compute_deltas values names mean in
    elim (lookup values name) [ none ↦ unavailable name | some v ↦ cons_delta (v -f m) rest ]

-- score += delta[i] * row[j] * delta[j], over j
unfoldable pub score_row : Float64 → Float64 → List Float64 → List Float64 → Option Float64
score_row score di row [] = some score
score_row score di [] (dj ∷ ds) = none
score_row score di (x ∷ row) (dj ∷ ds) = score_row (score +f di *f x *f dj) di row ds

-- The loop over i, beside the rows that are left.
unfoldable pub score_rows :
    Float64 → List Float64 → List Float64 → List (List Float64) → Option Float64
unfolding score_row
score_rows score ds [] rows = some score
score_rows score ds (di ∷ rest) [] = none
score_rows score ds (di ∷ rest) (row ∷ rows) = elim (score_row score di row ds) [
  | none ↦ none
  | some s ↦ score_rows s ds rest rows
]

unfoldable pub judge_score : OodCertificate → Float64 → Decision → Decision
unfolding reject reject_if is_finite
judge_score o score d =
    let scored = record d { ood_score = score; ood_threshold = o.threshold } in
    if not (is_finite score) || ltf score f0
    then reject "INVALID_OOD_SCORE" "profile.spec.ood" scored
    else reject_if (ltf o.threshold score) "OOD_REJECTED" "spec.inputs" scored

unfoldable pub score_deltas : OodCertificate → Deltas → Decision → Option Decision
unfolding reject score_rows judge_score
score_deltas o out_of_bounds d = none
score_deltas o (unavailable name) d = some (reject "OOD_FEATURE_MISSING" name d)
score_deltas o (deltas ds) d = elim (score_rows f0 ds ds o.inverse_covariance) [
  | none ↦ none
  | some score ↦ some (judge_score o score d)
]

unfoldable pub validate_ood : KernelProfile → Map Float64 → Decision → Option Decision
unfolding compute_deltas score_deltas
validate_ood p values d =
    let o = p.spec.ood in
    if o.required then score_deltas o (compute_deltas values o.features o.mean) d else some d
