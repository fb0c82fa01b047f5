-- ===== src/Planner/Inputs.antt =====
-- validateInputs of pkg/planner/planner.go.
use claim2kernel.Base.{
  Bool, List, Map, Option, String, [], contains, false, if◌then◌else◌, is_some, lookup, none, not,
  some, true, ◌&&◌, ◌==◌, ◌||◌, ◌∷◌,
}
use claim2kernel.Contract.Types.{FeatureSpec, KernelProfile, KernelRequest, Relation}
use claim2kernel.Contract.Validate.Domain.{is_numeric_kind}
use claim2kernel.Contract.Value.{Value, number, text}
use claim2kernel.Float64.{Float64, eqf, lef, ltf, trunc}
use claim2kernel.Planner.{Decision, named, reject, reject_if}

unfoldable pub unknown_inputs : Map FeatureSpec → Map Value → Decision → Decision
unfolding reject_if
unknown_inputs features [] d = d
unknown_inputs features ((name, v) ∷ inputs) d =
    unknown_inputs features inputs (
      reject_if (not (is_some (lookup features name))) "UNKNOWN_INPUT" (named "spec.inputs." name)
        d)

-- The number lies outside the bounds, or a bound is missing.
unfoldable pub out_of_range : FeatureSpec → Float64 → Bool
out_of_range spec n = elim spec.minimum [
  | none ↦ true
  | some lo ↦ elim spec.maximum [ none ↦ true | some hi ↦ ltf n lo || ltf hi n ]
]

unfoldable pub check_number : String → FeatureSpec → Option Float64 → Decision → Decision
unfolding reject reject_if out_of_range trunc eqf
check_number name spec none d = reject "INPUT_TYPE_MISMATCH" (named "spec.inputs." name) d
check_number name spec (some n) d =
    reject_if (out_of_range spec n) "INPUT_OUT_OF_RANGE" (named "spec.inputs." name) (
      reject_if (spec.kind == "integer" && not (eqf (trunc n) n)) "INPUT_TYPE_MISMATCH"
        (named "spec.inputs." name) d)

unfoldable pub check_category : String → FeatureSpec → Option String → Decision → Decision
unfolding reject reject_if
check_category name spec none d = reject "INPUT_TYPE_MISMATCH" (named "spec.inputs." name) d
check_category name spec (some s) d =
    reject_if (not (contains spec.categories s)) "UNSEEN_CATEGORY" (named "spec.inputs." name) d

-- One round of the loop over the declared features, given the request's input of that name.
unfoldable pub check_feature : String → FeatureSpec → Option Value → Decision → Decision
unfolding reject_if check_number check_category number text
check_feature name spec none d =
    reject_if spec.required "MISSING_INPUT" (named "spec.inputs." name) d
check_feature name spec (some v) d =
    if is_numeric_kind spec.kind
    then check_number name spec (number v) d
    else if spec.kind == "category"
    then check_category name spec (text v) d
    else d

unfoldable pub check_features : Map FeatureSpec → Map Value → Decision → Decision
unfolding check_feature
check_features [] inputs d = d
check_features ((name, spec) ∷ features) inputs d =
    check_features features inputs (check_feature name spec (lookup inputs name) d)

-- `m[name].Number()`: a missing key gives the unset value, which is no number
unfoldable pub number_at : Map Value → String → Option Float64
unfolding number
number_at inputs name = elim (lookup inputs name) [ none ↦ none | some v ↦ number v ]

unfoldable pub relation_holds : String → Float64 → Float64 → Bool
relation_holds op l r =
    if op == "<"
    then ltf l r
    else if op == "<="
    then lef l r
    else if op == "="
    then eqf l r
    else if op == ">="
    then lef r l
    else if op == ">"
    then ltf r l
    else false

unfoldable pub check_relation : String → Option Float64 → Option Float64 → Decision → Decision
unfolding relation_holds reject_if
check_relation op (some l) (some r) d =
    reject_if (not (relation_holds op l r)) "RELATION_VIOLATION" "spec.inputs" d
check_relation op _ _ d = d

unfoldable pub check_relations : List Relation → Map Value → Decision → Decision
unfolding check_relation number_at
check_relations [] inputs d = d
check_relations (rel ∷ rels) inputs d =
    check_relations rels inputs
      (check_relation rel.op (number_at inputs rel.left) (number_at inputs rel.right) d)

unfoldable pub validate_inputs : KernelProfile → KernelRequest → Decision → Decision
unfolding unknown_inputs check_features check_relations
validate_inputs p r d =
    let inputs = r.spec.inputs in
    check_relations p.spec.input_domain.relations inputs (
      check_features p.spec.input_domain.features inputs
        (unknown_inputs p.spec.input_domain.features inputs d))
