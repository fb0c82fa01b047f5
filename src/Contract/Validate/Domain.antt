-- ===== src/Contract/Validate/Domain.antt =====
-- validateProfileBase of pkg/contract/validate.go: the input domain, precision and resources.
use claim2kernel.Base.{
  Bool, List, Map, Option, String, [], contains, if◌then◌else◌, length, lookup, ltb, none, not,
  some, suc, true, ℕ, ◌++◌, ◌==◌, ◌||◌, ◌∷◌,
}
use claim2kernel.Base.Int.{leb_ℤ, ltb_ℤ, pos}
use claim2kernel.Base.Text.{codes}
use claim2kernel.Contract.Checks.{after_prefix, blank, byte_length, finite, has_char}
use claim2kernel.Contract.Semver.{non_empty}
use claim2kernel.Contract.Types.{
  FeatureSpec, InputDomain, InterferenceEnvelope, PrecisionSpec, Relation, ResourceSpec,
}
use claim2kernel.Contract.Validate.Issues.{
  Issue, RefError, bad_counter, bad_device_count, bad_min_memory, bad_namespace, bad_range,
  bad_relation_op, duplicate_category, empty_category, feature_name_invalid, feature_unnamed, flag,
  input_not_numeric, input_undeclared, left_not_numeric, left_unknown, metric_undeclared,
  no_categories, no_features, numeric_with_categories, precision_required, right_not_numeric,
  right_unknown, too_many_categories, too_many_counters, too_many_features, too_many_relations,
  unsupported_kind,
}
use claim2kernel.Float64.{Float64, ltf}

abbrev pub is_numeric_kind : String → Bool
is_numeric_kind k = k == "number" || k == "integer"

-- Whether the bounds are not two finite numbers in order.
unfoldable pub bounds_invalid : Option Float64 → Option Float64 → Bool
bounds_invalid (some lo) (some hi) = not (finite lo) || not (finite hi) || ltf hi lo
bounds_invalid _ _ = true

unfoldable pub category_issues : String → List String → List String → List Issue
category_issues name seen [] = []
category_issues name seen (c ∷ cs) =
    flag (c == "") (empty_category name)
    ++ (flag (contains seen c) (duplicate_category name c) ++ category_issues name (c ∷ seen) cs)

unfoldable pub feature_issues : String → FeatureSpec → List Issue
unfolding blank bounds_invalid category_issues has_char
feature_issues name f =
    flag (blank name) feature_unnamed
    ++ (flag (ltb 128 (byte_length (codes name)) || has_char 0 (codes name)) feature_name_invalid
        ++ (if is_numeric_kind f.kind
            then flag (bounds_invalid f.minimum f.maximum) (bad_range name)
              ++ flag (non_empty f.categories) (numeric_with_categories name)
            else if f.kind == "category"
            then flag (not (non_empty f.categories)) (no_categories name)
              ++ (flag (ltb 256 (length f.categories)) (too_many_categories name)
                  ++ category_issues name [] f.categories)
            else unsupported_kind name f.kind ∷ []))

unfoldable pub all_feature_issues : Map FeatureSpec → List Issue
unfolding feature_issues
all_feature_issues [] = []
all_feature_issues ((name, f) ∷ fs) = feature_issues name f ++ all_feature_issues fs

-- One side of a relation: its feature is declared and numeric.
abbrev pub side_issues : Option FeatureSpec → Issue → Issue → List Issue × List Issue
side_issues none unknown not_numeric = (unknown ∷ [], [])
side_issues (some f) unknown not_numeric = ([], flag (not (is_numeric_kind f.kind)) not_numeric)

abbrev pub relation_ops : List String
relation_ops = "<" ∷ "<=" ∷ "=" ∷ ">=" ∷ ">" ∷ []

unfoldable pub relation_issues : Map FeatureSpec → ℕ → List Relation → List Issue
relation_issues features i [] = []
relation_issues features i (r ∷ rs) =
    let (no_left, odd_left) =
      side_issues (lookup features r.left) (left_unknown i r.left) (left_not_numeric i r.left) in
    let (no_right, odd_right) =
      side_issues (lookup features r.right) (right_unknown i r.right)
        (right_not_numeric i r.right) in
    no_left
    ++ (no_right
        ++ (odd_left
            ++ (odd_right
                ++ (flag (not (contains relation_ops r.op)) (bad_relation_op i r.op)
                    ++ relation_issues features (suc i) rs))))

unfoldable pub domain_issues : InputDomain → List Issue
unfolding all_feature_issues relation_issues
domain_issues d =
    flag (not (non_empty d.features)) no_features
    ++ (flag (ltb 64 (length d.features)) too_many_features
        ++ (all_feature_issues d.features
            ++ (flag (ltb 128 (length d.relations)) too_many_relations
                ++ relation_issues d.features 0 d.relations)))

unfoldable pub counter_issues : Map String → List Issue
unfolding blank
counter_issues [] = []
counter_issues ((name, quantity) ∷ cs) =
    flag
      (blank name
        || blank quantity
        || ltb 253 (byte_length (codes name))
        || ltb 128 (byte_length (codes quantity)))
      bad_counter
    ++ counter_issues cs

unfoldable pub resource_issues : PrecisionSpec → ResourceSpec → List Issue
unfolding counter_issues
resource_issues p r =
    flag (p.storage == "" || p.accumulation == "") precision_required
    ++ (flag (leb_ℤ r.device_count (pos 0)) bad_device_count
        ++ (flag (ltb_ℤ r.min_memory_bytes (pos 0)) bad_min_memory
            ++ (flag (ltb 64 (length r.counters)) too_many_counters ++ counter_issues r.counters)))

-- validateNumericFeatureReference; nothing is no error
unfoldable pub feature_reference : String → InputDomain → InterferenceEnvelope → Option RefError
unfolding after_prefix
feature_reference name domain envelope = elim (after_prefix "input." name) [
  | some key ↦ elim (lookup domain.features key) [
    | none ↦ some (input_undeclared key)
    | some f ↦ if is_numeric_kind f.kind then none else some (input_not_numeric key)
  ]
  | none ↦ elim (after_prefix "interference." name) [
    | some key ↦ elim (lookup envelope.metrics key) [
      | none ↦ some (metric_undeclared key)
      | some r ↦ none
    ]
    | none ↦ some bad_namespace
  ]
]
