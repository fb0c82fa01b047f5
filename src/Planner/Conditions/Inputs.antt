-- ===== src/Planner/Conditions/Inputs.antt =====
-- validateInputs of pkg/planner/planner.go rejects exactly where a condition on the inputs fails.
use claim2kernel.Base.{
  All, Bool, Bool-cases, Map, Option, Option-cases, String, [], ap, arith, contains, false,
  if◌then◌else◌, inl, inr, is_some, lookup, none, not, not-false, refl, some, true, ◌&&◌, ◌==◌, ◌∷◌,
  ◌≡◌,
}
use claim2kernel.Contract.Types.{FeatureSpec, KernelProfile, KernelRequest}
use claim2kernel.Contract.Validate.Domain.{is_numeric_kind}
use claim2kernel.Contract.Value.{Value, number, text}
use claim2kernel.Float64.{Float64, eqf, ltf, trunc}
use claim2kernel.Planner.{named}
use claim2kernel.Planner.Checks.{
  Checks, Checks-id, Checks-if, Checks-iff, Checks-reject, Checks-reject_if, Checks-then,
}
use claim2kernel.Planner.Conditions.{
  FeatureHolds, InputsHold, absent, in_categories, in_range, unchecked,
}
use claim2kernel.Planner.Conditions.Relations.{Checks-check_relations}
use claim2kernel.Planner.Inputs.{
  check_category, check_feature, check_features, check_number, out_of_range, unknown_inputs,
  validate_inputs,
}

Checks-unknown_inputs :
    (features : Map FeatureSpec) (inputs : Map Value)
    → Checks
        (All (λ (e : String × Value). is_some (lookup features e.0) ≡ true) inputs)
        (unknown_inputs features inputs)
unfolding unknown_inputs
Checks-unknown_inputs features [] = Checks-id tt
Checks-unknown_inputs features ((name, v) ∷ inputs) =
    Checks-then
      (Checks-iff (not-false (is_some (lookup features name))) (λ h. rw h)
        (Checks-reject_if (not (is_some (lookup features name))) "UNKNOWN_INPUT"
          (named "spec.inputs." name)))
      (Checks-unknown_inputs features inputs)

-- The two tests of a number, as one condition.
record InRange (spec : FeatureSpec) (x : Float64) : Type 0 where
  lo : Float64
  hi : Float64
  has_lo : spec.minimum ≡ some lo
  has_hi : spec.maximum ≡ some hi
  not_below : ltf x lo ≡ false
  not_above : ltf hi x ≡ false

InRange-of_test : (spec : FeatureSpec) (x : Float64) → out_of_range spec x ≡ false → InRange spec x
unfolding out_of_range
InRange-of_test spec x h = elim (Option-cases spec.minimum) [
  | inl none_lo ↦ absurd (ground (arith, none_lo))
  | inr (lo, has_lo) ↦ elim (Option-cases spec.maximum) [
    | inl none_hi ↦ absurd (ground (arith, none_hi))
    | inr (hi, has_hi) ↦ record {
      lo = lo;
      hi = hi;
      has_lo = has_lo;
      has_hi = has_hi;
      not_below = ground arith;
      not_above = ground arith;
    }
  ]
]

test_of_InRange : (spec : FeatureSpec) (x : Float64) → InRange spec x → out_of_range spec x ≡ false
unfolding out_of_range
test_of_InRange spec x k = ground arith

integral : (b c : Bool) → (b && not c) ≡ false → b ≡ true → c ≡ true
integral b c h k = ground arith

not_integral : (b c : Bool) → (b ≡ true → c ≡ true) → (b && not c) ≡ false
not_integral true c h = ground (arith, h refl)
not_integral false c h = refl

NumberCondition : (spec : FeatureSpec) (v : Value) → Option Float64 → Type 0
NumberCondition spec v none = ⊥
NumberCondition spec v (some x) =
    InRange spec x × ((spec.kind == "integer") ≡ true → eqf (trunc x) x ≡ true)

Checks-check_number :
    (name : String) (spec : FeatureSpec) (v : Value) (o : Option Float64)
    → Checks (NumberCondition spec v o) (check_number name spec o)
unfolding check_number NumberCondition
Checks-check_number name spec v none = Checks-reject _ _ (λ x. x)
Checks-check_number name spec v (some x) =
    Checks-iff
      (λ c. (InRange-of_test spec x c.1, integral (spec.kind == "integer") (eqf (trunc x) x) c.0))
      (λ c.
        (not_integral (spec.kind == "integer") (eqf (trunc x) x) c.1, test_of_InRange spec x c.0))
      (Checks-then
        (Checks-reject_if (spec.kind == "integer" && not (eqf (trunc x) x)) "INPUT_TYPE_MISMATCH"
          (named "spec.inputs." name))
        (Checks-reject_if (out_of_range spec x) "INPUT_OUT_OF_RANGE" (named "spec.inputs." name)))

CategoryCondition : FeatureSpec → Option String → Type 0
CategoryCondition spec none = ⊥
CategoryCondition spec (some s) = contains spec.categories s ≡ true

Checks-check_category :
    (name : String) (spec : FeatureSpec) (o : Option String)
    → Checks (CategoryCondition spec o) (check_category name spec o)
unfolding check_category CategoryCondition
Checks-check_category name spec none = Checks-reject _ _ (λ x. x)
Checks-check_category name spec (some s) =
    Checks-iff (not-false (contains spec.categories s)) (λ h. ap not h)
      (Checks-reject_if (not (contains spec.categories s)) "UNSEEN_CATEGORY"
        (named "spec.inputs." name))

-- The condition on a given input, by the kind of its feature.
GivenCondition : FeatureSpec → Value → Type 0
GivenCondition spec v =
    if is_numeric_kind spec.kind
    then NumberCondition spec v (number v)
    else if spec.kind == "category"
    then CategoryCondition spec (text v)
    else Unit {0}

number_holds :
    (spec : FeatureSpec) (v : Value) (o : Option Float64)
    → is_numeric_kind spec.kind ≡ true
    → number v ≡ o
    → NumberCondition spec v o
    → FeatureHolds spec (some v)
unfolding NumberCondition
number_holds spec v none k e c = absurd c
number_holds spec v (some x) k e c =
    in_range x c.0.lo c.0.hi k e c.0.has_lo c.0.has_hi c.0.not_below c.0.not_above c.1

category_holds :
    (spec : FeatureSpec) (v : Value) (o : Option String)
    → is_numeric_kind spec.kind ≡ false
    → (spec.kind == "category") ≡ true
    → text v ≡ o
    → CategoryCondition spec o
    → FeatureHolds spec (some v)
unfolding CategoryCondition
category_holds spec v none n k e c = absurd c
category_holds spec v (some s) n k e c = in_categories s n k e c

FeatureHolds-of_given :
    (spec : FeatureSpec) (v : Value) → GivenCondition spec v → FeatureHolds spec (some v)
unfolding GivenCondition
FeatureHolds-of_given spec v c = elim (Bool-cases (is_numeric_kind spec.kind)) [
  | inl n ↦ number_holds spec v (number v) n refl (rw n at c)
  | inr n ↦ elim (Bool-cases (spec.kind == "category")) [
    | inl k ↦ category_holds spec v (text v) n k refl (rw (n, k) at c)
    | inr k ↦ unchecked n k
  ]
]

given_of_FeatureHolds :
    (spec : FeatureSpec) (v : Value) → FeatureHolds spec (some v) → GivenCondition spec v
unfolding GivenCondition NumberCondition CategoryCondition
given_of_FeatureHolds spec v (in_range x lo hi n e has_lo has_hi no_less no_more whole) =
    rw (n, e)
      (
        record {
          lo = lo;
          hi = hi;
          has_lo = has_lo;
          has_hi = has_hi;
          not_below = no_less;
          not_above = no_more;
        },
        whole,
      )
given_of_FeatureHolds spec v (in_categories s n k e c) = rw (n, k, e) c
given_of_FeatureHolds spec v (unchecked n k) = rw (n, k) tt

Checks-check_feature :
    (name : String) (spec : FeatureSpec) (o : Option Value)
    → Checks (FeatureHolds spec o) (check_feature name spec o)
unfolding check_feature GivenCondition
Checks-check_feature name spec none =
    Checks-iff absent required_of_absent
      (Checks-reject_if spec.required "MISSING_INPUT" (named "spec.inputs." name))
  where
    required_of_absent : FeatureHolds spec none → spec.required ≡ false
    required_of_absent (absent h) = h
Checks-check_feature name spec (some v) =
    Checks-iff (FeatureHolds-of_given spec v) (given_of_FeatureHolds spec v) (
      Checks-if (is_numeric_kind spec.kind) (Checks-check_number name spec v (number v)) (
        Checks-if (spec.kind == "category") (Checks-check_category name spec (text v))
          (Checks-id tt)))

Checks-check_features :
    (features : Map FeatureSpec) (inputs : Map Value)
    → Checks
        (All (λ (e : String × FeatureSpec). FeatureHolds e.1 (lookup inputs e.0)) features)
        (check_features features inputs)
unfolding check_features
Checks-check_features [] inputs = Checks-id tt
Checks-check_features ((name, spec) ∷ features) inputs =
    Checks-then (Checks-check_feature name spec (lookup inputs name))
      (Checks-check_features features inputs)

-- validateInputs keeps a decision admissible exactly when every input is declared, every feature
-- holds of its input, and every relation holds between the numbers given.
pub Checks-validate_inputs :
    (p : KernelProfile) (r : KernelRequest)
    → Checks (InputsHold p.spec.input_domain r.spec.inputs) (validate_inputs p r)
unfolding validate_inputs
Checks-validate_inputs p r =
    Checks-iff (λ c. record { known = c.0; features = c.1.0; relations = c.1.1 })
      (λ k. (k.known, (k.features, k.relations)))
      (Checks-then (Checks-unknown_inputs p.spec.input_domain.features r.spec.inputs) (
        Checks-then (Checks-check_features p.spec.input_domain.features r.spec.inputs)
          (Checks-check_relations p.spec.input_domain.relations r.spec.inputs)))
