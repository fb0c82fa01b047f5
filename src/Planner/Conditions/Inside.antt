-- ===== src/Planner/Conditions/Inside.antt =====
-- validateInputs of pkg/planner/planner.go on numbers that are not NaN: an accepted number lies between
-- the bounds of its feature.
use claim2kernel.Base.{
  All, Bool, Bool-cases, Map, Option, String, [], false, inl, inr, lookup, none, refl, some, subst,
  true, ◌==◌, ◌∷◌, ◌≡◌,
}
use claim2kernel.Contract.Types.{FeatureSpec, InputDomain, KernelProfile, KernelRequest}
use claim2kernel.Contract.Validate.Domain.{is_numeric_kind}
use claim2kernel.Contract.Value.{Value, number}
use claim2kernel.Float64.{Float64, is_nan, lef}
use claim2kernel.Float64.Order.{lef_of_not_ltf}
use claim2kernel.Planner.Checks.{Checks, Checks-iff}
use claim2kernel.Planner.Conditions.{
  FeatureHolds, InputsHold, absent, in_categories, in_range, unchecked,
}
use claim2kernel.Planner.Conditions.Inputs.{Checks-validate_inputs}
use claim2kernel.Planner.Inputs.{validate_inputs}

-- The number is NaN, where there is one.
abbrev pub holds_nan : Option Float64 → Bool
holds_nan none = false
holds_nan (some x) = is_nan x

not_nan : (o : Option Float64) (x : Float64) → holds_nan o ≡ false → o ≡ some x → is_nan x ≡ false
not_nan none x h e = absurd (cc (e))
not_nan (some y) x h e = let one : y ≡ x = cc (e) in subst (λ z. is_nan z ≡ false) one h

-- Both bounds are there, and the number lies between them.
pub record IsBetween (spec : FeatureSpec) (x : Float64) : Type 0 where
  pub lo : Float64
  pub hi : Float64
  pub has_lo : spec.minimum ≡ some lo
  pub has_hi : spec.maximum ≡ some hi
  pub above_lo : lef lo x ≡ true
  pub below_hi : lef x hi ≡ true

-- An input of a numeric feature is a number between its bounds.
abbrev pub LiesBetween : FeatureSpec → Option Value → Type 0
LiesBetween spec o =
    (v : Value)
    → o ≡ some v
    → is_numeric_kind spec.kind ≡ true
    → (x : Float64) × (number v ≡ some x) × IsBetween spec x

abbrev pub AreNumbers : Map Value → Type 0
AreNumbers inputs = All (λ (e : String × Value). holds_nan (number e.1) ≡ false) inputs

abbrev pub AreBounds : Map FeatureSpec → Type 0
AreBounds features =
    All
      (λ (e : String × FeatureSpec).
        (holds_nan e.1.minimum ≡ false) × (holds_nan e.1.maximum ≡ false))
      features

AreNumbers-lookup :
    (inputs : Map Value) (name : String) (v : Value)
    → AreNumbers inputs
    → lookup inputs name ≡ some v
    → holds_nan (number v) ≡ false
unfolding lookup
AreNumbers-lookup [] name v h e = absurd (cc (e))
AreNumbers-lookup ((key, w) ∷ inputs) name v h e = elim (Bool-cases (key == name)) [
  | inl found ↦
      let one : w ≡ v = cc (rw (found, lookup) at e) in
      subst (λ z. holds_nan (number z) ≡ false) one h.0
  | inr later ↦ AreNumbers-lookup inputs name v h.1 (rw (later, lookup) at e)
]

LiesBetween-of_holds :
    (spec : FeatureSpec) (o : Option Value)
    → ((v : Value) → o ≡ some v → holds_nan (number v) ≡ false)
    → holds_nan spec.minimum ≡ false
    → holds_nan spec.maximum ≡ false
    → FeatureHolds spec o
    → LiesBetween spec o
LiesBetween-of_holds spec none clear lo_clear hi_clear (absent h) v e k = absurd (cc (e))
LiesBetween-of_holds spec (some w) clear lo_clear hi_clear
      (in_range x lo hi n given has_lo has_hi not_less not_more whole) v e k =
    let one : w ≡ v = cc (e) in
    let real = not_nan (number w) x (clear w refl) given in
    (
      x,
      subst (λ z. number z ≡ some x) one given,
      record {
        lo = lo;
        hi = hi;
        has_lo = has_lo;
        has_hi = has_hi;
        above_lo = lef_of_not_ltf x lo real (not_nan spec.minimum lo lo_clear has_lo) not_less;
        below_hi = lef_of_not_ltf hi x (not_nan spec.maximum hi hi_clear has_hi) real not_more;
      },
    )
LiesBetween-of_holds spec (some w) clear lo_clear hi_clear (in_categories s n c t m) v e k =
    absurd (cc (n, k))
LiesBetween-of_holds spec (some w) clear lo_clear hi_clear (unchecked n c) v e k =
    absurd (cc (n, k))

LiesBetween-All :
    (features : Map FeatureSpec) (inputs : Map Value)
    → AreNumbers inputs
    → AreBounds features
    → All (λ (e : String × FeatureSpec). FeatureHolds e.1 (lookup inputs e.0)) features
    → All (λ (e : String × FeatureSpec). LiesBetween e.1 (lookup inputs e.0)) features
LiesBetween-All [] inputs h b k = tt
LiesBetween-All ((name, spec) ∷ features) inputs h b k = (
  LiesBetween-of_holds spec (lookup inputs name) (λ v e. AreNumbers-lookup inputs name v h e) b.0.0
      b.0.1 k.0,
  LiesBetween-All features inputs h b.1 k.1,
)

-- The inputs are declared, hold of their features and relations, and lie between the bounds.
pub record InputsInside (domain : InputDomain) (inputs : Map Value) : Type 0 where
  pub hold : InputsHold domain inputs
  pub inside :
      All (λ (e : String × FeatureSpec). LiesBetween e.1 (lookup inputs e.0)) domain.features

-- Where no input and no bound is NaN, validateInputs keeps a decision admissible exactly when every
-- input is declared, every given input of a numeric feature is a number between its bounds, every
-- declared feature holds of its input, and every relation holds between the numbers given.
pub Checks-validate_inputs_inside :
    (p : KernelProfile) (r : KernelRequest)
    → AreNumbers r.spec.inputs
    → AreBounds p.spec.input_domain.features
    → Checks (InputsInside p.spec.input_domain r.spec.inputs) (validate_inputs p r)
Checks-validate_inputs_inside p r h b =
    Checks-iff
      (λ c. record {
        hold = c;
        inside = LiesBetween-All p.spec.input_domain.features r.spec.inputs h b c.features;
      })
      (λ k. k.hold) (Checks-validate_inputs p r)
