-- ===== src/Planner/Conditions.antt =====
-- What pkg/planner/planner.go demands of a request, as conditions that name no decision.
pub mod Relations
pub mod Inputs
pub mod Envelope
pub mod Devices
pub mod Values
pub mod Assertions
pub mod Inside
use mathlib.Core.List.{Memᴰ}
use claim2kernel.Base.{
  All, Bool, List, Map, Option, String, contains, false, is_some, length, lookup, none, some, true,
  ◌-◌, ◌==◌, ◌^◌, ◌∷◌, ◌≡◌, ◌≢◌,
}
use claim2kernel.Base.Int.{negsuc, pos, ℤ, ◌≤ℤ◌}
use claim2kernel.Contract.Semver.Range.{match_version_range, matched}
use claim2kernel.Contract.Types.{
  DeviceAssertion, FeatureSpec, InputDomain, NumericalCertificate, ProfileSpec, Range, Relation,
}
use claim2kernel.Contract.Validate.Domain.{is_numeric_kind}
use claim2kernel.Contract.Value.{Value, bool_value, kind, number, number_value, string_value, text}
use claim2kernel.Dra.{Attribute, Device, DeviceMetadata, DeviceMetadataRequest}
use claim2kernel.Dra.Attributes.{elements}
use claim2kernel.Float64.{Float64, eqf, from_int, lef, ltf, trunc}
use claim2kernel.Planner.{is_finite}
use claim2kernel.Planner.Inputs.{number_at}

-- A declared feature against the request's input of its name.
pub data FeatureHolds (spec : FeatureSpec) : Option Value → Type 0 where
  absent : spec.required ≡ false → FeatureHolds spec none
  in_range :
      {v : Value} (x lo hi : Float64)
      → is_numeric_kind spec.kind ≡ true
      → number v ≡ some x
      → spec.minimum ≡ some lo
      → spec.maximum ≡ some hi
      → ltf x lo ≡ false
      → ltf hi x ≡ false
      → ((spec.kind == "integer") ≡ true → eqf (trunc x) x ≡ true)
      → FeatureHolds spec (some v)
  in_categories :
      {v : Value} (s : String)
      → is_numeric_kind spec.kind ≡ false
      → (spec.kind == "category") ≡ true
      → text v ≡ some s
      → contains spec.categories s ≡ true
      → FeatureHolds spec (some v)
  unchecked :
      {v : Value}
      → is_numeric_kind spec.kind ≡ false
      → (spec.kind == "category") ≡ false
      → FeatureHolds spec (some v)

-- What an operator of a relation says of two numbers.
pub data Compares (op : String) (l r : Float64) : Type 0 where
  is_less : op ≡ "<" → ltf l r ≡ true → Compares op l r
  is_less_or_same : op ≡ "<=" → lef l r ≡ true → Compares op l r
  is_same : op ≡ "=" → eqf l r ≡ true → Compares op l r
  is_more_or_same : op ≡ ">=" → lef r l ≡ true → Compares op l r
  is_more : op ≡ ">" → ltf r l ≡ true → Compares op l r

-- A relation between two numeric inputs that are both given.
abbrev pub RelationHolds : Map Value → Relation → Type 0
RelationHolds inputs rel =
    (l r : Float64)
    → number_at inputs rel.left ≡ some l
    → number_at inputs rel.right ≡ some r
    → Compares rel.op l r

pub record InputsHold (domain : InputDomain) (inputs : Map Value) : Type 0 where
  pub known : All (λ (e : String × Value). is_some (lookup domain.features e.0) ≡ true) inputs
  pub features :
      All (λ (e : String × FeatureSpec). FeatureHolds e.1 (lookup inputs e.0)) domain.features
  pub relations : All (RelationHolds inputs) domain.relations

-- An observation inside its calibrated range.
pub record MetricHolds (rng : Range) (o : Option Float64) : Type 0 where
  pub value : Float64
  pub given : o ≡ some value
  pub finite_value : is_finite value ≡ true
  pub not_below : ltf value rng.minimum ≡ false
  pub not_above : ltf rng.maximum value ≡ false

pub record InterferenceHolds (metrics : Map Range) (obs : Map Float64) : Type 0 where
  pub known : All (λ (e : String × Float64). is_some (lookup metrics e.0) ≡ true) obs
  pub inside : All (λ (e : String × Range). MetricHolds e.1 (lookup obs e.0)) metrics

pub record VersionHolds (expr : String) (o : Option String) : Type 0 where
  pub version : String
  pub given : o ≡ some version
  pub supported : match_version_range version expr ≡ matched true

abbrev pub VersionsHold : Map String → Map String → Type 0
VersionsHold required versions =
    All (λ (e : String × String). VersionHolds e.1 (lookup versions e.0)) required

pub record NumericalHolds (n : NumericalCertificate) (budget : Float64) : Type 0 where
  pub within_budget : ltf budget n.upper_bound ≡ false
  pub observed_within : ltf n.upper_bound n.observed_max ≡ false

-- Two values are the same one.
pub data Equals : Value → Value → Type 0 where
  equal_numbers : (x y : Float64) → eqf x y ≡ true → Equals (number_value x) (number_value y)
  equal_texts : (s : String) → Equals (string_value s) (string_value s)
  equal_truths : (b : Bool) → Equals (bool_value b) (bool_value b)

-- The attribute has one scalar value: its first member that is set, where an integer is in the exact
-- range of a double.
pub data Shows (a : Attribute) : Value → Type 0 where
  shows_int :
      (i : ℤ)
      → a.int ≡ some i
      → negsuc (2 ^ 53 - 2) ≤ℤ i
      → i ≤ℤ pos (2 ^ 53 - 1)
      → Shows a (number_value (from_int i))
  shows_bool : (b : Bool) → a.int ≡ none → a.bool ≡ some b → Shows a (bool_value b)
  shows_string :
      (s : String) → a.int ≡ none → a.bool ≡ none → a.string ≡ some s → Shows a (string_value s)
  shows_version :
      (s : String)
      → a.int ≡ none
      → a.bool ≡ none
      → a.string ≡ none
      → a.version ≡ some s
      → Shows a (string_value s)

-- The attribute lists the value. An integer of a list stands for the double nearest to it.
pub data Lists (a : Attribute) : Value → Type 0 where
  lists_int :
      (i : ℤ) (x : Float64)
      → Memᴰ i (elements a.ints)
      → eqf (from_int i) x ≡ true
      → Lists a (number_value x)
  lists_bool : (b : Bool) → Memᴰ b (elements a.bools) → Lists a (bool_value b)
  lists_string : (s : String) → contains (elements a.strings) s ≡ true → Lists a (string_value s)
  lists_version : (s : String) → contains (elements a.versions) s ≡ true → Lists a (string_value s)

-- What an assertion says of an attribute, by its operator.
pub data Asserts (actual : Attribute) (a : DeviceAssertion) : Type 0 where
  contains_scalar :
      (v : Value) → a.op ≡ "contains" → Shows actual v → Equals v a.value → Asserts actual a
  contains_item :
      a.op ≡ "contains" → ((v : Value) → ¬ Shows actual v) → Lists actual a.value → Asserts actual a
  is_equal : (v : Value) → a.op ≡ "eq" → Shows actual v → Equals v a.value → Asserts actual a
  is_unequal : (v : Value) → a.op ≡ "ne" → Shows actual v → ¬ Equals v a.value → Asserts actual a
  is_at_least :
      (x y : Float64)
      → a.op ≡ "gte"
      → Shows actual (number_value x)
      → a.value ≡ number_value y
      → lef y x ≡ true
      → Asserts actual a
  is_at_most :
      (x y : Float64)
      → a.op ≡ "lte"
      → Shows actual (number_value x)
      → a.value ≡ number_value y
      → lef x y ≡ true
      → Asserts actual a

-- Every assertion holds of the device's attribute of that name.
pub record AssertionHolds (a : DeviceAssertion) (o : Option Attribute) : Type 0 where
  pub actual : Attribute
  pub given : o ≡ some actual
  pub asserted : Asserts actual a

abbrev pub DeviceHolds : List DeviceAssertion → Device → Type 0
DeviceHolds assertions dev =
    All (λ (a : DeviceAssertion). AssertionHolds a (lookup dev.attributes a.attribute)) assertions

-- The devices of the first request of the name.
pub data FirstNamed (name : String) (devices : List Device)
    : List DeviceMetadataRequest → Type 0 where
  first_here :
      {r : DeviceMetadataRequest} {rs : List DeviceMetadataRequest}
      → r.name ≡ name
      → r.devices ≡ devices
      → FirstNamed name devices (r ∷ rs)
  first_later :
      {r : DeviceMetadataRequest} {rs : List DeviceMetadataRequest}
      → r.name ≢ name
      → FirstNamed name devices rs
      → FirstNamed name devices (r ∷ rs)

pub record AllocationHolds (spec : ProfileSpec) (m : DeviceMetadata) (name : String) : Type 0 where
  pub devices : List Device
  pub given : FirstNamed name devices m.requests
  pub exact_count : pos (length devices) ≡ spec.resources.device_count
  pub asserted : All (DeviceHolds spec.device_assertions) devices
