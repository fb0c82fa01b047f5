-- ===== src/Planner/Conditions/Assertions.antt =====
-- assertAttribute of pkg/planner/planner.go, with Contains of pkg/dra/metadata.go, holds exactly where
-- the assertion says so of the attribute.
use claim2kernel.Base.{
  ==-true, Bool-cases, Option-cases, String, inl, inr, not, refl, some, subst, sym, true, ◌==◌, ◌∙◌,
  ◌≡◌,
}
use claim2kernel.Contract.Types.{DeviceAssertion}
use claim2kernel.Contract.Value.{Value, bool_value, number, number_value, string_value, unset}
use claim2kernel.Dra.{Attribute}
use claim2kernel.Dra.Attributes.{attribute_contains, scalar}
use claim2kernel.Float64.{Float64}
use claim2kernel.Planner.Conditions.{
  Asserts, Equals, Lists, Shows, contains_item, contains_scalar, is_at_least, is_at_most, is_equal,
  is_unequal,
}
use claim2kernel.Planner.Conditions.Values.{
  Equals-of_test, Lists-of_test, Shows-of_scalar, equal-equal_value, none_shown, scalar_of_Shows,
  test_of_Equals, test_of_Lists,
}
use claim2kernel.Planner.Devices.{assert_attribute, assert_scalar, compare_numbers, equal}

-- Contains: the scalar value is the one, or there is none and the list has it.
Asserts-of_contains :
    (actual : Attribute) (a : DeviceAssertion)
    → a.op ≡ "contains"
    → attribute_contains actual a.value ≡ true
    → Asserts actual a
unfolding attribute_contains
Asserts-of_contains actual a is h = elim (Option-cases (scalar actual)) [
  | inl bare ↦
      contains_item is (none_shown actual bare)
        (Lists-of_test actual a.value (rw (bare, attribute_contains) at h))
  | inr (v, found) ↦
      contains_scalar v is (Shows-of_scalar actual v found)
        (Equals-of_test v a.value (rw (found, attribute_contains) at h))
]

contains_of_scalar :
    (actual : Attribute) (v w : Value)
    → Shows actual v
    → Equals v w
    → attribute_contains actual w ≡ true
unfolding attribute_contains
contains_of_scalar actual v w shown same =
    rw (scalar_of_Shows actual v shown, attribute_contains) (test_of_Equals v w same)

contains_of_item :
    (actual : Attribute) (w : Value)
    → ((v : Value) → ¬ Shows actual v)
    → Lists actual w
    → attribute_contains actual w ≡ true
unfolding attribute_contains
contains_of_item actual w bare listed = elim (Option-cases (scalar actual)) [
  | inl gone ↦ rw (gone, attribute_contains) (test_of_Lists actual w listed)
  | inr (v, found) ↦ absurd (bare v (Shows-of_scalar actual v found))
]

-- Two numbers under an operator of order.
record Ordered (op : String) (v w : Value) : Type 0 where
  left : Float64
  right : Float64
  left_is : v ≡ number_value left
  right_is : w ≡ number_value right
  ordered : compare_numbers op (some left) (some right) ≡ true

Ordered-of_test :
    (op : String) (v w : Value) → compare_numbers op (number v) (number w) ≡ true → Ordered op v w
unfolding compare_numbers number
Ordered-of_test op (number_value x) (number_value y) h = record {
  left = x;
  right = y;
  left_is = refl;
  right_is = refl;
  ordered = h;
}
Ordered-of_test op (number_value x) unset h = absurd (cc (h))
Ordered-of_test op (number_value x) (string_value s) h = absurd (cc (h))
Ordered-of_test op (number_value x) (bool_value b) h = absurd (cc (h))
Ordered-of_test op unset w h = absurd (cc (h))
Ordered-of_test op (string_value s) w h = absurd (cc (h))
Ordered-of_test op (bool_value b) w h = absurd (cc (h))

Asserts-of_order :
    (actual : Attribute) (a : DeviceAssertion) (v : Value)
    → Shows actual v
    → compare_numbers a.op (number v) (number a.value) ≡ true
    → Asserts actual a
unfolding compare_numbers
Asserts-of_order actual a v shown h =
    let k = Ordered-of_test a.op v a.value h in
    let seen : Shows actual (number_value k.left) = subst (Shows actual) k.left_is shown in
    elim (Bool-cases (a.op == "gte")) [
      | inl is ↦
          is_at_least k.left k.right (==-true a.op _ is) seen k.right_is
            (rw (is, compare_numbers) at k.ordered)
      | inr not_gte ↦ elim (Bool-cases (a.op == "lte")) [
        | inl is ↦
            is_at_most k.left k.right (==-true a.op _ is) seen k.right_is
              (rw (not_gte, is, compare_numbers) at k.ordered)
        | inr not_lte ↦ absurd (cc (rw (not_gte, not_lte, compare_numbers) at k.ordered))
      ]
    ]

Asserts-of_scalar :
    (actual : Attribute) (a : DeviceAssertion)
    → assert_scalar (scalar actual) a ≡ true
    → Asserts actual a
unfolding assert_scalar
Asserts-of_scalar actual a h = elim (Option-cases (scalar actual)) [
  | inl bare ↦ absurd (cc (rw (bare, assert_scalar) at h))
  | inr (v, found) ↦
      let shown = Shows-of_scalar actual v found in
      elim (Bool-cases (a.op == "eq")) [
        | inl is ↦ is_equal v (==-true a.op _ is) shown (
            Equals-of_test v a.value
              (sym (equal-equal_value v a.value) ∙ (rw (found, is, assert_scalar) at h)))
        | inr not_eq ↦ elim (Bool-cases (a.op == "ne")) [
          | inl is ↦
              let apart : not (equal v a.value) ≡ true =
                rw (found, not_eq, is, assert_scalar) at h in
              is_unequal v (==-true a.op _ is) shown
                (λ k. absurd (cc (apart, equal-equal_value v a.value, test_of_Equals v a.value k)))
          | inr not_ne ↦
              Asserts-of_order actual a v shown (rw (found, not_eq, not_ne, assert_scalar) at h)
        ]
      ]
]

pub Asserts-of_test :
    (actual : Attribute) (a : DeviceAssertion) → assert_attribute actual a ≡ true → Asserts actual a
unfolding assert_attribute
Asserts-of_test actual a h = elim (Bool-cases (a.op == "contains")) [
  | inl is ↦ Asserts-of_contains actual a (==-true a.op _ is) (rw (is, assert_attribute) at h)
  | inr other_op ↦ Asserts-of_scalar actual a (rw (other_op, assert_attribute) at h)
]

apart-test : (v w : Value) → ¬ Equals v w → not (equal v w) ≡ true
apart-test v w h = elim (Bool-cases (equal v w)) [
  | inl same ↦ absurd (h (Equals-of_test v w (sym (equal-equal_value v w) ∙ same)))
  | inr apart ↦ rw apart refl
]

pub test_of_Asserts :
    (actual : Attribute) (a : DeviceAssertion) → Asserts actual a → assert_attribute actual a ≡ true
unfolding assert_attribute assert_scalar compare_numbers number
test_of_Asserts actual a (contains_scalar v is shown same) =
    rw is (contains_of_scalar actual v a.value shown same)
test_of_Asserts actual a (contains_item is bare listed) =
    rw is (contains_of_item actual a.value bare listed)
test_of_Asserts actual a (is_equal v is shown same) =
    rw (is, scalar_of_Shows actual v shown)
      (equal-equal_value v a.value ∙ test_of_Equals v a.value same)
test_of_Asserts actual a (is_unequal v is shown apart) =
    rw (is, scalar_of_Shows actual v shown) (apart-test v a.value apart)
test_of_Asserts actual a (is_at_least x y is shown w h) =
    rw (is, scalar_of_Shows actual (number_value x) shown, w) h
test_of_Asserts actual a (is_at_most x y is shown w h) =
    rw (is, scalar_of_Shows actual (number_value x) shown, w) h
