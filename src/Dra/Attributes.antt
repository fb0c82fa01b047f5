-- ===== src/Dra/Attributes.antt =====
-- Scalar, Contains and equalValue of pkg/dra/metadata.go.
use claim2kernel.Base.{
  Bool, List, Option, [], contains, false, if◌then◌else◌, none, not, some, true, ◌==◌, ◌||◌, ◌∷◌,
}
use claim2kernel.Base.Int.{ltb_ℤ, pos, sub_ℕ, ℤ}
use claim2kernel.Contract.Value.{
  Value, bool_value, max_exact_integer, number_value, string_value, unset,
}
use claim2kernel.Dra.{Attribute}
use claim2kernel.Float64.{Float64, eqf, from_int}

-- An `int64` beyond the exact range of a double has no scalar value.
unfoldable pub exact_int : ℤ → Option Value
unfolding from_int
exact_int i =
    if ltb_ℤ (pos max_exact_integer) i || ltb_ℤ i (sub_ℕ 0 max_exact_integer)
    then none
    else some (number_value (from_int i))

-- `Scalar`: the first scalar member that is set.
unfoldable pub scalar : Attribute → Option Value
unfolding exact_int
scalar a = elim a.int [
  | some i ↦ exact_int i
  | none ↦ elim a.bool [
    | some b ↦ some (bool_value b)
    | none ↦ elim a.string [
      | some s ↦ some (string_value s)
      | none ↦ elim a.version [ some s ↦ some (string_value s) | none ↦ none ]
    ]
  ]
]

abbrev pub bool_eq : Bool → Bool → Bool
bool_eq true b = b
bool_eq false b = not b

-- equalValue, and `equal` of pkg/planner/planner.go, which has the same text
unfoldable pub equal_value : Value → Value → Bool
equal_value (number_value x) (number_value y) = eqf x y
equal_value (string_value x) (string_value y) = x == y
equal_value (bool_value x) (bool_value y) = bool_eq x y
equal_value _ _ = false

abbrev pub elements {ℓ} : {A : Type ℓ} → Option (List A) → List A
elements none = []
elements (some xs) = xs

unfoldable pub any_int : List ℤ → Float64 → Bool
unfolding from_int
any_int [] n = false
any_int (x ∷ xs) n = eqf (from_int x) n || any_int xs n

unfoldable pub any_bool : List Bool → Bool → Bool
any_bool [] b = false
any_bool (x ∷ xs) b = bool_eq x b || any_bool xs b

unfoldable pub list_contains : Attribute → Value → Bool
unfolding any_int any_bool
list_contains a (number_value n) = any_int (elements a.ints) n
list_contains a (bool_value b) = any_bool (elements a.bools) b
list_contains a (string_value s) =
    contains (elements a.strings) s || contains (elements a.versions) s
list_contains a unset = false

-- `Contains`
unfoldable pub attribute_contains : Attribute → Value → Bool
unfolding scalar equal_value list_contains
attribute_contains a v = elim (scalar a) [ some s ↦ equal_value s v | none ↦ list_contains a v ]
