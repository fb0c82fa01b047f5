-- ===== src/Contract/Value.antt =====
-- pkg/contract/value.go: the scalar values of a contract. The Go struct carries a kind and one used
-- field; here the constructor is the kind, and `unset` is the zero struct.
use claim2kernel.Base.{Bool, Option, String, none, some, ℕ, ◌-◌, ◌^◌}
use claim2kernel.Float64.{Float64}

-- MaxExactInteger
abbrev pub max_exact_integer : ℕ
max_exact_integer = 2 ^ 53 - 1

pub data Value : Type 0 where
  unset : Value
  number_value : Float64 → Value
  string_value : String → Value
  bool_value : Bool → Value

pub data ValueKind : Type 0 where
  no_kind number_kind string_kind bool_kind : ValueKind

unfoldable pub kind : Value → ValueKind
kind unset = no_kind
kind (number_value _) = number_kind
kind (string_value _) = string_kind
kind (bool_value _) = bool_kind

-- `v.Number()`: the number, if that is the kind
unfoldable pub number : Value → Option Float64
number (number_value x) = some x
number _ = none

-- `v.String()`
unfoldable pub text : Value → Option String
text (string_value s) = some s
text _ = none

-- `v.Bool()`
unfoldable pub truth : Value → Option Bool
truth (bool_value b) = some b
truth _ = none
