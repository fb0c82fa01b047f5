-- ===== src/Planner/Devices.antt =====
-- validateDRA and assertAttribute of pkg/planner/planner.go.
use claim2kernel.Base.{
  Bool, List, Option, String, [], false, if◌then◌else◌, length, lookup, none, not, some, ◌==◌, ◌∷◌,
}
use claim2kernel.Base.Int.{eq_ℤ, pos}
use claim2kernel.Contract.Types.{DeviceAssertion, KernelProfile}
use claim2kernel.Contract.Value.{Value, bool_value, number, number_value, string_value}
use claim2kernel.Dra.{Attribute, Device, DeviceMetadata, devices_for_request}
use claim2kernel.Dra.Attributes.{attribute_contains, bool_eq, scalar}
use claim2kernel.Float64.{Float64, eqf, lef}
use claim2kernel.Planner.{Decision, named, reject, reject_if}

-- `equal`, whose text is that of equalValue in pkg/dra
unfoldable pub equal : Value → Value → Bool
equal (number_value x) (number_value y) = eqf x y
equal (string_value x) (string_value y) = x == y
equal (bool_value x) (bool_value y) = bool_eq x y
equal _ _ = false

unfoldable pub compare_numbers : String → Option Float64 → Option Float64 → Bool
compare_numbers op (some a) (some b) =
    if op == "gte" then lef b a else if op == "lte" then lef a b else false
compare_numbers op _ _ = false

unfoldable pub assert_scalar : Option Value → DeviceAssertion → Bool
unfolding equal compare_numbers number
assert_scalar none a = false
assert_scalar (some v) a =
    if a.op == "eq"
    then equal v a.value
    else if a.op == "ne"
    then not (equal v a.value)
    else compare_numbers a.op (number v) (number a.value)

unfoldable pub assert_attribute : Attribute → DeviceAssertion → Bool
unfolding assert_scalar scalar attribute_contains
assert_attribute actual a =
    if a.op == "contains"
    then attribute_contains actual a.value
    else assert_scalar (scalar actual) a

unfoldable pub check_assertion : DeviceAssertion → Option Attribute → Decision → Decision
unfolding reject reject_if assert_attribute
check_assertion a none d = reject "DRA_ATTRIBUTE_MISSING" (named "runtime.metadata." a.attribute) d
check_assertion a (some actual) d =
    reject_if (not (assert_attribute actual a)) "DRA_ATTRIBUTE_MISMATCH"
      (named "runtime.metadata." a.attribute) d

unfoldable pub check_assertions : List DeviceAssertion → Device → Decision → Decision
unfolding check_assertion
check_assertions [] dev d = d
check_assertions (a ∷ rest) dev d =
    check_assertions rest dev (check_assertion a (lookup dev.attributes a.attribute) d)

unfoldable pub check_devices : List DeviceAssertion → List Device → Decision → Decision
unfolding check_assertions
check_devices assertions [] d = d
check_devices assertions (dev ∷ devices) d =
    check_devices assertions devices (check_assertions assertions dev d)

unfoldable pub check_allocation : KernelProfile → Option (List Device) → Decision → Decision
unfolding reject reject_if check_devices
check_allocation p none d = reject "DRA_REQUEST_MISSING" "runtime.metadata" d
check_allocation p (some devices) d = check_devices p.spec.device_assertions devices (
    reject_if (not (eq_ℤ (pos (length devices)) p.spec.resources.device_count))
      "DRA_DEVICE_COUNT_MISMATCH" "runtime.metadata" d)

unfoldable pub validate_dra : KernelProfile → DeviceMetadata → String → Decision → Decision
unfolding check_allocation devices_for_request
validate_dra p m request_name d = check_allocation p (devices_for_request m request_name) d
