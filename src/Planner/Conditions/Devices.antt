-- ===== src/Planner/Conditions/Devices.antt =====
-- validateDRA of pkg/planner/planner.go rejects exactly where the allocation does not hold.
use claim2kernel.Base.{
  ==-false, ==-true, All, Bool-cases, List, Option, String, [], ap, arith, eq_refl, inl, inr,
  length, lookup, none, not, not-false, refl, some, subst, true, ◌==◌, ◌∙◌, ◌∷◌, ◌≡◌,
}
use claim2kernel.Base.Int.{eq_ℤ, pos, ℤ}
use claim2kernel.Contract.Types.{DeviceAssertion, KernelProfile, ProfileSpec}
use claim2kernel.Dra.{
  Attribute, Device, DeviceMetadata, DeviceMetadataRequest, devices_for_request, find_request,
}
use claim2kernel.Planner.{named}
use claim2kernel.Planner.Checks.{
  Checks, Checks-id, Checks-iff, Checks-reject, Checks-reject_if, Checks-then,
}
use claim2kernel.Planner.Conditions.{
  AllocationHolds, AssertionHolds, DeviceHolds, FirstNamed, first_here, first_later,
}
use claim2kernel.Planner.Conditions.Assertions.{Asserts-of_test, test_of_Asserts}
use claim2kernel.Planner.Devices.{
  assert_attribute, check_allocation, check_assertion, check_assertions, check_devices,
  validate_dra,
}

Checks-check_assertion :
    (a : DeviceAssertion) (o : Option Attribute) → Checks (AssertionHolds a o) (check_assertion a o)
unfolding check_assertion
Checks-check_assertion a none = Checks-reject _ _ (λ k. absurd (cc (k.given)))
Checks-check_assertion a (some v) =
    Checks-iff
      (λ h. record {
        actual = v;
        given = refl;
        asserted = Asserts-of_test v a (not-false (assert_attribute v a) h);
      })
      (λ k.
        let same : v ≡ k.actual = cc (k.given) in
        ap (λ w. not (assert_attribute w a)) same ∙ ap not (test_of_Asserts k.actual a k.asserted))
      (Checks-reject_if (not (assert_attribute v a)) "DRA_ATTRIBUTE_MISMATCH"
        (named "runtime.metadata." a.attribute))

Checks-check_assertions :
    (assertions : List DeviceAssertion) (dev : Device)
    → Checks (DeviceHolds assertions dev) (check_assertions assertions dev)
unfolding check_assertions
Checks-check_assertions [] dev = Checks-id tt
Checks-check_assertions (a ∷ rest) dev =
    Checks-then (Checks-check_assertion a (lookup dev.attributes a.attribute))
      (Checks-check_assertions rest dev)

Checks-check_devices :
    (assertions : List DeviceAssertion) (devices : List Device)
    → Checks (All (DeviceHolds assertions) devices) (check_devices assertions devices)
unfolding check_devices
Checks-check_devices assertions [] = Checks-id tt
Checks-check_devices assertions (dev ∷ devices) =
    Checks-then (Checks-check_assertions assertions dev) (Checks-check_devices assertions devices)

find_request-FirstNamed :
    (rs : List DeviceMetadataRequest) (name : String) (devices : List Device)
    → find_request rs name ≡ some devices
    → FirstNamed name devices rs
unfolding find_request
find_request-FirstNamed [] name devices h = absurd (cc (h))
find_request-FirstNamed (r ∷ rs) name devices h = elim (Bool-cases (r.name == name)) [
  | inl found ↦ first_here (==-true r.name name found) (cc (rw (found, find_request) at h))
  | inr later ↦
      first_later (==-false r.name name later)
        (find_request-FirstNamed rs name devices (rw (later, find_request) at h))
]

find_request_of_FirstNamed :
    (rs : List DeviceMetadataRequest) (name : String) (devices : List Device)
    → FirstNamed name devices rs
    → find_request rs name ≡ some devices
unfolding find_request
find_request_of_FirstNamed [] name devices k = elim k [ ]
find_request_of_FirstNamed (r ∷ rs) name devices (first_here e d) =
    rw (e, eq_refl, find_request) (ap some d)
find_request_of_FirstNamed (r ∷ rs) name devices (first_later e k) =
    elim (Bool-cases (r.name == name)) [
      | inl found ↦ absurd (e (==-true r.name name found))
      | inr later ↦ rw (later, find_request) (find_request_of_FirstNamed rs name devices k)
    ]

eq_ℤ-≡ : (a b : ℤ) → eq_ℤ a b ≡ true → a ≡ b
eq_ℤ-≡ a b h = ground arith

eq_ℤ-refl : (a : ℤ) → eq_ℤ a a ≡ true
eq_ℤ-refl a = ground arith

-- The devices found are as many as the contract states, and every assertion holds of each.
record Suits (spec : ProfileSpec) (o : Option (List Device)) : Type 0 where
  devices : List Device
  given : o ≡ some devices
  exact_count : pos (length devices) ≡ spec.resources.device_count
  asserted : All (DeviceHolds spec.device_assertions) devices

Checks-check_allocation :
    (p : KernelProfile) (o : Option (List Device)) → Checks (Suits p.spec o) (check_allocation p o)
unfolding check_allocation
Checks-check_allocation p none = Checks-reject _ _ (λ k. absurd (cc (k.given)))
Checks-check_allocation p (some devices) =
    let count = pos (length devices) in
    let wanted = p.spec.resources.device_count in
    Checks-iff
      (λ c. record {
        devices = devices;
        given = refl;
        exact_count = eq_ℤ-≡ count wanted (not-false (eq_ℤ count wanted) c.0);
        asserted = c.1;
      })
      (λ k.
        let found : k.devices ≡ devices = cc (k.given) in
        (
          ap not (
              subst (λ ds. eq_ℤ (pos (length ds)) wanted ≡ true) found
                (subst (λ z. eq_ℤ (pos (length k.devices)) z ≡ true) k.exact_count
                  (eq_ℤ-refl (pos (length k.devices))))),
          subst (All (DeviceHolds p.spec.device_assertions)) found k.asserted,
        ))
      (Checks-then
        (Checks-reject_if (not (eq_ℤ count wanted)) "DRA_DEVICE_COUNT_MISMATCH" "runtime.metadata")
        (Checks-check_devices p.spec.device_assertions devices))

pub Checks-validate_dra :
    (p : KernelProfile) (m : DeviceMetadata) (name : String)
    → Checks (AllocationHolds p.spec m name) (validate_dra p m name)
unfolding validate_dra devices_for_request
Checks-validate_dra p m name =
    Checks-iff
      (λ c. record {
        devices = c.devices;
        given = find_request-FirstNamed m.requests name c.devices c.given;
        exact_count = c.exact_count;
        asserted = c.asserted;
      })
      (λ k. record {
        devices = k.devices;
        given = find_request_of_FirstNamed m.requests name k.devices k.given;
        exact_count = k.exact_count;
        asserted = k.asserted;
      })
      (Checks-check_allocation p (devices_for_request m name))
