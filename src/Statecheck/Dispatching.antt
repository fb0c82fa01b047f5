-- ===== src/Statecheck/Dispatching.antt =====
-- The cases of a dispatch and a completion in pkg/statecheck/statecheck.go: where each leaves the result
-- valid, it made the transition of its kind.
use claim2kernel.Base.{
  ==-true, Bool, Bool-cases, Option, arith, false, inl, inr, lookup, none, not, refl, some, true,
  ◌∙◌, ◌≡◌,
}
use claim2kernel.Base.Int.{ℤ}
use claim2kernel.Statecheck.{
  Admission, Checker, Event, Invariant, Message, ProfileState, allocation_non_reinterpretation,
  bound_exceeds_budget, compare_identity, complete, device_changed, device_differs, dispatch,
  dispatch_profile, finite_non_negative, identity_changed, identity_differs, kind_of,
  no_numerical_downgrade, no_stale_profile_reuse, on_complete, on_dispatch, over_budget,
  precision_changed, precision_differs, violate_if,
}
use claim2kernel.Statecheck.Lifecycle.{Agrees, Transition, completed, dispatched, valid}

not-not : (b : Bool) → not b ≡ false → b ≡ true
not-not b h = ground arith

Agrees-of_tests :
    (e : Event) (a : Admission) (p : ProfileState)
    → identity_changed e a p ≡ false
    → device_differs e a p ≡ false
    → precision_changed e a p ≡ false
    → over_budget e a p ≡ false
    → Agrees e a p
Agrees-of_tests e a p x y z w = record {
  contract_now = ==-true p.contract a.contract (ground arith);
  contract_event = ==-true e.contract_digest a.contract (ground arith);
  artifact_now = ==-true p.artifact a.artifact (ground arith);
  artifact_event = ==-true e.artifact_digest a.artifact (ground arith);
  device_now = ==-true p.device a.device (ground arith);
  device_event = ==-true e.device_fingerprint a.device (ground arith);
  precision_now = ==-true p.precision a.precision (ground arith);
  precision_event = ==-true e.precision a.precision (ground arith);
  bound_now = ground arith;
  bound_event = ground arith;
}

valid-violate_if :
    (b : Bool) (i : ℤ) (inv : Invariant) (m : Message) (s : Checker)
    → valid (violate_if b i inv m s) ≡ true
    → (b ≡ false) × (violate_if b i inv m s ≡ s) × (valid s ≡ true)
unfolding violate_if
valid-violate_if true i inv m s h = absurd (ground arith)
valid-violate_if false i inv m s h = (refl, refl, h)

compare_identity_valid :
    (i : ℤ) (e : Event) (a : Admission) (p : ProfileState) (s : Checker)
    → valid (compare_identity i e a p s) ≡ true
    → (valid s ≡ true) × Agrees e a p × (compare_identity i e a p s ≡ s)
unfolding compare_identity
compare_identity_valid i e a p s h =
    let s₁ = violate_if (identity_changed e a p) i no_stale_profile_reuse identity_differs s in
    let s₂ =
      violate_if (device_differs e a p) i allocation_non_reinterpretation device_changed s₁ in
    let s₃ = violate_if (precision_changed e a p) i no_numerical_downgrade precision_differs s₂ in
    let (w, e₄, h₃) =
      valid-violate_if (over_budget e a p) i no_numerical_downgrade bound_exceeds_budget s₃ h in
    let (z, e₃, h₂) =
      valid-violate_if (precision_changed e a p) i no_numerical_downgrade precision_differs s₂ h₃ in
    let (y, e₂, h₁) =
      valid-violate_if (device_differs e a p) i allocation_non_reinterpretation device_changed s₁
        h₂ in
    let (x, e₁, h₀) =
      valid-violate_if (identity_changed e a p) i no_stale_profile_reuse identity_differs s h₁ in
    (h₀, Agrees-of_tests e a p x y z w, e₄ ∙ e₃ ∙ e₂ ∙ e₁)

dispatch_profile_valid :
    (i : ℤ) (e : Event) (a : Admission) (s : Checker) (o : Option ProfileState)
    → kind_of e.event_type ≡ dispatch
    → lookup s.admissions e.request ≡ some a
    → finite_non_negative e.numerical_upper_bound ≡ true
    → lookup s.profiles a.profile ≡ o
    → valid (dispatch_profile i e a o s) ≡ true
    → (valid s ≡ true) × Transition e s (dispatch_profile i e a o s)
unfolding dispatch_profile
dispatch_profile_valid i e a s none k adm bound l h = absurd (ground arith)
dispatch_profile_valid i e a s (some p) k adm bound l h = elim (Bool-cases p.active) [
  | inr b ↦ absurd (ground (arith, b))
  | inl live ↦
      let (v, agrees, same) = compare_identity_valid i e a p s (rw live at h) in
      rw live (v, dispatched a p k adm bound l live agrees same)
]

pub dispatch_valid :
    (i : ℤ) (e : Event) (s : Checker) (o : Option Admission)
    → kind_of e.event_type ≡ dispatch
    → lookup s.admissions e.request ≡ o
    → valid (on_dispatch i e o s) ≡ true
    → (valid s ≡ true) × Transition e s (on_dispatch i e o s)
unfolding on_dispatch
dispatch_valid i e s none k l h = absurd (ground arith)
dispatch_valid i e s (some a) k l h =
    elim (Bool-cases (finite_non_negative e.numerical_upper_bound)) [
      | inr b ↦ absurd (ground (arith, b))
      | inl bound ↦ rw bound (
          dispatch_profile_valid i e a s (lookup s.profiles a.profile) k l bound refl
            (rw bound at h))
    ]

pub complete_valid :
    (i : ℤ) (e : Event) (s : Checker) (o : Option Admission)
    → kind_of e.event_type ≡ complete
    → lookup s.admissions e.request ≡ o
    → valid (on_complete i e o s) ≡ true
    → (valid s ≡ true) × Transition e s (on_complete i e o s)
unfolding on_complete
complete_valid i e s none k l h = absurd (ground arith)
complete_valid i e s (some a) k l h = (h, completed a k l refl)
