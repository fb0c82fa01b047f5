-- ===== src/Statecheck/Handlers.antt =====
-- The cases of `Check` in pkg/statecheck/statecheck.go before a dispatch: where each leaves the result
-- valid, it made the transition of its kind.
use claim2kernel.Base.{
  Bool-cases, Option, Option-cases, arith, contains, inl, inr, lookup, none, refl, some, true, ◌==◌,
  ◌≡◌,
}
use claim2kernel.Base.Int.{ℤ}
use claim2kernel.Statecheck.{
  Checker, Event, ProfileState, admit, device_update, finite_non_negative, is_active, kind_of,
  on_admit, on_device_update, on_publish, on_revoke, publish, publish_incomplete, revoke,
}
use claim2kernel.Statecheck.Lifecycle.{
  Transition, admitted, device_updated, published, revoked, valid,
}

-- Each handler that leaves the result valid found it valid and made the transition of its kind.
pub publish_valid :
    (i : ℤ) (e : Event) (s : Checker)
    → kind_of e.event_type ≡ publish
    → valid (on_publish i e s) ≡ true
    → (valid s ≡ true) × Transition e s (on_publish i e s)
unfolding on_publish
publish_valid i e s k h = elim (Bool-cases (publish_incomplete e)) [
  | inl b ↦ absurd (ground (arith, b))
  | inr complete_fields ↦ elim (Bool-cases (finite_non_negative e.numerical_upper_bound)) [
    | inr b ↦ absurd (ground (arith, b))
    | inl bound ↦ elim (Bool-cases (is_active (lookup s.profiles e.profile))) [
      | inl b ↦ absurd (ground (arith, b))
      | inr idle ↦ elim (Bool-cases (contains s.tombstones e.contract_digest)) [
        | inl b ↦ absurd (ground (arith, b))
        | inr fresh ↦ (ground arith, published k complete_fields bound idle fresh (ground arith))
      ]
    ]
  ]
]

pub revoke_valid :
    (i : ℤ) (e : Event) (s : Checker) (o : Option ProfileState)
    → kind_of e.event_type ≡ revoke
    → lookup s.profiles e.profile ≡ o
    → valid (on_revoke i e o s) ≡ true
    → (valid s ≡ true) × Transition e s (on_revoke i e o s)
unfolding on_revoke
revoke_valid i e s none k l h = absurd (ground arith)
revoke_valid i e s (some p) k l h = (h, revoked p k l refl)

pub device_update_valid :
    (i : ℤ) (e : Event) (s : Checker) (o : Option ProfileState)
    → kind_of e.event_type ≡ device_update
    → lookup s.profiles e.profile ≡ o
    → valid (on_device_update i e o s) ≡ true
    → (valid s ≡ true) × Transition e s (on_device_update i e o s)
unfolding on_device_update
device_update_valid i e s none k l h = absurd (ground arith)
device_update_valid i e s (some p) k l h = elim (Bool-cases (e.device_fingerprint == "")) [
  | inl b ↦ absurd (ground (arith, b))
  | inr named ↦ rw named (rw named at h, device_updated p k l named refl)
]

pub admit_valid :
    (i : ℤ) (e : Event) (s : Checker) (o : Option ProfileState)
    → kind_of e.event_type ≡ admit
    → lookup s.profiles e.profile ≡ o
    → valid (on_admit i e o s) ≡ true
    → (valid s ≡ true) × Transition e s (on_admit i e o s)
unfolding on_admit
admit_valid i e s none k l h = absurd (ground arith)
admit_valid i e s (some p) k l h = elim (Bool-cases p.active) [
  | inr b ↦ absurd (ground (arith, b))
  | inl live ↦ elim (Bool-cases (e.request == "")) [
    | inl b ↦ absurd (ground (arith, b))
    | inr named ↦ elim (Bool-cases (finite_non_negative e.numerical_budget)) [
      | inr b ↦ absurd (ground (arith, b))
      | inl budget ↦ elim (Option-cases (lookup s.admissions e.request)) [
        | inr (a, b) ↦ absurd (ground (arith, b))
        | inl free ↦ (ground arith, admitted p k l live named budget free (ground arith))
      ]
    ]
  ]
]
