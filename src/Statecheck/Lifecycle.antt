-- ===== src/Statecheck/Lifecycle.antt =====
-- The lifecycle that pkg/statecheck/statecheck.go accepts, as a relation between checker states: one
-- constructor for each kind of event, with the premises under which `Check` records no violation.
use claim2kernel.Base.{
  Bool, List, [], contains, delete, false, insert, lookup, none, some, true, ◌==◌, ◌∷◌, ◌≡◌,
}
use claim2kernel.Float64.{ltf}
use claim2kernel.Statecheck.{
  Admission, Checker, Event, ProfileState, admission_of, admit, complete, device_update, dispatch,
  finite_non_negative, is_active, kind_of, publish, publish_incomplete, published_state, revoke,
}

-- What a dispatch must match: the admission's snapshot and the profile as it is now.
pub record Agrees (e : Event) (a : Admission) (p : ProfileState) : Type 0 where
  pub contract_now : p.contract ≡ a.contract
  pub contract_event : e.contract_digest ≡ a.contract
  pub artifact_now : p.artifact ≡ a.artifact
  pub artifact_event : e.artifact_digest ≡ a.artifact
  pub device_now : p.device ≡ a.device
  pub device_event : e.device_fingerprint ≡ a.device
  pub precision_now : p.precision ≡ a.precision
  pub precision_event : e.precision ≡ a.precision
  pub bound_now : ltf a.numerical_budget p.numerical ≡ false
  pub bound_event : ltf a.numerical_budget e.numerical_upper_bound ≡ false

pub data Transition (e : Event) (s t : Checker) : Type 0 where
  published :
      kind_of e.event_type ≡ publish
      → publish_incomplete e ≡ false
      → finite_non_negative e.numerical_upper_bound ≡ true
      → is_active (lookup s.profiles e.profile) ≡ false
      → contains s.tombstones e.contract_digest ≡ false
      → t ≡ record s { profiles = insert s.profiles e.profile (published_state e) }
      → Transition e s t
  revoked :
      (p : ProfileState)
      → kind_of e.event_type ≡ revoke
      → lookup s.profiles e.profile ≡ some p
      → t ≡ record s {
        profiles = insert s.profiles e.profile (record p { active = false });
        tombstones = p.contract ∷ s.tombstones;
      }
      → Transition e s t
  device_updated :
      (p : ProfileState)
      → kind_of e.event_type ≡ device_update
      → lookup s.profiles e.profile ≡ some p
      → (e.device_fingerprint == "") ≡ false
      → t ≡ record s {
        profiles = insert s.profiles e.profile (record p { device = e.device_fingerprint });
      }
      → Transition e s t
  admitted :
      (p : ProfileState)
      → kind_of e.event_type ≡ admit
      → lookup s.profiles e.profile ≡ some p
      → p.active ≡ true
      → (e.request == "") ≡ false
      → finite_non_negative e.numerical_budget ≡ true
      → lookup s.admissions e.request ≡ none
      → t ≡ record s { admissions = insert s.admissions e.request (admission_of e p) }
      → Transition e s t
  dispatched :
      (a : Admission) (p : ProfileState)
      → kind_of e.event_type ≡ dispatch
      → lookup s.admissions e.request ≡ some a
      → finite_non_negative e.numerical_upper_bound ≡ true
      → lookup s.profiles a.profile ≡ some p
      → p.active ≡ true
      → Agrees e a p
      → t ≡ s
      → Transition e s t
  completed :
      (a : Admission)
      → kind_of e.event_type ≡ complete
      → lookup s.admissions e.request ≡ some a
      → t ≡ record s { admissions = delete s.admissions e.request }
      → Transition e s t

abbrev pub valid : Checker → Bool
valid s = s.res.valid

-- A run of the lifecycle over a list of events.
pub data Lifecycle (t : Checker) : List Event → Checker → Type 0 where
  done : {s : Checker} → s ≡ t → Lifecycle t [] s
  next :
      {e : Event} {es : List Event} {s : Checker} (u : Checker)
      → Transition e s u
      → Lifecycle t es u
      → Lifecycle t (e ∷ es) s
