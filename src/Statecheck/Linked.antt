-- ===== src/Statecheck/Linked.antt =====
-- The agreement between the checker's maps and the history of a valid trace
-- (pkg/statecheck/statecheck.go), and, in the children, that each kind of event keeps it.
pub mod Publish
pub mod Revoke
pub mod Frame
use claim2kernel.Base.{
  List, String, [], contains, lookup, lookup-nil, some, sym, true, ◌∙◌, ◌≡◌, ◌≢◌, ◌⊎◌,
}
use claim2kernel.Statecheck.{Admission, Checker, Event, Kind, ProfileState, kind_of, start}
use claim2kernel.Statecheck.History.{Certificate, OnDevice, Published, Standing}

abbrev pub certificate : ProfileState → Certificate
certificate p = record {
  contract = p.contract;
  artifact = p.artifact;
  precision = p.precision;
  numerical = p.numerical;
}

-- The admission's profile is as it was admitted: still active, with the same certificate.
pub record Intact (h : List Event) (s : Checker) (r : String) (a : Admission) : Type 0 where
  pub state : ProfileState
  pub found : lookup s.profiles a.profile ≡ some state
  pub live : state.active ≡ true
  pub same_contract : state.contract ≡ a.contract
  pub same_artifact : state.artifact ≡ a.artifact
  pub same_precision : state.precision ≡ a.precision
  pub standing : Standing r a.profile a.device (certificate state) a.numerical_budget h

-- The admission's profile was revoked since: its contract is a tombstone, and never active again.
pub record Severed (s : Checker) (a : Admission) : Type 0 where
  pub buried : contains s.tombstones a.contract ≡ true
  pub replaced :
      (p : ProfileState)
      → lookup s.profiles a.profile ≡ some p
      → p.active ≡ true
      → p.contract ≢ a.contract

pub record Linked (h : List Event) (s : Checker) : Type 0 where
  pub published_profile :
      (n : String) (p : ProfileState)
      → lookup s.profiles n ≡ some p
      → p.active ≡ true
      → Published n (certificate p) h
  pub device_profile :
      (n : String) (p : ProfileState) → lookup s.profiles n ≡ some p → OnDevice n p.device h
  pub admission :
      (r : String) (a : Admission) → lookup s.admissions r ≡ some a → Intact h s r a ⊎ Severed s a

pub Linked-start : Linked [] start
Linked-start = record {
  published_profile = λ n p l. absurd (cc (l, lookup-nil {V = ProfileState} n));
  device_profile = λ n p l. absurd (cc (l, lookup-nil {V = ProfileState} n));
  admission = λ r a l. absurd (cc (l, lookup-nil {V = Admission} r));
}

-- An event of one kind is not of another.
module _ {k j : Kind} (e : Event) (is : kind_of e.event_type ≡ k) (other_kind : k ≢ j) where
  pub not_of_kind : {A : Type 0} → ¬ ((kind_of e.event_type ≡ j) × A)
  not_of_kind y = other_kind (sym is ∙ y.0)

-- Nor does it concern another name.
pub not_of_name : {A : Type 0} (n m : String) → n ≢ m → ¬ (A × (n ≡ m))
not_of_name n m h y = h y.1
