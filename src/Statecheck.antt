-- ===== src/Statecheck.antt =====
-- pkg/statecheck/statecheck.go: the checker of lifecycle traces. Each case of the `switch` in `Check`
-- is a function from the checker's state to its next state; `violate` is the source's closure.
-- An event's type stays the source's string and is read by `kind_of`; a violation's message is a
-- constructor for each format string of the source.
pub mod Decoding
pub mod Lifecycle
pub mod Handlers
pub mod Dispatching
pub mod Rounds
pub mod History
pub mod Linked
pub mod Durable
pub mod Report
mod Samples
use claim2kernel.Base.{
  Bool, List, Map, Option, String, [], contains, delete, false, if◌then◌else◌, insert, is_some,
  lookup, none, not, some, suc, true, ℕ, ◌&&◌, ◌++◌, ◌==◌, ◌||◌, ◌∷◌,
}
use claim2kernel.Base.Int.{negsuc, pos, ℤ}
use claim2kernel.Float64.{Float64, f0, is_inf, is_nan, lef, ltf}

pub record Event : Type 0 where
  pub event_type : String
  pub profile : String
  pub request : String
  pub contract_digest : String
  pub artifact_digest : String
  pub device_fingerprint : String
  pub precision : String
  pub numerical_upper_bound : Float64
  pub numerical_budget : Float64

pub record Trace : Type 0 where
  pub events : List Event

-- The names of the invariants that a violation cites.
pub data Invariant : Type 0 where
  trace_well_formed no_stale_profile_reuse no_performance_resurrection : Invariant
  no_uncertified_dispatch allocation_non_reinterpretation no_numerical_downgrade : Invariant

pub data Message : Type 0 where
  trace_is_nil publish_missing_fields publish_bound_invalid active_republished : Message
  revoked_republished revoke_unknown device_update_unknown device_update_empty : Message
  admit_inactive admit_empty_request admit_budget_invalid admitted_twice : Message
  dispatch_not_admitted dispatch_bound_invalid dispatch_inactive identity_differs : Message
  device_changed precision_differs bound_exceeds_budget complete_unknown : Message
  unknown_event_type : String → Message

pub record Violation : Type 0 where
  pub index : ℤ
  pub invariant : Invariant
  pub message : Message

pub record Result : Type 0 where
  pub valid : Bool
  pub violations : List Violation

pub record ProfileState : Type 0 where
  pub contract : String
  pub artifact : String
  pub device : String
  pub precision : String
  pub numerical : Float64
  pub active : Bool

pub record Admission : Type 0 where
  pub profile : String
  pub contract : String
  pub artifact : String
  pub device : String
  pub precision : String
  pub numerical_budget : Float64

-- The variables of `Check`: the result under construction, the two maps and the set of tombstones.
pub record Checker : Type 0 where
  pub res : Result
  pub profiles : Map ProfileState
  pub admissions : Map Admission
  pub tombstones : List String

unfoldable pub finite_non_negative : Float64 → Bool
finite_non_negative v = not (is_nan v) && not (is_inf v) && lef f0 v

unfoldable pub violate : ℤ → Invariant → Message → Checker → Checker
violate i inv msg s = record s {
  res = record {
    valid = false;
    violations = s.res.violations ++ record { index = i; invariant = inv; message = msg } ∷ [];
  };
}

-- `violate` under a condition, with the loop going on either way.
unfoldable pub violate_if : Bool → ℤ → Invariant → Message → Checker → Checker
unfolding violate
violate_if b i inv msg s = if b then violate i inv msg s else s

pub data Kind : Type 0 where
  publish revoke device_update admit dispatch complete other : Kind

-- The labels of the `switch` on the event's type.
unfoldable pub kind_of : String → Kind
kind_of t =
    if t == "publish"
    then publish
    else if t == "revoke"
    then revoke
    else if t == "device-update"
    then device_update
    else if t == "admit"
    then admit
    else if t == "dispatch"
    then dispatch
    else if t == "complete"
    then complete
    else other

-- Whether a looked-up profile exists and is active.
abbrev pub is_active : Option ProfileState → Bool
is_active none = false
is_active (some p) = p.active

abbrev pub publish_incomplete : Event → Bool
publish_incomplete e =
    e.profile == ""
    || e.contract_digest == ""
    || e.artifact_digest == ""
    || e.device_fingerprint == ""
    || e.precision == ""

abbrev pub published_state : Event → ProfileState
published_state e = record {
  contract = e.contract_digest;
  artifact = e.artifact_digest;
  device = e.device_fingerprint;
  precision = e.precision;
  numerical = e.numerical_upper_bound;
  active = true;
}

unfoldable pub on_publish : ℤ → Event → Checker → Checker
unfolding violate violate_if
on_publish i e s =
    if publish_incomplete e
    then violate i trace_well_formed publish_missing_fields s
    else if not (finite_non_negative e.numerical_upper_bound)
    then violate i trace_well_formed publish_bound_invalid s
    else if is_active (lookup s.profiles e.profile)
    then violate i no_stale_profile_reuse active_republished s
    else let t =
        violate_if (contains s.tombstones e.contract_digest) i no_performance_resurrection
          revoked_republished s in
      record t { profiles = insert t.profiles e.profile (published_state e) }

unfoldable pub on_revoke : ℤ → Event → Option ProfileState → Checker → Checker
unfolding violate
on_revoke i e none s = violate i trace_well_formed revoke_unknown s
on_revoke i e (some p) s = record s {
  profiles = insert s.profiles e.profile (record p { active = false });
  tombstones = p.contract ∷ s.tombstones;
}

unfoldable pub on_device_update : ℤ → Event → Option ProfileState → Checker → Checker
unfolding violate
on_device_update i e none s = violate i trace_well_formed device_update_unknown s
on_device_update i e (some p) s =
    if e.device_fingerprint == ""
    then violate i trace_well_formed device_update_empty s
    else record s {
      profiles = insert s.profiles e.profile (record p { device = e.device_fingerprint });
    }

abbrev pub admission_of : Event → ProfileState → Admission
admission_of e p = record {
  profile = e.profile;
  contract = p.contract;
  artifact = p.artifact;
  device = p.device;
  precision = p.precision;
  numerical_budget = e.numerical_budget;
}

unfoldable pub on_admit : ℤ → Event → Option ProfileState → Checker → Checker
unfolding violate
on_admit i e none s = violate i no_uncertified_dispatch admit_inactive s
on_admit i e (some p) s =
    if not p.active
    then violate i no_uncertified_dispatch admit_inactive s
    else if e.request == ""
    then violate i trace_well_formed admit_empty_request s
    else if not (finite_non_negative e.numerical_budget)
    then violate i trace_well_formed admit_budget_invalid s
    else if is_some (lookup s.admissions e.request)
    then violate i trace_well_formed admitted_twice s
    else record s { admissions = insert s.admissions e.request (admission_of e p) }

abbrev pub identity_changed : Event → Admission → ProfileState → Bool
identity_changed e a p =
    not (p.contract == a.contract)
    || not (e.contract_digest == a.contract)
    || not (p.artifact == a.artifact)
    || not (e.artifact_digest == a.artifact)

abbrev pub device_differs : Event → Admission → ProfileState → Bool
device_differs e a p = not (p.device == a.device) || not (e.device_fingerprint == a.device)

abbrev pub precision_changed : Event → Admission → ProfileState → Bool
precision_changed e a p = not (p.precision == a.precision) || not (e.precision == a.precision)

abbrev pub over_budget : Event → Admission → ProfileState → Bool
over_budget e a p =
    ltf a.numerical_budget p.numerical || ltf a.numerical_budget e.numerical_upper_bound

-- The four checks of a dispatch whose admission and active profile were found.
unfoldable pub compare_identity : ℤ → Event → Admission → ProfileState → Checker → Checker
unfolding violate_if
compare_identity i e a p s =
    let s₁ = violate_if (identity_changed e a p) i no_stale_profile_reuse identity_differs s in
    let s₂ =
      violate_if (device_differs e a p) i allocation_non_reinterpretation device_changed s₁ in
    let s₃ = violate_if (precision_changed e a p) i no_numerical_downgrade precision_differs s₂ in
    violate_if (over_budget e a p) i no_numerical_downgrade bound_exceeds_budget s₃

unfoldable pub dispatch_profile : ℤ → Event → Admission → Option ProfileState → Checker → Checker
unfolding violate compare_identity
dispatch_profile i e a none s = violate i no_stale_profile_reuse dispatch_inactive s
dispatch_profile i e a (some p) s =
    if not p.active
    then violate i no_stale_profile_reuse dispatch_inactive s
    else compare_identity i e a p s

unfoldable pub on_dispatch : ℤ → Event → Option Admission → Checker → Checker
unfolding violate dispatch_profile
on_dispatch i e none s = violate i no_uncertified_dispatch dispatch_not_admitted s
on_dispatch i e (some a) s =
    if not (finite_non_negative e.numerical_upper_bound)
    then violate i trace_well_formed dispatch_bound_invalid s
    else dispatch_profile i e a (lookup s.profiles a.profile) s

unfoldable pub on_complete : ℤ → Event → Option Admission → Checker → Checker
unfolding violate
on_complete i e none s = violate i trace_well_formed complete_unknown s
on_complete i e (some a) s = record s { admissions = delete s.admissions e.request }

unfoldable pub on_event : Kind → ℤ → Event → Checker → Checker
unfolding on_publish on_revoke on_device_update on_admit on_dispatch on_complete violate
on_event publish i e s = on_publish i e s
on_event revoke i e s = on_revoke i e (lookup s.profiles e.profile) s
on_event device_update i e s = on_device_update i e (lookup s.profiles e.profile) s
on_event admit i e s = on_admit i e (lookup s.profiles e.profile) s
on_event dispatch i e s = on_dispatch i e (lookup s.admissions e.request) s
on_event complete i e s = on_complete i e (lookup s.admissions e.request) s
on_event other i e s = violate i trace_well_formed (unknown_event_type e.event_type) s

-- One round of the loop.
unfoldable pub step : ℕ → Event → Checker → Checker
unfolding on_event
step i e s = on_event (kind_of e.event_type) (pos i) e s

unfoldable pub check_from : ℕ → List Event → Checker → Checker
check_from i [] s = s
check_from i (e ∷ es) s = check_from (suc i) es (step i e s)

abbrev pub start : Checker
start = record {
  res = record { valid = true; violations = [] };
  profiles = [];
  admissions = [];
  tombstones = [];
}

-- `none` is a nil trace.
unfoldable pub check : Option Trace → Result
unfolding violate
check none = (violate (negsuc 0) trace_well_formed trace_is_nil start).res
check (some t) = (check_from 0 t.events start).res
