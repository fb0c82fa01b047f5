-- ===== src/Statecheck/Report.antt =====
-- What `Check` of pkg/statecheck/statecheck.go reports: where violations stand, and that they stay.
use native.Mathlib.Nat.{add-zero, add-suc, suc-add}
use claim2kernel.Base.{
  All, All-append, Bool, List, [], ap, append-nil, append_assoc, arith, contains, false,
  if◌then◌else◌, is_some, length, lookup, none, not, refl, some, subst, suc, sym, true, ℕ, ◌&&◌,
  ◌++◌, ◌+◌, ◌<◌, ◌==◌, ◌∙◌, ◌∷◌, ◌≡◌, ◌≤◌,
}
use claim2kernel.Base.Int.{pos, ℤ}
use claim2kernel.Statecheck.{
  Admission, Checker, Event, Invariant, Kind, Message, ProfileState, Result, Violation, admit,
  check, check_from, compare_identity, complete, device_differs, device_update, dispatch,
  dispatch_profile, finite_non_negative, identity_changed, is_active, kind_of,
  no_performance_resurrection, on_admit, on_complete, on_device_update, on_dispatch, on_event,
  on_publish, on_revoke, other, over_budget, precision_changed, publish, publish_incomplete, revoke,
  revoked_republished, start, step, violate, violate_if,
}

abbrev pub is_empty {ℓ} : {A : Type ℓ} → List A → Bool
is_empty [] = true
is_empty (_ ∷ _) = false

-- From `s` to `t` the checker reported some violations at the index, and only added them.
record Adds (i : ℤ) (s t : Checker) : Type 0 where
  extra : List Violation
  grown : t.res.violations ≡ s.res.violations ++ extra
  located : All (λ (v : Violation). v.index ≡ i) extra
  verdict : t.res.valid ≡ (s.res.valid && is_empty extra)

&&-true : (b : Bool) → b ≡ (b && true)
&&-true b = ground arith

Adds-same : (i : ℤ) (s t : Checker) → t.res ≡ s.res → Adds i s t
Adds-same i s t same = record {
  extra = [];
  grown = ap (λ (x : Result). x.violations) same ∙ sym (append-nil s.res.violations);
  located = tt;
  verdict = ap (λ (x : Result). x.valid) same ∙ &&-true s.res.valid;
}

Adds-violate : (i : ℤ) (inv : Invariant) (m : Message) (s : Checker) → Adds i s (violate i inv m s)
unfolding violate
Adds-violate i inv m s = record {
  extra = record { index = i; invariant = inv; message = m } ∷ [];
  grown = refl;
  located = (refl, tt);
  verdict = ground arith;
}

is_empty-append :
    (b : Bool) (xs ys : List Violation)
    → ((b && is_empty xs) && is_empty ys) ≡ (b && is_empty (xs ++ ys))
is_empty-append b [] ys = ground arith
is_empty-append b (x ∷ xs) ys = ground arith

Adds-trans : {i : ℤ} {s t u : Checker} → Adds i s t → Adds i t u → Adds i s u
Adds-trans {s = s} a b = record {
  extra = a.extra ++ b.extra;
  grown =
      b.grown ∙ ap (λ vs. vs ++ b.extra) a.grown ∙ append_assoc s.res.violations a.extra b.extra;
  located = All-append _ a.extra b.extra a.located b.located;
  verdict =
      b.verdict
      ∙ ap (λ v. v && is_empty b.extra) a.verdict
      ∙ is_empty-append s.res.valid a.extra b.extra;
}

Adds-if :
    (b : Bool) {i : ℤ} {s x y : Checker} → Adds i s x → Adds i s y → Adds i s (if b then x else y)
Adds-if true p q = p
Adds-if false p q = q

Adds-violate_if :
    (b : Bool) (i : ℤ) (inv : Invariant) (m : Message) (s : Checker)
    → Adds i s (violate_if b i inv m s)
unfolding violate_if
Adds-violate_if true i inv m s = Adds-violate i inv m s
Adds-violate_if false i inv m s = Adds-same i s s refl

Adds-compare_identity :
    (i : ℤ) (e : Event) (a : Admission) (p : ProfileState) (s : Checker)
    → Adds i s (compare_identity i e a p s)
unfolding compare_identity
Adds-compare_identity i e a p s =
    Adds-trans
      (Adds-trans
        (Adds-trans (Adds-violate_if (identity_changed e a p) i _ _ s)
          (Adds-violate_if (device_differs e a p) i _ _ _))
        (Adds-violate_if (precision_changed e a p) i _ _ _))
      (Adds-violate_if (over_budget e a p) i _ _ _)

Adds-publish : (i : ℤ) (e : Event) (s : Checker) → Adds i s (on_publish i e s)
unfolding on_publish
Adds-publish i e s = Adds-if (publish_incomplete e) (Adds-violate i _ _ s) (
    Adds-if (not (finite_non_negative e.numerical_upper_bound)) (Adds-violate i _ _ s) (
      Adds-if (is_active (lookup s.profiles e.profile)) (Adds-violate i _ _ s) (
        Adds-trans
          (Adds-violate_if (contains s.tombstones e.contract_digest) i no_performance_resurrection
            revoked_republished s)
          (Adds-same i _ _ refl))))

Adds-on_event : (k : Kind) (i : ℤ) (e : Event) (s : Checker) → Adds i s (on_event k i e s)
unfolding on_event
Adds-on_event publish i e s = Adds-publish i e s
Adds-on_event revoke i e s =
    elim (lookup s.profiles e.profile) as (λ o. Adds i s (on_revoke i e o s)) [
      | none ↦ Adds-violate i _ _ s
      | some p ↦ Adds-same i _ _ refl
    ]
Adds-on_event device_update i e s =
    elim (lookup s.profiles e.profile) as (λ o. Adds i s (on_device_update i e o s)) [
      | none ↦ Adds-violate i _ _ s
      | some p ↦ Adds-if (e.device_fingerprint == "") (Adds-violate i _ _ s) (Adds-same i _ _ refl)
    ]
Adds-on_event admit i e s =
    elim (lookup s.profiles e.profile) as (λ o. Adds i s (on_admit i e o s)) [
      | none ↦ Adds-violate i _ _ s
      | some p ↦ Adds-if (not p.active) (Adds-violate i _ _ s) (
          Adds-if (e.request == "") (Adds-violate i _ _ s) (
            Adds-if (not (finite_non_negative e.numerical_budget)) (Adds-violate i _ _ s) (
              Adds-if (is_some (lookup s.admissions e.request)) (Adds-violate i _ _ s)
                (Adds-same i _ _ refl))))
    ]
Adds-on_event dispatch i e s =
    elim (lookup s.admissions e.request) as (λ o. Adds i s (on_dispatch i e o s)) [
      | none ↦ Adds-violate i _ _ s
      | some a ↦
          Adds-if (not (finite_non_negative e.numerical_upper_bound)) (Adds-violate i _ _ s)
            (elim (lookup s.profiles a.profile) as (λ o. Adds i s (dispatch_profile i e a o s)) [
              | none ↦ Adds-violate i _ _ s
              | some p ↦
                  Adds-if (not p.active) (Adds-violate i _ _ s) (Adds-compare_identity i e a p s)
            ])
    ]
Adds-on_event complete i e s =
    elim (lookup s.admissions e.request) as (λ o. Adds i s (on_complete i e o s)) [
      | none ↦ Adds-violate i _ _ s
      | some a ↦ Adds-same i _ _ refl
    ]
Adds-on_event other i e s = Adds-violate i _ _ s

Adds-step : (i : ℕ) (e : Event) (s : Checker) → Adds (pos i) s (step i e s)
unfolding step
Adds-step i e s = Adds-on_event (kind_of e.event_type) (pos i) e s

-- The index of a violation is a position among the `n` events from the `i`-th.
abbrev pub IsWithin : ℕ → ℕ → Violation → Type 0
IsWithin i n v = (k : ℕ) × (v.index ≡ pos k) × (i ≤ k) × (k < i + n)

record Reports (i n : ℕ) (s t : Checker) : Type 0 where
  extra : List Violation
  grown : t.res.violations ≡ s.res.violations ++ extra
  located : All (IsWithin i n) extra
  verdict : t.res.valid ≡ (s.res.valid && is_empty extra)

IsWithin-of_index :
    (i n : ℕ) (vs : List Violation)
    → All (λ (v : Violation). v.index ≡ pos i) vs
    → All (IsWithin i (suc n)) vs
IsWithin-of_index i n [] h = tt
IsWithin-of_index i n (v ∷ vs) h =
    ((i, h.0, omega arith, omega arith), IsWithin-of_index i n vs h.1)

IsWithin-of_rest :
    (i n : ℕ) (vs : List Violation) → All (IsWithin (suc i) n) vs → All (IsWithin i (suc n)) vs
IsWithin-of_rest i n [] h = tt
IsWithin-of_rest i n (v ∷ vs) ((k, e, lo, hi), rest) =
    ((k, e, omega arith, omega arith), IsWithin-of_rest i n vs rest)

Reports-check_from :
    (i : ℕ) (es : List Event) (s : Checker) → Reports i (length es) s (check_from i es s)
unfolding check_from
Reports-check_from i [] s = record {
  extra = [];
  grown = sym (append-nil s.res.violations);
  located = tt;
  verdict = &&-true s.res.valid;
}
Reports-check_from i (e ∷ es) s =
    let a = Adds-step i e s in
    let b = Reports-check_from (suc i) es (step i e s) in
    record {
      extra = a.extra ++ b.extra;
      grown =
          b.grown
          ∙ ap (λ vs. vs ++ b.extra) a.grown
          ∙ append_assoc s.res.violations a.extra b.extra;
      located =
          All-append _ a.extra b.extra (IsWithin-of_index i (length es) a.extra a.located)
            (IsWithin-of_rest i (length es) b.extra b.located);
      verdict =
          b.verdict
          ∙ ap (λ v. v && is_empty b.extra) a.verdict
          ∙ is_empty-append s.res.valid a.extra b.extra;
    }

-- `Check` finds a trace valid exactly when it reports no violation, and each violation that it
-- reports has the index of an event of the trace.
pub check_report :
    (events : List Event)
    → let r = check (some (record { events = events })) in
      (r.valid ≡ is_empty r.violations) × All (IsWithin 0 (length events)) r.violations
unfolding check
check_report events =
    let b = Reports-check_from 0 events start in
    (
      b.verdict ∙ sym (ap is_empty b.grown),
      subst (All (IsWithin 0 (length events))) (sym b.grown) b.located,
    )

check_from-append :
    (i : ℕ) (es fs : List Event) (s : Checker)
    → check_from i (es ++ fs) s ≡ check_from (i + length es) fs (check_from i es s)
unfolding check_from
check_from-append i [] fs s = rw add-zero
check_from-append i (e ∷ es) fs s =
    rw (add-suc, ← suc-add) (check_from-append (suc i) es fs (step i e s))

-- More events never take a violation back: the report on a longer trace begins with the report on
-- its prefix, so a trace with an invalid prefix is invalid.
pub check_prefix :
    (es fs : List Event)
    → let short = check (some (record { events = es })) in
      let long = check (some (record { events = es ++ fs })) in
      (extra : List Violation) × (long.violations ≡ short.violations ++ extra)
      × (long.valid ≡ (short.valid && is_empty extra))
unfolding check
check_prefix es fs =
    let b = Reports-check_from (0 + length es) fs (check_from 0 es start) in
    let together = check_from-append 0 es fs start in
    (
      b.extra,
      ap (λ (c : Checker). c.res.violations) together ∙ b.grown,
      ap (λ (c : Checker). c.res.valid) together ∙ b.verdict,
    )
