-- ===== src/Statecheck/Rounds.antt =====
-- A round of `Check` in pkg/statecheck/statecheck.go, and its loop, against the lifecycle.
use claim2kernel.Base.{
  List, String, [], arith, eq_iff, refl, suc, sym, true, ℕ, ◌==◌, ◌∙◌, ◌∷◌, ◌≡◌,
}
use claim2kernel.Base.Int.{pos, ℤ}
use claim2kernel.Statecheck.{
  Admission, Checker, Event, Kind, ProfileState, admit, check_from, compare_identity, complete,
  device_update, dispatch, kind_of, on_event, other, publish, revoke, step,
}
use claim2kernel.Statecheck.Dispatching.{complete_valid, dispatch_valid}
use claim2kernel.Statecheck.Handlers.{admit_valid, device_update_valid, publish_valid, revoke_valid}
use claim2kernel.Statecheck.Lifecycle.{
  Agrees, Lifecycle, Transition, admitted, completed, device_updated, dispatched, done, next,
  published, revoked, valid,
}

on_event_valid :
    (k : Kind) (i : ℤ) (e : Event) (s : Checker)
    → kind_of e.event_type ≡ k
    → valid (on_event k i e s) ≡ true
    → (valid s ≡ true) × Transition e s (on_event k i e s)
unfolding on_event
on_event_valid publish i e s k h = publish_valid i e s k h
on_event_valid revoke i e s k h = revoke_valid i e s _ k refl h
on_event_valid device_update i e s k h = device_update_valid i e s _ k refl h
on_event_valid admit i e s k h = admit_valid i e s _ k refl h
on_event_valid dispatch i e s k h = dispatch_valid i e s _ k refl h
on_event_valid complete i e s k h = complete_valid i e s _ k refl h
on_event_valid other i e s k h = absurd (ground arith)

==-of_≡ : (s t : String) → s ≡ t → (s == t) ≡ true
==-of_≡ s t h = (eq_iff s t).1 h

compare_identity-Agrees :
    (i : ℤ) (e : Event) (a : Admission) (p : ProfileState) (s : Checker)
    → Agrees e a p
    → compare_identity i e a p s ≡ s
unfolding compare_identity
compare_identity-Agrees i e a p s g = ground (
  arith,
  ==-of_≡ p.contract a.contract g.contract_now,
  ==-of_≡ e.contract_digest a.contract g.contract_event,
  ==-of_≡ p.artifact a.artifact g.artifact_now,
  ==-of_≡ e.artifact_digest a.artifact g.artifact_event,
  ==-of_≡ p.device a.device g.device_now,
  ==-of_≡ e.device_fingerprint a.device g.device_event,
  ==-of_≡ p.precision a.precision g.precision_now,
  ==-of_≡ e.precision a.precision g.precision_event,
  g.bound_now,
  g.bound_event,
)

-- A round that leaves the result valid found it valid and made a transition of the lifecycle.
pub step-Transition :
    (i : ℕ) (e : Event) (s : Checker)
    → valid (step i e s) ≡ true
    → (valid s ≡ true) × Transition e s (step i e s)
unfolding step
step-Transition i e s h = on_event_valid (kind_of e.event_type) (pos i) e s refl h

-- The converse: where a transition leads from `s` to `t`, the round computes `t`.
pub step_of_Transition : (i : ℕ) (e : Event) (s t : Checker) → Transition e s t → step i e s ≡ t
unfolding step
step_of_Transition i e s t (published k c b idle fresh eq) = rw k (ground arith)
step_of_Transition i e s t (revoked p k l eq) = rw k (rw l (sym eq))
step_of_Transition i e s t (device_updated p k l named eq) = rw k (rw l (rw named (sym eq)))
step_of_Transition i e s t (admitted p k l live named b free eq) = rw k (rw l (ground arith))
step_of_Transition i e s t (dispatched a p k adm b l live agrees eq) =
    rw k (rw adm (rw b (rw l (rw live (compare_identity-Agrees (pos i) e a p s agrees ∙ sym eq)))))
step_of_Transition i e s t (completed a k l eq) = rw k (rw l (sym eq))

-- A transition leaves the result alone.
res-Transition : {e : Event} {s t : Checker} → Transition e s t → t.res ≡ s.res
res-Transition (published k c b idle fresh eq) = rw eq
res-Transition (revoked p k l eq) = rw eq
res-Transition (device_updated p k l named eq) = rw eq
res-Transition (admitted p k l live named b free eq) = rw eq
res-Transition (dispatched a p k adm b l live agrees eq) = rw eq
res-Transition (completed a k l eq) = rw eq

valid_after : {e : Event} {s t : Checker} → valid s ≡ true → Transition e s t → valid t ≡ true
valid_after v mv = cc (v, res-Transition mv)

pub check_from-Lifecycle :
    (i : ℕ) (es : List Event) (s : Checker)
    → valid (check_from i es s) ≡ true
    → (valid s ≡ true) × Lifecycle (check_from i es s) es s
unfolding check_from
check_from-Lifecycle i [] s h = (h, done refl)
check_from-Lifecycle i (e ∷ es) s h =
    let (v, run) = check_from-Lifecycle (suc i) es (step i e s) h in
    let (w, mv) = step-Transition i e s v in (w, next (step i e s) mv run)

pub check_from_of_Lifecycle :
    (i : ℕ) (es : List Event) (s t : Checker) → Lifecycle t es s → check_from i es s ≡ t
unfolding check_from
check_from_of_Lifecycle i [] s t (done eq) = eq
check_from_of_Lifecycle i (e ∷ es) s t (next u mv run) =
    rw (step_of_Transition i e s u mv) (check_from_of_Lifecycle (suc i) es u t run)

pub res-Lifecycle : {t : Checker} {es : List Event} {s : Checker} → Lifecycle t es s → t.res ≡ s.res
res-Lifecycle (done eq) = cc (eq)
res-Lifecycle (next u mv run) = res-Lifecycle run ∙ res-Transition mv
