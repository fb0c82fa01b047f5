-- ===== src/Statecheck/Durable.antt =====
-- `Check` of pkg/statecheck/statecheck.go against the lifecycle and the history.
use claim2kernel.Base.{
  List, [], ap, inl, inr, lookup, some, subst, sym, true, ◌++◌, ◌↔◌, ◌∙◌, ◌∷◌, ◌≡◌,
}
use claim2kernel.Statecheck.{
  Admission, Checker, Event, ProfileState, Result, check, check_from, dispatch, kind_of, start,
}
use claim2kernel.Statecheck.History.{
  Certificate, IsCertified, OnDevice, Published, Standing, newest_first,
}
use claim2kernel.Statecheck.Lifecycle.{
  Agrees, Lifecycle, Transition, admitted, completed, device_updated, dispatched, next, published,
  revoked,
}
use claim2kernel.Statecheck.Linked.{Linked, Linked-start, certificate}
use claim2kernel.Statecheck.Linked.Frame.{
  Linked-admit, Linked-complete, Linked-device_update, Linked-dispatch,
}
use claim2kernel.Statecheck.Linked.Publish.{Linked-publish}
use claim2kernel.Statecheck.Linked.Revoke.{Linked-revoke}
use claim2kernel.Statecheck.Rounds.{check_from-Lifecycle, check_from_of_Lifecycle, res-Lifecycle}

Linked-Transition :
    {e : Event} {s t : Checker} (h : List Event) → Linked h s → Transition e s t → Linked (e ∷ h) t
Linked-Transition {e} {s} h old (published k c b idle fresh eq) =
    subst (Linked (e ∷ h)) (sym eq) (Linked-publish h e s old k idle fresh)
Linked-Transition {e} {s} h old (revoked p k l eq) =
    subst (Linked (e ∷ h)) (sym eq) (Linked-revoke h e s old k p l)
Linked-Transition {e} {s} h old (device_updated p k l named eq) =
    subst (Linked (e ∷ h)) (sym eq) (Linked-device_update h e s old k p l)
Linked-Transition {e} {s} h old (admitted p k l live named b free eq) =
    subst (Linked (e ∷ h)) (sym eq) (Linked-admit h e s old k p l live)
Linked-Transition {e} {s} h old (dispatched a p k adm b l live agrees eq) =
    subst (Linked (e ∷ h)) (sym eq) (Linked-dispatch h e s old k)
Linked-Transition {e} {s} h old (completed a k l eq) =
    subst (Linked (e ∷ h)) (sym eq) (Linked-complete h e s old k)

-- A dispatch that makes a transition from a linked state is certified by the history.
IsCertified-of_Agrees :
    (h : List Event) (e : Event) (s : Checker) (a : Admission) (p : ProfileState)
    → Linked h s
    → lookup s.admissions e.request ≡ some a
    → lookup s.profiles a.profile ≡ some p
    → p.active ≡ true
    → Agrees e a p
    → IsCertified e h
IsCertified-of_Agrees h e s a p old adm l live g = elim (old.admission e.request a adm) [
  | inr k ↦ absurd (k.replaced p l live g.contract_now)
  | inl k ↦
      let same : k.state ≡ p = cc (k.found, l) in
      let claimed : certificate p ≡ record {
        contract = e.contract_digest;
        artifact = e.artifact_digest;
        precision = e.precision;
        numerical = p.numerical;
      } =
        cc (
          g.contract_now, g.contract_event, g.artifact_now, g.artifact_event, g.precision_now,
          g.precision_event,
        ) in
      record {
        profile = a.profile;
        bound = p.numerical;
        budget = a.numerical_budget;
        standing =
            subst
              (λ (c : Certificate).
                Standing e.request a.profile e.device_fingerprint c a.numerical_budget h)
              (ap certificate same ∙ claimed)
              (subst
                (λ d. Standing e.request a.profile d (certificate k.state) a.numerical_budget h)
                (sym g.device_event) k.standing);
        still_published =
            subst (λ (c : Certificate). Published a.profile c h) claimed
              (old.published_profile a.profile p l live);
        same_device =
            subst (λ d. OnDevice a.profile d h) (g.device_now ∙ sym g.device_event)
              (old.device_profile a.profile p l);
        within_budget = g.bound_now;
        claim_within_budget = g.bound_event;
      }
]

IsCertified-Transition :
    (h : List Event) (e : Event) (s t : Checker)
    → Linked h s
    → kind_of e.event_type ≡ dispatch
    → Transition e s t
    → IsCertified e h
IsCertified-Transition h e s t old k (dispatched a p k' adm b l live agrees eq) =
    IsCertified-of_Agrees h e s a p old adm l live agrees
IsCertified-Transition h e s t old k (published k' c b idle fresh eq) = absurd (cc (k, k'))
IsCertified-Transition h e s t old k (revoked p k' l eq) = absurd (cc (k, k'))
IsCertified-Transition h e s t old k (device_updated p k' l named eq) = absurd (cc (k, k'))
IsCertified-Transition h e s t old k (admitted p k' l live named b free eq) = absurd (cc (k, k'))
IsCertified-Transition h e s t old k (completed a k' l eq) = absurd (cc (k, k'))

dispatch_in_Lifecycle :
    (before after : List Event) (e : Event) (h : List Event) (s t : Checker)
    → Linked h s
    → Lifecycle t (before ++ e ∷ after) s
    → kind_of e.event_type ≡ dispatch
    → IsCertified e (newest_first before h)
dispatch_in_Lifecycle [] after e h s t old (next u mv run) k =
    IsCertified-Transition h e s u old k mv
dispatch_in_Lifecycle (b ∷ before) after e h s t old (next u mv run) k =
    dispatch_in_Lifecycle before after e (b ∷ h) u t (Linked-Transition h old mv) run k

-- In a trace that `Check` finds valid, every dispatch event is certified by the events before it:
-- the request was admitted for a profile, not completed since, and the profile, published with the
-- contract, the artifact and the precision that the dispatch names, was not revoked or republished
-- since; the device at the admission and the one now are the one that the dispatch names, and neither
-- the published bound nor the claimed one is above the admitted budget.
pub dispatch-IsCertified :
    (before after : List Event) (e : Event)
    → (check (some (record { events = before ++ e ∷ after }))).valid ≡ true
    → kind_of e.event_type ≡ dispatch
    → IsCertified e (newest_first before [])
unfolding check
dispatch-IsCertified before after e h k =
    dispatch_in_Lifecycle before after e [] start (check_from 0 (before ++ e ∷ after) start)
      Linked-start (check_from-Lifecycle 0 (before ++ e ∷ after) start h).1 k

-- `Check` finds a trace valid exactly when the lifecycle has a run over its events.
pub check_valid_iff :
    (events : List Event)
    → ((check (some (record { events = events }))).valid ≡ true)
      ↔ ((t : Checker) × Lifecycle t events start)
unfolding check
check_valid_iff events = (
  λ h. (check_from 0 events start, (check_from-Lifecycle 0 events start h).1),
  λ r.
      ap (λ (c : Checker). c.res.valid) (check_from_of_Lifecycle 0 events start r.0 r.1)
      ∙ ap (λ (x : Result). x.valid) (res-Lifecycle r.1),
)
