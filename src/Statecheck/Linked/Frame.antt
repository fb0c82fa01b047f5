-- ===== src/Statecheck/Linked/Frame.antt =====
-- The events that revoke and publish nothing keep the checker's maps in agreement with the history.
use claim2kernel.Base.{
  ==-false, ==-true, Bool-cases, List, Map, String, ap, delete, inl, inr, insert, lookup,
  lookup-delete-some, lookup-insert_cases, lookup-insert_ne, lookup-insert_self, refl, some, subst,
  sym, true, ◌==◌, ◌∙◌, ◌∷◌, ◌≡◌, ◌≢◌, ◌⊎◌,
}
use claim2kernel.Statecheck.{
  Admission, Checker, Event, Kind, ProfileState, admission_of, admit, complete, device_update,
  dispatch, kind_of, publish, revoke,
}
use claim2kernel.Statecheck.History.{
  Certificate, IsComplete, OnDevice, Published, Standing, granted, holds, since, stays, update_sets,
}
use claim2kernel.Statecheck.Linked.{Intact, Linked, Severed, certificate, not_of_kind, not_of_name}

module _ (h : List Event) (e : Event) (s : Checker) (old : Linked h s) where
  module _ (is : kind_of e.event_type ≡ device_update) (p : ProfileState)
      (known : lookup s.profiles e.profile ≡ some p) where
    abbrev moved : ProfileState
    moved = record p { device = e.device_fingerprint }

    Published-profile_next :
        (n : String) (q : ProfileState)
        → lookup (insert s.profiles e.profile moved) n ≡ some q
        → q.active ≡ true
        → Published n (certificate q) (e ∷ h)
    Published-profile_next n q l live =
        since (not_of_kind e is (λ x. cc)) (not_of_kind e is (λ x. cc))
          (elim (lookup-insert_cases s.profiles e.profile n moved q l) [
            | inl new ↦
                subst (λ (c : Certificate). Published n c h) (ap certificate new.1)
                  (old.published_profile n p (cc (known, new.0))
                    (cc (live, ap (λ (x : ProfileState). x.active) new.1)))
            | inr kept ↦ old.published_profile n q kept.1 live
          ])

    device_profile_next :
        (n : String) (q : ProfileState)
        → lookup (insert s.profiles e.profile moved) n ≡ some q
        → OnDevice n q.device (e ∷ h)
    device_profile_next n q l = elim (lookup-insert_cases s.profiles e.profile n moved q l) [
      | inl new ↦ update_sets (is, new.0) (ap (λ (x : ProfileState). x.device) new.1)
      | inr kept ↦
          stays (not_of_kind e is (λ x. cc)) (not_of_name e.profile n kept.0)
            (old.device_profile n q kept.1)
    ]

    still-Standing :
        (r : String) (a : Admission) (c : Certificate)
        → Standing r a.profile a.device c a.numerical_budget h
        → Standing r a.profile a.device c a.numerical_budget (e ∷ h)
    still-Standing r a c k = holds (not_of_kind e is (λ x. cc)) (not_of_kind e is (λ x. cc)) k

    Intact-update :
        (r : String) (a : Admission)
        → Intact h s r a
        → Intact (e ∷ h) (record s { profiles = insert s.profiles e.profile moved }) r a
    Intact-update r a k = elim (Bool-cases (e.profile == a.profile)) [
      | inl same ↦
          let same_name : e.profile ≡ a.profile = ==-true e.profile a.profile same in
          let state_eq : k.state ≡ p = cc (known, k.found, same_name) in
          record {
            state = moved;
            found =
                ap (lookup (insert s.profiles e.profile moved)) (sym same_name)
                ∙ lookup-insert_self s.profiles e.profile moved;
            live = cc (k.live, ap (λ (x : ProfileState). x.active) state_eq);
            same_contract = sym (ap (λ (x : ProfileState). x.contract) state_eq) ∙ k.same_contract;
            same_artifact = sym (ap (λ (x : ProfileState). x.artifact) state_eq) ∙ k.same_artifact;
            same_precision =
                sym (ap (λ (x : ProfileState). x.precision) state_eq) ∙ k.same_precision;
            standing =
                subst
                  (λ (c : Certificate). Standing r a.profile a.device c a.numerical_budget (e ∷ h))
                  (ap certificate state_eq) (still-Standing r a (certificate k.state) k.standing);
          }
      | inr differs ↦ record {
        state = k.state;
        found =
            lookup-insert_ne s.profiles e.profile a.profile moved
              (==-false e.profile a.profile differs)
            ∙ k.found;
        live = k.live;
        same_contract = k.same_contract;
        same_artifact = k.same_artifact;
        same_precision = k.same_precision;
        standing = still-Standing r a (certificate k.state) k.standing;
      }
    ]

    Severed-update :
        (a : Admission)
        → Severed s a
        → Severed (record s { profiles = insert s.profiles e.profile moved }) a
    Severed-update a k = record {
      buried = k.buried;
      replaced = λ q l live. elim (lookup-insert_cases s.profiles e.profile a.profile moved q l) [
        | inl new ↦ λ eq.
            k.replaced p (cc (known, new.0)) (cc (live, ap (λ (x : ProfileState). x.active) new.1))
              (ap (λ (x : ProfileState). x.contract) new.1 ∙ eq)
        | inr kept ↦ k.replaced q kept.1 live
      ];
    }

    pub Linked-device_update :
        Linked (e ∷ h) (record s { profiles = insert s.profiles e.profile moved })
    Linked-device_update = record {
      published_profile = Published-profile_next;
      device_profile = device_profile_next;
      admission = λ r a l. elim (old.admission r a l) [
        | inl k ↦ inl (Intact-update r a k)
        | inr k ↦ inr (Severed-update a k)
      ];
    }

  -- The profiles are as they were.
  module _ {k : Kind} (is : kind_of e.event_type ≡ k) (no_publish : k ≢ publish)
      (no_revoke : k ≢ revoke) (no_update : k ≢ device_update) where
    Published-same :
        (n : String) (p : ProfileState)
        → lookup s.profiles n ≡ some p
        → p.active ≡ true
        → Published n (certificate p) (e ∷ h)
    Published-same n p l live =
        since (not_of_kind e is no_publish) (not_of_kind e is no_revoke)
          (old.published_profile n p l live)

    device_same :
        (n : String) (p : ProfileState) → lookup s.profiles n ≡ some p → OnDevice n p.device (e ∷ h)
    device_same n p l =
        stays (not_of_kind e is no_publish) (not_of_kind e is no_update) (old.device_profile n p l)

    admission_same :
        (r : String) (a : Admission) (m : Map Admission)
        → ¬ IsComplete r e
        → Intact h s r a ⊎ Severed s a
        → Intact (e ∷ h) (record s { admissions = m }) r a ⊎ Severed (record s { admissions = m }) a
    admission_same r a m open_still (inl x) = inl (record {
      state = x.state;
      found = x.found;
      live = x.live;
      same_contract = x.same_contract;
      same_artifact = x.same_artifact;
      same_precision = x.same_precision;
      standing = holds open_still (not_of_kind e is no_revoke) x.standing;
    })
    admission_same r a m open_still (inr x) =
        inr (record { buried = x.buried; replaced = x.replaced })

  pub Linked-dispatch : kind_of e.event_type ≡ dispatch → Linked (e ∷ h) s
  Linked-dispatch is = record {
    published_profile = Published-same is (λ x. cc) (λ x. cc) (λ x. cc);
    device_profile = device_same is (λ x. cc) (λ x. cc) (λ x. cc);
    admission = λ r a l.
        admission_same is (λ x. cc) (λ x. cc) (λ x. cc) r a s.admissions
          (not_of_kind e is (λ x. cc)) (old.admission r a l);
  }

  pub Linked-complete :
      kind_of e.event_type ≡ complete
      → Linked (e ∷ h) (record s { admissions = delete s.admissions e.request })
  Linked-complete is = record {
    published_profile = Published-same is (λ x. cc) (λ x. cc) (λ x. cc);
    device_profile = device_same is (λ x. cc) (λ x. cc) (λ x. cc);
    admission = λ r a l.
        let (differs, was) = lookup-delete-some s.admissions e.request r a l in
        admission_same is (λ x. cc) (λ x. cc) (λ x. cc) r a (delete s.admissions e.request)
          (not_of_name e.request r differs) (old.admission r a was);
  }

  pub Linked-admit :
      kind_of e.event_type ≡ admit
      → (p : ProfileState) → lookup s.profiles e.profile ≡ some p
      → p.active ≡ true
      → Linked (e ∷ h) (record s { admissions = insert s.admissions e.request (admission_of e p) })
  Linked-admit is p known live = record {
    published_profile = Published-same is (λ x. cc) (λ x. cc) (λ x. cc);
    device_profile = device_same is (λ x. cc) (λ x. cc) (λ x. cc);
    admission = λ r a l.
        elim (lookup-insert_cases s.admissions e.request r (admission_of e p) a l) [
          | inl new ↦ inl (
              subst (Intact (e ∷ h) _ r) new.1 (record {
                state = p;
                found = known;
                live = live;
                same_contract = refl;
                same_artifact = refl;
                same_precision = refl;
                standing =
                    granted (is, new.0, refl) refl (old.published_profile e.profile p known live)
                      (old.device_profile e.profile p known);
              }))
          | inr kept ↦
              admission_same is (λ x. cc) (λ x. cc) (λ x. cc) r a
                (insert s.admissions e.request (admission_of e p)) (not_of_kind e is (λ x. cc))
                (old.admission r a kept.1)
        ];
  }
