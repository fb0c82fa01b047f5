-- ===== src/Statecheck/Linked/Revoke.antt =====
-- `revoke` keeps the checker's maps in agreement with the history: it severs the profile's admissions.
use claim2kernel.Base.{
  ==-false, ==-true, Bool-cases, List, String, ap, contains, contains-cons, contains-cons_self,
  false, inl, inr, insert, lookup, lookup-insert_cases, lookup-insert_ne, some, subst, true, ◌==◌,
  ◌∙◌, ◌∷◌, ◌≡◌, ◌≢◌,
}
use claim2kernel.Statecheck.{Admission, Checker, Event, ProfileState, kind_of, revoke}
use claim2kernel.Statecheck.History.{OnDevice, Published, holds, since, stays}
use claim2kernel.Statecheck.Linked.{Intact, Linked, Severed, certificate, not_of_kind, not_of_name}

module _ (h : List Event) (e : Event) (s : Checker) (old : Linked h s)
    (is : kind_of e.event_type ≡ revoke) (p : ProfileState)
    (known : lookup s.profiles e.profile ≡ some p) where
  abbrev after_revoke : Checker
  after_revoke = record s {
    profiles = insert s.profiles e.profile (record p { active = false });
    tombstones = p.contract ∷ s.tombstones;
  }

  Published-profile_next :
      (n : String) (q : ProfileState)
      → lookup after_revoke.profiles n ≡ some q
      → q.active ≡ true
      → Published n (certificate q) (e ∷ h)
  Published-profile_next n q l live =
      elim (lookup-insert_cases s.profiles e.profile n (record p { active = false }) q l) [
        | inl new ↦ absurd (cc (live, ap (λ (x : ProfileState). x.active) new.1))
        | inr kept ↦
            since (not_of_kind e is (λ x. cc)) (not_of_name e.profile n kept.0)
              (old.published_profile n q kept.1 live)
      ]

  device_profile_next :
      (n : String) (q : ProfileState)
      → lookup after_revoke.profiles n ≡ some q
      → OnDevice n q.device (e ∷ h)
  device_profile_next n q l =
      elim (lookup-insert_cases s.profiles e.profile n (record p { active = false }) q l) [
        | inl new ↦ stays (not_of_kind e is (λ x. cc)) (not_of_kind e is (λ x. cc)) (
            subst (λ d. OnDevice n d h) (ap (λ (x : ProfileState). x.device) new.1)
              (old.device_profile n p (cc (known, new.0))))
        | inr kept ↦
            stays (not_of_kind e is (λ x. cc)) (not_of_kind e is (λ x. cc))
              (old.device_profile n q kept.1)
      ]

  sever :
      (r : String) (a : Admission) → Intact h s r a → e.profile ≡ a.profile → Severed after_revoke a
  sever r a k same =
      let state_eq : p ≡ k.state = cc (known, k.found, same) in
      record {
        buried =
            subst (λ c. contains (p.contract ∷ s.tombstones) c ≡ true)
              (ap (λ (x : ProfileState). x.contract) state_eq ∙ k.same_contract)
              (contains-cons_self p.contract s.tombstones);
        replaced = λ q l live eq.
            elim (lookup-insert_cases s.profiles e.profile a.profile (record p { active = false }) q
              l) [
                | inl new ↦ absurd (cc (live, ap (λ (x : ProfileState). x.active) new.1))
                | inr kept ↦ absurd (kept.0 same)
              ];
      }

  keep :
      (r : String) (a : Admission)
      → Intact h s r a
      → e.profile ≢ a.profile
      → Intact (e ∷ h) after_revoke r a
  keep r a k differs = record {
    state = k.state;
    found =
        lookup-insert_ne s.profiles e.profile a.profile (record p { active = false }) differs
        ∙ k.found;
    live = k.live;
    same_contract = k.same_contract;
    same_artifact = k.same_artifact;
    same_precision = k.same_precision;
    standing =
        holds (not_of_kind e is (λ x. cc)) (not_of_name e.profile a.profile differs) k.standing;
  }

  Severed-revoke : (a : Admission) → Severed s a → Severed after_revoke a
  Severed-revoke a k = record {
    buried = contains-cons p.contract a.contract s.tombstones k.buried;
    replaced = λ q l live.
        elim (lookup-insert_cases s.profiles e.profile a.profile (record p { active = false }) q
          l) [
            | inl new ↦ absurd (cc (live, ap (λ (x : ProfileState). x.active) new.1))
            | inr kept ↦ k.replaced q kept.1 live
          ];
  }

  pub Linked-revoke : Linked (e ∷ h) after_revoke
  Linked-revoke = record {
    published_profile = Published-profile_next;
    device_profile = device_profile_next;
    admission = λ r a l. elim (old.admission r a l) [
      | inl k ↦ elim (Bool-cases (e.profile == a.profile)) [
        | inl same ↦ inr (sever r a k (==-true e.profile a.profile same))
        | inr differs ↦ inl (keep r a k (==-false e.profile a.profile differs))
      ]
      | inr k ↦ inr (Severed-revoke a k)
    ];
  }
