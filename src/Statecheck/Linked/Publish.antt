-- ===== src/Statecheck/Linked/Publish.antt =====
-- `publish` keeps the checker's maps in agreement with the history.
use claim2kernel.Base.{
  List, String, ap, contains, false, inl, inr, insert, lookup, lookup-insert_cases,
  lookup-insert_ne, some, true, ◌∙◌, ◌∷◌, ◌≡◌,
}
use claim2kernel.Statecheck.{
  Admission, Checker, Event, ProfileState, is_active, kind_of, publish, published_state,
}
use claim2kernel.Statecheck.History.{OnDevice, Published, holds, now, publish_sets, since, stays}
use claim2kernel.Statecheck.Linked.{Intact, Linked, Severed, certificate, not_of_kind, not_of_name}

module _ (h : List Event) (e : Event) (s : Checker) (old : Linked h s)
    (is : kind_of e.event_type ≡ publish) where
  Published-profile_next :
      (n : String) (p : ProfileState)
      → lookup (insert s.profiles e.profile (published_state e)) n ≡ some p
      → p.active ≡ true
      → Published n (certificate p) (e ∷ h)
  Published-profile_next n p l live =
      elim (lookup-insert_cases s.profiles e.profile n (published_state e) p l) [
        | inl new ↦ now (is, new.0) (cc (new.1))
        | inr kept ↦
            since (not_of_name e.profile n kept.0) (not_of_kind e is (λ x. cc))
              (old.published_profile n p kept.1 live)
      ]

  device_profile_next :
      (n : String) (p : ProfileState)
      → lookup (insert s.profiles e.profile (published_state e)) n ≡ some p
      → OnDevice n p.device (e ∷ h)
  device_profile_next n p l =
      elim (lookup-insert_cases s.profiles e.profile n (published_state e) p l) [
        | inl new ↦ publish_sets (is, new.0) (cc (new.1))
        | inr kept ↦
            stays (not_of_name e.profile n kept.0) (not_of_kind e is (λ x. cc))
              (old.device_profile n p kept.1)
      ]

  Intact-publish :
      (r : String) (a : Admission)
      → is_active (lookup s.profiles e.profile) ≡ false
      → Intact h s r a
      → Intact (e ∷ h) (record s { profiles = insert s.profiles e.profile (published_state e) }) r a
  Intact-publish r a idle k = record {
    state = k.state;
    found =
        lookup-insert_ne s.profiles e.profile a.profile (published_state e) (λ eq.
          cc (idle, ap (λ n. is_active (lookup s.profiles n)) eq, ap is_active k.found, k.live))
        ∙ k.found;
    live = k.live;
    same_contract = k.same_contract;
    same_artifact = k.same_artifact;
    same_precision = k.same_precision;
    standing = holds (not_of_kind e is (λ x. cc)) (not_of_kind e is (λ x. cc)) k.standing;
  }

  Severed-publish :
      (a : Admission)
      → contains s.tombstones e.contract_digest ≡ false
      → Severed s a
      → Severed (record s { profiles = insert s.profiles e.profile (published_state e) }) a
  Severed-publish a fresh k = record {
    buried = k.buried;
    replaced = λ p l live eq.
        elim (lookup-insert_cases s.profiles e.profile a.profile (published_state e) p l) [
          | inl new ↦ cc (
            fresh,
            k.buried,
            ap (λ (q : ProfileState). contains s.tombstones q.contract) new.1,
            ap (contains s.tombstones) eq,
          )
          | inr kept ↦ k.replaced p kept.1 live eq
        ];
  }

  pub Linked-publish :
      is_active (lookup s.profiles e.profile) ≡ false
      → contains s.tombstones e.contract_digest ≡ false
      → Linked (e ∷ h) (record s { profiles = insert s.profiles e.profile (published_state e) })
  Linked-publish idle fresh = record {
    published_profile = Published-profile_next;
    device_profile = device_profile_next;
    admission = λ r a l. elim (old.admission r a l) [
      | inl k ↦ inl (Intact-publish r a idle k)
      | inr k ↦ inr (Severed-publish a fresh k)
    ];
  }
