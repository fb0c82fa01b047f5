-- ===== src/Contract/Window.antt =====
-- CertificateFresh of pkg/contract/validate.go accepts exactly the times inside every window of the
-- profile.
use claim2kernel.Base.{
  Bool, Bool-cases, Option, Option-cases, String, arith, false, if◌then◌else◌, inl, inr, none, refl,
  some, subst, true, ℕ, ◌*◌, ◌-◌, ◌==◌, ◌^◌, ◌↔◌, ◌≡◌, ◌≤◌,
}
use claim2kernel.Base.Int.{ltb_ℤ, negsuc, pos, pos_part, ℤ, ◌-ℤ◌, ◌≤ℤ◌}
use claim2kernel.Contract.Env.{Env, Time, minutes}
use claim2kernel.Contract.Fresh.{
  Staleness, certificate_fresh, duration_between, first_error, not_expired, not_in_future,
  seal_fresh, seconds, stale, within_age,
}
use claim2kernel.Contract.Types.{KernelProfile, Seal}

none_of_if : (b : Bool) (err : Staleness) → (if b then some err else none) ≡ none → b ≡ false
none_of_if true err h = absurd (cc (h))
none_of_if false err h = refl

first_error-none : (a b : Option Staleness) → first_error a b ≡ none → (a ≡ none) × (b ≡ none)
first_error-none none b h = (refl, h)
first_error-none (some err) b h = absurd (cc (h))

first_error-none_both : (a b : Option Staleness) → a ≡ none → b ≡ none → first_error a b ≡ none
first_error-none_both none b h k = k
first_error-none_both (some err) b h k = absurd (cc (h))

-- The seconds of a maximal age, at most 2^63 / 10^9, are counted in nanoseconds without overflow.
seconds_pos : (n : ℕ) → n ≤ 9223372036 → seconds (pos n) ≡ pos (n * 1000000000)
unfolding seconds
seconds_pos n h = ground arith

saturate : ℤ → ℤ
saturate d =
    if ltb_ℤ (pos (2 ^ 63 - 1)) d
    then pos (2 ^ 63 - 1)
    else if ltb_ℤ d (negsuc (2 ^ 63 - 1))
    then negsuc (2 ^ 63 - 1)
    else d

saturated :
    (n : ℕ) (d : ℤ)
    → n ≤ 9223372036
    → (ltb_ℤ (pos (n * 1000000000)) (saturate d) ≡ false) ↔ (d ≤ℤ pos (n * 1000000000))
unfolding saturate
saturated n (pos d) h = ((λ k. ground arith), (λ k. ground arith))
saturated n (negsuc d) h = ((λ k. ground arith), (λ k. ground arith))

-- A difference that saturates is above every such age, or below all of them.
age_iff :
    (age : ℤ) (n : ℕ) (t u : Time)
    → age ≡ pos n
    → n ≤ 9223372036
    → (ltb_ℤ (seconds age) (duration_between t u) ≡ false)
      ↔ ((t -ℤ u) ≤ℤ pos (pos_part age * 1000000000))
unfolding duration_between saturate
age_iff age n t u e h = rw (e, seconds_pos n h) (saturated n (t -ℤ u) h)

module _ (env : Env) (now : Time) where
  -- The text is a time, and `now` is no more than five minutes before it.
  pub record Begun (s : String) : Type 0 where
    pub time : Time
    pub readable : env.parse_time s ≡ some time
    pub begun : ltb_ℤ now (time -ℤ minutes 5) ≡ false

  -- The text is a time after `now`.
  pub record Ahead (s : String) : Type 0 where
    pub time : Time
    pub readable : env.parse_time s ≡ some time
    pub ahead : ltb_ℤ now time ≡ true

  -- `now` is inside every window of the profile: after its creation, its seal and its calibration, each
  -- with five minutes of skew, before its expiry, where there is one, and within the age of its
  -- calibration.
  pub record IsFresh (p : KernelProfile) : Type 0 where
    pub created : Begun p.metadata.created_at
    pub sealed : (s : Seal) → p.seal ≡ some s → Begun s.sealed_at
    pub unexpired : (p.metadata.expires_at == "") ≡ false → Ahead p.metadata.expires_at
    pub calibrated : Begun p.spec.latency.calibrated_at
    pub young :
        (now -ℤ calibrated.time) ≤ℤ pos (pos_part p.spec.latency.max_age_seconds * 1000000000)

  Begun-of_none : (s : String) (a b : Staleness) → not_in_future env now s a b ≡ none → Begun s
  unfolding not_in_future
  Begun-of_none s a b h = elim (Option-cases (env.parse_time s)) [
    | inl gone ↦ absurd (cc (rw (gone, not_in_future) at h))
    | inr (t, found) ↦ record {
      time = t;
      readable = found;
      begun = none_of_if (ltb_ℤ now (t -ℤ minutes 5)) b (rw (found, not_in_future) at h);
    }
  ]

  none_of_Begun : (s : String) (a b : Staleness) → Begun s → not_in_future env now s a b ≡ none
  unfolding not_in_future
  none_of_Begun s a b k = rw (k.readable, k.begun, not_in_future) refl

  sealed_of_none :
      (o : Option Seal) → seal_fresh env now o ≡ none → (s : Seal) → o ≡ some s → Begun s.sealed_at
  unfolding seal_fresh
  sealed_of_none none h s e = absurd (cc (e))
  sealed_of_none (some t) h s e =
      let same : t ≡ s = cc (e) in
      subst (λ x. Begun x.sealed_at) same (Begun-of_none t.sealed_at _ _ h)

  none_of_sealed :
      (o : Option Seal)
      → ((s : Seal) → o ≡ some s → Begun s.sealed_at)
      → seal_fresh env now o ≡ none
  unfolding seal_fresh
  none_of_sealed none k = refl
  none_of_sealed (some t) k = none_of_Begun t.sealed_at _ _ (k t refl)

  Ahead-of_none : (s : String) → not_expired env now s ≡ none → (s == "") ≡ false → Ahead s
  unfolding not_expired
  Ahead-of_none s h given = elim (Option-cases (env.parse_time s)) [
    | inl gone ↦ absurd (cc (rw (given, gone, not_expired) at h))
    | inr (t, found) ↦ elim (Bool-cases (ltb_ℤ now t)) [
      | inl before ↦ record { time = t; readable = found; ahead = before }
      | inr past ↦ absurd (cc (rw (given, found, past, not_expired) at h))
    ]
  ]

  none_of_Ahead : (s : String) → ((s == "") ≡ false → Ahead s) → not_expired env now s ≡ none
  unfolding not_expired
  none_of_Ahead s k = elim (Bool-cases (s == "")) [
    | inl absent ↦ rw (absent, not_expired) refl
    | inr given ↦ let a = k given in rw (given, a.readable, a.ahead, not_expired) refl
  ]

  -- CertificateFresh gives no error exactly where `now` is inside every window of the profile; the
  -- maximal age is not negative and at most 9223372036 seconds.
  pub certificate_fresh_iff :
      (p : KernelProfile) (n : ℕ)
      → p.spec.latency.max_age_seconds ≡ pos n
      → n ≤ 9223372036
      → (certificate_fresh env now p ≡ none) ↔ IsFresh p
  unfolding certificate_fresh within_age
  certificate_fresh_iff p n whole small = (
    λ h.
        let (a, h₁) = first_error-none _ _ h in
        let (b, h₂) = first_error-none _ _ h₁ in
        let (c, h₃) = first_error-none _ _ h₂ in
        let (d, e) = first_error-none _ _ h₃ in
        let cal = Begun-of_none p.spec.latency.calibrated_at _ _ d in
        record {
          created = Begun-of_none p.metadata.created_at _ _ a;
          sealed = sealed_of_none p.seal b;
          unexpired = Ahead-of_none p.metadata.expires_at c;
          calibrated = cal;
          young =
              (age_iff p.spec.latency.max_age_seconds n now cal.time whole small).0
                (none_of_if _ stale (rw (cal.readable, within_age) at e));
        },
    λ k.
        let age = age_iff p.spec.latency.max_age_seconds n now k.calibrated.time whole small in
        first_error-none_both _ _ (none_of_Begun p.metadata.created_at _ _ k.created) (
          first_error-none_both _ _ (none_of_sealed p.seal k.sealed) (
            first_error-none_both _ _ (none_of_Ahead p.metadata.expires_at k.unexpired) (
              first_error-none_both _ _
                (none_of_Begun p.spec.latency.calibrated_at _ _ k.calibrated)
                (rw (k.calibrated.readable, age.1 k.young, within_age) refl)))),
  )
