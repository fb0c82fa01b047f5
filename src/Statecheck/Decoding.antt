-- ===== src/Statecheck/Decoding.antt =====
-- DecodeTrace of pkg/statecheck/statecheck.go: strict decoding, then the bounds on the events.
use claim2kernel.Base.{
  Bool, Bool-cases, List, Option, String, ap, arith, false, if◌then◌else◌, inl, inr, length, ltb,
  nat_eq, refl, result_cases, subst, ℕ, ◌*◌, ◌^◌, ◌↔◌, ◌∙◌, ◌≡◌, ◌≤◌, ◌⊎◌,
}
use claim2kernel.Jsonsafe.{JsonError, Token, decode_strict}
use claim2kernel.Jsonsafe.Strict.{IsDecoded, decode_strict_iff}
use claim2kernel.Statecheck.{Trace}

pub data TraceError : Type 0 where
  trace_refused : JsonError → TraceError
  no_events too_many_events : TraceError

abbrev pub max_trace_bytes : ℕ
max_trace_bytes = 4 * 2 ^ 20

abbrev pub max_events : ℕ
max_events = 100000

unfoldable pub bound_events : Trace → TraceError ⊎ Trace
bound_events t =
    if nat_eq (length t.events) 0
    then inl no_events
    else if ltb max_events (length t.events)
    then inl too_many_events
    else inr t

bound_events-inr :
    (t u : Trace)
    → bound_events t ≡ inr u
    → (t ≡ u) × (1 ≤ length u.events) × (length u.events ≤ max_events)
unfolding bound_events
bound_events-inr t u h = elim (Bool-cases (nat_eq (length t.events) 0)) [
  | inl bare ↦ absurd (cc (rw (bare, bound_events) at h))
  | inr some_event ↦ elim (Bool-cases (ltb max_events (length t.events))) [
    | inl many ↦ absurd (cc (rw (some_event, many, bound_events) at h))
    | inr few ↦
        let same : t ≡ u = cc (rw (some_event, few, bound_events) at h) in
        (
          same,
          subst (λ (x : Trace). 1 ≤ length x.events) same (grind arith),
          subst (λ (x : Trace). length x.events ≤ max_events) same (grind arith),
        )
  ]
]

bound_events_accepts :
    (t : Trace) → 1 ≤ length t.events → length t.events ≤ max_events → bound_events t ≡ inr t
unfolding bound_events
bound_events_accepts t low high =
    let some_event : nat_eq (length t.events) 0 ≡ false = grind arith in
    let few : ltb max_events (length t.events) ≡ false = grind arith in
    rw (some_event, few, bound_events) refl

module _ (byte_count : String → ℕ) (tokens : String → List Token)
    (decode : String → Option (Trace × Bool)) where
  -- DecodeTrace
  unfoldable pub decode_trace : String → TraceError ⊎ Trace
  unfolding decode_strict bound_events
  decode_trace input = elim (decode_strict byte_count tokens decode input max_trace_bytes) [
    | inl err ↦ inl (trace_refused err)
    | inr t ↦ bound_events t
  ]

  -- A trace is decoded exactly from a strict text of at most 4 MB with 1 to 100000 events.
  pub decode_trace_iff :
      (input : String) (t : Trace)
      → (decode_trace input ≡ inr t) ↔ (
          IsDecoded byte_count tokens decode input max_trace_bytes t
          × (1 ≤ length t.events)
          × (length t.events ≤ max_events))
  unfolding decode_trace
  decode_trace_iff input t =
      let decoding = decode_strict_iff byte_count tokens decode input max_trace_bytes in
      (
        λ h. elim (result_cases (decode_strict byte_count tokens decode input max_trace_bytes)) [
          | inl (err, bad) ↦ absurd (cc (rw (bad, decode_trace) at h))
          | inr (d, found) ↦
              let (same, low, high) = bound_events-inr d t (rw (found, decode_trace) at h) in
              ((decoding t).0 (found ∙ ap inr same), low, high)
        ],
        λ k. rw ((decoding t).1 k.0, bound_events_accepts t k.1 k.2, decode_trace) refl,
      )
