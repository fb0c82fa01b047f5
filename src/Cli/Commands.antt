-- ===== src/Cli/Commands.antt =====
-- cmdStatecheck of cmd/c2k/main.go, on the bytes that mustRead returns. The result that writeJSON
-- prints is one of the command's results, and whether the print succeeds is a parameter.
use claim2kernel.Base.{
  Bool, Bool-cases, List, Option, String, false, if◌then◌else◌, inl, inr, length, none, not, refl,
  result_cases, some, true, ℕ, ◌*◌, ◌^◌, ◌↔◌, ◌≡◌, ◌≤◌,
}
use claim2kernel.Jsonsafe.{Token}
use claim2kernel.Jsonsafe.Strict.{IsDecoded}
use claim2kernel.Statecheck.{Checker, Result, Trace, Violation, check, start}
use claim2kernel.Statecheck.Decoding.{TraceError, decode_trace, decode_trace_iff}
use claim2kernel.Statecheck.Durable.{check_valid_iff}
use claim2kernel.Statecheck.Lifecycle.{Lifecycle}

pub data CommandError : Type 0 where
  trace_undecoded : TraceError → CommandError
  output_failed : CommandError
  invariants_violated : List Violation → CommandError

-- The end of the command, from the result it prints.
unfoldable pub report_check : Bool → Result → Option CommandError
report_check printed res =
    if not printed
    then some output_failed
    else if not res.valid
    then some (invariants_violated res.violations)
    else none

report_check-none :
    (printed : Bool) (res : Result)
    → report_check printed res ≡ none
    → (printed ≡ true) × (res.valid ≡ true)
unfolding report_check
report_check-none false res h = absurd (cc (h))
report_check-none true res h = elim (Bool-cases res.valid) [
  | inl good ↦ (refl, good)
  | inr bad ↦ absurd (cc (rw (bad, report_check) at h))
]

report_check_accepts :
    (printed : Bool) (res : Result)
    → printed ≡ true
    → res.valid ≡ true
    → report_check printed res ≡ none
unfolding report_check
report_check_accepts printed res shown good = rw (shown, good, report_check) refl

module _ (byte_count : String → ℕ) (tokens : String → List Token)
    (decode : String → Option (Trace × Bool)) where
  -- cmdStatecheck
  unfoldable pub cmd_statecheck : Bool → String → Option Result × Option CommandError
  unfolding decode_trace check report_check
  cmd_statecheck printed input = elim (decode_trace byte_count tokens decode input) [
    | inl err ↦ (none, some (trace_undecoded err))
    | inr t ↦ let res = check (some t) in (some res, report_check printed res)
  ]

  -- What makes the command end without an error.
  pub record IsPassed (printed : Bool) (input : String) : Type 0 where
    pub shown : printed ≡ true
    pub trace : Trace
    pub decoded : IsDecoded byte_count tokens decode input (4 * 2 ^ 20) trace
    pub some_events : 1 ≤ length trace.events
    pub few_events : length trace.events ≤ 100000
    pub last : Checker
    pub run : Lifecycle last trace.events start

  -- cmdStatecheck ends without an error exactly where its result is printed, and the input is the
  -- strict text, of at most 4 MiB, of a trace of 1 to 100000 events over which the lifecycle has a run.
  pub cmd_statecheck_iff :
      (printed : Bool) (input : String)
      → ((cmd_statecheck printed input).1 ≡ none) ↔ IsPassed printed input
  unfolding cmd_statecheck
  cmd_statecheck_iff printed input = (
    λ h. elim (result_cases (decode_trace byte_count tokens decode input)) [
      | inl (err, bad) ↦ absurd (cc (rw (bad, cmd_statecheck) at h))
      | inr (t, found) ↦
          let ended =
            report_check-none printed (check (some t)) (rw (found, cmd_statecheck) at h) in
          let reading = (decode_trace_iff byte_count tokens decode input t).0 found in
          let ran = (check_valid_iff t.events).0 ended.1 in
          record {
            shown = ended.0;
            trace = t;
            decoded = reading.0;
            some_events = reading.1;
            few_events = reading.2;
            last = ran.0;
            run = ran.1;
          }
    ],
    λ k.
        let found =
          (decode_trace_iff byte_count tokens decode input k.trace).1
            (k.decoded, k.some_events, k.few_events) in
        rw (found, cmd_statecheck)
          (report_check_accepts printed (check (some k.trace)) k.shown
            ((check_valid_iff k.trace.events).1 (k.last, k.run))),
  )
