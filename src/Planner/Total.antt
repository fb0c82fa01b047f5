-- ===== src/Planner/Total.antt =====
-- Evaluate of pkg/planner/planner.go does not panic once the profile's validation returned: a profile
-- that passes it has the dimensions that validateOOD indexes by.
use mathlib.Core.Option
use claim2kernel.Base.{
  Bool-cases, List, Map, Option, Option-cases, String, [], ap, arith, inl, inr, length, lookup,
  none, not, refl, some, subst, suc, sym, true, ℕ, ◌&&◌, ◌==◌, ◌∙◌, ◌∷◌, ◌≡◌,
}
use claim2kernel.Contract.Env.{Env, Time}
use claim2kernel.Contract.Semver.{non_empty}
use claim2kernel.Contract.Total.{IsFitting, IsWide, validate_profile-IsFitting}
use claim2kernel.Contract.Types.{KernelProfile, KernelRequest, OodCertificate}
use claim2kernel.Contract.Validate.{validate_profile}
use claim2kernel.Contract.Validate.Issues.{Issue}
use claim2kernel.Contract.Validate.Request.{validate_request}
use claim2kernel.Float64.{Float64, f0, ◌*f◌, ◌+f◌, ◌-f◌}
use claim2kernel.Planner.{Decision, RuntimeEvidence, reject}
use claim2kernel.Planner.Evaluate.{
  composed, evaluate, evaluate_issues, evaluate_pair, evaluate_request, evaluate_valid,
  judge_latency, new_decision, observed, predicted, sort_reasons, validate_envelope,
  validate_identity, validate_latency, validate_model, validate_runtime,
}
use claim2kernel.Planner.Model.{
  Deltas, Resolution, compute_deltas, cons_delta, deltas, judge_score, model_features,
  out_of_bounds, score_deltas, score_row, score_rows, unavailable, validate_ood,
}

-- What the deltas are where every feature has a mean.
abbrev DeltasFit : ℕ → Deltas → Type 0
DeltasFit n out_of_bounds = ⊥
DeltasFit n (unavailable name) = Unit {0}
DeltasFit n (deltas ds) = length ds ≡ n

cons_delta-DeltasFit :
    (x : Float64) (n : ℕ) (ds : Deltas) → DeltasFit n ds → DeltasFit (suc n) (cons_delta x ds)
cons_delta-DeltasFit x n out_of_bounds h = absurd h
cons_delta-DeltasFit x n (unavailable name) h = tt
cons_delta-DeltasFit x n (deltas ds) h = cc (h)

compute_deltas-DeltasFit :
    (values : Map Float64) (names : List String) (mean : List Float64)
    → length mean ≡ length names
    → DeltasFit (length names) (compute_deltas values names mean)
unfolding compute_deltas
compute_deltas-DeltasFit values [] mean h = refl
compute_deltas-DeltasFit values (name ∷ names) [] h = absurd (omega arith)
compute_deltas-DeltasFit values (name ∷ names) (m ∷ mean) h =
    let rest = compute_deltas-DeltasFit values names mean (omega arith) in
    elim (Option-cases (lookup values name)) [
      | inl gone ↦ rw (gone, compute_deltas) tt
      | inr (v, e) ↦ rw (e, compute_deltas) (cons_delta-DeltasFit (v -f m) (length names) _ rest)
    ]

score_row_total :
    (score di : Float64) (row ds : List Float64)
    → length row ≡ length ds
    → (s : Float64) × (score_row score di row ds ≡ some s)
unfolding score_row
score_row_total score di row [] h = (score, refl)
score_row_total score di [] (dj ∷ ds) h = absurd (omega arith)
score_row_total score di (x ∷ row) (dj ∷ ds) h =
    score_row_total (score +f di *f x *f dj) di row ds (omega arith)

score_rows_total :
    (score : Float64) (ds rest : List Float64) (rows : List (List Float64))
    → length rows ≡ length rest
    → IsWide (length ds) rows
    → (s : Float64) × (score_rows score ds rest rows ≡ some s)
unfolding score_rows
score_rows_total score ds [] rows h w = (score, refl)
score_rows_total score ds (di ∷ rest) [] h w = absurd (omega arith)
score_rows_total score ds (di ∷ rest) (row ∷ rows) h w =
    let (s, e) = score_row_total score di row ds w.0 in
    let (t, f) = score_rows_total s ds rest rows (omega arith) w.1 in (t, rw (e, score_rows) f)

score_deltas_total :
    (o : OodCertificate) (ds : Deltas) (d : Decision)
    → IsFitting o
    → DeltasFit (length o.features) ds
    → (e : Decision) × (score_deltas o ds d ≡ some e)
unfolding score_deltas
score_deltas_total o out_of_bounds d fit h = absurd h
score_deltas_total o (unavailable name) d fit h = (reject "OOD_FEATURE_MISSING" name d, refl)
score_deltas_total o (deltas ds) d fit h =
    let (s, e) =
      score_rows_total f0 ds ds o.inverse_covariance (fit.rows ∙ sym h)
        (subst (λ n. IsWide n o.inverse_covariance) (sym h) fit.columns) in
    (judge_score o s d, rw (e, score_deltas) refl)

validate_ood_total :
    (p : KernelProfile) (values : Map Float64) (d : Decision)
    → (p.spec.ood.required ≡ true → IsFitting p.spec.ood)
    → (e : Decision) × (validate_ood p values d ≡ some e)
unfolding validate_ood
validate_ood_total p values d fit = elim (Bool-cases p.spec.ood.required) [
  | inr skipped ↦ (d, simp (skipped, validate_ood))
  | inl checked ↦
      let (e, scored) =
        score_deltas_total p.spec.ood _ d (fit checked) (
          compute_deltas-DeltasFit values p.spec.ood.features p.spec.ood.mean
            (fit checked).means) in
      (e, simp (checked, validate_ood) scored)
]

validate_model_total :
    (p : KernelProfile) (r : KernelRequest) (s : Resolution)
    → (p.spec.ood.required ≡ true → IsFitting p.spec.ood)
    → (e : Decision) × (validate_model p r s ≡ some e)
unfolding validate_model validate_latency
validate_model_total p r s fit = elim (Bool-cases s.complete) [
  | inr lost ↦ (s.decision, simp (lost, validate_model))
  | inl found ↦
      let (e, h) =
        validate_ood_total p s.values
          (judge_latency (composed p r (predicted p s.values s.decision))) fit in
      (e, rw (found, validate_model, validate_latency) h)
]

module _ (env : Env) (clock : Time) where
  evaluate_valid_total :
      (phase : String) (p : KernelProfile) (r : KernelRequest) (ev : RuntimeEvidence)
      (start : Decision)
      → (p.spec.ood.required ≡ true → IsFitting p.spec.ood)
      → (e : Decision) × (evaluate_valid env clock phase p r ev start ≡ some e)
  unfolding evaluate_valid
  evaluate_valid_total phase p r ev start fit =
      let (e, h) =
        validate_model_total p r
          (model_features p r (observed phase ev.interference r.spec.interference)
            (validate_envelope env clock phase p r ev (validate_identity env clock p r ev start)))
          fit in
      (
        sort_reasons (validate_runtime phase p ev e),
        ap (Option.map (λ x. sort_reasons (validate_runtime phase p ev x))) h,
      )

  evaluate_request_total :
      (phase : String) (p : KernelProfile) (r : Option KernelRequest) (ev : RuntimeEvidence)
      (start : Decision)
      → (p.spec.ood.required ≡ true → IsFitting p.spec.ood)
      → (e : Decision) × (evaluate_request env clock phase (some p) r ev start ≡ some e)
  unfolding evaluate_request evaluate_pair validate_request
  evaluate_request_total phase p none ev start fit =
      (reject "INVALID_REQUEST" "request" start, refl)
  evaluate_request_total phase p (some r) ev start fit =
      let (e, h) = evaluate_valid_total phase p r ev start fit in
      elim (Bool-cases (non_empty (validate_request (some r)))) [
        | inl bad ↦ (reject "INVALID_REQUEST" "request" start, rw (bad, evaluate_request) refl)
        | inr good ↦ (e, rw (good, evaluate_request, evaluate_pair) h)
      ]

  evaluate_issues_total :
      (issues : List Issue) (phase : String) (p : KernelProfile) (r : Option KernelRequest)
      (ev : RuntimeEvidence) (start : Decision)
      → (issues ≡ [] → p.spec.ood.required ≡ true → IsFitting p.spec.ood)
      → (e : Decision) × (evaluate_issues env clock (some issues) phase (some p) r ev start
          ≡ some e)
  unfolding evaluate_issues
  evaluate_issues_total [] phase p r ev start fit =
      evaluate_request_total phase p r ev start (fit refl)
  evaluate_issues_total (i ∷ issues) phase p r ev start fit =
      (reject "INVALID_PROFILE" "profile" start, refl)

  evaluate_profile_total :
      (p : KernelProfile) (r : Option KernelRequest) (phase : String) (ev : RuntimeEvidence)
      (start : Decision) (o : Option (List Issue)) (issues : List Issue)
      → o ≡ validate_profile env (some p) true
      → o ≡ some issues
      → (d : Decision) × (evaluate_issues env clock o phase (some p) r ev start ≡ some d)
  evaluate_profile_total p r phase ev start none issues same e = absurd (cc (e))
  evaluate_profile_total p r phase ev start (some found) issues same e =
      evaluate_issues_total found phase p r ev start
        (λ none_found q. validate_profile-IsFitting env p true (sym same ∙ ap some none_found) q)

  -- Evaluate returns a decision for every phase, request and evidence where ValidateProfile returns
  -- issues, or none, for the profile: nothing behind the validation panics.
  pub evaluate_total :
      (p : KernelProfile) (r : Option KernelRequest) (phase : String) (ev : RuntimeEvidence)
      (issues : List Issue)
      → validate_profile env (some p) true ≡ some issues
      → (d : Decision) × (evaluate env clock (some p) r phase ev ≡ some d)
  unfolding evaluate
  evaluate_total p r phase ev issues e =
      let start = new_decision phase (some p) in
      let (d, h) =
        evaluate_profile_total p r phase ev start (validate_profile env (some p) true) issues refl
          e in
      elim (Bool-cases (not (phase == "plan") && not (phase == "runtime"))) [
        | inl bad ↦ (reject "INVALID_PHASE" "phase" start, rw (bad, evaluate) refl)
        | inr good ↦ (d, rw (good, evaluate) h)
      ]
