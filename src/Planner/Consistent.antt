-- ===== src/Planner/Consistent.antt =====
-- The model's part of Evaluate in pkg/planner/planner.go keeps a decision and its reasons in agreement.
use claim2kernel.Base.{
  Bool-cases, List, Map, Option, Option-cases, String, [], ap, arith, inl, inr, lookup, none, not,
  refl, some, subst, sym, true, ◌||◌, ◌∙◌, ◌∷◌, ◌≡◌,
}
use claim2kernel.Contract.Checks.{after_prefix}
use claim2kernel.Contract.Semver.{non_empty}
use claim2kernel.Contract.Types.{KernelProfile, KernelRequest, OodCertificate}
use claim2kernel.Contract.Value.{Value}
use claim2kernel.Float64.{Float64, f0, ltf}
use claim2kernel.Planner.{Decision, Reason, is_finite, named, reject}
use claim2kernel.Planner.Checks.{Consistent, reject-Consistent, reject_if-Consistent}
use claim2kernel.Planner.Evaluate.{
  composed, insert_reason, judge_latency, predicted, reason_less, sort_onto, sort_reasons,
  validate_latency, validate_model,
}
use claim2kernel.Planner.Inputs.{number_at}
use claim2kernel.Planner.Model.{
  Deltas, Resolution, add_feature, compute_deltas, deltas, finite_only, found_feature, judge_score,
  missing_feature, out_of_bounds, resolve_feature, resolve_features, score_deltas, score_rows,
  unavailable, validate_ood,
}

missing_feature-Consistent :
    (code field : String) (s : Resolution) → Consistent (missing_feature code field s).decision
unfolding missing_feature
missing_feature-Consistent code field s = reject-Consistent code field s.decision

add_feature-Consistent :
    (name field key : String) (o : Option Float64) (s : Resolution)
    → Consistent s.decision
    → Consistent (add_feature name field key o s).decision
unfolding add_feature found_feature
add_feature-Consistent name field key none s k =
    missing_feature-Consistent "MODEL_FEATURE_MISSING" (named field key) s
add_feature-Consistent name field key (some v) s k = k

resolve_feature-Consistent :
    (inputs : Map Value) (interference : Map Float64) (name : String) (s : Resolution)
    → Consistent s.decision
    → Consistent (resolve_feature inputs interference name s).decision
unfolding resolve_feature
resolve_feature-Consistent inputs interference name s k =
    elim (Option-cases (after_prefix "input." name)) [
      | inr (key, e) ↦
          simp (e, resolve_feature)
            (add_feature-Consistent name "spec.inputs." key (number_at inputs key) s k)
      | inl e ↦ elim (Option-cases (after_prefix "interference." name)) [
        | inr (key, f) ↦
            simp (e, f, resolve_feature)
              (add_feature-Consistent name "spec.interference." key
                (finite_only (lookup interference key)) s k)
        | inl f ↦
            simp (e, f, resolve_feature)
              (missing_feature-Consistent "INVALID_MODEL_FEATURE" "profile.spec.latency.model" s)
      ]
    ]

pub resolve_features-Consistent :
    (inputs : Map Value) (interference : Map Float64) (names : List String) (s : Resolution)
    → Consistent s.decision
    → Consistent (resolve_features inputs interference names s).decision
unfolding resolve_features
resolve_features-Consistent inputs interference [] s k = k
resolve_features-Consistent inputs interference (name ∷ names) s k =
    resolve_features-Consistent inputs interference names
      (resolve_feature inputs interference name s)
      (resolve_feature-Consistent inputs interference name s k)

judge_score-Consistent :
    (o : OodCertificate) (score : Float64) (d : Decision)
    → Consistent d
    → Consistent (judge_score o score d)
unfolding judge_score
judge_score-Consistent o score d k = elim (Bool-cases (not (is_finite score) || ltf score f0)) [
  | inl bad ↦
      rw (bad, judge_score)
        (reject-Consistent "INVALID_OOD_SCORE" "profile.spec.ood"
          (record d { ood_score = score; ood_threshold = o.threshold }))
  | inr good ↦
      rw (good, judge_score)
        (reject_if-Consistent (ltf o.threshold score) "OOD_REJECTED" "spec.inputs"
          (record d { ood_score = score; ood_threshold = o.threshold }) k)
]

score_deltas-Consistent :
    (o : OodCertificate) (ds : Deltas) (d e : Decision)
    → Consistent d
    → score_deltas o ds d ≡ some e
    → Consistent e
unfolding score_deltas
score_deltas-Consistent o out_of_bounds d e k h = absurd (cc (h))
score_deltas-Consistent o (unavailable name) d e k h =
    let same : reject "OOD_FEATURE_MISSING" name d ≡ e = cc (h) in
    subst Consistent same (reject-Consistent "OOD_FEATURE_MISSING" name d)
score_deltas-Consistent o (deltas ds) d e k h =
    elim (Option-cases (score_rows f0 ds ds o.inverse_covariance)) [
      | inl gone ↦ absurd (cc (rw (gone, score_deltas) at h))
      | inr (score, scored) ↦
          let same : judge_score o score d ≡ e = cc (rw (scored, score_deltas) at h) in
          subst Consistent same (judge_score-Consistent o score d k)
    ]

validate_ood-Consistent :
    (p : KernelProfile) (values : Map Float64) (d e : Decision)
    → Consistent d
    → validate_ood p values d ≡ some e
    → Consistent e
unfolding validate_ood
validate_ood-Consistent p values d e k h = elim (Bool-cases p.spec.ood.required) [
  | inl q ↦
      score_deltas-Consistent p.spec.ood (compute_deltas values p.spec.ood.features p.spec.ood.mean)
        d e k (rw q at h)
  | inr q ↦ let same : d ≡ e = cc (rw q at h) in subst Consistent same k
]

judge_latency-Consistent : (d : Decision) → Consistent d → Consistent (judge_latency d)
unfolding judge_latency
judge_latency-Consistent d k =
    elim (Bool-cases (not (is_finite d.latency_upper_us) || ltf d.latency_upper_us f0)) [
      | inl bad ↦
          rw (bad, judge_latency)
            (reject-Consistent "INVALID_LATENCY_BOUND" "profile.spec.latency" d)
      | inr good ↦
          rw (good, judge_latency)
            (reject_if-Consistent (ltf d.available_us d.latency_upper_us) "LATENCY_SLO_UNSATISFIED"
              "spec.deadlineUS" d k)
    ]

predicted-Consistent :
    (p : KernelProfile) (values : Map Float64) (d : Decision)
    → Consistent d
    → Consistent (predicted p values d)
unfolding predicted
predicted-Consistent p values d k = reject_if-Consistent _ _ _ _ k

composed-Consistent :
    (p : KernelProfile) (r : KernelRequest) (d : Decision)
    → Consistent d
    → Consistent (composed p r d)
unfolding composed
composed-Consistent p r d k = k

pub validate_model-Consistent :
    (p : KernelProfile) (r : KernelRequest) (s : Resolution) (e : Decision)
    → Consistent s.decision
    → validate_model p r s ≡ some e
    → Consistent e
unfolding validate_model validate_latency
validate_model-Consistent p r s e k h = elim (Bool-cases s.complete) [
  | inl found ↦
      validate_ood-Consistent p s.values _ e
        (judge_latency-Consistent _ (
          composed-Consistent p r (predicted p s.values s.decision)
            (predicted-Consistent p s.values s.decision k)))
        (rw (found, validate_model, validate_latency) at h)
  | inr lost ↦
      let same : s.decision ≡ e = cc (rw (lost, validate_model) at h) in subst Consistent same k
]

non_empty-insert_reason : (x : Reason) (xs : List Reason) → non_empty (insert_reason x xs) ≡ true
unfolding insert_reason
non_empty-insert_reason x [] = refl
non_empty-insert_reason x (y ∷ ys) = elim (Bool-cases (reason_less x y)) [
  | inl b ↦ rw (b, insert_reason) refl
  | inr b ↦ rw (b, insert_reason) refl
]

non_empty-sort_onto :
    (sorted xs : List Reason) → non_empty (sort_onto sorted xs) ≡ (non_empty sorted || non_empty xs)
unfolding sort_onto
non_empty-sort_onto sorted [] = ground arith
non_empty-sort_onto sorted (x ∷ xs) =
    non_empty-sort_onto (insert_reason x sorted) xs
    ∙ ground (arith, non_empty-insert_reason x sorted)

pub sort_reasons-Consistent : (d : Decision) → Consistent d → Consistent (sort_reasons d)
unfolding sort_reasons
sort_reasons-Consistent d k = k ∙ ap not (sym (non_empty-sort_onto [] d.reasons))
