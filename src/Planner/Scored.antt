-- ===== src/Planner/Scored.antt =====
-- The score and the latency bound of pkg/planner/planner.go: what they guarantee where they pass.
use claim2kernel.Base.{
  Bool-cases, Map, Option-cases, ap, arith, false, inl, inr, not, some, subst, sym, true, ◌||◌, ◌∙◌,
  ◌≡◌,
}
use claim2kernel.Contract.Types.{KernelProfile, KernelRequest, OodCertificate}
use claim2kernel.Float64.{Float64, f0, ltf, ◌+f◌, ◌-f◌}
use claim2kernel.Planner.{Decision, is_finite}
use claim2kernel.Planner.Checks.{Figures, figures}
use claim2kernel.Planner.Evaluate.{judge_latency}
use claim2kernel.Planner.Model.{
  Deltas, compute_deltas, deltas, judge_score, out_of_bounds, score_deltas, score_rows, unavailable,
  validate_ood,
}

-- The prediction and the bound that a decision reports are sound for the request's deadline.
pub record LatencyHolds (p : KernelProfile) (r : KernelRequest) (t : Float64 × Float64 × Float64)
    : Type 0 where
  pub finite_prediction : is_finite t.0 ≡ true
  pub prediction_not_negative : ltf t.0 f0 ≡ false
  pub bound_composed :
      t.1
      ≡ t.0 +f p.spec.latency.residual_upper_us +f p.spec.latency.io_budget_us
        +f p.spec.latency.runtime_jitter_us
  pub time_available : t.2 ≡ r.spec.deadline_us -f r.spec.safety_margin_us
  pub finite_bound : is_finite t.1 ≡ true
  pub bound_not_negative : ltf t.1 f0 ≡ false
  pub within_deadline : ltf t.2 t.1 ≡ false

pub record ScoreHolds (o : OodCertificate) (score : Float64) : Type 0 where
  pub finite_score : is_finite score ≡ true
  pub score_not_negative : ltf score f0 ≡ false
  pub within_threshold : ltf o.threshold score ≡ false

judge_score_passes :
    (o : OodCertificate) (score : Float64) (d : Decision)
    → (judge_score o score d).admissible ≡ true
    → (d.admissible ≡ true) × ScoreHolds o score
unfolding judge_score
judge_score_passes o score d h = elim (Bool-cases (not (is_finite score) || ltf score f0)) [
  | inl bad ↦ absurd (ground (arith, bad))
  | inr good ↦ elim (Bool-cases (ltf o.threshold score)) [
    | inl over ↦ absurd (ground (arith, good, over))
    | inr inside ↦ (
      ground (arith, good, inside),
      record {
        finite_score = ground (arith, good);
        score_not_negative = ground (arith, good);
        within_threshold = inside;
      },
    )
  ]
]

figures-judge_score :
    (o : OodCertificate) (score : Float64) (d : Decision)
    → figures (judge_score o score d) ≡ record (figures d) { score = score }
unfolding judge_score
figures-judge_score o score d = elim (Bool-cases (not (is_finite score) || ltf score f0)) [
  | inl bad ↦ rw bad
  | inr good ↦ elim (Bool-cases (ltf o.threshold score)) [
    | inl over ↦ rw (good, over)
    | inr inside ↦ rw (good, inside)
  ]
]

abbrev pub latency_figures : Figures → Float64 × Float64 × Float64
latency_figures f = (f.predicted, f.upper, f.available)

-- What `validateOOD` leaves: the latency figures, and a score inside the region where it is required.
pub record OodPassed (o : OodCertificate) (d e : Decision) : Type 0 where
  pub before : d.admissible ≡ true
  pub same_latency : latency_figures (figures e) ≡ latency_figures (figures d)
  pub score_holds : o.required ≡ true → ScoreHolds o e.ood_score

score_deltas_passes :
    (o : OodCertificate) (ds : Deltas) (d e : Decision)
    → score_deltas o ds d ≡ some e
    → e.admissible ≡ true
    → OodPassed o d e
unfolding score_deltas
score_deltas_passes o out_of_bounds d e h a = absurd (cc (h))
score_deltas_passes o (unavailable name) d e h a = absurd (ground arith)
score_deltas_passes o (deltas ds) d e h a =
    elim (Option-cases (score_rows f0 ds ds o.inverse_covariance)) [
      | inl gone ↦ absurd (ground (arith, gone))
      | inr (score, scored) ↦
          let same : judge_score o score d ≡ e = cc (rw (scored, score_deltas) at h) in
          let (b, holds) =
            judge_score_passes o score d (ap (λ (x : Decision). x.admissible) same ∙ a) in
          let figs : figures e ≡ record (figures d) { score = score } =
            ap figures (sym same) ∙ figures-judge_score o score d in
          record {
            before = b;
            same_latency = ap latency_figures figs;
            score_holds =
                λ _. subst (ScoreHolds o) (sym (ap (λ (x : Figures). x.score) figs)) holds;
          }
    ]

pub validate_ood_passes :
    (p : KernelProfile) (values : Map Float64) (d e : Decision)
    → validate_ood p values d ≡ some e
    → e.admissible ≡ true
    → OodPassed p.spec.ood d e
unfolding validate_ood
validate_ood_passes p values d e h a = elim (Bool-cases p.spec.ood.required) [
  | inl yes_required ↦
      score_deltas_passes p.spec.ood (compute_deltas values p.spec.ood.features p.spec.ood.mean) d e
        (rw yes_required at h) a
  | inr not_required ↦
      let same : d ≡ e = cc (rw not_required at h) in
      record {
        before = ap (λ (x : Decision). x.admissible) same ∙ a;
        same_latency = ap (λ (x : Decision). latency_figures (figures x)) (sym same);
        score_holds = λ required. absurd (cc (required, not_required));
      }
]

pub judge_latency_passes :
    (d : Decision)
    → (judge_latency d).admissible ≡ true
    → (d.admissible ≡ true)
      × (is_finite d.latency_upper_us ≡ true)
      × (ltf d.latency_upper_us f0 ≡ false)
      × (ltf d.available_us d.latency_upper_us ≡ false)
unfolding judge_latency
judge_latency_passes d h =
    elim (Bool-cases (not (is_finite d.latency_upper_us) || ltf d.latency_upper_us f0)) [
      | inl bad ↦ absurd (ground (arith, bad))
      | inr good ↦ ground (arith, good)
    ]

pub figures-judge_latency : (d : Decision) → figures (judge_latency d) ≡ figures d
unfolding judge_latency
figures-judge_latency d = ground arith
