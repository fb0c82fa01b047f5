-- ===== src/Planner/Composed.antt =====
-- The latency bound, the score and the allocation of pkg/planner/planner.go, composed in the order of
-- Evaluate.
use claim2kernel.Base.{
  Bool-cases, Map, Option, String, ap, arith, false, if◌then◌else◌, inl, inr, none, refl, some,
  subst, sym, true, ◌==◌, ◌∙◌, ◌≡◌,
}
use claim2kernel.Contract.Checks.{finite}
use claim2kernel.Contract.Types.{KernelProfile, KernelRequest}
use claim2kernel.Dra.{DeviceMetadata}
use claim2kernel.Float64.{Float64, f0, ltf}
use claim2kernel.Planner.{Decision, RuntimeEvidence, is_finite, reject, reject_if}
use claim2kernel.Planner.Checks.{Checks, Checks-id, Checks-if, Checks-iff, Checks-reject, figures}
use claim2kernel.Planner.Conditions.{AllocationHolds}
use claim2kernel.Planner.Conditions.Devices.{Checks-validate_dra}
use claim2kernel.Planner.Devices.{validate_dra}
use claim2kernel.Planner.Evaluate.{
  composed, judge_latency, predicted, request_name_or_gpu, validate_latency, validate_model,
  validate_runtime,
}
use claim2kernel.Planner.Features.{Resolves}
use claim2kernel.Planner.Model.{Resolution}
use claim2kernel.Planner.Scored.{
  LatencyHolds, ScoreHolds, figures-judge_latency, judge_latency_passes, latency_figures,
  validate_ood_passes,
}

-- The allocation is attested by the metadata of the runtime evidence.
pub record RuntimeHolds (p : KernelProfile) (ev : RuntimeEvidence) : Type 0 where
  pub metadata : DeviceMetadata
  pub given : ev.metadata ≡ some metadata
  pub allocation : AllocationHolds p.spec metadata (request_name_or_gpu ev.dra_request_name)

runtime_holds :
    (p : KernelProfile) (ev : RuntimeEvidence) (o : Option DeviceMetadata)
    → ev.metadata ≡ o
    → Checks (RuntimeHolds p ev) (λ d. elim o [
      | none ↦ reject "DRA_METADATA_REQUIRED" "runtime.metadata" d
      | some m ↦ validate_dra p m (request_name_or_gpu ev.dra_request_name) d
    ])
runtime_holds p ev none e = Checks-reject _ _ (λ k. absurd (cc (k.given, e)))
runtime_holds p ev (some m) e =
    Checks-iff (λ c. record { metadata = m; given = e; allocation = c })
      (λ k.
        let same : k.metadata ≡ m = cc (k.given, e) in
        subst (λ x. AllocationHolds p.spec x (request_name_or_gpu ev.dra_request_name)) same
          k.allocation)
      (Checks-validate_dra p m (request_name_or_gpu ev.dra_request_name))

pub Checks-validate_runtime :
    (phase : String) (p : KernelProfile) (ev : RuntimeEvidence)
    → Checks
        (if phase == "runtime" then RuntimeHolds p ev else Unit {0})
        (validate_runtime phase p ev)
unfolding validate_runtime
Checks-validate_runtime phase p ev =
    Checks-if (phase == "runtime") (runtime_holds p ev ev.metadata refl) (Checks-id tt)

-- What the latency model, its bound and the detector leave of the decision before them.
pub record LatencyPassed (p : KernelProfile) (r : KernelRequest) (d e : Decision) : Type 0 where
  pub before : d.admissible ≡ true
  pub latency : LatencyHolds p r (latency_figures (figures e))
  pub score : p.spec.ood.required ≡ true → ScoreHolds p.spec.ood e.ood_score

predicted_passes :
    (p : KernelProfile) (values : Map Float64) (d : Decision)
    → (predicted p values d).admissible ≡ true
    → (d.admissible ≡ true)
      × (is_finite (predicted p values d).predicted_compute_us ≡ true)
      × (ltf (predicted p values d).predicted_compute_us f0 ≡ false)
unfolding predicted reject_if reject
predicted_passes p values d h = ground arith

composed_holds :
    (p : KernelProfile) (r : KernelRequest) (x : Decision)
    → is_finite x.predicted_compute_us ≡ true
    → ltf x.predicted_compute_us f0 ≡ false
    → is_finite (composed p r x).latency_upper_us ≡ true
    → ltf (composed p r x).latency_upper_us f0 ≡ false
    → ltf (composed p r x).available_us (composed p r x).latency_upper_us ≡ false
    → LatencyHolds p r (latency_figures (figures (composed p r x)))
unfolding composed
composed_holds p r x finite_x positive_x finite positive in_time = record {
  finite_prediction = finite_x;
  prediction_not_negative = positive_x;
  bound_composed = refl;
  time_available = refl;
  finite_bound = finite;
  bound_not_negative = positive;
  within_deadline = in_time;
}

composed-admissible :
    (p : KernelProfile) (r : KernelRequest) (x : Decision)
    → (composed p r x).admissible ≡ true
    → x.admissible ≡ true
unfolding composed
composed-admissible p r x h = h

validate_latency_passes :
    (p : KernelProfile) (r : KernelRequest) (values : Map Float64) (d e : Decision)
    → validate_latency p r values d ≡ some e
    → e.admissible ≡ true
    → LatencyPassed p r d e
unfolding validate_latency
validate_latency_passes p r values d e h a =
    let x = predicted p values d in
    let c = composed p r x in
    let ood = validate_ood_passes p values (judge_latency c) e h a in
    let (kept, finite, positive, in_time) = judge_latency_passes c ood.before in
    let (b, finite_x, positive_x) = predicted_passes p values d (composed-admissible p r x kept) in
    record {
      before = b;
      latency =
          subst (LatencyHolds p r)
            (sym (ood.same_latency ∙ ap latency_figures (figures-judge_latency c)))
            (composed_holds p r x finite_x positive_x finite positive in_time);
      score = ood.score_holds;
    }

pub validate_model_passes :
    (p : KernelProfile) (r : KernelRequest) (s : Resolution) (d e : Decision)
    → Resolves d s
    → validate_model p r s ≡ some e
    → e.admissible ≡ true
    → LatencyPassed p r d e
unfolding validate_model
validate_model_passes p r s d e resolved h a = elim (Bool-cases s.complete) [
  | inl found ↦
      let k =
        validate_latency_passes p r s.values s.decision e (rw (found, validate_model) at h) a in
      record { before = (resolved k.before).1; latency = k.latency; score = k.score }
  | inr lost ↦
      let same : s.decision ≡ e = cc (rw (lost, validate_model) at h) in
      absurd (cc ((resolved (ap (λ (x : Decision). x.admissible) same ∙ a)).0, lost))
]
