-- ===== src/Planner/Given.antt =====
-- Evaluate of pkg/planner/planner.go admits nothing where the profile or the request is nil.
use claim2kernel.Base.{
  Bool-cases, List, Option, String, [], inl, inr, none, not, refl, some, true, ◌&&◌, ◌==◌, ◌∷◌, ◌≡◌,
}
use claim2kernel.Contract.Env.{Env, Time}
use claim2kernel.Contract.Semver.{non_empty}
use claim2kernel.Contract.Types.{KernelProfile, KernelRequest}
use claim2kernel.Contract.Validate.{validate_profile}
use claim2kernel.Contract.Validate.Issues.{Issue}
use claim2kernel.Contract.Validate.Request.{validate_request}
use claim2kernel.Planner.{Decision, RuntimeEvidence}
use claim2kernel.Planner.Evaluate.{
  evaluate, evaluate_issues, evaluate_pair, evaluate_request, new_decision,
}
use claim2kernel.Planner.Sound.{not_rejected}

module _ (env : Env) (clock : Time) where
  -- Both are there.
  abbrev pub Given : Option KernelProfile → Option KernelRequest → Type 0
  Given p r = ((q : KernelProfile) × (p ≡ some q)) × ((s : KernelRequest) × (r ≡ some s))

  Given-evaluate_pair :
      (phase : String) (p : Option KernelProfile) (r : Option KernelRequest) (ev : RuntimeEvidence)
      (start d : Decision)
      → evaluate_pair env clock phase p r ev start ≡ some d
      → Given p r
  unfolding evaluate_pair
  Given-evaluate_pair phase none r ev start d h = absurd (cc (h))
  Given-evaluate_pair phase (some p) none ev start d h = absurd (cc (h))
  Given-evaluate_pair phase (some p) (some r) ev start d h = ((p, refl), (r, refl))

  Given-evaluate_issues :
      (issues : Option (List Issue)) (phase : String) (p : Option KernelProfile)
      (r : Option KernelRequest) (ev : RuntimeEvidence) (start d : Decision)
      → evaluate_issues env clock issues phase p r ev start ≡ some d
      → d.admissible ≡ true
      → Given p r
  unfolding evaluate_issues evaluate_request
  Given-evaluate_issues none phase p r ev start d h a = absurd (cc (h))
  Given-evaluate_issues (some (i ∷ is)) phase p r ev start d h a =
      absurd (not_rejected env clock _ _ start d h a)
  Given-evaluate_issues (some []) phase p r ev start d h a =
      elim (Bool-cases (non_empty (validate_request r))) [
        | inl bad ↦ absurd (not_rejected env clock _ _ start d (rw (bad, evaluate_request) at h) a)
        | inr good ↦ Given-evaluate_pair phase p r ev start d (rw (good, evaluate_request) at h)
      ]

  pub evaluate-Given :
      (p : Option KernelProfile) (r : Option KernelRequest) (phase : String) (ev : RuntimeEvidence)
      (d : Decision)
      → evaluate env clock p r phase ev ≡ some d
      → d.admissible ≡ true
      → Given p r
  unfolding evaluate
  evaluate-Given p r phase ev d h a =
      elim (Bool-cases (not (phase == "plan") && not (phase == "runtime"))) [
        | inl bad ↦
            absurd (not_rejected env clock _ _ (new_decision phase p) d (rw (bad, evaluate) at h) a)
        | inr good ↦
            Given-evaluate_issues (validate_profile env p true) phase p r ev (new_decision phase p)
              d (rw (good, evaluate) at h) a
      ]
