-- ===== src/Planner/Features.antt =====
-- modelFeatures of pkg/planner/planner.go: a decision that stays admissible has every feature.
use claim2kernel.Base.{List, Map, Option, String, [], lookup, none, refl, some, true, ◌∷◌, ◌≡◌}
use claim2kernel.Contract.Checks.{after_prefix}
use claim2kernel.Contract.Types.{KernelProfile, KernelRequest}
use claim2kernel.Contract.Value.{Value}
use claim2kernel.Float64.{Float64}
use claim2kernel.Planner.{Decision, named, reject}
use claim2kernel.Planner.Inputs.{number_at}
use claim2kernel.Planner.Model.{
  Resolution, add_feature, add_new, finite_only, found_feature, missing_feature, model_features,
  resolve_feature, resolve_features,
}

-- What holds of a resolution that started from `d`.
abbrev pub Resolves : Decision → Resolution → Type 0
Resolves d s = s.decision.admissible ≡ true → (s.complete ≡ true) × (d.admissible ≡ true)

missing_feature-Resolves :
    (d : Decision) (code field : String) (s : Resolution)
    → Resolves d (missing_feature code field s)
unfolding missing_feature reject
missing_feature-Resolves d code field s h = absurd (cc (h))

add_feature-Resolves :
    (d : Decision) (name field key : String) (o : Option Float64) (s : Resolution)
    → Resolves d s
    → Resolves d (add_feature name field key o s)
unfolding add_feature found_feature
add_feature-Resolves d name field key none s k =
    missing_feature-Resolves d "MODEL_FEATURE_MISSING" (named field key) s
add_feature-Resolves d name field key (some v) s k = k

interference-Resolves :
    (d : Decision) (interference : Map Float64) (name : String) (o : Option String) (s : Resolution)
    → Resolves d s
    → Resolves d (elim o [
      | some key ↦
          add_feature name "spec.interference." key (finite_only (lookup interference key)) s
      | none ↦ missing_feature "INVALID_MODEL_FEATURE" "profile.spec.latency.model" s
    ])
interference-Resolves d interference name (some key) s k =
    add_feature-Resolves d name "spec.interference." key (finite_only (lookup interference key)) s k
interference-Resolves d interference name none s k =
    missing_feature-Resolves d "INVALID_MODEL_FEATURE" "profile.spec.latency.model" s

input-Resolves :
    (d : Decision) (inputs : Map Value) (name : String) (o : Option String) (s t : Resolution)
    → Resolves d s
    → Resolves d t
    → Resolves d (elim o [
      | some key ↦ add_feature name "spec.inputs." key (number_at inputs key) s
      | none ↦ t
    ])
input-Resolves d inputs name (some key) s t k l =
    add_feature-Resolves d name "spec.inputs." key (number_at inputs key) s k
input-Resolves d inputs name none s t k l = l

resolve_feature-Resolves :
    (d : Decision) (inputs : Map Value) (interference : Map Float64) (name : String)
    (s : Resolution)
    → Resolves d s
    → Resolves d (resolve_feature inputs interference name s)
unfolding resolve_feature
resolve_feature-Resolves d inputs interference name s k =
    input-Resolves d inputs name (after_prefix "input." name) s _ k
      (interference-Resolves d interference name (after_prefix "interference." name) s k)

resolve_features-Resolves :
    (d : Decision) (inputs : Map Value) (interference : Map Float64) (names : List String)
    (s : Resolution)
    → Resolves d s
    → Resolves d (resolve_features inputs interference names s)
unfolding resolve_features
resolve_features-Resolves d inputs interference [] s k = k
resolve_features-Resolves d inputs interference (name ∷ names) s k =
    resolve_features-Resolves d inputs interference names
      (resolve_feature inputs interference name s)
      (resolve_feature-Resolves d inputs interference name s k)

pub model_features-Resolves :
    (p : KernelProfile) (r : KernelRequest) (interference : Map Float64) (d : Decision)
    → Resolves d (model_features p r interference d)
unfolding model_features
model_features-Resolves p r interference d =
    resolve_features-Resolves d r.spec.inputs interference
      (add_new p.spec.latency.model.feature_order p.spec.ood.features)
      (record { decision = d; values = []; complete = true }) (λ h. (refl, h))
