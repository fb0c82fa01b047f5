-- ===== src/Planner/Select.antt =====
-- Select of pkg/planner/planner.go. Nothing is returned where an evaluation panics.
use mathlib.Core.Option
use claim2kernel.Base.{
  Bool, List, Option, String, [], false, if◌then◌else◌, none, some, true, ◌&&◌, ◌||◌, ◌∷◌,
}
use claim2kernel.Base.Text.{codes, text_lt}
use claim2kernel.Contract.Env.{Env, Time}
use claim2kernel.Contract.Types.{KernelCatalog, KernelProfile, KernelRequest}
use claim2kernel.Float64.{eqf, f0, ltf}
use claim2kernel.Planner.{Decision, RuntimeEvidence}
use claim2kernel.Planner.Evaluate.{evaluate}

-- The loop's variables: `best`, `bestDecision` and `first`.
pub record Selection : Type 0 where
  pub best : Option KernelProfile
  pub decision : Decision
  pub first : Bool

unfoldable pub zero_decision : Decision
zero_decision = record {
  admissible = false;
  phase = "";
  profile = "";
  contract_digest = "";
  predicted_compute_us = f0;
  latency_upper_us = f0;
  available_us = f0;
  latency_margin_us = f0;
  ood_score = f0;
  ood_threshold = f0;
  reasons = [];
}

-- Whether an admissible profile replaces the best one so far.
unfoldable pub is_better : KernelProfile → Decision → Option KernelProfile → Decision → Bool
unfolding text_lt
is_better p dec none so_far = true
is_better p dec (some b) so_far =
    ltf dec.latency_upper_us so_far.latency_upper_us
    || (eqf dec.latency_upper_us so_far.latency_upper_us
        && text_lt (codes p.metadata.name) (codes b.metadata.name))

unfoldable pub consider : KernelProfile → Decision → Selection → Selection
unfolding is_better
consider p dec s =
    if dec.admissible
    then (if is_better p dec s.best s.decision
        then record { best = some p; decision = dec; first = false }
        else s)
    else (if s.first then record s { decision = dec; first = false } else s)

module _ (env : Env) (clock : Time) where
  unfoldable pub select_from :
      List KernelProfile
      → Option KernelRequest
      → String
      → RuntimeEvidence
      → Selection
      → Option Selection
  unfolding evaluate consider
  select_from [] r phase ev s = some s
  select_from (p ∷ ps) r phase ev s = elim (evaluate env clock (some p) r phase ev) [
    | none ↦ none
    | some dec ↦ select_from ps r phase ev (consider p dec s)
  ]

  unfoldable pub finish_selection : String → Selection → Option KernelProfile × Decision
  unfolding zero_decision
  finish_selection phase s = elim s.best [
    | some p ↦ (some p, s.decision)
    | none ↦ (
      none,
      (if s.first
          then record zero_decision {
            phase = phase;
            reasons = record { code = "EMPTY_CATALOG"; field = "" } ∷ [];
          }
          else s.decision),
    )
  ]

  unfoldable pub select :
      KernelCatalog
      → Option KernelRequest
      → String
      → RuntimeEvidence
      → Option (Option KernelProfile × Decision)
  unfolding select_from finish_selection zero_decision
  select c r phase ev = Option.map (finish_selection phase) (
      select_from c.profiles r phase ev
        (record { best = none; decision = zero_decision; first = true }))
