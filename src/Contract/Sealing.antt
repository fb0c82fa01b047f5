-- ===== src/Contract/Sealing.antt =====
-- SealProfile of pkg/contract/digest.go. The profile behind the pointer is passed through: its seal is
-- removed before anything can fail. Nothing is returned where the validation panics.
use mathlib.Core.Option
use claim2kernel.Base.{List, Option, String, [], if◌then◌else◌, none, not, some, ◌∷◌}
use claim2kernel.Base.Int.{ltb_ℤ, pos, ◌-ℤ◌}
use claim2kernel.Contract.Digest.{contract_digest, model_digest}
use claim2kernel.Contract.Env.{Env, Time, minutes}
use claim2kernel.Contract.Types.{KernelProfile}
use claim2kernel.Contract.Validate.{validate_profile_base}
use claim2kernel.Contract.Validate.Issues.{Issue}

pub data SealFailure : Type 0 where
  nil_profile : SealFailure
  invalid_profile : List Issue → SealFailure
  before_creation already_expired digest_failed : SealFailure

-- `t, _ := ParseTime(…)`: the zero time where the text is none
abbrev pub time_or_zero : Option Time → Time
time_or_zero none = pos 0
time_or_zero (some t) = t

module _ (env : Env) (now : Time) where
  unfoldable pub attach_seal :
      KernelProfile → Option String → Option String → Option KernelProfile × Option SealFailure
  attach_seal p none model = (some p, some digest_failed)
  attach_seal p (some contract) none = (some p, some digest_failed)
  attach_seal p (some contract) (some model) = (
    some (record p {
      seal = some (record {
        contract_digest = contract;
        model_digest = model;
        sealed_at = env.format_time now;
      });
    }),
    none,
  )

  unfoldable pub seal_valid : KernelProfile → Option KernelProfile × Option SealFailure
  unfolding attach_seal contract_digest model_digest ◌-ℤ◌
  seal_valid p =
      if ltb_ℤ now (time_or_zero (env.parse_time p.metadata.created_at) -ℤ minutes 5)
      then (some p, some before_creation)
      else if not (ltb_ℤ now (time_or_zero (env.parse_time p.metadata.expires_at)))
      then (some p, some already_expired)
      else attach_seal p (contract_digest env p) (model_digest env p)

  unfoldable pub seal_unsealed :
      KernelProfile → List Issue → Option KernelProfile × Option SealFailure
  unfolding seal_valid
  seal_unsealed p [] = seal_valid p
  seal_unsealed p (i ∷ issues) = (some p, some (invalid_profile (i ∷ issues)))

  -- SealProfile
  unfoldable pub seal_profile :
      Option KernelProfile → Option (Option KernelProfile × Option SealFailure)
  unfolding validate_profile_base seal_unsealed
  seal_profile none = some (none, some nil_profile)
  seal_profile (some p) =
      let unsealed = record p { seal = none } in
      Option.map (seal_unsealed unsealed) (validate_profile_base env (some unsealed))
