-- ===== src/Contract/Fresh.antt =====
-- CertificateFresh of pkg/contract/validate.go. A `time.Duration` is an `int64` of nanoseconds:
-- `Sub` saturates, and the conversion from seconds wraps.
use claim2kernel.Base.{
  Option, String, if◌then◌else◌, ltb, none, some, suc, ℕ, ◌%◌, ◌*◌, ◌-◌, ◌==◌, ◌^◌,
}
use claim2kernel.Base.Int.{ltb_ℤ, negsuc, pos, sub_ℕ, ℤ, ◌-ℤ◌}
use claim2kernel.Contract.Env.{Env, Time, minutes}
use claim2kernel.Contract.Types.{KernelProfile, Seal}

pub data Staleness : Type 0 where
  created_unreadable created_in_future sealed_unreadable sealed_in_future : Staleness
  expiry_unreadable expired calibration_unreadable calibrated_in_future stale : Staleness

-- `t.Sub(u)`
unfoldable pub duration_between : Time → Time → ℤ
unfolding ◌-ℤ◌
duration_between t u =
    let d = t -ℤ u in
    if ltb_ℤ (pos (2 ^ 63 - 1)) d
    then pos (2 ^ 63 - 1)
    else if ltb_ℤ d (negsuc (2 ^ 63 - 1))
    then negsuc (2 ^ 63 - 1)
    else d

-- The value of an `int64` with the bit pattern `n`.
abbrev pub signed_word : ℕ → ℤ
signed_word n = if ltb n (2 ^ 63) then pos n else sub_ℕ n (2 ^ 64)

-- `time.Duration(s) * time.Second`
unfoldable pub seconds : ℤ → ℤ
seconds (pos n) = signed_word (n * 1000000000 % 2 ^ 64)
seconds (negsuc n) = signed_word ((2 ^ 64 - suc n * 1000000000 % 2 ^ 64) % 2 ^ 64)

abbrev pub first_error : Option Staleness → Option Staleness → Option Staleness
first_error none later = later
first_error (some err) later = some err

module _ (env : Env) (now : Time) where
  -- `now` is before a time that must be readable, less five minutes.
  unfoldable pub not_in_future : String → Staleness → Staleness → Option Staleness
  unfolding ◌-ℤ◌
  not_in_future s unreadable future = elim (env.parse_time s) [
    | none ↦ some unreadable
    | some t ↦ if ltb_ℤ now (t -ℤ minutes 5) then some future else none
  ]

  unfoldable pub seal_fresh : Option Seal → Option Staleness
  unfolding not_in_future
  seal_fresh none = none
  seal_fresh (some s) = not_in_future s.sealed_at sealed_unreadable sealed_in_future

  unfoldable pub not_expired : String → Option Staleness
  not_expired s = if s == "" then none else elim (env.parse_time s) [
    | none ↦ some expiry_unreadable
    | some t ↦ if ltb_ℤ now t then none else some expired
  ]

  unfoldable pub within_age : String → ℤ → Option Staleness
  unfolding duration_between seconds
  within_age s max_age = elim (env.parse_time s) [
    | none ↦ some calibration_unreadable
    | some t ↦ if ltb_ℤ (seconds max_age) (duration_between now t) then some stale else none
  ]

  -- CertificateFresh; nothing is no error
  unfoldable pub certificate_fresh : KernelProfile → Option Staleness
  unfolding not_in_future seal_fresh not_expired within_age
  certificate_fresh p =
      first_error (not_in_future p.metadata.created_at created_unreadable created_in_future) (
        first_error (seal_fresh p.seal) (
          first_error (not_expired p.metadata.expires_at) (
            first_error
              (not_in_future p.spec.latency.calibrated_at calibration_unreadable
                calibrated_in_future)
              (within_age p.spec.latency.calibrated_at p.spec.latency.max_age_seconds))))
