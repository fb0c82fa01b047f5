-- ===== src/Launcher/Certified.antt =====
-- Run of pkg/launcher/launcher.go executes certified kernels only.
use claim2kernel.Artifact.{Os, Staged}
use claim2kernel.Artifact.Sound.{IsStaged, stage_sound}
use claim2kernel.Base.{
  Bool, Bool-cases, Option, Option-cases, String, [], ap, false, inl, inr, length, refl, some,
  subst, sym, true, ◌∙◌, ◌≡◌, ◌≤◌,
}
use claim2kernel.Base.Int.{ltb_ℤ}
use claim2kernel.Contract.Env.{Env, Time}
use claim2kernel.Contract.Signature.{Crypto}
use claim2kernel.Contract.Types.{KernelProfile, KernelRequest}
use claim2kernel.Contract.Validate.{validate_profile}
use claim2kernel.Contract.Validate.Request.{validate_request}
use claim2kernel.Contract.Validated.{artifact_size-positive}
use claim2kernel.Launcher.{
  Command, LaunchError, Options, Process, Result, check_signature, decided, default_output,
  launch_evidence, or_default, output_ceiling, output_limit, rejection, run, run_decided, run_pair,
  run_when, zero_result,
}
use claim2kernel.Launcher.Checked.{IsChecked, check_signature-IsChecked}
use claim2kernel.Launcher.Executed.{IsRun, not_idle_at, run_checked-executed, zero_result-idle}
use claim2kernel.Planner.{Decision}
use claim2kernel.Planner.Evaluate.{evaluate, or_given}
use claim2kernel.Planner.Given.{evaluate-Given}
use claim2kernel.Planner.Select.{zero_decision}
use claim2kernel.Planner.Sound.{Admitted, evaluate_sound}

module _ (env : Env) (crypto : Crypto) (os : Os) (clock : Time)
    (marshal_request : KernelRequest → Option String) (run_process : Command → Process) where
  -- Why the kernel of a launch may run.
  pub record IsCertified (o : Options) (disk : os.Disk) (result : Result) : Type 0 where
    pub profile : KernelProfile
    pub request : KernelRequest
    pub profile_given : o.profile ≡ some profile
    pub request_given : o.request ≡ some request
    pub profile_valid : validate_profile env (some profile) true ≡ some []
    pub request_valid : validate_request (some request) ≡ []
    pub admitted :
        Admitted env clock "runtime" profile request
          (launch_evidence env crypto os clock marshal_request run_process o)
          result.decision
    pub checked :
        IsChecked env crypto os clock marshal_request run_process o profile result.signature_valid
    pub staged : Staged
    pub after : os.Disk
    pub artifact : IsStaged os o.root profile.spec.artifact disk staged after
    pub digest : result.artifact_digest ≡ profile.spec.artifact.digest
    pub few_arguments : length profile.spec.artifact.default_args ≤ 64
    pub meant : o.verify_only ≡ false

  IsCertified-of_run :
      (o : Options) (p : KernelProfile) (r : KernelRequest) (disk : os.Disk) (d : Decision)
      (valid : Bool) (ran : Result)
      → o.profile ≡ some p
      → o.request ≡ some r
      → validate_profile env (some p) true ≡ some []
      → validate_request (some r) ≡ []
      → Admitted env clock "runtime" p r
          (launch_evidence env crypto os clock marshal_request run_process o)
          d
      → IsChecked env crypto os clock marshal_request run_process o p valid
      → IsRun env crypto os clock marshal_request run_process o p disk
          (record (decided d) { signature_valid = valid })
          ran
      → IsCertified o disk ran
  unfolding decided zero_result
  IsCertified-of_run o p r disk d valid ran a b c e admitted checked k =
      let staged =
        stage_sound os o.root p.spec.artifact disk k.after k.staged (artifact_size-positive env p c)
          k.copied in
      let (same, digest, flagged) = k.keeps in
      record {
        profile = p;
        request = r;
        profile_given = a;
        request_given = b;
        profile_valid = c;
        request_valid = e;
        admitted =
            subst
              (Admitted env clock "runtime" p r
                (launch_evidence env crypto os clock marshal_request run_process o))
              (sym same) admitted;
        checked =
            subst (IsChecked env crypto os clock marshal_request run_process o p) (sym flagged)
              checked;
        staged = k.staged;
        after = k.after;
        artifact = staged;
        digest = digest ∙ staged.copy.digest;
        few_arguments = k.few;
        meant = k.meant;
      }

  decided-idle : (d : Decision) → (decided d).executed ≡ false
  unfolding decided zero_result
  decided-idle d = refl

  run_when-IsCertified :
      (o : Options) (d : Decision) (b : Bool) (disk after : os.Disk) (ran : Result)
      (err : Option LaunchError)
      → evaluate env clock o.profile o.request "runtime"
          (launch_evidence env crypto os clock marshal_request run_process o)
        ≡ some d
      → d.admissible ≡ b
      → run_when env crypto os clock marshal_request run_process b o (or_given o.now clock) d disk
        ≡ some ((ran, err), after)
      → ran.executed ≡ true
      → IsCertified o disk ran
  unfolding run_when run_pair launch_evidence
  run_when-IsCertified o d false disk after ran err found admissible h ran_it = absurd (
      not_idle_at env crypto os clock marshal_request run_process (decided d) ran
        (some (rejection d)) err disk after h (decided-idle d) ran_it)
  run_when-IsCertified o d true disk after ran err found admissible h ran_it =
      let ev = launch_evidence env crypto os clock marshal_request run_process o in
      let now = or_given o.now clock in
      elim (Option-cases (check_signature env crypto os clock marshal_request run_process o now)) [
        | inl bad ↦ absurd (cc (rw (bad, run_when) at h))
        | inr (checked, tested) ↦
            let ((p, a), (r, b)) =
              evaluate-Given env clock o.profile o.request "runtime" ev d found admissible in
            let (valid, accepted, k) =
              run_checked-executed env crypto os clock marshal_request run_process o p r disk after
                (decided d) ran checked err (rw (tested, a, b, run_when, run_pair) at h)
                (decided-idle d) ran_it in
            let (_, c, e, admitted) =
              evaluate_sound env clock p r "runtime" ev d (rw (a, b) at found) admissible in
            IsCertified-of_run o p r disk d valid ran a b c e admitted
              (check_signature-IsChecked env crypto os clock marshal_request run_process o p valid a
                (tested ∙ ap some accepted))
              k
      ]

  -- A kernel is executed only where the runtime evaluation admits the contract, the signature, where one
  -- is required or given, verifies at the launch's time, and the artifact was staged from inside the
  -- root with the contract's size and digest, which the result states.
  pub run-IsCertified :
      (o : Options) (disk after : os.Disk) (ran : Result) (err : Option LaunchError)
      → run env crypto os clock marshal_request run_process o disk ≡ some ((ran, err), after)
      → ran.executed ≡ true
      → IsCertified o disk ran
  unfolding run run_decided
  run-IsCertified o disk after ran err h ran_it =
      let ev = launch_evidence env crypto os clock marshal_request run_process o in
      elim (Bool-cases (ltb_ℤ output_limit (or_default o.max_output_bytes default_output))) [
        | inl over ↦ absurd (
            not_idle_at env crypto os clock marshal_request run_process (zero_result zero_decision)
              ran (some output_ceiling) err disk after (rw (over, run) at h)
              (zero_result-idle env crypto os clock marshal_request run_process) ran_it)
        | inr small ↦ elim (Option-cases (evaluate env clock o.profile o.request "runtime" ev)) [
          | inl bad ↦ absurd (cc (rw (small, bad, run) at h))
          | inr (d, found) ↦
              run_when-IsCertified o d d.admissible disk after ran err found refl
                (rw (small, found, run, run_decided) at h) ran_it
        ]
      ]
