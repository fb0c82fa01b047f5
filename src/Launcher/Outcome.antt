-- ===== src/Launcher/Outcome.antt =====
-- How Run of pkg/launcher/launcher.go ends.
use claim2kernel.Artifact.{Os, StageError, Staged}
use claim2kernel.Base.{
  Bool, Bool-cases, Option, Option-cases, String, [], ap, false, inl, inr, length, ltb, none, refl,
  some, subst, true, ◌∙◌, ◌≡◌, ◌⊎◌,
}
use claim2kernel.Base.Int.{ltb_ℤ, ℤ}
use claim2kernel.Contract.Env.{Env, Time}
use claim2kernel.Contract.Signature.{Crypto}
use claim2kernel.Contract.Types.{KernelProfile, KernelRequest}
use claim2kernel.Launcher.{
  Command, LaunchError, Options, Process, Result, artifact_unverified, check_signature, command_for,
  decided, default_output, default_timeout, execute, launch_evidence, or_default, output_ceiling,
  output_limit, rejection, request_unmarshalled, run, run_checked, run_decided, run_pair,
  run_staged, run_when, too_many_arguments, with_staged, zero_result,
}
use claim2kernel.Planner.{Decision}
use claim2kernel.Planner.Evaluate.{evaluate, or_given}
use claim2kernel.Planner.Select.{zero_decision}

-- Nothing was run.
pub record Idle (result : Result) : Type 0 where
  pub executed : result.executed ≡ false
  pub stdout : result.stdout ≡ []
  pub stderr : result.stderr ≡ []

abbrev pub launch_limit : Options → ℤ
launch_limit o = or_default o.max_output_bytes default_output

module _ (env : Env) (crypto : Crypto) (os : Os) (clock : Time)
    (marshal_request : KernelRequest → Option String) (run_process : Command → Process) where
  -- The two ways a launch ends: without the process, or with its report.
  pub data Ended (o : Options) (ran : Result) (err : Option LaunchError) : Type 0 where
    stopped : Idle ran → (err ≡ none → o.verify_only ≡ true) → Ended o ran err
    executed :
        (c : Command) (start : Result)
        → ltb_ℤ output_limit (launch_limit o) ≡ false
        → execute env crypto os clock marshal_request run_process c (launch_limit o) start
          ≡ (ran, err)
        → Ended o ran err

  Ended-refused :
      (o : Options) (ran : Result) (e : LaunchError) (done : Result × Option LaunchError)
      → Idle ran
      → (ran, some e) ≡ done
      → Ended o done.0 done.1
  Ended-refused o ran e done idle h =
      subst (λ (x : Result × Option LaunchError). Ended o x.0 x.1) h
        (stopped idle (λ k. absurd (cc (k))))

  Ended-run_staged :
      (o : Options) (p : KernelProfile) (r : KernelRequest) (staged : Staged) (start : Result)
      (done : Result × Option LaunchError)
      → ltb_ℤ output_limit (launch_limit o) ≡ false
      → Idle start
      → run_staged env crypto os clock marshal_request run_process o p r staged start ≡ some done
      → Ended o done.0 done.1
  unfolding run_staged
  Ended-run_staged o p r staged start done small idle h = elim (Bool-cases o.verify_only) [
    | inl only ↦
        let same : (start, none) ≡ done = cc (rw (only, run_staged) at h) in
        subst (λ (x : Result × Option LaunchError). Ended o x.0 x.1) same (stopped idle (λ k. only))
    | inr meant ↦ elim (Bool-cases (ltb 64 (length p.spec.artifact.default_args))) [
      | inl many ↦
          Ended-refused o start too_many_arguments done idle
            (cc (rw (meant, many, run_staged) at h))
      | inr few ↦ elim (Option-cases (marshal_request r)) [
        | inl bad ↦
            Ended-refused o start request_unmarshalled done idle
              (cc (rw (meant, few, bad, run_staged) at h))
        | inr (input, encoded) ↦ elim (Option-cases p.seal) [
          | inl bad ↦ absurd (cc (rw (meant, few, encoded, bad, run_staged) at h))
          | inr (s, attached) ↦
              executed
                (command_for env crypto os clock marshal_request run_process p s r staged input
                  (or_default o.timeout default_timeout))
                start small (cc (rw (meant, few, encoded, attached, run_staged) at h))
        ]
      ]
    ]
  ]

  -- The same of what carries the disk.
  abbrev EndedWith : Options → Option ((Result × Option LaunchError) × os.Disk) → Type 0
  EndedWith o outcome =
      (done : Result × Option LaunchError) (after : os.Disk)
      → outcome ≡ some (done, after)
      → Ended o done.0 done.1

  Ended-refusal :
      (o : Options) (ran : Result) (e : LaunchError) (disk : os.Disk)
      → Idle ran
      → EndedWith o (some ((ran, some e), disk))
  Ended-refusal o ran e disk idle done after h = Ended-refused o ran e done idle (cc (h))

  Ended-with_staged :
      (o : Options) (p : KernelProfile) (r : KernelRequest) (start : Result)
      (outcome : (StageError ⊎ Staged) × os.Disk)
      → ltb_ℤ output_limit (launch_limit o) ≡ false
      → Idle start
      → EndedWith o
          (with_staged env crypto os clock marshal_request run_process o p r start outcome)
  unfolding with_staged
  Ended-with_staged o p r start (inl e, now) small idle =
      Ended-refusal o start (artifact_unverified e) now idle
  Ended-with_staged o p r start (inr staged, now) small idle = λ done after h.
      let given : Result = record start { artifact_digest = staged.digest } in
      elim (Option-cases
        (run_staged env crypto os clock marshal_request run_process o p r staged given)) [
          | inl bad ↦ absurd (cc (rw (bad, with_staged) at h))
          | inr (ended, e) ↦
              let same : ended ≡ done = cc (rw (e, with_staged) at h) in
              Ended-run_staged o p r staged given done small
                (record { executed = idle.executed; stdout = idle.stdout; stderr = idle.stderr })
                (e ∙ ap some same)
        ]

  Ended-run_pair :
      (o : Options) (p : Option KernelProfile) (r : Option KernelRequest) (start : Result)
      (checked : LaunchError ⊎ Bool) (disk : os.Disk)
      → ltb_ℤ output_limit (launch_limit o) ≡ false
      → Idle start
      → EndedWith o
          (run_pair env crypto os clock marshal_request run_process o p r start checked disk)
  unfolding run_pair run_checked
  Ended-run_pair o none r start checked disk small idle = λ done after h. absurd (cc (h))
  Ended-run_pair o (some p) none start checked disk small idle = λ done after h. absurd (cc (h))
  Ended-run_pair o (some p) (some r) start (inl e) disk small idle =
      Ended-refusal o start e disk idle
  Ended-run_pair o (some p) (some r) start (inr valid) disk small idle =
      Ended-with_staged o p r (record start { signature_valid = valid }) _ small
        (record { executed = idle.executed; stdout = idle.stdout; stderr = idle.stderr })

  Idle-decided : (d : Decision) → Idle (decided d)
  unfolding decided zero_result
  Idle-decided d = record { executed = refl; stdout = refl; stderr = refl }

  Ended-run_when :
      (o : Options) (now : Time) (d : Decision) (b : Bool) (disk : os.Disk)
      → ltb_ℤ output_limit (launch_limit o) ≡ false
      → EndedWith o (run_when env crypto os clock marshal_request run_process b o now d disk)
  unfolding run_when
  Ended-run_when o now d false disk small =
      Ended-refusal o (decided d) (rejection d) disk (Idle-decided d)
  Ended-run_when o now d true disk small = λ done after h.
      elim (Option-cases (check_signature env crypto os clock marshal_request run_process o now)) [
        | inl bad ↦ absurd (cc (rw (bad, run_when) at h))
        | inr (checked, tested) ↦
            Ended-run_pair o o.profile o.request (decided d) checked disk small (Idle-decided d)
              done after (rw (tested, run_when) at h)
      ]

  pub run-Ended :
      (o : Options) (disk : os.Disk)
      → EndedWith o (run env crypto os clock marshal_request run_process o disk)
  unfolding run run_decided zero_result
  run-Ended o disk done after h = elim (Bool-cases (ltb_ℤ output_limit (launch_limit o))) [
    | inl over ↦
        Ended-refusal o (zero_result zero_decision) output_ceiling disk
          (record { executed = refl; stdout = refl; stderr = refl }) done after
          (rw (over, run) at h)
    | inr small ↦
        let ev = launch_evidence env crypto os clock marshal_request run_process o in
        elim (Option-cases (evaluate env clock o.profile o.request "runtime" ev)) [
          | inl bad ↦ absurd (cc (rw (small, bad, run) at h))
          | inr (d, found) ↦
              Ended-run_when o (or_given o.now clock) d d.admissible disk small done after
                (rw (small, found, run, run_decided) at h)
        ]
  ]
