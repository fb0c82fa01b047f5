-- ===== src/Launcher/Restored.antt =====
-- What Run of pkg/launcher/launcher.go leaves on the disk.
use claim2kernel.Artifact.{FilePath, Os, StageError, Staged}
use claim2kernel.Artifact.Cleanup.{IsScratch, Restores, Restores-stage}
use claim2kernel.Base.{
  Bool, Bool-cases, Option, Option-cases, String, false, inl, inr, none, some, sym, true, ◌∙◌, ◌≡◌,
  ◌⊎◌,
}
use claim2kernel.Base.Int.{ltb_ℤ}
use claim2kernel.Contract.Env.{Env, Time}
use claim2kernel.Contract.Signature.{Crypto}
use claim2kernel.Contract.Types.{KernelProfile, KernelRequest}
use claim2kernel.Launcher.{
  Command, LaunchError, Options, Process, Result, check_signature, decided, default_output,
  launch_evidence, or_default, output_ceiling, output_limit, rejection, run, run_checked,
  run_decided, run_pair, run_staged, run_when, with_staged, zero_result,
}
use claim2kernel.Planner.{Decision}
use claim2kernel.Planner.Evaluate.{evaluate, or_given}
use claim2kernel.Planner.Select.{zero_decision}

module _ (env : Env) (crypto : Crypto) (os : Os) (clock : Time)
    (marshal_request : KernelRequest → Option String) (run_process : Command → Process) where
  -- Wherever something is returned, the disk is as it was.
  abbrev Untouched : os.Disk → Option ((Result × Option LaunchError) × os.Disk) → Type 0
  Untouched disk outcome =
      (done : Result × Option LaunchError) (after : os.Disk)
      → outcome ≡ some (done, after)
      → after ≡ disk

  Untouched-some :
      (disk : os.Disk) (done : Result × Option LaunchError) → Untouched disk (some (done, disk))
  Untouched-some disk done given after h = sym (cc (h))

  module _ (Within : FilePath → os.Disk → os.Disk → Type 0) (laws : IsScratch os Within) where
    Untouched-with_staged :
        (o : Options) (p : KernelProfile) (r : KernelRequest) (start : Result) (disk : os.Disk)
        (outcome : (StageError ⊎ Staged) × os.Disk)
        → Restores os disk outcome
        → Untouched disk
            (with_staged env crypto os clock marshal_request run_process o p r start outcome)
    unfolding with_staged Restores
    Untouched-with_staged o p r start disk (inl e, now) k = λ done after h. sym (cc (h)) ∙ k
    Untouched-with_staged o p r start disk (inr staged, now) k = λ done after h.
        let given : Result = record start { artifact_digest = staged.digest } in
        elim (Option-cases
          (run_staged env crypto os clock marshal_request run_process o p r staged given)) [
            | inl bad ↦ absurd (cc (rw (bad, with_staged) at h))
            | inr (ended, e) ↦ sym (cc (rw (e, with_staged) at h)) ∙ k
          ]

    Untouched-run_pair :
        (o : Options) (p : Option KernelProfile) (r : Option KernelRequest) (start : Result)
        (checked : LaunchError ⊎ Bool) (disk : os.Disk)
        → Untouched disk
            (run_pair env crypto os clock marshal_request run_process o p r start checked disk)
    unfolding run_pair run_checked
    Untouched-run_pair o none r start checked disk = λ done after h. absurd (cc (h))
    Untouched-run_pair o (some p) none start checked disk = λ done after h. absurd (cc (h))
    Untouched-run_pair o (some p) (some r) start (inl e) disk = Untouched-some disk (start, some e)
    Untouched-run_pair o (some p) (some r) start (inr valid) disk =
        Untouched-with_staged o p r (record start { signature_valid = valid }) disk _
          (Restores-stage os Within laws o.root p.spec.artifact disk)

    Untouched-run_when :
        (b : Bool) (o : Options) (now : Time) (d : Decision) (disk : os.Disk)
        → Untouched disk (run_when env crypto os clock marshal_request run_process b o now d disk)
    unfolding run_when
    Untouched-run_when false o now d disk = Untouched-some disk (decided d, some (rejection d))
    Untouched-run_when true o now d disk = λ done after h.
        elim (Option-cases
          (check_signature env crypto os clock marshal_request run_process o now)) [
            | inl bad ↦ absurd (cc (rw (bad, run_when) at h))
            | inr (checked, tested) ↦
                Untouched-run_pair o o.profile o.request (decided d) checked disk done after
                  (rw (tested, run_when) at h)
          ]

    -- However a launch ends, the disk is as it was before, up to what the kernel itself does: no staged
    -- copy is left. A removal of the new directory removes what was put in it and nothing else.
    pub run-restores :
        (o : Options) (disk after : os.Disk) (done : Result × Option LaunchError)
        → run env crypto os clock marshal_request run_process o disk ≡ some (done, after)
        → after ≡ disk
    unfolding run run_decided
    run-restores o disk after done h =
        elim (Bool-cases (ltb_ℤ output_limit (or_default o.max_output_bytes default_output))) [
          | inl over ↦
              Untouched-some disk (zero_result zero_decision, some output_ceiling) done after
                (rw (over, run) at h)
          | inr small ↦
              let ev = launch_evidence env crypto os clock marshal_request run_process o in
              elim (Option-cases (evaluate env clock o.profile o.request "runtime" ev)) [
                | inl bad ↦ absurd (cc (rw (small, bad, run) at h))
                | inr (d, found) ↦
                    Untouched-run_when d.admissible o (or_given o.now clock) d disk done after
                      (rw (small, found, run, run_decided) at h)
              ]
        ]
