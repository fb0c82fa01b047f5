-- ===== src/Launcher/Executed.antt =====
-- The steps of Run in pkg/launcher/launcher.go that lead to an executed kernel.
use claim2kernel.Artifact.{Os, StageError, Staged, stage}
use claim2kernel.Base.{
  Bool, Bool-cases, Option, Option-cases, String, ap, arith, false, inl, inr, length, ltb, none,
  refl, some, subst, true, ◌||◌, ◌∙◌, ◌≡◌, ◌≤◌, ◌⊎◌,
}
use claim2kernel.Base.Int.{ℤ}
use claim2kernel.Contract.Env.{Env, Time}
use claim2kernel.Contract.Signature.{Crypto}
use claim2kernel.Contract.Types.{KernelProfile, KernelRequest}
use claim2kernel.Launcher.{
  Command, Ending, LaunchError, Options, Process, Result, command_for, conclude, default_output,
  default_timeout, execute, exited, finished, not_run, or_default, report, request_unmarshalled,
  run_checked, run_staged, too_many_arguments, with_staged, zero_result,
}
use claim2kernel.Launcher.Buffer.{LimitedBuffer, new_buffer, write_all}
use claim2kernel.Planner.Select.{zero_decision}

-- What a run of the process leaves of the result.
abbrev pub Keeps : Result → Result → Type 0
Keeps result ran =
    (ran.decision ≡ result.decision)
    × (ran.artifact_digest ≡ result.artifact_digest)
    × (ran.signature_valid ≡ result.signature_valid)

Keeps-conclude : (ending : Ending) (result : Result) → Keeps result (conclude ending result).0
unfolding conclude
Keeps-conclude finished result = (refl, refl, refl)
Keeps-conclude (exited code) result = (refl, refl, refl)
Keeps-conclude not_run result = (refl, refl, refl)

Keeps-report :
    (result : Result) (process : Process) (out problem : LimitedBuffer)
    → Keeps result (report result process out problem).0
unfolding report
Keeps-report result process out problem = elim (Bool-cases process.deadline_exceeded) [
  | inl late ↦ rw (late, report) (refl, refl, refl)
  | inr timely ↦ elim (Bool-cases (out.exceeded || problem.exceeded)) [
    | inl long ↦ rw (timely, long, report) (refl, refl, refl)
    | inr whole ↦
        let ran : Result = record result {
          executed = true;
          stdout = out.content;
          stderr = problem.content;
        } in
        rw (timely, whole, report) (Keeps-conclude process.ending ran)
  ]
]

module _ (env : Env) (crypto : Crypto) (os : Os) (clock : Time)
    (marshal_request : KernelRequest → Option String) (run_process : Command → Process) where
  not_idle :
      (result ran : Result) (e err : Option LaunchError)
      → ◌≡◌ {A = Option (Result × Option LaunchError)} (some (result, e)) (some (ran, err))
      → result.executed ≡ false
      → ran.executed ≡ true
      → ⊥
  not_idle result ran e err h idle ran_it = cc (h, idle, ran_it)

  pub not_idle_at :
      (result ran : Result) (e err : Option LaunchError) (disk after : os.Disk)
      → ◌≡◌ {A = Option ((Result × Option LaunchError) × os.Disk)}
          (some ((result, e), disk))
          (some ((ran, err), after))
      → result.executed ≡ false
      → ran.executed ≡ true
      → ⊥
  not_idle_at result ran e err disk after h idle ran_it = cc (h, idle, ran_it)

  pub zero_result-idle : (zero_result zero_decision).executed ≡ false
  unfolding zero_result
  zero_result-idle = refl

  Keeps-executed :
      (c : Command) (limit : ℤ) (result ran : Result) (err : Option LaunchError)
      → some (execute env crypto os clock marshal_request run_process c limit result)
        ≡ some (ran, err)
      → Keeps result ran
  unfolding execute
  Keeps-executed c limit result ran err h =
      let done : execute env crypto os clock marshal_request run_process c limit result
          ≡ (ran, err) =
        cc (h) in
      subst (λ (x : Result × Option LaunchError). Keeps result x.0) done
        (Keeps-report result (run_process c)
          (write_all (run_process c).stdout_writes (new_buffer limit))
          (write_all (run_process c).stderr_writes (new_buffer limit)))

  -- The steps of a launch whose kernel was executed.
  run_staged-executed :
      (o : Options) (p : KernelProfile) (r : KernelRequest) (staged : Staged) (result ran : Result)
      (err : Option LaunchError)
      → run_staged env crypto os clock marshal_request run_process o p r staged result
        ≡ some (ran, err)
      → result.executed ≡ false
      → ran.executed ≡ true
      → (o.verify_only ≡ false) × (length p.spec.artifact.default_args ≤ 64) × Keeps result ran
  unfolding run_staged
  run_staged-executed o p r staged result ran err h idle ran_it = elim (Bool-cases o.verify_only) [
    | inl only ↦ absurd (not_idle result ran none err (rw (only, run_staged) at h) idle ran_it)
    | inr meant ↦ elim (Bool-cases (ltb 64 (length p.spec.artifact.default_args))) [
      | inl many ↦ absurd (
          not_idle result ran (some too_many_arguments) err (rw (meant, many, run_staged) at h) idle
            ran_it)
      | inr few ↦ elim (Option-cases (marshal_request r)) [
        | inl bad ↦ absurd (
            not_idle result ran (some request_unmarshalled) err
              (rw (meant, few, bad, run_staged) at h) idle ran_it)
        | inr (input, encoded) ↦ elim (Option-cases p.seal) [
          | inl bad ↦ absurd (cc (rw (meant, few, encoded, bad, run_staged) at h))
          | inr (s, attached) ↦ (
            meant,
            ground (arith, few),
            Keeps-executed
                (command_for env crypto os clock marshal_request run_process p s r staged input
                  (or_default o.timeout default_timeout))
                (or_default o.max_output_bytes default_output) result ran err
                (rw (meant, few, encoded, attached, run_staged) at h),
          )
        ]
      ]
    ]
  ]

  -- The staged copy under which the kernel of a launch was executed.
  pub record IsRun (o : Options) (p : KernelProfile) (disk : os.Disk) (result ran : Result)
      : Type 0 where
    pub staged : Staged
    pub after : os.Disk
    pub copied : stage os o.root p.spec.artifact disk ≡ (inr staged, after)
    pub meant : o.verify_only ≡ false
    pub few : length p.spec.artifact.default_args ≤ 64
    pub keeps : Keeps (record result { artifact_digest = staged.digest }) ran

  with_staged-executed :
      (o : Options) (p : KernelProfile) (r : KernelRequest) (disk : os.Disk) (result ran : Result)
      (outcome : (StageError ⊎ Staged) × os.Disk) (err : Option LaunchError) (after : os.Disk)
      → stage os o.root p.spec.artifact disk ≡ outcome
      → with_staged env crypto os clock marshal_request run_process o p r result outcome
        ≡ some ((ran, err), after)
      → result.executed ≡ false
      → ran.executed ≡ true
      → IsRun o p disk result ran
  unfolding with_staged
  with_staged-executed o p r disk result ran (inl e, now) err after copied h idle ran_it =
      absurd (cc (h, idle, ran_it))
  with_staged-executed o p r disk result ran (inr staged, now) err after copied h idle ran_it =
      let start : Result = record result { artifact_digest = staged.digest } in
      elim (Option-cases
        (run_staged env crypto os clock marshal_request run_process o p r staged start)) [
          | inl bad ↦ absurd (cc (rw (bad, with_staged) at h))
          | inr (done, e) ↦
              let same : done ≡ (ran, err) = cc (rw (e, with_staged) at h) in
              let (meant, few, keeps) =
                run_staged-executed o p r staged start ran err (e ∙ ap some same) idle ran_it in
              record {
                staged = staged;
                after = now;
                copied = copied;
                meant = meant;
                few = few;
                keeps = keeps;
              }
        ]

  pub run_checked-executed :
      (o : Options) (p : KernelProfile) (r : KernelRequest) (disk after : os.Disk)
      (start ran : Result) (checked : LaunchError ⊎ Bool) (err : Option LaunchError)
      → run_checked env crypto os clock marshal_request run_process o p r start checked disk
        ≡ some ((ran, err), after)
      → start.executed ≡ false
      → ran.executed ≡ true
      → (valid : Bool) × (checked ≡ inr valid)
        × IsRun o p disk (record start { signature_valid = valid }) ran
  unfolding run_checked
  run_checked-executed o p r disk after start ran (inl e) err h idle ran_it =
      absurd (cc (h, idle, ran_it))
  run_checked-executed o p r disk after start ran (inr valid) err h idle ran_it = (
    valid,
    refl,
    with_staged-executed o p r disk (record start { signature_valid = valid }) ran _ err after refl
        h idle ran_it,
  )
