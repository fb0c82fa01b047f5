-- ===== src/Launcher/Limits.antt =====
-- The outputs that Run of pkg/launcher/launcher.go keeps, and what it means for it to succeed.
use claim2kernel.Artifact.{Os}
use claim2kernel.Base.{
  All, Bool-cases, Bytes, List, Option, String, ap, arith, false, inl, inr, length, length-take_le,
  none, refl, some, subst, sym, take_all, true, ||-eq-false, ℕ, ◌*◌, ◌^◌, ◌||◌, ◌∙◌, ◌≡◌, ◌≤◌,
}
use claim2kernel.Base.Int.{eq_of_parts, leb_ℤ, ltb_ℤ, pos, pos_part}
use claim2kernel.Contract.Env.{Env, Time}
use claim2kernel.Contract.Signature.{Crypto}
use claim2kernel.Contract.Types.{KernelRequest}
use claim2kernel.Launcher.{
  Command, Ending, LaunchError, Options, Process, Result, conclude, execute, exited, finished,
  not_run, output_limit, report, run,
}
use claim2kernel.Launcher.Buffer.{
  Holds, Holds-write_all, LimitedBuffer, concat, new_buffer, write_all,
}
use claim2kernel.Launcher.Outcome.{executed, launch_limit, run-Ended, stopped}

launch_limit-positive : (o : Options) → (n : ℕ) × (launch_limit o ≡ pos n)
launch_limit-positive o = elim (Bool-cases (leb_ℤ o.max_output_bytes (pos 0))) [
  | inl absent_limit ↦ (2 ^ 20, rw (absent_limit) refl)
  | inr given_limit ↦ (
    pos_part o.max_output_bytes,
    rw (given_limit) (eq_of_parts _ _ (ground (arith, given_limit))),
  )
]

-- A report keeps the buffers' contents.
report-outputs :
    (result : Result) (process : Process) (out problem : LimitedBuffer)
    → ((report result process out problem).0.stdout ≡ out.content)
      × ((report result process out problem).0.stderr ≡ problem.content)
unfolding report conclude
report-outputs result process out problem = elim (Bool-cases process.deadline_exceeded) [
  | inl late ↦ rw (late, report) (refl, refl)
  | inr timely ↦ elim (Bool-cases (out.exceeded || problem.exceeded)) [
    | inl long ↦ rw (timely, long, report) (refl, refl)
    | inr whole ↦ rw (timely, whole, report) (concluded process.ending)
  ]
]
  where
    ran : Result
    ran = record result { executed = true; stdout = out.content; stderr = problem.content }

    concluded :
        (e : Ending)
        → ((conclude e ran).0.stdout ≡ out.content) × ((conclude e ran).0.stderr ≡ problem.content)
    concluded finished = (refl, refl)
    concluded (exited code) = (refl, refl)
    concluded not_run = (refl, refl)

-- A report without an error.
record IsClean (process : Process) (out problem : LimitedBuffer) (ran : Result) : Type 0 where
  pub timely : process.deadline_exceeded ≡ false
  pub out_whole : out.exceeded ≡ false
  pub problem_whole : problem.exceeded ≡ false
  pub ended : process.ending ≡ finished
  pub executed : ran.executed ≡ true
  pub exit_code : ran.exit_code ≡ pos 0

conclude-none :
    (e : Ending) (result ran : Result)
    → result.executed ≡ true
    → conclude e result ≡ (ran, none)
    → (e ≡ finished) × (ran.executed ≡ true) × (ran.exit_code ≡ pos 0)
unfolding conclude
conclude-none finished result ran h k = (
  refl,
  ap (λ (x : Result × Option LaunchError). x.0.executed) (sym k) ∙ h,
  ap (λ (x : Result × Option LaunchError). x.0.exit_code) (sym k),
)
conclude-none (exited code) result ran h k = absurd (cc (k))
conclude-none not_run result ran h k = absurd (cc (k))

report-IsClean :
    (result ran : Result) (process : Process) (out problem : LimitedBuffer)
    → report result process out problem ≡ (ran, none)
    → IsClean process out problem ran
unfolding report
report-IsClean result ran process out problem h = elim (Bool-cases process.deadline_exceeded) [
  | inl late ↦ absurd (cc (rw (late, report) at h))
  | inr timely ↦ elim (Bool-cases (out.exceeded || problem.exceeded)) [
    | inl long ↦ absurd (cc (rw (timely, long, report) at h))
    | inr whole ↦
        let (a, b, c) = conclude-none process.ending _ ran refl (rw (timely, whole, report) at h) in
        let (d, e) = ||-eq-false _ _ whole in
        record {
          timely = timely;
          out_whole = d;
          problem_whole = e;
          ended = a;
          executed = b;
          exit_code = c;
        }
  ]
]

module _ (env : Env) (crypto : Crypto) (os : Os) (clock : Time)
    (marshal_request : KernelRequest → Option String) (run_process : Command → Process) where
  -- os/exec copies no empty chunk to the buffers.
  unfoldable pub IsChunked : Type 0
  IsChunked =
      (c : Command)
      → All (λ (p : Bytes). 1 ≤ length p) (run_process c).stdout_writes
        × All (λ (p : Bytes). 1 ≤ length p) (run_process c).stderr_writes

  abbrev out_buffer : Command → Options → LimitedBuffer
  out_buffer c o = write_all (run_process c).stdout_writes (new_buffer (launch_limit o))

  abbrev err_buffer : Command → Options → LimitedBuffer
  err_buffer c o = write_all (run_process c).stderr_writes (new_buffer (launch_limit o))

  -- What the buffer of a launch holds of a process's writes.
  record IsKept (o : Options) (writes : List Bytes) : Type 0 where
    pub limit : ℕ
    pub limited : launch_limit o ≡ pos limit
    pub holds : Holds (concat writes) limit (write_all writes (new_buffer (launch_limit o)))

  IsKept-writes :
      (o : Options) (writes : List Bytes)
      → All (λ (p : Bytes). 1 ≤ length p) writes
      → IsKept o writes
  IsKept-writes o writes h =
      let (n, e) = launch_limit-positive o in
      record {
        limit = n;
        limited = e;
        holds =
            subst (λ l. Holds (concat writes) n (write_all writes (new_buffer l))) (sym e)
              (Holds-write_all writes n h);
      }

  IsKept-bounded :
      (o : Options) (writes : List Bytes)
      → ltb_ℤ output_limit (launch_limit o) ≡ false
      → IsKept o writes
      → length (write_all writes (new_buffer (launch_limit o))).content ≤ 64 * 2 ^ 20
  IsKept-bounded o writes small k =
      let cut = length-take_le k.limit (concat writes) in
      let below : k.limit ≤ 64 * 2 ^ 20 = ground (arith, small, k.limited) in
      let same = ap (λ (b : Bytes). length b) k.holds.content in omega (arith, cut, below, same)

  IsKept-whole :
      (o : Options) (writes : List Bytes)
      → IsKept o writes
      → (write_all writes (new_buffer (launch_limit o))).exceeded ≡ false
      → (write_all writes (new_buffer (launch_limit o))).content ≡ concat writes
  IsKept-whole o writes k h =
      k.holds.content ∙ take_all k.limit (concat writes) (ground (arith, h, k.holds.flagged))

  -- Whatever the process writes, and however it ends, each output that a launch keeps is at most 64 MiB.
  -- The chunks written are not empty.
  pub run-bounded :
      (o : Options) (disk after : os.Disk) (ran : Result) (err : Option LaunchError)
      → IsChunked
      → run env crypto os clock marshal_request run_process o disk ≡ some ((ran, err), after)
      → (length ran.stdout ≤ 64 * 2 ^ 20) × (length ran.stderr ≤ 64 * 2 ^ 20)
  unfolding IsChunked execute
  run-bounded o disk after ran err chunked h =
      elim (run-Ended env crypto os clock marshal_request run_process o disk (ran, err) after h) [
        | stopped idle only ↦ (
          omega (arith, ap (λ (b : Bytes). length b) idle.stdout),
          omega (arith, ap (λ (b : Bytes). length b) idle.stderr),
        )
        | executed c start small e ↦
            let (a, b) = report-outputs start (run_process c) (out_buffer c o) (err_buffer c o) in
            let same = ap (λ (x : Result × Option LaunchError). x.0) e in
            let out = IsKept-bounded o _ small (IsKept-writes o _ (chunked c).0) in
            let problem = IsKept-bounded o _ small (IsKept-writes o _ (chunked c).1) in
            (
              subst (λ (r : Result). length r.stdout ≤ 64 * 2 ^ 20) same
                  (subst (λ (b : Bytes). length b ≤ 64 * 2 ^ 20) (sym a) out),
              subst (λ (r : Result). length r.stderr ≤ 64 * 2 ^ 20) same
                  (subst (λ (b : Bytes). length b ≤ 64 * 2 ^ 20) (sym b) problem),
            )
      ]

  -- A process that ended well, with all that it wrote.
  pub record IsCompleted (ran : Result) : Type 0 where
    pub command : Command
    pub executed : ran.executed ≡ true
    pub exit_code : ran.exit_code ≡ pos 0
    pub ended : (run_process command).ending ≡ finished
    pub timely : (run_process command).deadline_exceeded ≡ false
    pub stdout : ran.stdout ≡ concat (run_process command).stdout_writes
    pub stderr : ran.stderr ≡ concat (run_process command).stderr_writes

  -- A launch that is not for verification only and reports no error has run a process that ended without
  -- one before its deadline; the exit code is 0 and the outputs are all that the process wrote. The
  -- chunks written are not empty.
  pub run-IsCompleted :
      (o : Options) (disk after : os.Disk) (ran : Result)
      → IsChunked
      → o.verify_only ≡ false
      → run env crypto os clock marshal_request run_process o disk ≡ some ((ran, none), after)
      → IsCompleted ran
  unfolding IsChunked execute
  run-IsCompleted o disk after ran chunked meant h =
      elim (run-Ended env crypto os clock marshal_request run_process o disk (ran, none) after h) [
        | stopped idle only ↦ absurd (cc (meant, only refl))
        | executed c start small e ↦
            let (a, b) = report-outputs start (run_process c) (out_buffer c o) (err_buffer c o) in
            let same = ap (λ (x : Result × Option LaunchError). x.0) e in
            let clean =
              report-IsClean start ran (run_process c) (out_buffer c o) (err_buffer c o) e in
            record {
              command = c;
              executed = clean.executed;
              exit_code = clean.exit_code;
              ended = clean.ended;
              timely = clean.timely;
              stdout =
                  sym (ap (λ (r : Result). r.stdout) same)
                  ∙ a
                  ∙ IsKept-whole o _ (IsKept-writes o _ (chunked c).0) clean.out_whole;
              stderr =
                  sym (ap (λ (r : Result). r.stderr) same)
                  ∙ b
                  ∙ IsKept-whole o _ (IsKept-writes o _ (chunked c).1) clean.problem_whole;
            }
      ]
