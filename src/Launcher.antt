-- ===== src/Launcher.antt =====
-- pkg/launcher/launcher.go: the runtime revalidation of a contract and the run of its kernel. The
-- process is a parameter. Nothing is returned where the Go code panics.
pub mod Buffer
pub mod Checked
pub mod Executed
pub mod Certified
pub mod Outcome
pub mod Limits
pub mod Restored
pub mod Samples
use Prim.Native.String
use claim2kernel.Artifact.{FilePath, Os, StageError, Staged, cleanup, stage}
use claim2kernel.Base.{
  Bool, Bytes, List, Option, String, [], false, if◌then◌else◌, inl, inr, is_some, length, ltb, none,
  not, some, true, ◌&&◌, ◌*◌, ◌++◌, ◌^◌, ◌||◌, ◌∷◌, ◌⊎◌,
}
use claim2kernel.Base.Int.{leb_ℤ, ltb_ℤ, negsuc, pos, ℤ}
use claim2kernel.Base.Maybe.{◌>>=◌}
use claim2kernel.Contract.Digest.{contract_digest}
use claim2kernel.Contract.Env.{Env, Time, minutes}
use claim2kernel.Contract.Signature.{Crypto, SignatureError, verify_profile_signature}
use claim2kernel.Contract.Types.{KernelProfile, KernelRequest, Seal, SignatureEnvelope}
use claim2kernel.Dra.{DeviceMetadata}
use claim2kernel.Launcher.Buffer.{LimitedBuffer, new_buffer, write_all}
use claim2kernel.Planner.{Decision, RuntimeEvidence}
use claim2kernel.Planner.Evaluate.{evaluate, or_given}
use claim2kernel.Planner.Select.{zero_decision}

pub record Options : Type 0 where
  pub root : FilePath
  pub profile : Option KernelProfile
  pub request : Option KernelRequest
  pub metadata : Option DeviceMetadata
  pub dra_request_name : String
  pub signature : Option SignatureEnvelope
  pub signature_public_key : Bytes
  pub require_signature : Bool
  pub verify_only : Bool
  pub timeout : ℤ
  pub max_output_bytes : ℤ
  pub now : Option Time  -- none is the zero time

pub record Result : Type 0 where
  pub decision : Decision
  pub artifact_digest : String
  pub signature_valid : Bool
  pub executed : Bool
  pub exit_code : ℤ
  pub stdout : Bytes
  pub stderr : Bytes

pub data LaunchError : Type 0 where
  output_ceiling : LaunchError
  rejection : Decision → LaunchError
  signature_required signature_incomplete : LaunchError
  signature_invalid : SignatureError → LaunchError
  artifact_unverified : StageError → LaunchError
  too_many_arguments request_unmarshalled kernel_timeout kernel_output_limit : LaunchError
  kernel_exit_nonzero : ℤ → LaunchError
  kernel_exec_failed : LaunchError

-- What `exec.CommandContext` is given.
pub record Command : Type 0 where
  pub path : FilePath
  pub args : List String
  pub environment : List String
  pub stdin : String
  pub timeout : ℤ

-- How `cmd.Run()` ends: no error, an `exec.ExitError`, or another error.
pub data Ending : Type 0 where
  finished : Ending
  exited : ℤ → Ending
  not_run : Ending

-- What a run of the process amounts to: whether its deadline has passed, what it writes, its ending.
pub record Process : Type 0 where
  pub deadline_exceeded : Bool
  pub stdout_writes : List Bytes
  pub stderr_writes : List Bytes
  pub ending : Ending

abbrev pub or_default : ℤ → ℤ → ℤ
or_default n default = if leb_ℤ n (pos 0) then default else n

abbrev pub default_timeout : ℤ
default_timeout = pos (30 * 1000000000)

abbrev pub default_output : ℤ
default_output = pos (2 ^ 20)

abbrev pub output_limit : ℤ
output_limit = pos (64 * 2 ^ 20)

unfoldable pub zero_result : Decision → Result
zero_result d = record {
  decision = d;
  artifact_digest = "";
  signature_valid = false;
  executed = false;
  exit_code = pos 0;
  stdout = [];
  stderr = [];
}

-- The result of a decision before anything was run: exit code -1.
unfoldable pub decided : Decision → Result
unfolding zero_result
decided d = record (zero_result d) { exit_code = negsuc 0 }

abbrev pub has_key : Bytes → Bool
has_key [] = false
has_key (_ ∷ _) = true

-- What is reported of the process's ending.
unfoldable pub conclude : Ending → Result → Result × Option LaunchError
conclude finished ran = (record ran { exit_code = pos 0 }, none)
conclude (exited code) ran = (record ran { exit_code = code }, some (kernel_exit_nonzero code))
conclude not_run ran = (ran, some kernel_exec_failed)

-- What `cmd.Run()` and the buffers say, in the order of the tests.
unfoldable pub report :
    Result → Process → LimitedBuffer → LimitedBuffer → Result × Option LaunchError
unfolding conclude
report result process out err =
    let ran = record result { executed = true; stdout = out.content; stderr = err.content } in
    if process.deadline_exceeded
    then (ran, some kernel_timeout)
    else if out.exceeded || err.exceeded
    then (ran, some kernel_output_limit)
    else conclude process.ending ran

module _ (env : Env) (crypto : Crypto) (os : Os) (clock : Time)
    (marshal_request : KernelRequest → Option String) (run_process : Command → Process) where
  -- The signature's part: the error, or whether a signature was verified.
  unfoldable pub check_signature : Options → Time → Option (LaunchError ⊎ Bool)
  unfolding verify_profile_signature
  check_signature o now =
      let complete = is_some o.signature && has_key o.signature_public_key in
      let partly = is_some o.signature || has_key o.signature_public_key in
      if o.require_signature && not complete
      then some (inl signature_required)
      else if not partly
      then some (inr false)
      else if not complete
      then some (inl signature_incomplete)
      else do
        verdict ←
            verify_profile_signature env crypto o.profile o.signature o.signature_public_key now
              (minutes 5)
        elim verdict [ none ↦ some (inr true) | some err ↦ some (inl (signature_invalid err)) ]

  unfoldable pub command_for : KernelProfile → Seal → KernelRequest → Staged → String → ℤ → Command
  command_for p s r staged input timeout = record {
    path = staged.path;
    args = p.spec.artifact.default_args;
    environment =
        "LANG=C.UTF-8"
        ∷ "LC_ALL=C.UTF-8"
        ∷ String.◌++◌ "C2K_CONTRACT_DIGEST=" s.contract_digest
        ∷ String.◌++◌ "C2K_ARTIFACT_DIGEST=" staged.digest
        ∷ String.◌++◌ "C2K_REQUEST_NAME=" r.metadata.name
        ∷ [];
    stdin = String.◌++◌ input "\n";
    timeout = timeout;
  }

  -- The process with its two buffers.
  unfoldable pub execute : Command → ℤ → Result → Result × Option LaunchError
  unfolding report new_buffer write_all
  execute c limit result =
      let process = run_process c in
      report result process (write_all process.stdout_writes (new_buffer limit))
        (write_all process.stderr_writes (new_buffer limit))

  unfoldable pub run_staged :
      Options
      → KernelProfile
      → KernelRequest
      → Staged
      → Result
      → Option (Result × Option LaunchError)
  unfolding command_for execute
  run_staged o p r staged result =
      if o.verify_only
      then some (result, none)
      else if ltb 64 (length p.spec.artifact.default_args)
      then some (result, some too_many_arguments)
      else elim (marshal_request r) [
        | none ↦ some (result, some request_unmarshalled)
        | some input ↦ do
          s ← p.seal
          some (
              execute (command_for p s r staged input (or_default o.timeout default_timeout))
                (or_default o.max_output_bytes default_output) result)
      ]

  -- The staged copy used, then removed.
  unfoldable pub with_staged :
      Options
      → KernelProfile
      → KernelRequest
      → Result
      → (StageError ⊎ Staged) × os.Disk
      → Option ((Result × Option LaunchError) × os.Disk)
  unfolding run_staged cleanup
  with_staged o p r result (inl err, disk) = some ((result, some (artifact_unverified err)), disk)
  with_staged o p r result (inr staged, disk) = do
    done ← run_staged o p r staged (record result { artifact_digest = staged.digest })
    some (done, cleanup os staged disk)

  unfoldable pub run_checked :
      Options
      → KernelProfile
      → KernelRequest
      → Result
      → LaunchError ⊎ Bool
      → os.Disk
      → Option ((Result × Option LaunchError) × os.Disk)
  unfolding with_staged stage
  run_checked o p r result (inl err) disk = some ((result, some err), disk)
  run_checked o p r result (inr valid) disk =
      with_staged o p r (record result { signature_valid = valid })
        (stage os o.root p.spec.artifact disk)

  -- An admissible decision had a profile and a request.
  unfoldable pub run_pair :
      Options
      → Option KernelProfile
      → Option KernelRequest
      → Result
      → LaunchError ⊎ Bool
      → os.Disk
      → Option ((Result × Option LaunchError) × os.Disk)
  unfolding run_checked
  run_pair o (some p) (some r) result checked disk = run_checked o p r result checked disk
  run_pair o _ _ result checked disk = none

  -- What follows a decision, by whether it is admissible.
  unfoldable pub run_when :
      Bool → Options → Time → Decision → os.Disk → Option ((Result × Option LaunchError) × os.Disk)
  unfolding decided check_signature run_pair
  run_when false o now d disk = some ((decided d, some (rejection d)), disk)
  run_when true o now d disk = do
    checked ← check_signature o now
    run_pair o o.profile o.request (decided d) checked disk

  unfoldable pub run_decided :
      Options → Time → Decision → os.Disk → Option ((Result × Option LaunchError) × os.Disk)
  unfolding run_when
  run_decided o now d disk = run_when d.admissible o now d disk

  unfoldable pub launch_evidence : Options → RuntimeEvidence
  launch_evidence o = record {
    now = some (or_given o.now clock);
    interference = none;
    versions = none;
    metadata = o.metadata;
    dra_request_name = o.dra_request_name;
  }

  -- Run
  unfoldable pub run : Options → os.Disk → Option ((Result × Option LaunchError) × os.Disk)
  unfolding run_decided launch_evidence evaluate zero_result
  run o disk =
      if ltb_ℤ output_limit (or_default o.max_output_bytes default_output)
      then some ((zero_result zero_decision, some output_ceiling), disk)
      else do
        d ← evaluate env clock o.profile o.request "runtime" (launch_evidence o)
        run_decided o (or_given o.now clock) d disk
