-- ===== src/Launcher/Samples.antt =====
-- pkg/contract/signature.go, pkg/artifact/artifact.go and pkg/launcher/launcher.go on a sample launch.
pub mod Signatures
mod Documents
mod Launches
use claim2kernel.Artifact.{FilePath, OpenFile, Os}
use claim2kernel.Base.{Bytes, List, Option, String, [], false, none, some, suc, true, zero, ℕ, ◌∷◌}
use claim2kernel.Base.Int.{pos}
use claim2kernel.Base.Text.{codes}
use claim2kernel.Contract.Digest.{contract_digest}
use claim2kernel.Contract.Signature.{Crypto, algorithm_name, key_id}
use claim2kernel.Contract.Types.{
  KernelRequest, SignatureEnvelope, api_version_v1alpha1, signature_kind,
}
use claim2kernel.Contract.Value.{kind}
use claim2kernel.Dra.{api_version}
use claim2kernel.Launcher.{Command, Options, Process, Result, finished}
use claim2kernel.Launcher.Outcome.{executed}
use claim2kernel.Planner.Samples.{
  sample_decision, sample_metadata, sample_profile, sample_request, zero_digest, zero_hash,
}

abbrev pub sample_key : Bytes
sample_key = 7 ∷ []

abbrev replicate : ℕ → ℕ → Bytes
replicate zero b = []
replicate (suc n) b = b ∷ replicate n b

abbrev pub sample_signature_bytes : Bytes
sample_signature_bytes = replicate 64 0

abbrev pub sample_crypto : Crypto
sample_crypto = record {
  public_key = λ k. some sample_key;
  sign = λ k m. some sample_signature_bytes;
  verify = λ k m s. some true;
  encode = λ b. "sig";
  decode = λ s. some sample_signature_bytes;
  key_hash = λ k. zero_hash;
}

abbrev pub sample_envelope : SignatureEnvelope
sample_envelope = record {
  api_version = api_version_v1alpha1;
  kind = signature_kind;
  algorithm = algorithm_name;
  key_id = "ed25519:00000000000000000000000000000000";
  contract_digest = zero_digest;
  artifact_digest = zero_digest;
  signed_at = "sealed";
  signature = "sig";
}

-- The scratch directories, each with its files, the newest first.
abbrev pub Scratches : Type 0
Scratches = List (List FilePath)

abbrev pub with_file : FilePath → Scratches → Option Scratches
with_file path [] = none
with_file path (files ∷ disk) = some ((path ∷ files) ∷ disk)

abbrev pub without_newest : Scratches → Scratches
without_newest [] = []
without_newest (files ∷ disk) = disk

abbrev pub sample_file : OpenFile
sample_file = record {
  stat = some (record { is_regular = true; perm = 0o555; size = pos 10 });
  bytes = replicate 10 1;
  read_fails = false;
}

abbrev pub sample_os : Os
sample_os = record {
  Disk = Scratches;
  abs = λ p. some p;
  eval_symlinks = λ disk p. some p;
  rel = λ root p. some (codes "bin/kernel");
  open_file = λ disk p. some sample_file;
  make_temp_dir = λ disk. some (codes "/tmp/c2k-stage-1", [] ∷ disk);
  change_mode = λ p mode disk. some disk;
  create_exclusive = λ p mode disk. with_file p disk;
  write_file = λ p b disk. (true, disk);
  sync_file = λ p disk. true;
  close_file = λ p disk. true;
  remove_all = λ p disk. without_newest disk;
  sha256_hex = λ b. zero_hash;
}

abbrev pub sample_process : Process
sample_process = record {
  deadline_exceeded = false;
  stdout_writes = (1 ∷ 2 ∷ []) ∷ (3 ∷ []) ∷ [];
  stderr_writes = [];
  ending = finished;
}

abbrev pub sample_options : Options
sample_options = record {
  root = codes "/opt/c2k";
  profile = some sample_profile;
  request = some sample_request;
  metadata = some sample_metadata;
  dra_request_name = "";
  signature = some sample_envelope;
  signature_public_key = sample_key;
  require_signature = true;
  verify_only = false;
  timeout = pos 0;
  max_output_bytes = pos 0;
  now = some (pos 600);
}

abbrev pub sample_marshal : KernelRequest → Option String
sample_marshal r = some "{}"

abbrev pub sample_run : Command → Process
sample_run c = sample_process

abbrev pub sample_result : Result
sample_result = record {
  decision = sample_decision;
  artifact_digest = zero_digest;
  signature_valid = true;
  executed = true;
  exit_code = pos 0;
  stdout = 1 ∷ 2 ∷ 3 ∷ [];
  stderr = [];
}
