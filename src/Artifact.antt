-- ===== src/Artifact.antt =====
-- pkg/artifact/artifact.go: staging a verified copy of a kernel artifact. The file system is a
-- parameter: each call is a function of the disk. A path is the list of its code points.
pub mod Opened
pub mod Sound
pub mod Cleanup
pub mod FileDigest
use Prim.Native.String
use claim2kernel.Base.{
  Bool, Bytes, List, Option, String, false, if◌then◌else◌, inl, inr, is_some, length, ltb, nat_eq,
  none, not, some, take, ℕ, ◌%◌, ◌&&◌, ◌++◌, ◌-◌, ◌/◌, ◌==◌, ◌^◌, ◌||◌, ◌⊎◌,
}
use claim2kernel.Base.Int.{eq_ℤ, ltb_ℤ, pos, pos_part, ℤ, ◌+ℤ◌}
use claim2kernel.Base.Maybe.{◌>>=◌}
use claim2kernel.Base.Text.{codes, same_text, strip_prefix}
use claim2kernel.Contract.Paths.{clean, dot_dot, is_abs}
use claim2kernel.Contract.Types.{ArtifactSpec}

abbrev pub FilePath : Type 0
FilePath = List ℕ

-- os.FileInfo
pub record FileInfo : Type 0 where
  pub is_regular : Bool
  pub perm : ℕ
  pub size : ℤ

-- An opened file: its Stat, the bytes that reading it gives, and whether the read then fails.
pub record OpenFile : Type 0 where
  pub stat : Option FileInfo
  pub bytes : Bytes
  pub read_fails : Bool

pub record Os : Type 1 where
  pub Disk : Type 0
  -- filepath.Abs, filepath.EvalSymlinks and filepath.Rel
  pub abs : FilePath → Option FilePath
  pub eval_symlinks : Disk → FilePath → Option FilePath
  pub rel : FilePath → FilePath → Option FilePath
  pub open_file : Disk → FilePath → Option OpenFile
  -- os.MkdirTemp, os.Chmod, and os.OpenFile with O_CREATE, O_EXCL and O_WRONLY
  pub make_temp_dir : Disk → Option (FilePath × Disk)
  pub change_mode : FilePath → ℕ → Disk → Option Disk
  pub create_exclusive : FilePath → ℕ → Disk → Option Disk
  -- Write to a file just created, and whether all of it was written; Sync; Close
  pub write_file : FilePath → Bytes → Disk → Bool × Disk
  pub sync_file : FilePath → Disk → Bool
  pub close_file : FilePath → Disk → Bool
  pub remove_all : FilePath → Disk → Disk
  -- the lowercase hexadecimal SHA-256
  pub sha256_hex : Bytes → String

pub data StageError : Type 0 where
  root_unresolved path_absolute path_escapes artifact_unresolved resolved_escapes : StageError
  not_opened no_stat not_regular not_executable group_writable size_mismatch over_max : StageError
  no_stage_dir dir_mode not_created copy_failed sync_failed close_failed changed_while_staging :
      StageError
  digest_mismatch file_mode : StageError

pub record Staged : Type 0 where
  pub path : FilePath
  pub size : ℤ
  pub digest : String
  -- the directory that `cleanup` removes
  pub dir : FilePath

-- Whether a path is `..` or goes on behind it.
abbrev pub leads_out : FilePath → Bool
leads_out r = same_text r dot_dot || is_some (strip_prefix (codes "../") r)

abbrev pub bit : ℕ → ℕ → Bool
bit k n = nat_eq (n / 2 ^ k % 2) 1

-- perm & 0o111 != 0 and perm & 0o022 != 0
abbrev pub is_executable : ℕ → Bool
is_executable perm = bit 0 perm || bit 3 perm || bit 6 perm

abbrev pub is_shared_writable : ℕ → Bool
is_shared_writable perm = bit 1 perm || bit 4 perm

-- What `io.LimitReader(f, maxBytes+1)` lets through: the sum wraps, and no byte passes a limit below 1.
unfoldable pub read_limit : ℤ → ℕ
unfolding ◌+ℤ◌
read_limit max = if eq_ℤ max (pos (2 ^ 63 - 1)) then 0 else pos_part (max +ℤ pos 1)

unfoldable pub join_path : FilePath → FilePath → FilePath
unfolding clean
join_path dir name = clean (dir ++ (codes "/" ++ name))

module _ (os : Os) where
  unfoldable pub within : FilePath → FilePath → Bool
  within root path = elim (os.rel root path) [ none ↦ false | some r ↦ not (leads_out r) ]

  -- The opened artifact, or why there is none.
  unfoldable pub open_resolved : os.Disk → FilePath → Option FilePath → StageError ⊎ OpenFile
  unfolding within
  open_resolved disk root none = inl artifact_unresolved
  open_resolved disk root (some resolved) =
      if not (within root resolved)
      then inl resolved_escapes
      else elim (os.open_file disk resolved) [ none ↦ inl not_opened | some f ↦ inr f ]

  unfoldable pub resolve_root : os.Disk → FilePath → Option FilePath
  resolve_root disk root = do full ← os.abs root; os.eval_symlinks disk full

  -- The artifact at a cleaned path below the root.
  unfoldable pub open_below : os.Disk → FilePath → FilePath → StageError ⊎ OpenFile
  unfolding open_resolved join_path same_text strip_prefix
  open_below disk real cleaned =
      if same_text cleaned (codes ".") || leads_out cleaned
      then inl path_escapes
      else open_resolved disk real (os.eval_symlinks disk (join_path real cleaned))

  unfoldable pub open_relative : os.Disk → FilePath → Bool → FilePath → StageError ⊎ OpenFile
  unfolding open_below
  open_relative disk real absolute cleaned =
      if absolute then inl path_absolute else open_below disk real cleaned

  unfoldable pub open_artifact : os.Disk → FilePath → FilePath → StageError ⊎ OpenFile
  unfolding resolve_root open_relative clean
  open_artifact disk root path = elim (resolve_root disk root) [
    | none ↦ inl root_unresolved
    | some real ↦ open_relative disk real (is_abs path) (clean path)
  ]

  -- The checks of the file's Stat: the first that fails.
  unfoldable pub stat_error : ArtifactSpec → Option FileInfo → Option StageError
  stat_error spec none = some no_stat
  stat_error spec (some info) =
      if not info.is_regular
      then some not_regular
      else if not (is_executable info.perm)
      then some not_executable
      else if is_shared_writable info.perm
      then some group_writable
      else if not (eq_ℤ info.size spec.size_bytes)
      then some size_mismatch
      else if ltb_ℤ spec.max_bytes info.size
      then some over_max
      else none

  unfoldable pub bytes_digest : Bytes → String
  bytes_digest b = String.◌++◌ "sha256:" (os.sha256_hex b)

  -- What was copied, against the contract.
  unfoldable pub copy_error :
      ArtifactSpec → FilePath → OpenFile → Bytes → Bool × os.Disk → Option StageError
  unfolding bytes_digest read_limit
  copy_error spec path f copied (ok, disk) =
      if not ok || (f.read_fails && ltb (length f.bytes) (read_limit spec.max_bytes))
      then some copy_failed
      else if not (os.sync_file path disk)
      then some sync_failed
      else if not (os.close_file path disk)
      then some close_failed
      else if not (eq_ℤ (pos (length copied)) spec.size_bytes)
          || ltb_ℤ spec.max_bytes (pos (length copied))
      then some changed_while_staging
      else if not (bytes_digest copied == spec.digest)
      then some digest_mismatch
      else none

  -- After a failure the directory is removed.
  unfoldable pub abandon : FilePath → StageError → os.Disk → (StageError ⊎ Staged) × os.Disk
  abandon dir err disk = (inl err, os.remove_all dir disk)

  unfoldable pub finish_copy :
      FilePath → FilePath → Bytes → Option StageError → os.Disk → (StageError ⊎ Staged) × os.Disk
  unfolding abandon bytes_digest
  finish_copy dir path copied (some err) disk = abandon dir err disk
  finish_copy dir path copied none disk = elim (os.change_mode path 0o500 disk) [
    | none ↦ abandon dir file_mode disk
    | some done ↦ (
      inr (record {
        path = path;
        size = pos (length copied);
        digest = bytes_digest copied;
        dir = dir;
      }),
      done,
    )
  ]

  unfoldable pub copy_artifact :
      ArtifactSpec → OpenFile → FilePath → FilePath → os.Disk → (StageError ⊎ Staged) × os.Disk
  unfolding copy_error finish_copy take read_limit
  copy_artifact spec f dir path disk =
      let copied = take (read_limit spec.max_bytes) f.bytes in
      let written = os.write_file path copied disk in
      finish_copy dir path copied (copy_error spec path f copied written) written.1

  unfoldable pub fill_dir :
      ArtifactSpec → OpenFile → FilePath → os.Disk → (StageError ⊎ Staged) × os.Disk
  unfolding copy_artifact abandon join_path
  fill_dir spec f dir disk = elim (os.change_mode dir 0o700 disk) [
    | none ↦ abandon dir dir_mode disk
    | some private ↦ elim (os.create_exclusive (join_path dir (codes "kernel")) 0o500 private) [
      | none ↦ abandon dir not_created private
      | some created ↦ copy_artifact spec f dir (join_path dir (codes "kernel")) created
    ]
  ]

  unfoldable pub stage_opened :
      ArtifactSpec → StageError ⊎ OpenFile → os.Disk → (StageError ⊎ Staged) × os.Disk
  unfolding stat_error fill_dir
  stage_opened spec (inl err) disk = (inl err, disk)
  stage_opened spec (inr f) disk = elim (stat_error spec f.stat) [
    | some err ↦ (inl err, disk)
    | none ↦ elim (os.make_temp_dir disk) [
      | none ↦ (inl no_stage_dir, disk)
      | some (dir, made) ↦ fill_dir spec f dir made
    ]
  ]

  -- Stage
  unfoldable pub stage : FilePath → ArtifactSpec → os.Disk → (StageError ⊎ Staged) × os.Disk
  unfolding open_artifact stage_opened
  stage root spec disk = stage_opened spec (open_artifact disk root (codes spec.path)) disk

  -- Staged.Cleanup of what Stage returned; the removal's error is the caller's
  unfoldable pub cleanup : Staged → os.Disk → os.Disk
  cleanup s disk = os.remove_all s.dir disk
