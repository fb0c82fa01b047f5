-- ===== src/Cli.antt =====
-- cmd/c2k/main.go: the files that the commands write. The file system is a parameter.
pub mod Written
pub mod Commands
mod Samples
use Prim.Native.String
use claim2kernel.Base.{
  Bool, Option, String, false, if◌then◌else◌, none, not, some, true, ◌&&◌, ◌++◌,
}

-- What the program calls of os on paths.
pub record FileOps : Type 1 where
  pub Disk : Type 0
  pub read : String → Disk → Option String
  -- os.MkdirAll of the path's directory
  pub make_dirs : String → Disk → Option Disk
  pub exists : String → Disk → Bool
  -- os.OpenFile with O_CREATE, O_EXCL and O_WRONLY; os.CreateTemp in the path's directory
  pub create_new : String → Disk → Option Disk
  pub create_temp : String → Disk → Option (String × Disk)
  pub change_mode : String → Disk → Bool × Disk
  pub write_file : String → String → Disk → Bool × Disk
  pub sync_file : String → Disk → Bool
  pub close_file : String → Disk → Bool
  pub rename : String → String → Disk → Option Disk
  pub remove : String → Disk → Disk

module _ (ops : FileOps) where
  -- The data written to a file that was just created, synced and closed: whether all went well.
  unfoldable pub fill_file : String → String → ops.Disk → Bool × ops.Disk
  fill_file path contents disk =
      let written = ops.write_file path contents disk in
      (written.0 && ops.sync_file path written.1 && ops.close_file path written.1, written.1)

  -- writeExclusive
  unfoldable pub write_exclusive : String → String → ops.Disk → Bool × ops.Disk
  unfolding fill_file
  write_exclusive path contents disk = elim (ops.make_dirs path disk) [
    | none ↦ (false, disk)
    | some made ↦ elim (ops.create_new path made) [
      | none ↦ (false, made)
      | some created ↦ fill_file path contents created
    ]
  ]

  -- The file at the temporary path, put in place if nothing failed.
  unfoldable pub put_in_place : String → String → Bool × ops.Disk → Bool × ops.Disk
  put_in_place temp path (false, disk) = (false, disk)
  put_in_place temp path (true, disk) = elim (ops.rename temp path disk) [
    | none ↦ (false, disk)
    | some moved ↦ (true, moved)
  ]

  unfoldable pub fill_temp : String → String → String → Bool × ops.Disk → Bool × ops.Disk
  unfolding fill_file put_in_place
  fill_temp temp path contents (false, disk) = (false, disk)
  fill_temp temp path contents (true, disk) = put_in_place temp path (fill_file temp contents disk)

  -- The temporary file is removed whatever happened.
  unfoldable pub through_temp : String → String → ops.Disk → Bool × ops.Disk
  unfolding fill_temp
  through_temp path contents disk = elim (ops.create_temp path disk) [
    | none ↦ (false, disk)
    | some (temp, created) ↦
        let filled = fill_temp temp path contents (ops.change_mode temp created) in
        (filled.0, ops.remove temp filled.1)
  ]

  -- atomicWrite
  unfoldable pub atomic_write : String → String → Bool → ops.Disk → Bool × ops.Disk
  unfolding through_temp
  atomic_write path contents overwrite disk = elim (ops.make_dirs path disk) [
    | none ↦ (false, disk)
    | some made ↦
        if not overwrite && ops.exists path made
        then (false, made)
        else through_temp path contents made
  ]

  -- atomicWriteJSON, `encoded` being what json.MarshalIndent gives
  unfoldable pub atomic_write_json : String → Option String → Bool → ops.Disk → Bool × ops.Disk
  unfolding atomic_write
  atomic_write_json path none overwrite disk = (false, disk)
  atomic_write_json path (some encoded) overwrite disk =
      atomic_write path (String.◌++◌ encoded "\n") overwrite disk

  -- The files of cmdKeygen: the private one is removed where the public one cannot be written.
  unfoldable pub write_keys : String → String → String → String → ops.Disk → Bool × ops.Disk
  unfolding write_exclusive
  write_keys private_path private_pem public_path public_pem disk =
      let first = write_exclusive private_path private_pem disk in
      let second = write_exclusive public_path public_pem first.1 in
      if not first.0
      then first
      else if second.0
      then second
      else (false, ops.remove private_path second.1)
