-- ===== src/Artifact/Cleanup.antt =====
-- What Stage of pkg/artifact/artifact.go leaves on the disk.
use claim2kernel.Artifact.{
  FilePath, OpenFile, Os, StageError, Staged, abandon, cleanup, copy_artifact, fill_dir,
  finish_copy, join_path, open_artifact, stage, stage_opened, stat_error,
}
use claim2kernel.Base.{Bytes, Option, Option-cases, inl, inr, none, refl, some, ℕ, ◌≡◌, ◌⊎◌}
use claim2kernel.Base.Text.{codes}
use claim2kernel.Contract.Checks.{blank}
use claim2kernel.Contract.Types.{ArtifactSpec}

module _ (os : Os) where
  -- What os documents: a fresh directory can be removed with what was put in it, and nothing else
  -- changes. `Within dir disk now` says that `now` differs from `disk` by the new directory only.
  pub record IsScratch (Within : FilePath → os.Disk → os.Disk → Type 0) : Type 0 where
    pub made :
        (dir : FilePath) (disk now : os.Disk)
        → os.make_temp_dir disk ≡ some (dir, now)
        → Within dir disk now
    pub dir_moded :
        (dir : FilePath) (mode : ℕ) (disk now then : os.Disk)
        → Within dir disk now
        → os.change_mode dir mode now ≡ some then
        → Within dir disk then
    pub file_moded :
        (dir : FilePath) (mode : ℕ) (disk now then : os.Disk)
        → Within dir disk now
        → os.change_mode (join_path dir (codes "kernel")) mode now ≡ some then
        → Within dir disk then
    pub created :
        (dir : FilePath) (mode : ℕ) (disk now then : os.Disk)
        → Within dir disk now
        → os.create_exclusive (join_path dir (codes "kernel")) mode now ≡ some then
        → Within dir disk then
    pub written :
        (dir : FilePath) (bytes : Bytes) (disk now : os.Disk)
        → Within dir disk now
        → Within dir disk (os.write_file (join_path dir (codes "kernel")) bytes now).1
    pub removed :
        (dir : FilePath) (disk now : os.Disk) → Within dir disk now → os.remove_all dir now ≡ disk

  -- A failure leaves the disk as it was; a staged copy is removed by its cleanup.
  unfoldable pub Restores : os.Disk → (StageError ⊎ Staged) × os.Disk → Type 0
  unfolding cleanup
  Restores disk (inl err, now) = now ≡ disk
  Restores disk (inr s, now) = cleanup os s now ≡ disk

  module _ (Within : FilePath → os.Disk → os.Disk → Type 0) (laws : IsScratch Within) where
    Restores-finish_copy :
        (dir : FilePath) (copied : Bytes) (err : Option StageError) (disk now : os.Disk)
        → Within dir disk now
        → Restores disk (finish_copy os dir (join_path dir (codes "kernel")) copied err now)
    unfolding finish_copy abandon cleanup Restores
    Restores-finish_copy dir copied (some err) disk now k = laws.removed dir disk now k
    Restores-finish_copy dir copied none disk now k =
        elim (Option-cases (os.change_mode (join_path dir (codes "kernel")) 0o500 now)) [
          | inl bad ↦ rw (bad, finish_copy, abandon) (laws.removed dir disk now k)
          | inr (done, e) ↦
              rw (e, finish_copy, cleanup)
                (laws.removed dir disk done (laws.file_moded dir 0o500 disk now done k e))
        ]

    Restores-copy_artifact :
        (spec : ArtifactSpec) (f : OpenFile) (dir : FilePath) (disk now : os.Disk)
        → Within dir disk now
        → Restores disk (copy_artifact os spec f dir (join_path dir (codes "kernel")) now)
    unfolding copy_artifact
    Restores-copy_artifact spec f dir disk now k =
        Restores-finish_copy dir _ _ disk _ (laws.written dir _ disk now k)

    Restores-fill_dir :
        (spec : ArtifactSpec) (f : OpenFile) (dir : FilePath) (disk now : os.Disk)
        → Within dir disk now
        → Restores disk (fill_dir os spec f dir now)
    unfolding fill_dir abandon Restores
    Restores-fill_dir spec f dir disk now k = elim (Option-cases (os.change_mode dir 0o700 now)) [
      | inl bad ↦ rw (bad, fill_dir, abandon) (laws.removed dir disk now k)
      | inr (private, a) ↦
          let moded = laws.dir_moded dir 0o700 disk now private k a in
          elim (Option-cases (os.create_exclusive (join_path dir (codes "kernel")) 0o500 private)) [
            | inl bad ↦ rw (a, bad, fill_dir, abandon) (laws.removed dir disk private moded)
            | inr (blank, b) ↦
                rw (a, b, fill_dir)
                  (Restores-copy_artifact spec f dir disk blank
                    (laws.created dir 0o500 disk private blank moded b))
          ]
    ]

    Restores-stage_opened :
        (spec : ArtifactSpec) (opened : StageError ⊎ OpenFile) (disk : os.Disk)
        → Restores disk (stage_opened os spec opened disk)
    unfolding stage_opened Restores
    Restores-stage_opened spec (inl err) disk = refl
    Restores-stage_opened spec (inr f) disk = elim (Option-cases (stat_error os spec f.stat)) [
      | inr (err, bad) ↦ rw (bad, stage_opened) refl
      | inl fit ↦ elim (Option-cases (os.make_temp_dir disk)) [
        | inl bad ↦ rw (fit, bad, stage_opened) refl
        | inr ((dir, made), e) ↦
            rw (fit, e, stage_opened)
              (Restores-fill_dir spec f dir disk made (laws.made dir disk made e))
      ]
    ]

    -- Whatever call fails, Stage leaves the disk as it found it; and the cleanup of what it returns does,
    -- where a removal of the new directory removes what was put in it and nothing else.
    pub Restores-stage :
        (root : FilePath) (spec : ArtifactSpec) (disk : os.Disk)
        → Restores disk (stage os root spec disk)
    unfolding stage
    Restores-stage root spec disk =
        Restores-stage_opened spec (open_artifact os disk root (codes spec.path)) disk
