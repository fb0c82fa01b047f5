-- ===== src/Cli/Written.antt =====
-- What atomicWrite of cmd/c2k/main.go leaves at its path.
use claim2kernel.Base.{
  Bool, Bool-cases, Option-cases, String, false, inl, inr, not, refl, some, true, ◌&&◌, ◌∙◌, ◌≡◌,
  ◌≢◌,
}
use claim2kernel.Cli.{FileOps, atomic_write, fill_file, fill_temp, put_in_place, through_temp}

module _ (ops : FileOps) where
  -- What os documents of the calls, as what the paths hold; a temporary path is not the path itself.
  pub record IsFileSystem : Type 0 where
    pub dirs_keep :
        (p q : String) (d e : ops.Disk) → ops.make_dirs p d ≡ some e → ops.read q e ≡ ops.read q d
    pub temp_fresh :
        (p t : String) (d e : ops.Disk)
        → ops.create_temp p d ≡ some (t, e)
        → (p ≢ t) × (ops.read p e ≡ ops.read p d)
    pub mode_keeps :
        (p t : String) (d : ops.Disk) → p ≢ t → ops.read p (ops.change_mode t d).1 ≡ ops.read p d
    pub write_keeps :
        (p t s : String) (d : ops.Disk) → p ≢ t → ops.read p (ops.write_file t s d).1 ≡ ops.read p d
    pub write_reads :
        (t s : String) (d : ops.Disk)
        → (ops.write_file t s d).0 ≡ true
        → ops.read t (ops.write_file t s d).1 ≡ some s
    pub rename_moves :
        (t p : String) (d e : ops.Disk) → ops.rename t p d ≡ some e → ops.read p e ≡ ops.read t d
    pub remove_keeps :
        (p t : String) (d : ops.Disk) → p ≢ t → ops.read p (ops.remove t d) ≡ ops.read p d

  -- The path holds the new data where the write succeeded, and what it held where it failed.
  pub record IsAtomic (path contents : String) (before : ops.Disk) (result : Bool × ops.Disk)
      : Type 0 where
    pub done : result.0 ≡ true → ops.read path result.1 ≡ some contents
    pub failed : result.0 ≡ false → ops.read path result.1 ≡ ops.read path before

  module _ (laws : IsFileSystem) where
    IsAtomic-unchanged :
        (path contents : String) (before current : ops.Disk)
        → ops.read path current ≡ ops.read path before
        → IsAtomic path contents before (false, current)
    IsAtomic-unchanged path contents before current h = record {
      done = λ e. absurd (cc (e));
      failed = λ e. h;
    }

    IsAtomic-put_in_place :
        (temp path contents : String) (before : ops.Disk) (filled : Bool × ops.Disk)
        → (filled.0 ≡ true → ops.read temp filled.1 ≡ some contents)
        → ops.read path filled.1 ≡ ops.read path before
        → IsAtomic path contents before (put_in_place ops temp path filled)
    unfolding put_in_place
    IsAtomic-put_in_place temp path contents before (false, current) new old =
        IsAtomic-unchanged path contents before current old
    IsAtomic-put_in_place temp path contents before (true, current) new old =
        elim (Option-cases (ops.rename temp path current)) [
          | inl bad ↦ rw (bad, put_in_place) (IsAtomic-unchanged path contents before current old)
          | inr (moved, e) ↦
              rw (e, put_in_place)
                (record {
                  done = λ k. laws.rename_moves temp path current moved e ∙ new refl;
                  failed = λ k. absurd (cc (k));
                })
        ]

    -- A file that was filled without an error holds the data.
    fill_file-written :
        (temp contents : String) (d : ops.Disk)
        → (fill_file ops temp contents d).0 ≡ true
        → ops.read temp (fill_file ops temp contents d).1 ≡ some contents
    unfolding fill_file
    fill_file-written temp contents d h = elim (Bool-cases (ops.write_file temp contents d).0) [
      | inl fine ↦ laws.write_reads temp contents d fine
      | inr bad ↦ absurd (cc (rw (bad) at h))
    ]

    IsAtomic-fill_temp :
        (temp path contents : String) (before : ops.Disk) (moded : Bool × ops.Disk)
        → path ≢ temp
        → ops.read path moded.1 ≡ ops.read path before
        → IsAtomic path contents before (fill_temp ops temp path contents moded)
    unfolding fill_temp fill_file
    IsAtomic-fill_temp temp path contents before (false, current) apart old =
        IsAtomic-unchanged path contents before current old
    IsAtomic-fill_temp temp path contents before (true, current) apart old =
        IsAtomic-put_in_place temp path contents before (fill_file ops temp contents current)
          (fill_file-written temp contents current)
          (laws.write_keeps path temp contents current apart ∙ old)

    IsAtomic-removed :
        (temp path contents : String) (before : ops.Disk) (filled : Bool × ops.Disk)
        → path ≢ temp
        → IsAtomic path contents before filled
        → IsAtomic path contents before (filled.0, ops.remove temp filled.1)
    IsAtomic-removed temp path contents before filled apart k = record {
      done = λ e. laws.remove_keeps path temp filled.1 apart ∙ k.done e;
      failed = λ e. laws.remove_keeps path temp filled.1 apart ∙ k.failed e;
    }

    IsAtomic-through_temp :
        (path contents : String) (before current : ops.Disk)
        → ops.read path current ≡ ops.read path before
        → IsAtomic path contents before (through_temp ops path contents current)
    unfolding through_temp
    IsAtomic-through_temp path contents before current old =
        elim (Option-cases (ops.create_temp path current)) [
          | inl bad ↦ rw (bad, through_temp) (IsAtomic-unchanged path contents before current old)
          | inr ((temp, created), e) ↦
              let (apart, kept) = laws.temp_fresh path temp current created e in
              rw (e, through_temp)
                (IsAtomic-removed temp path contents before _ apart (
                  IsAtomic-fill_temp temp path contents before (ops.change_mode temp created) apart
                    (laws.mode_keeps path temp created apart ∙ kept ∙ old)))
        ]

    -- After atomicWrite the path holds all of the new data where it succeeded, and exactly what it held
    -- before where any call failed. The calls of os do to the paths what they document, and a temporary
    -- path is not the path itself.
    pub IsAtomic-atomic_write :
        (path contents : String) (overwrite : Bool) (disk : ops.Disk)
        → IsAtomic path contents disk (atomic_write ops path contents overwrite disk)
    unfolding atomic_write
    IsAtomic-atomic_write path contents overwrite disk =
        elim (Option-cases (ops.make_dirs path disk)) [
          | inl bad ↦ rw (bad, atomic_write) (IsAtomic-unchanged path contents disk disk refl)
          | inr (made, e) ↦
              let kept = laws.dirs_keep path path disk made e in
              elim (Bool-cases (not overwrite && ops.exists path made)) [
                | inl there ↦
                    rw (e, there, atomic_write) (IsAtomic-unchanged path contents disk made kept)
                | inr free ↦
                    rw (e, free, atomic_write) (IsAtomic-through_temp path contents disk made kept)
              ]
        ]
