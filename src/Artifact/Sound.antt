-- ===== src/Artifact/Sound.antt =====
-- What Stage of pkg/artifact/artifact.go has staged.
use claim2kernel.Artifact.{
  FilePath, OpenFile, Os, StageError, Staged, abandon, bytes_digest, changed_while_staging,
  close_failed, copy_artifact, copy_error, copy_failed, digest_mismatch, fill_dir, finish_copy,
  join_path, open_artifact, read_limit, stage, stage_opened, stat_error, sync_failed,
}
use claim2kernel.Artifact.Opened.{IsFit, IsOpened, open_artifact-IsOpened, stat_error-IsFit}
use claim2kernel.Base.{
  ==-true, Bool, Bool-cases, Bytes, Option, Option-cases, ap, arith, else_of_none, false, inl, inr,
  length, length-take_le, nat_eq, none, not-false, refl, some, subst, take, take_whole, true,
  ||-eq-false, ℕ, ◌-◌, ◌<◌, ◌^◌, ◌∙◌, ◌≡◌, ◌≤◌, ◌⊎◌,
}
use claim2kernel.Base.Int.{eq_of_parts, eq_ℤ, leb_ℤ, ltb_ℤ, negsuc, pos, ℤ, ◌+ℤ◌}
use claim2kernel.Base.Text.{codes}
use claim2kernel.Contract.Checks.{blank}
use claim2kernel.Contract.Types.{ArtifactSpec}

below_read_limit :
    (max : ℤ) (n : ℕ) → n ≤ read_limit max → 1 ≤ n → ltb_ℤ max (pos n) ≡ false → n < read_limit max
unfolding read_limit ◌+ℤ◌
below_read_limit (negsuc m) n a b c = absurd (ground arith)
below_read_limit (pos m) n a b c = elim (Bool-cases (nat_eq m (2 ^ 63 - 1))) [
  | inl top ↦ absurd (ground arith)
  | inr low ↦ ground arith
]

take-read_limit :
    (max size : ℤ) (bytes : Bytes)
    → ltb_ℤ (pos 0) size ≡ true
    → eq_ℤ (pos (length (take (read_limit max) bytes))) size ≡ true
    → ltb_ℤ max (pos (length (take (read_limit max) bytes))) ≡ false
    → take (read_limit max) bytes ≡ bytes
take-read_limit max size bytes positive same fits = take_whole (read_limit max) bytes (
    below_read_limit max _ (length-take_le (read_limit max) bytes) (ground (arith, positive, same))
      fits)

module _ (os : Os) where
  -- The copy: the directory, its mode, the file created in it, all bytes of the artifact written to it.
  pub record IsCopy (spec : ArtifactSpec) (f : OpenFile) (s : Staged) (disk after : os.Disk)
      : Type 0 where
    pub made : os.Disk
    pub private : os.Disk
    pub blank : os.Disk
    pub full : os.Disk
    pub located : s.path ≡ join_path s.dir (codes "kernel")
    pub scratch : os.make_temp_dir disk ≡ some (s.dir, made)
    pub closed_off : os.change_mode s.dir 0o700 made ≡ some private
    pub created : os.create_exclusive s.path 0o500 private ≡ some blank
    pub written : os.write_file s.path f.bytes blank ≡ (true, full)
    pub executable : os.change_mode s.path 0o500 full ≡ some after
    pub size : s.size ≡ spec.size_bytes
    pub sized : pos (length f.bytes) ≡ spec.size_bytes
    pub bounded : leb_ℤ (pos (length f.bytes)) spec.max_bytes ≡ true
    pub digest : s.digest ≡ spec.digest
    pub digested : bytes_digest os f.bytes ≡ spec.digest

  pub record IsStaged (root : FilePath) (spec : ArtifactSpec) (disk : os.Disk) (s : Staged)
      (after : os.Disk) : Type 0 where
    pub file : OpenFile
    pub opened : IsOpened os root spec disk file
    pub fit : IsFit os spec file
    pub copy : IsCopy spec file s disk after

  copy_error-none :
      (spec : ArtifactSpec) (path : FilePath) (f : OpenFile) (copied : Bytes)
      (written : Bool × os.Disk)
      → copy_error os spec path f copied written ≡ none
      → (written.0 ≡ true)
        × (eq_ℤ (pos (length copied)) spec.size_bytes ≡ true)
        × (ltb_ℤ spec.max_bytes (pos (length copied)) ≡ false)
        × (bytes_digest os copied ≡ spec.digest)
  unfolding copy_error
  copy_error-none spec path f copied (ok, disk) h =
      let (a, h₁) = else_of_none _ copy_failed _ h in
      let (_, h₂) = else_of_none _ sync_failed _ h₁ in
      let (_, h₃) = else_of_none _ close_failed _ h₂ in
      let (d, h₄) = else_of_none _ changed_while_staging _ h₃ in
      let (e, _) = else_of_none _ digest_mismatch _ h₄ in
      let (d₀, d₁) = ||-eq-false _ _ d in
      (
        not-false ok (||-eq-false _ _ a).0,
        not-false _ d₀,
        d₁,
        ==-true (bytes_digest os copied) spec.digest (not-false _ e),
      )

  finish_copy-done :
      (dir path : FilePath) (copied : Bytes) (err : Option StageError) (disk after : os.Disk)
      (s : Staged)
      → finish_copy os dir path copied err disk ≡ (inr s, after)
      → (err ≡ none)
        × (os.change_mode path 0o500 disk ≡ some after)
        × (record {
          path = path;
          size = pos (length copied);
          digest = bytes_digest os copied;
          dir = dir;
        }
            ≡ s)
  unfolding finish_copy abandon
  finish_copy-done dir path copied (some err) disk after s h = absurd (cc (h))
  finish_copy-done dir path copied none disk after s h =
      elim (Option-cases (os.change_mode path 0o500 disk)) [
        | inl bad ↦ absurd (cc (rw (bad, finish_copy, abandon) at h))
        | inr (done, e) ↦
            let moved : done ≡ after = cc (rw (e, finish_copy) at h) in
            (refl, e ∙ ap some moved, cc (rw (e, finish_copy) at h))
      ]

  -- What is known once the file in the directory was filled.
  record IsFilled (spec : ArtifactSpec) (f : OpenFile) (dir path : FilePath) (blank after : os.Disk)
      (s : Staged) : Type 0 where
    pub full : os.Disk
    pub whole : Bytes
    pub cut : whole ≡ f.bytes
    pub written : os.write_file path whole blank ≡ (true, full)
    pub executable : os.change_mode path 0o500 full ≡ some after
    pub sized : eq_ℤ (pos (length whole)) spec.size_bytes ≡ true
    pub bounded : ltb_ℤ spec.max_bytes (pos (length whole)) ≡ false
    pub digested : bytes_digest os whole ≡ spec.digest
    pub result :
        record { path = path; size = pos (length whole); digest = bytes_digest os whole; dir = dir }
        ≡ s

  copy_artifact-IsFilled :
      (spec : ArtifactSpec) (f : OpenFile) (dir path : FilePath) (blank after : os.Disk)
      (s : Staged)
      → ltb_ℤ (pos 0) spec.size_bytes ≡ true
      → copy_artifact os spec f dir path blank ≡ (inr s, after)
      → IsFilled spec f dir path blank after s
  unfolding copy_artifact
  copy_artifact-IsFilled spec f dir path blank after s positive h =
      let copied = take (read_limit spec.max_bytes) f.bytes in
      let written = os.write_file path copied blank in
      let (fine, moded, result) =
        finish_copy-done dir path copied (copy_error os spec path f copied written) written.1 after
          s h in
      let (ok, sized, bounded, digested) = copy_error-none spec path f copied written fine in
      record {
        full = written.1;
        whole = copied;
        cut = take-read_limit spec.max_bytes spec.size_bytes f.bytes positive sized bounded;
        written = λ i. (ok i, written.1);
        executable = moded;
        sized = sized;
        bounded = bounded;
        digested = digested;
        result = result;
      }

  IsCopy-of_filled :
      (spec : ArtifactSpec) (f : OpenFile) (dir : FilePath)
      (disk made private blank after : os.Disk) (s : Staged)
      → os.make_temp_dir disk ≡ some (dir, made)
      → os.change_mode dir 0o700 made ≡ some private
      → os.create_exclusive (join_path dir (codes "kernel")) 0o500 private ≡ some blank
      → IsFilled spec f dir (join_path dir (codes "kernel")) blank after s
      → IsCopy spec f s disk after
  IsCopy-of_filled spec f dir disk made private blank after s a b c k =
      let size : pos (length k.whole) ≡ spec.size_bytes =
        eq_of_parts _ _ (ground (arith, k.sized)) in
      subst (λ x. IsCopy spec f x disk after) k.result
        (record {
          made = made;
          private = private;
          blank = blank;
          full = k.full;
          located = refl;
          scratch = a;
          closed_off = b;
          created = c;
          written =
              subst (λ w. os.write_file (join_path dir (codes "kernel")) w blank ≡ (true, k.full))
                k.cut k.written;
          executable = k.executable;
          size = size;
          sized = subst (λ w. pos (length w) ≡ spec.size_bytes) k.cut size;
          bounded =
              subst (λ w. leb_ℤ (pos (length w)) spec.max_bytes ≡ true) k.cut
                (ground (arith, k.bounded));
          digest = k.digested;
          digested = subst (λ w. bytes_digest os w ≡ spec.digest) k.cut k.digested;
        })

  fill_dir-IsCopy :
      (spec : ArtifactSpec) (f : OpenFile) (dir : FilePath) (disk made after : os.Disk) (s : Staged)
      → ltb_ℤ (pos 0) spec.size_bytes ≡ true
      → os.make_temp_dir disk ≡ some (dir, made)
      → fill_dir os spec f dir made ≡ (inr s, after)
      → IsCopy spec f s disk after
  unfolding fill_dir abandon
  fill_dir-IsCopy spec f dir disk made after s positive e h =
      elim (Option-cases (os.change_mode dir 0o700 made)) [
        | inl bad ↦ absurd (cc (rw (bad, fill_dir, abandon) at h))
        | inr (private, a) ↦
            elim (Option-cases
              (os.create_exclusive (join_path dir (codes "kernel")) 0o500 private)) [
                | inl bad ↦ absurd (cc (rw (a, bad, fill_dir, abandon) at h))
                | inr (blank, b) ↦
                    IsCopy-of_filled spec f dir disk made private blank after s e a b (
                      copy_artifact-IsFilled spec f dir (join_path dir (codes "kernel")) blank after
                        s positive (rw (a, b, fill_dir) at h))
              ]
      ]

  stage_opened-some :
      (spec : ArtifactSpec) (opened : StageError ⊎ OpenFile) (disk after : os.Disk) (s : Staged)
      → ltb_ℤ (pos 0) spec.size_bytes ≡ true
      → stage_opened os spec opened disk ≡ (inr s, after)
      → (f : OpenFile) × (opened ≡ inr f) × IsFit os spec f × IsCopy spec f s disk after
  unfolding stage_opened
  stage_opened-some spec (inl err) disk after s positive h = absurd (cc (h))
  stage_opened-some spec (inr f) disk after s positive h =
      elim (Option-cases (stat_error os spec f.stat)) [
        | inr (err, bad) ↦ absurd (cc (rw (bad, stage_opened) at h))
        | inl fit ↦ elim (Option-cases (os.make_temp_dir disk)) [
          | inl bad ↦ absurd (cc (rw (fit, bad, stage_opened) at h))
          | inr ((dir, made), e) ↦ (
            f,
            refl,
            stat_error-IsFit os spec f fit,
            fill_dir-IsCopy spec f dir disk made after s positive e
                (rw (fit, e, stage_opened) at h),
          )
        ]
      ]

  -- What Stage returns for a positive size was copied from a regular, executable file, not writable by
  -- group or world, that resolves inside the root; the whole of it, of the contract's size, within its
  -- limit and with its digest, was written to a file created in a new private directory.
  pub stage_sound :
      (root : FilePath) (spec : ArtifactSpec) (disk after : os.Disk) (s : Staged)
      → ltb_ℤ (pos 0) spec.size_bytes ≡ true
      → stage os root spec disk ≡ (inr s, after)
      → IsStaged root spec disk s after
  unfolding stage
  stage_sound root spec disk after s positive h =
      let (f, opened, fit, copy) =
        stage_opened-some spec (open_artifact os disk root (codes spec.path)) disk after s positive
          h in
      record {
        file = f;
        opened = open_artifact-IsOpened os root spec disk f opened;
        fit = fit;
        copy = copy;
      }
