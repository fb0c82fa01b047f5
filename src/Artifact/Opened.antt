-- ===== src/Artifact/Opened.antt =====
-- What Stage of pkg/artifact/artifact.go has opened.
use claim2kernel.Artifact.{
  FileInfo, FilePath, OpenFile, Os, group_writable, is_executable, is_shared_writable, join_path,
  leads_out, not_executable, not_regular, open_artifact, open_below, open_relative, open_resolved,
  resolve_root, stat_error, within,
}
use claim2kernel.Base.{
  Bool, Bool-cases, Option, Option-cases, ap, else_of_none, false, inl, inr, none, not-false, refl,
  some, true, ||-eq-false, ◌||◌, ◌∙◌, ◌≡◌,
}
use claim2kernel.Base.Text.{codes, same_text}
use claim2kernel.Contract.Paths.{clean, is_abs}
use claim2kernel.Contract.Types.{ArtifactSpec}

module _ (os : Os) where
  -- The artifact that was opened: a path that resolves inside the root.
  pub record IsOpened (root : FilePath) (spec : ArtifactSpec) (disk : os.Disk) (f : OpenFile)
      : Type 0 where
    pub real : FilePath
    pub rooted : resolve_root os disk root ≡ some real
    pub relative : is_abs (codes spec.path) ≡ false
    pub inward : leads_out (clean (codes spec.path)) ≡ false
    pub resolved : FilePath
    pub followed : os.eval_symlinks disk (join_path real (clean (codes spec.path))) ≡ some resolved
    pub inside : within os real resolved ≡ true
    pub opened : os.open_file disk resolved ≡ some f

  -- The opened file as its Stat describes it.
  pub record IsFit (spec : ArtifactSpec) (f : OpenFile) : Type 0 where
    pub info : FileInfo
    pub described : f.stat ≡ some info
    pub regular : info.is_regular ≡ true
    pub executable : is_executable info.perm ≡ true
    pub unshared : is_shared_writable info.perm ≡ false

  open_resolved-file :
      (disk : os.Disk) (real : FilePath) (o : Option FilePath) (f : OpenFile)
      → open_resolved os disk real o ≡ inr f
      → (p : FilePath) × (o ≡ some p) × (within os real p ≡ true) × (os.open_file disk p ≡ some f)
  unfolding open_resolved
  open_resolved-file disk real none f h = absurd (cc (h))
  open_resolved-file disk real (some p) f h = elim (Bool-cases (within os real p)) [
    | inr bad ↦ absurd (cc (rw (bad, open_resolved) at h))
    | inl inside ↦ elim (Option-cases (os.open_file disk p)) [
      | inl bad ↦ absurd (cc (rw (inside, bad, open_resolved) at h))
      | inr (g, found) ↦
          let same : g ≡ f = cc (rw (inside, found, open_resolved) at h) in
          (p, refl, inside, found ∙ ap some same)
    ]
  ]

  open_below-file :
      (disk : os.Disk) (real cleaned : FilePath) (f : OpenFile)
      → open_below os disk real cleaned ≡ inr f
      → (leads_out cleaned ≡ false)
        × (open_resolved os disk real (os.eval_symlinks disk (join_path real cleaned)) ≡ inr f)
  unfolding open_below
  open_below-file disk real cleaned f h =
      elim (Bool-cases (same_text cleaned (codes ".") || leads_out cleaned)) [
        | inl bad ↦ absurd (cc (rw (bad, open_below) at h))
        | inr inward ↦ ((||-eq-false _ _ inward).1, rw (inward, open_below) at h)
      ]

  open_relative-file :
      (disk : os.Disk) (real cleaned : FilePath) (absolute : Bool) (f : OpenFile)
      → open_relative os disk real absolute cleaned ≡ inr f
      → (absolute ≡ false) × (open_below os disk real cleaned ≡ inr f)
  unfolding open_relative
  open_relative-file disk real cleaned true f h = absurd (cc (h))
  open_relative-file disk real cleaned false f h = (refl, h)

  pub open_artifact-IsOpened :
      (root : FilePath) (spec : ArtifactSpec) (disk : os.Disk) (f : OpenFile)
      → open_artifact os disk root (codes spec.path) ≡ inr f
      → IsOpened root spec disk f
  unfolding open_artifact
  open_artifact-IsOpened root spec disk f h =
      let cleaned = clean (codes spec.path) in
      elim (Option-cases (resolve_root os disk root)) [
        | inl bad ↦ absurd (cc (rw (bad, open_artifact) at h))
        | inr (real, rooted) ↦
            let (relative, opening) =
              open_relative-file disk real cleaned (is_abs (codes spec.path)) f
                (rw (rooted, open_artifact) at h) in
            let (inward, found) = open_below-file disk real cleaned f opening in
            let (p, followed, inside, opened) = open_resolved-file disk real _ f found in
            record {
              real = real;
              rooted = rooted;
              relative = relative;
              inward = inward;
              resolved = p;
              followed = followed;
              inside = inside;
              opened = opened;
            }
      ]

  pub stat_error-IsFit :
      (spec : ArtifactSpec) (f : OpenFile) → stat_error os spec f.stat ≡ none → IsFit spec f
  unfolding stat_error
  stat_error-IsFit spec f h = elim (Option-cases f.stat) [
    | inl gone ↦ absurd (cc (rw (gone, stat_error) at h))
    | inr (info, found) ↦
        let (a, h₁) = else_of_none _ not_regular _ (rw (found, stat_error) at h) in
        let (b, h₂) = else_of_none _ not_executable _ h₁ in
        let (c, _) = else_of_none _ group_writable _ h₂ in
        record {
          info = info;
          described = found;
          regular = not-false _ a;
          executable = not-false _ b;
          unshared = c;
        }
  ]
