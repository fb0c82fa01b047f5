-- ===== src/Launcher/Samples/Launches.antt =====
-- pkg/launcher/launcher.go and pkg/artifact/artifact.go on the sample launch.
use claim2kernel.Artifact.{FilePath, Staged, stage}
use claim2kernel.Artifact.Cleanup.{IsScratch, Restores, Restores-stage}
use claim2kernel.Artifact.FileDigest.{IsDigest, digest_file, digest_file-IsDigest}
use claim2kernel.Artifact.Sound.{IsStaged, stage_sound}
use claim2kernel.Base.{
  List, [], ap, arith, contains, inr, insert, length, lookup, none, refl, some, sym, ◌*◌, ◌-◌, ◌^◌,
  ◌∙◌, ◌∷◌, ◌≡◌, ◌≤◌,
}
use claim2kernel.Base.Int.{pos}
use claim2kernel.Base.Text.{codes}
use claim2kernel.Float64.{absf, dyadic, f0, f1, is_inf, is_nan, lef, ltf, maxf, ◌*f◌}
use claim2kernel.Launcher.{output_ceiling, run, zero_result}
use claim2kernel.Launcher.Buffer.{Holds, Holds-write_all, new_buffer, write_all}
use claim2kernel.Launcher.Certified.{IsCertified, run-IsCertified}
use claim2kernel.Launcher.Limits.{IsChunked, IsCompleted, run-IsCompleted, run-bounded}
use claim2kernel.Launcher.Restored.{run-restores}
use claim2kernel.Launcher.Samples.{
  Scratches, sample_crypto, sample_marshal, sample_options, sample_os, sample_result, sample_run,
  with_file, without_newest,
}
use claim2kernel.Planner.Samples.{sample_env, sample_profile, zero_digest}
use claim2kernel.Planner.Select.{zero_decision}

sample_launch :
    run sample_env sample_crypto sample_os (pos 0) sample_marshal sample_run sample_options []
    ≡ some ((sample_result, none), [])
unfolding run is_nan dyadic is_inf ltf ◌*f◌ maxf f1 absf lookup contains lef f0 insert
sample_launch = refl

abbrev sample_staged : Staged
sample_staged = record {
  path = codes "/tmp/c2k-stage-1/kernel";
  size = pos 10;
  digest = zero_digest;
  dir = codes "/tmp/c2k-stage-1";
}

abbrev staged_disk : Scratches
staged_disk = (codes "/tmp/c2k-stage-1/kernel" ∷ []) ∷ []

stage_sound_example :
    IsStaged sample_os (codes "/opt/c2k") sample_profile.spec.artifact [] sample_staged staged_disk
unfolding stage
stage_sound_example =
    stage_sound sample_os (codes "/opt/c2k") sample_profile.spec.artifact [] staged_disk
      sample_staged refl refl

-- The disk has one scratch directory more.
abbrev OneMore : FilePath → Scratches → Scratches → Type 0
OneMore dir disk now = (files : List FilePath) × (now ≡ files ∷ disk)

with_file-OneMore :
    (path dir : FilePath) (disk now then : Scratches)
    → OneMore dir disk now
    → with_file path now ≡ some then
    → OneMore dir disk then
with_file-OneMore path dir disk [] then (files, e) h = absurd (cc (h))
with_file-OneMore path dir disk (f ∷ now) then (files, e) h =
    let same : now ≡ disk = cc (e) in
    let made : (path ∷ f) ∷ now ≡ then = cc (h) in
    (path ∷ f, sym made ∙ ap (λ (d : Scratches). (path ∷ f) ∷ d) same)

sample_scratch : IsScratch sample_os OneMore
sample_scratch = record {
  made = λ dir disk now h. ([], cc (h));
  dir_moded = λ dir mode disk now then k h. (k.0, sym (cc (h)) ∙ k.1);
  file_moded = λ dir mode disk now then k h. (k.0, sym (cc (h)) ∙ k.1);
  created = λ dir mode disk now then k h. with_file-OneMore _ dir disk now then k h;
  written = λ dir b disk now k. k;
  removed = λ dir disk now k. ap without_newest k.1;
}

Restores-stage_example :
    Restores sample_os [] (stage sample_os (codes "/opt/c2k") sample_profile.spec.artifact [])
Restores-stage_example =
    Restores-stage sample_os OneMore sample_scratch (codes "/opt/c2k") sample_profile.spec.artifact
      []

digest_file-IsDigest_example : IsDigest sample_os [] (codes "f") (pos 20) zero_digest (pos 10)
unfolding digest_file
digest_file-IsDigest_example =
    digest_file-IsDigest sample_os [] (codes "f") (pos 20) zero_digest (pos 10) refl refl

-- The largest limit reads nothing: the digest is that of no bytes, without an error.
wrapped_limit : digest_file sample_os [] (codes "f") (pos (2 ^ 63 - 1)) ≡ inr (zero_digest, pos 0)
unfolding digest_file
wrapped_limit = refl

Holds-write_all_example :
    Holds (1 ∷ 2 ∷ 3 ∷ []) 2 (write_all ((1 ∷ 2 ∷ []) ∷ (3 ∷ []) ∷ []) (new_buffer (pos 2)))
Holds-write_all_example =
    Holds-write_all ((1 ∷ 2 ∷ []) ∷ (3 ∷ []) ∷ []) 2 (omega arith, (omega arith, tt))

run-IsCertified_example :
    IsCertified sample_env sample_crypto sample_os
      (pos 0)
      sample_marshal
      sample_run
      sample_options
      []
      sample_result
run-IsCertified_example =
    run-IsCertified sample_env sample_crypto sample_os (pos 0) sample_marshal sample_run
      sample_options [] [] sample_result none sample_launch refl

sample_chunks : IsChunked sample_env sample_crypto sample_os (pos 0) sample_marshal sample_run
unfolding IsChunked
sample_chunks = λ c. ((omega arith, (omega arith, tt)), tt)

run-bounded_example :
    (length sample_result.stdout ≤ 64 * 2 ^ 20) × (length sample_result.stderr ≤ 64 * 2 ^ 20)
run-bounded_example =
    run-bounded sample_env sample_crypto sample_os (pos 0) sample_marshal sample_run sample_options
      [] [] sample_result none sample_chunks sample_launch

run-IsCompleted_example :
    IsCompleted sample_env sample_crypto sample_os (pos 0) sample_marshal sample_run sample_result
run-IsCompleted_example =
    run-IsCompleted sample_env sample_crypto sample_os (pos 0) sample_marshal sample_run
      sample_options [] [] sample_result sample_chunks refl sample_launch

sample_disk : Scratches
sample_disk = []

run-restores_example : ◌≡◌ {A = Scratches} [] []
run-restores_example =
    run-restores sample_env sample_crypto sample_os (pos 0) sample_marshal sample_run OneMore
      sample_scratch sample_options [] [] (sample_result, none) sample_launch

-- The ceiling's error carries the zero result, whose exit code is 0.
ceiling_exit_code :
    run sample_env sample_crypto sample_os
      (pos 0)
      sample_marshal
      sample_run
      (record sample_options { max_output_bytes = pos (2 ^ 27) })
      []
    ≡ some ((zero_result zero_decision, some output_ceiling), [])
unfolding run
ceiling_exit_code = refl
