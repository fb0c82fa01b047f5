-- ===== src/K8s/Built.antt =====
-- What the guards of Render in pkg/k8smanifest/render.go leave of the options.
use claim2kernel.Base.{
  ==-true, Bool, List, Option, Option-cases, arith, false, if◌then◌else◌, inl, inr, length, none,
  not, not-false, refl, some, subst, sym, take, true, ℕ, ◌&&◌, ◌++◌, ◌∙◌, ◌≡◌, ◌≤◌,
}
use claim2kernel.Base.Text.{codes}
use claim2kernel.Contract.Types.{KernelProfile, Seal}
use claim2kernel.K8s.{
  Manifest, RenderError, RenderOptions, Rendering, bad_driver, bad_key_path, build_manifest,
  check_options, digest_hex, has_infix, image_differs, image_unpinned, is_label, is_subdomain,
  key_path_ok, manifest_of, name_with_suffix, no_container_digest, not_a_label, payload_too_large,
  with_path,
}
use claim2kernel.K8s.Names.{name_with_suffix-IsNamed}

pub guard_passed :
    (b : Bool) (err : RenderError) (rest : Rendering) (m : Manifest)
    → (if b then some (inl err) else rest) ≡ some (inr m)
    → (b ≡ false) × (rest ≡ some (inr m))
guard_passed true err rest m h = absurd (cc (h))
guard_passed false err rest m h = (refl, h)

-- The options that a manifest is built of.
pub record IsBuilt (o : RenderOptions) (p : KernelProfile) (m : Manifest) : Type 0 where
  pub image : m.image ≡ p.spec.artifact.container_digest
  pub pinned : has_infix (codes "@sha256:") (codes m.image) ≡ true
  pub labels :
      (is_label m.namespace ≡ true)
      × (is_label m.job_name ≡ true)
      × (is_label m.queue_name ≡ true)
      × (is_label m.request_name ≡ true)
  pub key_path : key_path_ok (codes m.public_key_path) ≡ true
  pub driver : is_subdomain o.dra_driver_name ≡ true
  pub config_name : length m.config_name ≤ 63
  pub claim_name : length m.claim_name ≤ 63
  pub device_class : m.device_class ≡ p.spec.target.device_class
  pub device_count : m.device_count ≡ p.spec.resources.device_count

-- What the names and the path leave of the options.
record Passes (o : RenderOptions) (p : KernelProfile) (m : Manifest) : Type 0 where
  pub namespace : m.namespace ≡ o.namespace
  pub job_name : m.job_name ≡ o.job_name
  pub image : m.image ≡ o.image
  pub queue_name : m.queue_name ≡ o.queue_name
  pub request_name : m.request_name ≡ o.dra_request_name
  pub key_path : m.public_key_path ≡ o.runtime_public_key_path
  pub config_name : length m.config_name ≤ 63
  pub claim_name : length m.claim_name ≤ 63
  pub device_class : m.device_class ≡ p.spec.target.device_class
  pub device_count : m.device_count ≡ p.spec.resources.device_count

with_path-made :
    (path : Option (List ℕ)) (make : List ℕ → Manifest) (m : Manifest)
    → with_path path make ≡ some (inr m)
    → (q : List ℕ) × (make q ≡ m)
with_path-made none make m h = absurd (cc (h))
with_path-made (some q) make m h = (q, cc (h))

build_manifest-Passes :
    (o : RenderOptions) (p : KernelProfile) (s : Seal) (m : Manifest)
    → build_manifest o p s ≡ some (inr m)
    → Passes o p m
unfolding build_manifest manifest_of
build_manifest-Passes o p s m h =
    let hex = take 12 (digest_hex s.contract_digest) in
    elim (Option-cases (name_with_suffix (codes o.job_name) (codes "contract-" ++ hex))) [
      | inl bad ↦ absurd (cc (rw (bad, build_manifest) at h))
      | inr (config, a) ↦
          elim (Option-cases (name_with_suffix (codes o.job_name) (codes "device-" ++ hex))) [
            | inl bad ↦ absurd (cc (rw (a, bad, build_manifest) at h))
            | inr (claim, b) ↦
                let (q, made) =
                  with_path-made _ (manifest_of o p s config claim) m
                    (rw (a, b, build_manifest) at h) in
                subst (Passes o p) made (record {
                  namespace = refl;
                  job_name = refl;
                  image = refl;
                  queue_name = refl;
                  request_name = refl;
                  key_path = refl;
                  config_name =
                      (name_with_suffix-IsNamed (codes o.job_name) (codes "contract-" ++ hex) config
                        a).bounded;
                  claim_name =
                      (name_with_suffix-IsNamed (codes o.job_name) (codes "device-" ++ hex) claim
                        b).bounded;
                  device_class = refl;
                  device_count = refl;
                })
          ]
    ]

four_true :
    (a b c d : Bool)
    → not (a && b && c && d) ≡ false
    → (a ≡ true) × (b ≡ true) × (c ≡ true) × (d ≡ true)
four_true a b c d h = ground arith

pub check_options-IsBuilt :
    (o : RenderOptions) (p : KernelProfile) (s : Seal) (bytes : ℕ) (m : Manifest)
    → check_options o p s bytes ≡ some (inr m)
    → IsBuilt o p m
unfolding check_options
check_options-IsBuilt o p s bytes m h =
    let (a, h₁) = guard_passed _ bad_key_path _ m h in
    let (b, h₂) = guard_passed _ not_a_label _ m h₁ in
    let (c, h₃) = guard_passed _ image_unpinned _ m h₂ in
    let (_, h₄) = guard_passed _ no_container_digest _ m h₃ in
    let (d, h₅) = guard_passed _ image_differs _ m h₄ in
    let (e, h₆) = guard_passed _ bad_driver _ m h₅ in
    let (_, h₇) = guard_passed _ payload_too_large _ m h₆ in
    let k = build_manifest-Passes o p s m h₇ in
    let (n, j, q, r) =
      four_true (is_label o.namespace) (is_label o.job_name) (is_label o.queue_name)
        (is_label o.dra_request_name) b in
    record {
      image = k.image ∙ ==-true o.image _ (not-false _ d);
      pinned =
          subst (λ x. has_infix (codes "@sha256:") (codes x) ≡ true) (sym k.image) (not-false _ c);
      labels = (
        subst (λ x. is_label x ≡ true) (sym k.namespace) n,
        subst (λ x. is_label x ≡ true) (sym k.job_name) j,
        subst (λ x. is_label x ≡ true) (sym k.queue_name) q,
        subst (λ x. is_label x ≡ true) (sym k.request_name) r,
      );
      key_path = subst (λ x. key_path_ok (codes x) ≡ true) (sym k.key_path) (not-false _ a);
      driver = not-false _ e;
      config_name = k.config_name;
      claim_name = k.claim_name;
      device_class = k.device_class;
      device_count = k.device_count;
    }
