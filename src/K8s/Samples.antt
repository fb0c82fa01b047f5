-- ===== src/K8s/Samples.antt =====
-- pkg/k8smanifest/render.go on the sample contract.
use claim2kernel.Base.{String, contains, lookup, refl, some, ℕ}
use claim2kernel.Base.Int.{pos, ◌+ℤ◌, ◌-ℤ◌}
use claim2kernel.Base.Text.{codes}
use claim2kernel.Contract.Types.{KernelProfile, KernelRequest, SignatureEnvelope}
use claim2kernel.Float64.{absf, dyadic, f0, f1, is_inf, is_nan, lef, ltf, maxf, ◌*f◌, ◌-f◌}
use claim2kernel.K8s.{Manifest, RenderOptions, name_with_suffix, render}
use claim2kernel.K8s.Names.{IsNamed, name_with_suffix-IsNamed}
use claim2kernel.K8s.Rendered.{IsRendered, render-IsRendered}
use claim2kernel.Launcher.Samples.{sample_crypto, sample_envelope}
use claim2kernel.Launcher.Samples.Signatures.{sample_files}
use claim2kernel.Planner.Samples.{sample_env, sample_profile, sample_request}

abbrev pinned_image : String
pinned_image =
    "registry/c2k@sha256:0000000000000000000000000000000000000000000000000000000000000000"

abbrev pinned_profile : KernelProfile
pinned_profile = record sample_profile {
  spec = record sample_profile.spec {
    artifact = record sample_profile.spec.artifact { container_digest = pinned_image };
  };
}

abbrev sample_render : RenderOptions
sample_render = record {
  namespace = "";
  job_name = "job";
  image = pinned_image;
  queue_name = "";
  artifact_root = "";
  dra_request_name = "";
  dra_driver_name = "gpu.nvidia.com";
  profile = some pinned_profile;
  request = some sample_request;
  signature = some sample_envelope;
  public_key_pem = "pem";
  runtime_public_key_path = "";
  now = some (pos 600);
}

abbrev sample_bytes : KernelProfile → KernelRequest → SignatureEnvelope → ℕ
sample_bytes p r e = 100

abbrev sample_manifest : Manifest
sample_manifest = record {
  namespace = "default";
  job_name = "job";
  image = pinned_image;
  queue_name = "default";
  config_name = codes "job-contract-000000000000";
  claim_name = codes "job-device-000000000000";
  request_name = "gpu";
  device_class = "gpu.nvidia.com";
  device_count = pos 1;
  profile_label = "kernel-a";
  contract_label = codes "0000000000000000";
  artifact_root = "/opt/c2k";
  metadata_path =
      codes
        "/var/run/kubernetes.io/dra-device-attributes/resourceclaimtemplates/accelerator/gpu/gpu.nvidia.com-metadata.json";
  public_key_path = "/etc/claim2kernel-trust/public.pem";
}

render-IsRendered_example :
    IsRendered sample_env sample_crypto sample_files
      (pos 0)
      sample_bytes
      sample_render
      sample_manifest
unfolding render is_nan dyadic is_inf ltf ◌*f◌ maxf f1 absf lookup contains lef f0 ◌-f◌ ◌+ℤ◌ ◌-ℤ◌
render-IsRendered_example =
    render-IsRendered sample_env sample_crypto sample_files (pos 0) sample_bytes sample_render
      sample_manifest refl

name_with_suffix-IsNamed_example :
    IsNamed (codes "job-") (codes "contract-0") (codes "job-contract-0")
unfolding name_with_suffix
name_with_suffix-IsNamed_example =
    name_with_suffix-IsNamed (codes "job-") (codes "contract-0") (codes "job-contract-0") refl
