-- ===== src/Planner/Samples.antt =====
-- A profile, a request and evidence on which pkg/planner/planner.go is run.
mod Decisions
mod Contracts
use claim2kernel.Dra
use claim2kernel.Base.{Map, String, [], lookup, none, some, true, ℕ, ◌∷◌}
use claim2kernel.Base.Int.{pos}
use claim2kernel.Contract.Digest.{contract_digest, model_digest}
use claim2kernel.Contract.Env.{Env, Time}
use claim2kernel.Contract.Types.{
  InputDomain, KernelCatalog, KernelProfile, KernelRequest, LatencyCertificate, ObjectMeta,
  OodCertificate, ProfileSpec, api_version_v1alpha1, catalog_kind, profile_kind, request_kind,
}
use claim2kernel.Contract.Value.{kind, number_value}
use claim2kernel.Dra.{Device, DeviceMetadata, api_version, metadata_kind}
use claim2kernel.Float64.{Float64, dyadic, f0}
use claim2kernel.Planner.{Decision, RuntimeEvidence}
use claim2kernel.Planner.Evaluate.{evaluate, or_given}
use claim2kernel.Planner.Select.{zero_decision}

abbrev pub zero_hash : String
zero_hash = "0000000000000000000000000000000000000000000000000000000000000000"

abbrev pub zero_digest : String
zero_digest = "sha256:0000000000000000000000000000000000000000000000000000000000000000"

abbrev pub times : Map Time
times = ("created", pos 0) ∷ ("sealed", pos 60) ∷ ("expires", pos 1000000000000) ∷ []

abbrev pub sample_env : Env
sample_env = record {
  parse_time = λ s. lookup times s;
  format_time = λ t. "sealed";
  marshal_profile = λ p. some "profile";
  marshal_model = λ m. some "model";
  marshal_signature = λ s. some "signature";
  sha256_hex = λ s. zero_hash;
}

abbrev pub half : Float64
half = dyadic 1 1

abbrev pub of : ℕ → Float64
of n = dyadic n 0

abbrev pub meta : String → ObjectMeta
meta name = record {
  name = name;
  uid = "";
  version = "1";
  created_at = "created";
  expires_at = "expires";
}

abbrev pub sample_domain : InputDomain
sample_domain = record {
  features =
      (
        "rows",
        record {
          kind = "integer";
          required = true;
          minimum = some (of 1);
          maximum = some (of 64);
          categories = [];
          ood_feature = true;
        },
      )
      ∷ [];
  relations = record { left = "rows"; op = "<="; right = "rows" } ∷ [];
}

abbrev pub sample_latency : LatencyCertificate
sample_latency = record {
  method = "split-conformal";
  quantile = half;
  confidence = half;
  residual_upper_us = of 2;
  io_budget_us = of 1;
  runtime_jitter_us = of 1;
  calibration_sample_count = pos 10;
  test_sample_count = pos 10;
  observed_coverage = half;
  model = record {
    intercept_us = of 5;
    coefficients = ("input.rows", of 2) ∷ [];
    feature_order = "input.rows" ∷ [];
    ridge_lambda = f0;
  };
  calibrated_at = "created";
  max_age_seconds = pos 1000;
}

abbrev pub sample_ood : OodCertificate
sample_ood = record {
  method = "mahalanobis-conformal";
  required = true;
  features = "input.rows" ∷ [];
  mean = of 8 ∷ [];
  inverse_covariance = (half ∷ []) ∷ [];
  threshold = of 4;
  coverage = half;
  calibration_sample_count = pos 10;
  observed_test_inlier_rate = half;
  regularization = half;
}

abbrev pub sample_spec : ProfileSpec
sample_spec = record {
  artifact = record {
    path = "bin/kernel";
    digest = zero_digest;
    size_bytes = pos 10;
    max_bytes = pos 20;
    protocol = "stdin-json-v1";
    default_args = "--fast" ∷ [];
    container_digest = "";
  };
  target = record {
    backend = "cuda";
    vendor = "nvidia";
    architecture = "sm80";
    device_class = "gpu.nvidia.com";
  };
  input_domain = sample_domain;
  precision = record { storage = "fp32"; accumulation = "fp32" };
  resources = record { device_count = pos 1; min_memory_bytes = pos 0; counters = [] };
  numerical = record {
    metric = "max-abs";
    upper_bound = half;
    observed_max = half;
    test_sample_count = pos 10;
  };
  latency = sample_latency;
  interference = record { metrics = ("load", record { minimum = f0; maximum = of 1 }) ∷ [] };
  versions = ("driver", ">=1.0.0,<2.0.0") ∷ [];
  device_assertions =
      record { attribute = "memory"; op = "gte"; value = number_value (of 16) } ∷ [];
  ood = sample_ood;
  policy = record { fail_closed = true; fallback_profiles = [] };
  provenance = record {
    compiler = "nvcc";
    compiler_digest = "";
    source_digest = zero_digest;
    dataset_digest = zero_digest;
    git_commit = "";
    notes = "";
  };
}

abbrev pub sample_profile : KernelProfile
sample_profile = record {
  api_version = api_version_v1alpha1;
  kind = profile_kind;
  metadata = meta "kernel-a";
  spec = sample_spec;
  seal =
      some (record {
        contract_digest = zero_digest;
        model_digest = zero_digest;
        sealed_at = "sealed";
      });
}

abbrev pub sample_request : KernelRequest
sample_request = record {
  api_version = api_version_v1alpha1;
  kind = request_kind;
  metadata = meta "request-a";
  spec = record {
    deadline_us = of 100;
    safety_margin_us = of 10;
    max_numerical_error = of 1;
    inputs = ("rows", number_value (of 8)) ∷ [];
    interference = ("load", half) ∷ [];
    versions = ("driver", "1.5.0") ∷ [];
    required_profile = "kernel-a";
  };
}

abbrev pub gpu : Device
gpu = record {
  driver = "gpu.nvidia.com";
  pool = "node";
  name = "gpu-0";
  attributes =
      (
        "memory",
        record {
          int = some (pos 40);
          bool = none;
          string = none;
          version = none;
          ints = none;
          bools = none;
          strings = none;
          versions = none;
        },
      )
      ∷ [];
  network_data = "";
}

abbrev pub sample_metadata : DeviceMetadata
sample_metadata = record {
  api_version = claim2kernel.Dra.api_version;
  kind = metadata_kind;
  metadata = record { name = "claim"; namespace = "default"; uid = ""; generation = pos 1 };
  pod_claim_name = none;
  requests = record { name = "gpu"; devices = gpu ∷ [] } ∷ [];
}

abbrev pub sample_evidence : RuntimeEvidence
sample_evidence = record {
  now = some (pos 600);
  interference = none;
  versions = none;
  metadata = some sample_metadata;
  dra_request_name = "";
}

abbrev pub slow_profile : KernelProfile
slow_profile = record sample_profile {
  spec = record sample_spec { latency = record sample_latency { residual_upper_us = of 40 } };
}

abbrev pub sample_catalog : KernelCatalog
sample_catalog = record {
  api_version = api_version_v1alpha1;
  kind = catalog_kind;
  metadata = meta "catalog";
  profiles = slow_profile ∷ sample_profile ∷ [];
}

abbrev pub sample_decision : Decision
sample_decision =
    or_given
      (evaluate sample_env (pos 0) (some sample_profile) (some sample_request) "runtime"
        sample_evidence)
      zero_decision
