-- ===== src/K8s.antt =====
-- pkg/k8smanifest/render.go: the manifest of a signed workload. What varies in the rendered objects is
-- a record; the rest of them is a fixed template. Nothing is returned where the Go code panics.
pub mod Names
pub mod Built
pub mod Rendered
mod Samples
use mathlib.Core.List.{reverse}
use claim2kernel.Base.{
  Bool, Bytes, List, Option, String, [], if◌then◌else◌, inl, inr, is_some, leb, length, ltb, nat_eq,
  none, not, some, take, true, ℕ, ◌&&◌, ◌*◌, ◌++◌, ◌-◌, ◌==◌, ◌||◌, ◌∷◌, ◌⊎◌,
}
use claim2kernel.Base.Int.{ℤ}
use claim2kernel.Base.Maybe.{◌>>=◌}
use claim2kernel.Base.Text.{codes, strip_prefix}
use claim2kernel.Contract.Checks.{has_char, valid_name, valid_subdomain}
use claim2kernel.Contract.Digest.{contract_digest}
use claim2kernel.Contract.Env.{Env, Time, minutes}
use claim2kernel.Contract.Paths.{is_abs}
use claim2kernel.Contract.Signature.{
  Crypto, SignatureError, validate_signature_envelope, verify_profile_signature,
}
use claim2kernel.Contract.Signature.Pem.{KeyError, KeyFiles, parse_public_key_pem}
use claim2kernel.Contract.Types.{KernelProfile, KernelRequest, Seal, SignatureEnvelope}
use claim2kernel.Contract.Validate.{validate_profile}
use claim2kernel.Contract.Validate.Issues.{Issue}
use claim2kernel.Contract.Validate.Request.{validate_request}
use claim2kernel.Dra.MetadataPath.{metadata_path_for_template}
use claim2kernel.Planner.Evaluate.{or_given}

pub record RenderOptions : Type 0 where
  pub namespace : String
  pub job_name : String
  pub image : String
  pub queue_name : String
  pub artifact_root : String
  pub dra_request_name : String
  pub dra_driver_name : String
  pub profile : Option KernelProfile
  pub request : Option KernelRequest
  pub signature : Option SignatureEnvelope
  pub public_key_pem : String
  pub runtime_public_key_path : String
  pub now : Option Time  -- none is the zero time

pub data RenderError : Type 0 where
  inputs_missing : RenderError
  profile_refused request_refused envelope_refused : List Issue → RenderError
  key_unparsed : KeyError → RenderError
  unverified : SignatureError → RenderError
  bad_key_path not_a_label image_unpinned no_container_digest image_differs bad_driver : RenderError
  payload_too_large unsafe_path : RenderError

-- What the ConfigMap, the ResourceClaimTemplate and the Job are made of.
pub record Manifest : Type 0 where
  pub namespace : String
  pub job_name : String
  pub image : String
  pub queue_name : String
  pub config_name : List ℕ
  pub claim_name : List ℕ
  pub request_name : String
  pub device_class : String
  pub device_count : ℤ
  pub profile_label : String
  pub contract_label : List ℕ
  pub artifact_root : String
  pub metadata_path : List ℕ
  pub public_key_path : String

unfoldable pub drop_dashes : List ℕ → List ℕ
drop_dashes [] = []
drop_dashes (c ∷ s) = let rest = drop_dashes s in if nat_eq c b'-' then rest else c ∷ s

-- strings.Trim(s, "-")
unfoldable pub trim_dashes : List ℕ → List ℕ
unfolding drop_dashes
trim_dashes s = reverse (drop_dashes (reverse (drop_dashes s)))

-- nameWithSuffix; nothing where `suffix[:63]` is out of range
unfoldable pub name_with_suffix : List ℕ → List ℕ → Option (List ℕ)
unfolding trim_dashes take
name_with_suffix base suffix =
    let short = trim_dashes suffix in
    if leb 62 (length short)
    then (if leb 63 (length short) then some (take 63 short) else none)
    else some (trim_dashes (take (62 - length short) base) ++ (codes "-" ++ short))

-- validName and validSubdomain, the same tests as those of pkg/contract
abbrev pub is_label : String → Bool
is_label s = valid_name (codes s)

abbrev pub is_subdomain : String → Bool
is_subdomain s = valid_subdomain (codes s)

-- strings.Contains
unfoldable pub has_infix : List ℕ → List ℕ → Bool
unfolding strip_prefix
has_infix p [] = is_some (strip_prefix p [])
has_infix p (c ∷ s) = is_some (strip_prefix p (c ∷ s)) || has_infix p s

abbrev pub text_or : String → String → String
text_or s default = if s == "" then default else s

-- The options with their defaults.
unfoldable pub with_defaults : RenderOptions → RenderOptions
with_defaults o = record o {
  namespace = text_or o.namespace "default";
  queue_name = text_or o.queue_name "default";
  artifact_root = text_or o.artifact_root "/opt/c2k";
  dra_request_name = text_or o.dra_request_name "gpu";
  runtime_public_key_path = text_or o.runtime_public_key_path "/etc/claim2kernel-trust/public.pem";
}

unfoldable pub key_path_ok : List ℕ → Bool
unfolding has_char has_infix
key_path_ok s = is_abs s && not (has_char 0 s) && not (has_infix (codes "..") s)

-- The hexadecimal part of a digest.
unfoldable pub digest_hex : String → List ℕ
unfolding strip_prefix
digest_hex d = elim (strip_prefix (codes "sha256:") (codes d)) [ none ↦ codes d | some hex ↦ hex ]

abbrev pub Rendering : Type 0
Rendering = Option (RenderError ⊎ Manifest)

unfoldable pub manifest_of :
    RenderOptions → KernelProfile → Seal → List ℕ → List ℕ → List ℕ → Manifest
unfolding digest_hex take
manifest_of o p s config claim path = record {
  namespace = o.namespace;
  job_name = o.job_name;
  image = o.image;
  queue_name = o.queue_name;
  config_name = config;
  claim_name = claim;
  request_name = o.dra_request_name;
  device_class = p.spec.target.device_class;
  device_count = p.spec.resources.device_count;
  profile_label = p.metadata.name;
  contract_label = take 16 (digest_hex s.contract_digest);
  artifact_root = o.artifact_root;
  metadata_path = path;
  public_key_path = o.runtime_public_key_path;
}

abbrev pub with_path : Option (List ℕ) → (List ℕ → Manifest) → Rendering
with_path none make = some (inl unsafe_path)
with_path (some path) make = some (inr (make path))

-- The names and the path; the digest of a validated seal is long enough for the slices.
unfoldable pub build_manifest : RenderOptions → KernelProfile → Seal → Rendering
unfolding name_with_suffix digest_hex take metadata_path_for_template manifest_of
build_manifest o p s = do
  config ←
      name_with_suffix (codes o.job_name)
        (codes "contract-" ++ take 12 (digest_hex s.contract_digest))
  claim ←
      name_with_suffix (codes o.job_name)
        (codes "device-" ++ take 12 (digest_hex s.contract_digest))
  with_path
      (metadata_path_for_template (codes "accelerator") (codes o.dra_request_name)
        (codes o.dra_driver_name))
      (manifest_of o p s config claim)

-- The guards behind the signature, with `bytes` the length of the three JSON texts. Which of the labels
-- an error cites depends on the order of a map.
unfoldable pub check_options : RenderOptions → KernelProfile → Seal → ℕ → Rendering
unfolding key_path_ok valid_name has_infix valid_subdomain build_manifest
check_options o p s bytes =
    if not (key_path_ok (codes o.runtime_public_key_path))
    then some (inl bad_key_path)
    else if not (
        is_label o.namespace
        && is_label o.job_name
        && is_label o.queue_name
        && is_label o.dra_request_name)
    then some (inl not_a_label)
    else if not (has_infix (codes "@sha256:") (codes o.image))
    then some (inl image_unpinned)
    else if p.spec.artifact.container_digest == ""
    then some (inl no_container_digest)
    else if not (o.image == p.spec.artifact.container_digest)
    then some (inl image_differs)
    else if not (is_subdomain o.dra_driver_name)
    then some (inl bad_driver)
    else if ltb (900 * 1024) bytes
    then some (inl payload_too_large)
    else build_manifest o p s

module _ (env : Env) (crypto : Crypto) (files : KeyFiles) (clock : Time)
    (payload_bytes : KernelProfile → KernelRequest → SignatureEnvelope → ℕ) where
  unfoldable pub render_verified :
      RenderOptions
      → KernelProfile
      → KernelRequest
      → SignatureEnvelope
      → Option SignatureError
      → Rendering
  unfolding check_options with_defaults
  render_verified o p r e (some err) = some (inl (unverified err))
  render_verified o p r e none = do
    s ← p.seal
    check_options (with_defaults o) p s (payload_bytes p r e)

  unfoldable pub render_keyed :
      RenderOptions
      → KernelProfile
      → KernelRequest
      → SignatureEnvelope
      → KeyError ⊎ Bytes
      → Rendering
  unfolding render_verified verify_profile_signature
  render_keyed o p r e (inl err) = some (inl (key_unparsed err))
  render_keyed o p r e (inr key) = do
    verdict ←
        verify_profile_signature env crypto (some p) (some e) key (or_given o.now clock) (minutes 5)
    render_verified o p r e verdict

  unfoldable pub render_validated :
      RenderOptions → KernelProfile → KernelRequest → SignatureEnvelope → List Issue → Rendering
  unfolding render_keyed validate_request validate_signature_envelope parse_public_key_pem
  render_validated o p r e (i ∷ issues) = some (inl (profile_refused (i ∷ issues)))
  render_validated o p r e [] = elim (validate_request (some r)) [
    | i ∷ issues ↦ some (inl (request_refused (i ∷ issues)))
    | [] ↦ elim (validate_signature_envelope env crypto (some e)) [
      | i ∷ issues ↦ some (inl (envelope_refused (i ∷ issues)))
      | [] ↦ render_keyed o p r e (parse_public_key_pem files o.public_key_pem)
    ]
  ]

  unfoldable pub render_inputs :
      RenderOptions
      → Option KernelProfile
      → Option KernelRequest
      → Option SignatureEnvelope
      → Rendering
  unfolding render_validated validate_profile
  render_inputs o (some p) (some r) (some e) =
      if o.public_key_pem == ""
      then some (inl inputs_missing)
      else do issues ← validate_profile env (some p) true; render_validated o p r e issues
  render_inputs o _ _ _ = some (inl inputs_missing)

  -- Render, without the encoding of the objects
  unfoldable pub render : RenderOptions → Rendering
  unfolding render_inputs
  render o = render_inputs o o.profile o.request o.signature
