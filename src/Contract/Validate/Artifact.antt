-- ===== src/Contract/Validate/Artifact.antt =====
-- validateProfileBase of pkg/contract/validate.go: metadata, artifact and target.
use claim2kernel.Base.{
  Bool, List, Option, String, [], false, if◌then◌else◌, length, ltb, none, not, some, ℕ, ◌&&◌, ◌++◌,
  ◌+◌, ◌==◌, ◌^◌, ◌||◌, ◌∷◌,
}
use claim2kernel.Base.Int.{leb_ℤ, ltb_ℤ, pos}
use claim2kernel.Base.Text.{codes}
use claim2kernel.Contract.Checks.{
  byte_length, digest_ok, has_char, oci_digest_ok, valid_name, valid_subdomain,
}
use claim2kernel.Contract.Env.{Env, Time}
use claim2kernel.Contract.Paths.{escapes}
use claim2kernel.Contract.Types.{
  ArtifactSpec, KernelProfile, TargetSpec, api_version_v1alpha1, profile_kind,
}
use claim2kernel.Contract.Validate.Issues.{
  Issue, arg_has_nul, arg_too_long, args_too_long, bad_api_version, bad_artifact_digest,
  bad_artifact_path, bad_container_digest, bad_device_class, bad_kind, bad_max_bytes, bad_name,
  bad_protocol, bad_size, created_after_expiry, created_invalid, created_required, expires_invalid,
  expires_required, flag, over_ceiling, target_incomplete, too_many_args, version_required,
}

module _ (env : Env) where
  -- What a required time field reads as: nothing and an issue, or the time.
  unfoldable pub time_issues : String → Issue → Issue → List Issue
  time_issues s required invalid =
      if s == ""
      then required ∷ []
      else elim (env.parse_time s) [ none ↦ invalid ∷ [] | some t ↦ [] ]

  unfoldable pub read_time : String → Option Time
  read_time s = if s == "" then none else env.parse_time s

  -- Whether both times were read and the first is not before the second.
  unfoldable pub not_before : Option Time → Option Time → Bool
  not_before (some a) (some b) = not (ltb_ℤ a b)
  not_before _ _ = false

  unfoldable pub header_issues : KernelProfile → List Issue
  unfolding time_issues read_time not_before
  header_issues p =
      flag (not (p.api_version == api_version_v1alpha1)) bad_api_version
      ++ (flag (not (p.kind == profile_kind)) bad_kind
          ++ (flag (not (valid_name (codes p.metadata.name))) bad_name
              ++ (flag (p.metadata.version == "") version_required
                  ++ (time_issues p.metadata.created_at created_required created_invalid
                      ++ (time_issues p.metadata.expires_at expires_required expires_invalid
                          ++ flag
                              (not_before (read_time p.metadata.created_at)
                                (read_time p.metadata.expires_at))
                              created_after_expiry)))))

unfoldable pub arg_issues : List String → List Issue
unfolding has_char byte_length
arg_issues [] = []
arg_issues (a ∷ args) =
    flag (has_char 0 (codes a)) arg_has_nul
    ++ (flag (ltb (2 ^ 12) (byte_length (codes a))) arg_too_long ++ arg_issues args)

unfoldable pub total_bytes : List String → ℕ
total_bytes [] = 0
total_bytes (a ∷ args) = byte_length (codes a) + total_bytes args

unfoldable pub artifact_issues : ArtifactSpec → List Issue
unfolding escapes digest_ok oci_digest_ok arg_issues total_bytes
artifact_issues a =
    flag (escapes (codes a.path)) bad_artifact_path
    ++ (flag (not (digest_ok a.digest)) bad_artifact_digest
        ++ (flag (leb_ℤ a.size_bytes (pos 0)) bad_size
            ++ (flag (leb_ℤ a.max_bytes (pos 0) || ltb_ℤ a.max_bytes a.size_bytes) bad_max_bytes
                ++ (flag (ltb_ℤ (pos (2 ^ 31)) a.max_bytes) over_ceiling
                    ++ (flag (not (a.protocol == "stdin-json-v1")) bad_protocol
                        ++ (flag
                              (not (a.container_digest == "")
                                && not (oci_digest_ok a.container_digest))
                              bad_container_digest
                            ++ (flag (ltb 64 (length a.default_args)) too_many_args
                                ++ (arg_issues a.default_args
                                    ++ flag (ltb (2 ^ 16) (total_bytes a.default_args))
                                        args_too_long))))))))

unfoldable pub target_issues : TargetSpec → List Issue
unfolding valid_subdomain
target_issues t =
    flag (t.backend == "" || t.vendor == "" || t.architecture == "") target_incomplete
    ++ flag (not (valid_subdomain (codes t.device_class))) bad_device_class
