-- ===== src/Dra/MetadataPath.antt =====
-- MetadataPathForTemplate of pkg/dra/metadata.go, on code points.
use claim2kernel.Base.{Bool, List, Option, if◌then◌else◌, none, not, some, ℕ, ◌++◌, ◌||◌}
use claim2kernel.Base.Text.{codes, same_text}
use claim2kernel.Contract.Checks.{has_char}
use claim2kernel.Contract.Paths.{clean}
use claim2kernel.Contract.Semver.{non_empty}

abbrev pub metadata_root : List ℕ
metadata_root = codes "/var/run/kubernetes.io/dra-device-attributes"

-- A name that cannot be a component of the path.
unfoldable pub unsafe_component : List ℕ → Bool
unfolding same_text has_char
unsafe_component s =
    not (non_empty s)
    || same_text s (codes ".")
    || same_text s (codes "..")
    || has_char b'/' s
    || has_char 92 s
    || has_char 0 s

-- Nothing where a name is unsafe; which of them the error cites depends on the order of a map.
unfoldable pub metadata_path_for_template : List ℕ → List ℕ → List ℕ → Option (List ℕ)
unfolding unsafe_component clean
metadata_path_for_template pod_claim request driver =
    if unsafe_component pod_claim || unsafe_component request || unsafe_component driver
    then none
    else some (
        clean (
          metadata_root
          ++ (codes "/resourceclaimtemplates/"
              ++ (pod_claim
                  ++ (codes "/"
                      ++ (request ++ (codes "/" ++ (driver ++ codes "-metadata.json"))))))))
