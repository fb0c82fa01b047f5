-- ===== src/Dra.antt =====
-- pkg/dra/metadata.go: device metadata of a DRA allocation, its validation and its attributes. A nil
-- pointer or slice is `none`; an empty slice is `some []`.
pub mod Attributes
pub mod Requests
pub mod Stream
pub mod MetadataPath
use Prim.Native.String
use claim2kernel.Base.{
  Bool, List, Map, Option, String, [], contains, false, if◌then◌else◌, length, ltb, nat_eq, none,
  not, some, suc, true, ℕ, ◌++◌, ◌+◌, ◌==◌, ◌||◌, ◌∷◌,
}
use claim2kernel.Base.Int.{ℤ}
use claim2kernel.Contract.Value.{kind}

abbrev pub api_version : String
api_version = "metadata.resource.k8s.io/v1alpha1"

abbrev pub metadata_kind : String
metadata_kind = "DeviceMetadata"

pub record Attribute : Type 0 where
  pub int : Option ℤ
  pub bool : Option Bool
  pub string : Option String
  pub version : Option String
  pub ints : Option (List ℤ)
  pub bools : Option (List Bool)
  pub strings : Option (List String)
  pub versions : Option (List String)

pub record Device : Type 0 where
  pub driver : String
  pub pool : String
  pub name : String
  pub attributes : Map Attribute
  pub network_data : String

pub record DeviceMetadataRequest : Type 0 where
  pub name : String
  pub devices : List Device

pub record MetadataObject : Type 0 where
  pub name : String
  pub namespace : String
  pub uid : String
  pub generation : ℤ

pub record DeviceMetadata : Type 0 where
  pub api_version : String
  pub kind : String
  pub metadata : MetadataObject
  pub pod_claim_name : Option String
  pub requests : List DeviceMetadataRequest

abbrev pub present {ℓ} : {A : Type ℓ} → Option A → ℕ
present none = 0
present (some _) = 1

abbrev pub empty_list {ℓ} : {A : Type ℓ} → Option (List A) → Bool
empty_list none = false
empty_list (some []) = true
empty_list (some (_ ∷ _)) = false

pub data MetadataError : Type 0 where
  metadata_is_nil unexpected_type no_requests too_many_requests : MetadataError
  request_unnamed : ℕ → MetadataError
  duplicate_request : String → MetadataError
  no_devices too_many_devices : ℕ → MetadataError
  device_incomplete : ℕ → ℕ → MetadataError
  duplicate_device : String → MetadataError
  too_many_attributes : String → MetadataError
  attribute_unnamed : MetadataError
  not_one_member : ℕ → MetadataError
  empty_list_member : MetadataError

unfoldable pub member_count : Attribute → ℕ
member_count a =
    present a.int
    + present a.bool
    + present a.string
    + present a.version
    + present a.ints
    + present a.bools
    + present a.strings
    + present a.versions

-- `validate` of an attribute; nothing is no error
unfoldable pub validate_attribute : Attribute → Option MetadataError
unfolding member_count
validate_attribute a =
    if not (nat_eq (member_count a) 1)
    then some (not_one_member (member_count a))
    else if empty_list a.ints || empty_list a.bools || empty_list a.strings || empty_list a.versions
    then some empty_list_member
    else none

unfoldable pub validate_attributes : Map Attribute → Option MetadataError
unfolding validate_attribute
validate_attributes [] = none
validate_attributes ((name, a) ∷ m) =
    let rest = validate_attributes m in
    if name == ""
    then some attribute_unnamed
    else elim (validate_attribute a) [ some err ↦ some err | none ↦ rest ]

unfoldable pub device_id : Device → String
device_id d = String.◌++◌ d.driver (String.◌++◌ "/" (String.◌++◌ d.pool (String.◌++◌ "/" d.name)))

-- The loop over the devices of request `i` from the `j`-th.
unfoldable pub validate_devices : ℕ → ℕ → List String → List Device → Option MetadataError
unfolding validate_attributes device_id
validate_devices i j seen [] = none
validate_devices i j seen (d ∷ ds) =
    let rest = validate_devices i (suc j) (device_id d ∷ seen) ds in
    if d.driver == "" || d.pool == "" || d.name == ""
    then some (device_incomplete i j)
    else if contains seen (device_id d)
    then some (duplicate_device (device_id d))
    else if ltb 48 (length d.attributes)
    then some (too_many_attributes (device_id d))
    else elim (validate_attributes d.attributes) [ some err ↦ some err | none ↦ rest ]

-- The loop over the requests from the `i`-th.
unfoldable pub validate_requests :
    ℕ → List String → List DeviceMetadataRequest → Option MetadataError
unfolding validate_devices
validate_requests i seen [] = none
validate_requests i seen (r ∷ rs) =
    let rest = validate_requests (suc i) (r.name ∷ seen) rs in
    if r.name == ""
    then some (request_unnamed i)
    else if contains seen r.name
    then some (duplicate_request r.name)
    else if nat_eq (length r.devices) 0
    then some (no_devices i)
    else if ltb 128 (length r.devices)
    then some (too_many_devices i)
    else elim (validate_devices i 0 [] r.devices) [ some err ↦ some err | none ↦ rest ]

-- Validate
unfoldable pub validate : Option DeviceMetadata → Option MetadataError
unfolding validate_requests
validate none = some metadata_is_nil
validate (some m) =
    if not (m.api_version == api_version) || not (m.kind == metadata_kind)
    then some unexpected_type
    else if nat_eq (length m.requests) 0
    then some no_requests
    else if ltb 32 (length m.requests)
    then some too_many_requests
    else validate_requests 0 [] m.requests

unfoldable pub find_request : List DeviceMetadataRequest → String → Option (List Device)
find_request [] name = none
find_request (r ∷ rs) name = if r.name == name then some r.devices else find_request rs name

-- DevicesForRequest; nothing is its error
unfoldable pub devices_for_request : DeviceMetadata → String → Option (List Device)
unfolding find_request
devices_for_request m name = find_request m.requests name
