-- ===== src/Dra/Requests.antt =====
-- What Validate of pkg/dra/metadata.go means for DevicesForRequest.
use mathlib.Core.List.{Memᴰ}
use mathlib.Core.List.Memᴰ
use mathlib.Core.List.Memᴰ.{head, tail}
use claim2kernel.Base.{
  Bool-cases, List, Option-cases, String, [], arith, contains, eq_refl, false, inl, inr, length,
  ltb, nat_eq, none, not, refl, some, subst, suc, sym, ℕ, ◌==◌, ◌||◌, ◌∷◌, ◌≡◌, ◌≤◌,
}
use claim2kernel.Dra.{
  DeviceMetadata, DeviceMetadataRequest, api_version, devices_for_request, find_request,
  metadata_kind, validate, validate_devices, validate_requests,
}

-- One round of the loop over the requests that goes on.
record Accepted (i : ℕ) (seen : List String) (r : DeviceMetadataRequest)
    (rs : List DeviceMetadataRequest) : Type 0 where
  new_name : contains seen r.name ≡ false
  some_devices : 1 ≤ length r.devices
  few_devices : length r.devices ≤ 128
  rest : validate_requests (suc i) (r.name ∷ seen) rs ≡ none

validate_requests-Accepted :
    (i : ℕ) (seen : List String) (r : DeviceMetadataRequest) (rs : List DeviceMetadataRequest)
    → validate_requests i seen (r ∷ rs) ≡ none
    → Accepted i seen r rs
unfolding validate_requests
validate_requests-Accepted i seen r rs h = elim (Bool-cases (r.name == "")) [
  | inl bad ↦ absurd (cc (rw (bad, validate_requests) at h))
  | inr named_here ↦ elim (Bool-cases (contains seen r.name)) [
    | inl bad ↦ absurd (cc (rw (named_here, bad, validate_requests) at h))
    | inr new ↦ elim (Bool-cases (nat_eq (length r.devices) 0)) [
      | inl bad ↦ absurd (cc (rw (named_here, new, bad, validate_requests) at h))
      | inr many ↦ elim (Bool-cases (ltb 128 (length r.devices))) [
        | inl bad ↦ absurd (cc (rw (named_here, new, many, bad, validate_requests) at h))
        | inr few ↦ elim (Option-cases (validate_devices i 0 [] r.devices)) [
          | inr (err, bad) ↦
              absurd (cc (rw (named_here, new, many, few, bad, validate_requests) at h))
          | inl good ↦ record {
            new_name = new;
            some_devices = ground (arith, many);
            few_devices = ground (arith, few);
            rest = rw (named_here, new, many, few, good, validate_requests) at h;
          }
        ]
      ]
    ]
  ]
]

-- What holds of every request behind a validation.
record IsFound (seen : List String) (rs : List DeviceMetadataRequest) (q : DeviceMetadataRequest)
    : Type 0 where
  unseen : contains seen q.name ≡ false
  found : find_request rs q.name ≡ some q.devices
  some_devices : 1 ≤ length q.devices
  few_devices : length q.devices ≤ 128

validate_requests-IsFound :
    (i : ℕ) (seen : List String) (rs : List DeviceMetadataRequest) (q : DeviceMetadataRequest)
    → validate_requests i seen rs ≡ none
    → Memᴰ q rs
    → IsFound seen rs q
unfolding find_request contains
validate_requests-IsFound i seen [] q h m = absurd (Memᴰ.not-nil m)
validate_requests-IsFound i seen (r ∷ rs) q h (head e) =
    let a = validate_requests-Accepted i seen r rs h in
    let here : find_request (r ∷ rs) r.name ≡ some r.devices = rw (eq_refl, find_request) refl in
    subst (IsFound seen (r ∷ rs)) (sym e) (record {
      unseen = a.new_name;
      found = here;
      some_devices = a.some_devices;
      few_devices = a.few_devices;
    })
validate_requests-IsFound i seen (r ∷ rs) q h (tail m) =
    let a = validate_requests-Accepted i seen r rs h in
    let k = validate_requests-IsFound (suc i) (r.name ∷ seen) rs q a.rest m in
    let other : (r.name == q.name) ≡ false = ground (arith, k.unseen) in
    record {
      unseen = ground (arith, k.unseen);
      found = rw (other, find_request) k.found;
      some_devices = k.some_devices;
      few_devices = k.few_devices;
    }

validated :
    (m : DeviceMetadata) → validate (some m) ≡ none → validate_requests 0 [] m.requests ≡ none
unfolding validate
validated m h =
    elim (Bool-cases (not (m.api_version == api_version) || not (m.kind == metadata_kind))) [
      | inl bad ↦ absurd (cc (rw (bad, validate) at h))
      | inr typed ↦ elim (Bool-cases (nat_eq (length m.requests) 0)) [
        | inl bad ↦ absurd (cc (rw (typed, bad, validate) at h))
        | inr many ↦ elim (Bool-cases (ltb 32 (length m.requests))) [
          | inl bad ↦ absurd (cc (rw (typed, many, bad, validate) at h))
          | inr few ↦ rw (typed, many, few, validate) at h
        ]
      ]
    ]

-- In metadata that Validate accepts, DevicesForRequest gives each request, by its name, exactly its own
-- devices, and these are 1 to 128.
pub devices_for_request_validated :
    (m : DeviceMetadata) (q : DeviceMetadataRequest)
    → validate (some m) ≡ none
    → Memᴰ q m.requests
    → (devices_for_request m q.name ≡ some q.devices)
      × (1 ≤ length q.devices)
      × (length q.devices ≤ 128)
unfolding validate devices_for_request
devices_for_request_validated m q h k =
    let found = validate_requests-IsFound 0 [] m.requests q (validated m h) k in
    (found.found, found.some_devices, found.few_devices)
