-- ===== src/Statecheck/History.antt =====
-- What a lifecycle trace says by itself, with no checker state: predicates over the events so far,
-- the newest first, against which pkg/statecheck/statecheck.go is judged.
use claim2kernel.Base.{List, String, [], false, ◌∷◌, ◌≡◌}
use claim2kernel.Float64.{Float64, ltf}
use claim2kernel.Statecheck.{Event, admit, complete, device_update, kind_of, publish, revoke}

abbrev pub IsPublish : String → Event → Type 0
IsPublish p e = (kind_of e.event_type ≡ publish) × (e.profile ≡ p)

abbrev pub IsRevoke : String → Event → Type 0
IsRevoke p e = (kind_of e.event_type ≡ revoke) × (e.profile ≡ p)

abbrev pub IsUpdate : String → Event → Type 0
IsUpdate p e = (kind_of e.event_type ≡ device_update) × (e.profile ≡ p)

abbrev pub IsAdmit : String → String → Event → Type 0
IsAdmit r p e = (kind_of e.event_type ≡ admit) × (e.request ≡ r) × (e.profile ≡ p)

abbrev pub IsComplete : String → Event → Type 0
IsComplete r e = (kind_of e.event_type ≡ complete) × (e.request ≡ r)

-- The certificate that a publication binds.
pub record Certificate : Type 0 where
  pub contract : String
  pub artifact : String
  pub precision : String
  pub numerical : Float64

abbrev pub certificate_of : Event → Certificate
certificate_of e = record {
  contract = e.contract_digest;
  artifact = e.artifact_digest;
  precision = e.precision;
  numerical = e.numerical_upper_bound;
}

-- The profile was published with the certificate, and neither published nor revoked since.
pub data Published (p : String) (c : Certificate) : List Event → Type 0 where
  now : {e : Event} {h : List Event} → IsPublish p e → certificate_of e ≡ c → Published p c (e ∷ h)
  since :
      {e : Event} {h : List Event}
      → ¬ IsPublish p e
      → ¬ IsRevoke p e
      → Published p c h
      → Published p c (e ∷ h)

-- The last publication or device update of the profile gave it the device.
pub data OnDevice (p d : String) : List Event → Type 0 where
  publish_sets :
      {e : Event} {h : List Event} → IsPublish p e → e.device_fingerprint ≡ d → OnDevice p d (e ∷ h)
  update_sets :
      {e : Event} {h : List Event} → IsUpdate p e → e.device_fingerprint ≡ d → OnDevice p d (e ∷ h)
  stays :
      {e : Event} {h : List Event}
      → ¬ IsPublish p e
      → ¬ IsUpdate p e
      → OnDevice p d h
      → OnDevice p d (e ∷ h)

-- The request was admitted for the profile within the budget, at a time when the profile was
-- published with the certificate on the device; the request has not completed and the profile was
-- not revoked since.
pub data Standing (r p d : String) (c : Certificate) (b : Float64) : List Event → Type 0 where
  granted :
      {e : Event} {h : List Event}
      → IsAdmit r p e
      → e.numerical_budget ≡ b
      → Published p c h
      → OnDevice p d h
      → Standing r p d c b (e ∷ h)
  holds :
      {e : Event} {h : List Event}
      → ¬ IsComplete r e
      → ¬ IsRevoke p e
      → Standing r p d c b h
      → Standing r p d c b (e ∷ h)

-- The events of a trace, the newest first, before those of `h`.
abbrev pub newest_first : List Event → List Event → List Event
newest_first [] h = h
newest_first (e ∷ es) h = newest_first es (e ∷ h)

-- A dispatch under a certificate: the identity that the event claims is the one that its admission
-- fixed, which still is the profile's, and the two bounds are not above the admitted budget.
pub record IsCertified (e : Event) (h : List Event) : Type 0 where
  pub profile : String
  pub bound : Float64
  pub budget : Float64
  pub standing :
      Standing e.request profile e.device_fingerprint
        (record {
          contract = e.contract_digest;
          artifact = e.artifact_digest;
          precision = e.precision;
          numerical = bound;
        })
        budget
        h
  pub still_published :
      Published profile
        (record {
          contract = e.contract_digest;
          artifact = e.artifact_digest;
          precision = e.precision;
          numerical = bound;
        })
        h
  pub same_device : OnDevice profile e.device_fingerprint h
  pub within_budget : ltf budget bound ≡ false
  pub claim_within_budget : ltf budget e.numerical_upper_bound ≡ false
