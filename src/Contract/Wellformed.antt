-- ===== src/Contract/Wellformed.antt =====
-- ValidateRequest of pkg/contract/validate.go accepts exactly the well-formed requests.
use claim2kernel.Base.{
  ==-true, All, Bool, List, Map, String, [], ap, arith, eq_iff, false, length, ltb, not, not-false,
  refl, some, true, ℕ, ◌==◌, ◌||◌, ◌↔◌, ◌∷◌, ◌≡◌, ◌≤◌,
}
use claim2kernel.Base.Text.{codes}
use claim2kernel.Contract.Checks.{blank, finite, finite_non_negative, finite_positive, valid_name}
use claim2kernel.Contract.Demands.{Demands, Demands-append, Demands-flag, Demands-iff, Demands-nil}
use claim2kernel.Contract.Semver.{non_empty}
use claim2kernel.Contract.Types.{KernelRequest, api_version_v1alpha1, request_kind}
use claim2kernel.Contract.Validate.Certificates.{is_unset}
use claim2kernel.Contract.Validate.Issues.{
  Issue, bad_api_version, bad_deadline, bad_interference_entry, bad_kind, bad_name,
  bad_numerical_error, bad_safety_margin, bad_version_entry, flag, input_unnamed, input_unset,
  no_inputs, too_many_inputs, too_many_interference, too_many_versions,
}
use claim2kernel.Contract.Validate.Request.{
  input_issues, interference_issues, request_issues, request_version_issues, validate_request,
}
use claim2kernel.Contract.Value.{Value}
use claim2kernel.Float64.{Float64, lef}

-- The named inputs are set.
pub record InputsSet (inputs : Map Value) : Type 0 where
  pub entries : All (λ (e : String × Value). (blank e.0 ≡ false) × (is_unset e.1 ≡ false)) inputs
  pub some_inputs : 1 ≤ length inputs
  pub few_inputs : length inputs ≤ 128

pub record IsWellformed (r : KernelRequest) : Type 0 where
  pub version : r.api_version ≡ api_version_v1alpha1
  pub kind : r.kind ≡ request_kind
  pub name : valid_name (codes r.metadata.name) ≡ true
  pub deadline : finite_positive r.spec.deadline_us ≡ true
  pub margin : finite_non_negative r.spec.safety_margin_us ≡ true
  pub margin_inside : lef r.spec.deadline_us r.spec.safety_margin_us ≡ false
  pub budget : finite_non_negative r.spec.max_numerical_error ≡ true
  pub inputs : InputsSet r.spec.inputs
  pub interference :
      All (λ (e : String × Float64). (blank e.0 ≡ false) × (finite e.1 ≡ true)) r.spec.interference
  pub few_metrics : length r.spec.interference ≤ 64
  pub versions :
      All (λ (e : String × String). (blank e.0 ≡ false) × (blank e.1 ≡ false)) r.spec.versions
  pub few_versions : length r.spec.versions ≤ 64

Demands-input_issues :
    (inputs : Map Value)
    → Demands
        (All (λ (e : String × Value). (blank e.0 ≡ false) × (is_unset e.1 ≡ false)) inputs)
        (input_issues inputs)
unfolding input_issues
Demands-input_issues [] = Demands-nil
Demands-input_issues ((k, v) ∷ m) =
    Demands-iff (λ c. ((c.0, c.1.0), c.1.1)) (λ c. (c.0.0, (c.0.1, c.1)))
      (Demands-append (Demands-flag (blank k) input_unnamed)
        (Demands-append (Demands-flag (is_unset v) (input_unset k)) (Demands-input_issues m)))

both_false : (a b : Bool) → (a || b) ≡ false → (a ≡ false) × (b ≡ false)
both_false a b h = ground arith

or_false : (a b : Bool) → (a ≡ false) × (b ≡ false) → (a || b) ≡ false
or_false a b h = cc (h.0, h.1)

pub Demands-not : (b : Bool) (i : Issue) → Demands (b ≡ true) (flag (not b) i)
Demands-not b i = Demands-iff (not-false b) (λ h. ap not h) (Demands-flag (not b) i)

pub Demands-or : (a b : Bool) (i : Issue) → Demands ((a ≡ false) × (b ≡ false)) (flag (a || b) i)
Demands-or a b i = Demands-iff (both_false a b) (or_false a b) (Demands-flag (a || b) i)

pub Demands-few : (n k : ℕ) (i : Issue) → Demands (k ≤ n) (flag (ltb n k) i)
Demands-few n k i =
    Demands-iff (λ h. ground (arith, h)) (λ h. ground (arith, h)) (Demands-flag (ltb n k) i)

Demands-interference_issues :
    (m : Map Float64)
    → Demands
        (All (λ (e : String × Float64). (blank e.0 ≡ false) × (finite e.1 ≡ true)) m)
        (interference_issues m)
unfolding interference_issues
Demands-interference_issues [] = Demands-nil
Demands-interference_issues ((k, v) ∷ m) =
    Demands-append
      (Demands-iff (λ c. (c.0, not-false (finite v) c.1)) (λ c. (c.0, ap not c.1))
        (Demands-or (blank k) (not (finite v)) bad_interference_entry))
      (Demands-interference_issues m)

Demands-request_version_issues :
    (m : Map String)
    → Demands
        (All (λ (e : String × String). (blank e.0 ≡ false) × (blank e.1 ≡ false)) m)
        (request_version_issues m)
unfolding request_version_issues
Demands-request_version_issues [] = Demands-nil
Demands-request_version_issues ((k, v) ∷ m) =
    Demands-append (Demands-or (blank k) (blank v) bad_version_entry)
      (Demands-request_version_issues m)

pub Demands-same : (s t : String) (i : Issue) → Demands (s ≡ t) (flag (not (s == t)) i)
Demands-same s t i = Demands-iff (==-true s t) (λ h. (eq_iff s t).1 h) (Demands-not (s == t) i)

Demands-some {ℓ} :
    {A : Type ℓ} (xs : List A) (i : Issue) → Demands (1 ≤ length xs) (flag (not (non_empty xs)) i)
Demands-some [] i = record { accepts = λ h. absurd (cc (h)); clears = λ h. absurd (omega arith) }
Demands-some (x ∷ xs) i = record { accepts = λ h. omega arith; clears = λ h. refl }

-- ValidateRequest finds no issue exactly in the well-formed requests.
pub validate_request-IsWellformed :
    (r : KernelRequest) → (validate_request (some r) ≡ []) ↔ IsWellformed r
unfolding validate_request request_issues
validate_request-IsWellformed r =
    let s = r.spec in
    let d = Demands-append (Demands-same r.api_version api_version_v1alpha1 bad_api_version) (
      Demands-append (Demands-same r.kind request_kind bad_kind) (
        Demands-append (Demands-not (valid_name (codes r.metadata.name)) bad_name) (
          Demands-append (Demands-not (finite_positive s.deadline_us) bad_deadline) (
            Demands-append
              (Demands-or (not (finite_non_negative s.safety_margin_us))
                (lef s.deadline_us s.safety_margin_us) bad_safety_margin)
              (Demands-append
                (Demands-not (finite_non_negative s.max_numerical_error) bad_numerical_error)
                (Demands-append (Demands-some s.inputs no_inputs) (
                  Demands-append (Demands-few 128 (length s.inputs) too_many_inputs) (
                    Demands-append (Demands-input_issues s.inputs) (
                      Demands-append (Demands-interference_issues s.interference) (
                        Demands-append
                          (Demands-few 64 (length s.interference) too_many_interference)
                          (Demands-append (Demands-request_version_issues s.versions)
                            (Demands-few 64 (length s.versions) too_many_versions)))))))))))) in
    (
      λ h.
          let (a, (b, (c, (e, ((f, g), (i, (j, (k, (l, (m, (n, (o, q)))))))))))) = d.accepts h in
          record {
            version = a;
            kind = b;
            name = c;
            deadline = e;
            margin = not-false (finite_non_negative s.safety_margin_us) f;
            margin_inside = g;
            budget = i;
            inputs = record { some_inputs = j; few_inputs = k; entries = l };
            interference = m;
            few_metrics = n;
            versions = o;
            few_versions = q;
          },
      λ w. d.clears (
        w.version,
        (
          w.kind,
          (
            w.name,
            (
              w.deadline,
              (
                (ap not w.margin, w.margin_inside),
                (
                  w.budget,
                  (
                    w.inputs.some_inputs,
                    (
                      w.inputs.few_inputs,
                      (
                        w.inputs.entries,
                        (w.interference, (w.few_metrics, (w.versions, w.few_versions))),
                      ),
                    ),
                  ),
                ),
              ),
            ),
          ),
        ),
      ),
    )
