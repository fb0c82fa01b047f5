-- ===== src/Contract/Checks.antt =====
-- The small tests of pkg/contract/validate.go: finite numbers, DNS names and digests.
use Prim.Native.String.{len, slice}
use text.Mathlib.Text.{starts_with}
use claim2kernel.Base.{
  Bool, List, Option, String, [], false, if◌then◌else◌, leb, length, ltb, nat_eq, none, not, refl,
  some, true, ℕ, ◌&&◌, ◌+◌, ◌||◌, ◌∷◌, ◌≡◌,
}
use claim2kernel.Base.Text.{codes, is_digit, is_lower, span, split, strip_prefix, trim_space}
use claim2kernel.Contract.Semver.{non_empty}
use claim2kernel.Float64.{Float64, dyadic, f0, f1, is_inf, is_nan, lef, ltf}

unfoldable pub finite : Float64 → Bool
finite v = not (is_nan v) && not (is_inf v)

unfoldable pub finite_positive : Float64 → Bool
unfolding finite
finite_positive v = finite v && ltf f0 v

unfoldable pub finite_non_negative : Float64 → Bool
unfolding finite
finite_non_negative v = finite v && lef f0 v

unfoldable pub prob : Float64 → Bool
unfolding finite
prob v = finite v && ltf f0 v && ltf v f1

unfoldable pub prob_closed : Float64 → Bool
unfolding finite
prob_closed v = finite v && lef f0 v && lef v f1

-- 1e-12 and 1e-10, as the nearest doubles
unfoldable pub coverage_slack : Float64
coverage_slack = dyadic 4951760157141521 92

unfoldable pub matrix_tolerance : Float64
matrix_tolerance = dyadic 7737125245533627 86

unfoldable pub all_chars : (ℕ → Bool) → List ℕ → Bool
all_chars p [] = true
all_chars p (c ∷ s) = p c && all_chars p s

unfoldable pub has_char : ℕ → List ℕ → Bool
has_char d [] = false
has_char d (c ∷ s) = nat_eq c d || has_char d s

-- `strings.HasPrefix` with what `strings.TrimPrefix` leaves
unfoldable pub after_prefix : String → String → Option String
after_prefix p s = if starts_with s p then some (slice s (len p) (len s)) else none

-- strings.TrimSpace(s) == ""
unfoldable pub blank : String → Bool
unfolding trim_space
blank s = not (non_empty (trim_space (codes s)))

abbrev pub is_alnum : ℕ → Bool
is_alnum c = is_lower c || is_digit c

abbrev pub last_of : ℕ → List ℕ → ℕ
last_of c [] = c
last_of c (d ∷ s) = last_of d s

-- [a-z0-9](?:…*[a-z0-9])?, all of the text: the class throughout, a letter or digit at both ends
unfoldable pub is_bounded : (ℕ → Bool) → List ℕ → Bool
unfolding all_chars
is_bounded inner [] = false
is_bounded inner (c ∷ s) = is_alnum c && is_alnum (last_of c s) && all_chars inner s

unfoldable pub dns_label : List ℕ → Bool
unfolding is_bounded
dns_label = is_bounded (λ c. is_alnum c || nat_eq c b'-')

unfoldable pub dns_subdomain : List ℕ → Bool
unfolding is_bounded
dns_subdomain = is_bounded (λ c. is_alnum c || nat_eq c b'-' || nat_eq c b'.')

-- The bytes of a character in UTF-8.
abbrev pub utf8_width : ℕ → ℕ
utf8_width c = if ltb c 0x80 then 1 else if ltb c 0x800 then 2 else if ltb c 0x10000 then 3 else 4

unfoldable pub byte_length : List ℕ → ℕ
byte_length [] = 0
byte_length (c ∷ s) = utf8_width c + byte_length s

-- validateName: whether it gives no error
unfoldable pub valid_name : List ℕ → Bool
unfolding dns_label byte_length
valid_name s = not (nat_eq (byte_length s) 0) && leb (byte_length s) 63 && dns_label s

unfoldable pub all_valid_names : List (List ℕ) → Bool
unfolding valid_name
all_valid_names [] = true
all_valid_names (s ∷ rest) = valid_name s && all_valid_names rest

unfoldable pub has_double_dot : List ℕ → Bool
has_double_dot [] = false
has_double_dot (c ∷ []) = false
has_double_dot (c ∷ d ∷ s) = (nat_eq c b'.' && nat_eq d b'.') || has_double_dot (d ∷ s)

-- validateSubdomain
unfoldable pub valid_subdomain : List ℕ → Bool
unfolding all_valid_names dns_subdomain byte_length has_double_dot split
valid_subdomain s =
    not (nat_eq (byte_length s) 0)
    && leb (byte_length s) 253
    && dns_subdomain s
    && not (has_double_dot s)
    && all_valid_names (split b'.' s)

abbrev pub is_hex : ℕ → Bool
is_hex c = is_digit c || (leb b'a' c && leb c b'f')

-- sha256:[0-9a-f]{64}
unfoldable pub is_digest : List ℕ → Bool
unfolding strip_prefix all_chars
is_digest s = elim (strip_prefix (codes "sha256:") s) [
  | none ↦ false
  | some hex ↦ all_chars is_hex hex && nat_eq (length hex) 64
]

unfoldable pub digest_ok : String → Bool
unfolding is_digest
digest_ok s = is_digest (codes s)

-- [a-z0-9./_-]+@sha256:[0-9a-f]{64}
unfoldable pub oci_digest_ok : String → Bool
unfolding span strip_prefix is_digest
oci_digest_ok s =
    let (name, rest) =
      span (λ c. is_alnum c || nat_eq c b'.' || nat_eq c b'/' || nat_eq c b'_' || nat_eq c b'-')
        (codes s) in
    non_empty name
    && elim (strip_prefix (codes "@") rest) [ none ↦ false | some digest ↦ is_digest digest ]

names_tested :
    (valid_name (codes "rzf-a100") ≡ true)
    × (valid_name (codes "-a") ≡ false)
    × (valid_name (codes "a_b") ≡ false)
    × (valid_subdomain (codes "gpu.nvidia.com") ≡ true)
    × (valid_subdomain (codes "gpu.-nvidia.com") ≡ false)
unfolding valid_name valid_subdomain
names_tested = (refl, refl, refl, refl, refl)

prefixes : after_prefix "input." "input.users" ≡ some "users"
unfolding after_prefix
prefixes = refl
