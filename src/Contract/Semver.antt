-- ===== src/Contract/Semver.antt =====
-- pkg/contract/semver.go: versions, their order, and version ranges. Texts are code points; the two
-- regular expressions are deterministic scans, since no character can go to either side of a group.
-- The `int` -1, 0 or 1 of the comparisons is an `Ordering`.
pub mod Range
pub mod Comparing
pub mod Matching
use Prim.Native.Nat.{Ordering}
use mathlib.Core.Option
use claim2kernel.Base.{
  Bool, List, Option, [], false, if◌then◌else◌, ltb, nat_eq, none, not, some, true, ℕ, ◌&&◌, ◌^◌,
  ◌||◌, ◌∷◌,
}
use claim2kernel.Base.Int.{ltb_ℤ, ℤ}
use claim2kernel.Base.Maybe.{◌>>=◌}
use claim2kernel.Base.Text.{
  is_digit, is_lower, is_upper, parse_int, same_text, span, split, text_lt, trim_space, unsigned,
}

pub record SemVersion : Type 0 where
  pub major : ℕ
  pub minor : ℕ
  pub patch : ℕ
  pub pre : List ℕ

-- [0-9A-Za-z.-]
abbrev pub is_identifier_char : ℕ → Bool
is_identifier_char c = is_digit c || is_upper c || is_lower c || nat_eq c b'.' || nat_eq c b'-'

abbrev pub non_empty {ℓ} : {A : Type ℓ} → List A → Bool
non_empty [] = false
non_empty (_ ∷ _) = true

-- (0|[1-9][0-9]*), all of the text
unfoldable pub is_number_part : List ℕ → Bool
is_number_part [] = false
is_number_part (c ∷ []) = is_digit c
is_number_part (c ∷ d ∷ s) = is_digit c && not (nat_eq c b'0')

-- ParseInt of a group of digits: an error beyond the range of `int64`.
unfoldable pub parse_part : List ℕ → Option ℕ
unfolding is_number_part unsigned
parse_part s = elim (unsigned s) [
  | none ↦ none
  | some n ↦ if is_number_part s && ltb n (2 ^ 63) then some n else none
]

-- [vV]?
unfoldable pub strip_v : List ℕ → List ℕ
strip_v [] = []
strip_v (c ∷ s) = if nat_eq c b'v' || nat_eq c b'V' then s else c ∷ s

-- (?:\+[0-9A-Za-z.-]+)?$
unfoldable pub is_build : List ℕ → Bool
unfolding span
is_build [] = true
is_build (c ∷ s) =
    let (build, rest) = span is_identifier_char s in
    nat_eq c b'+' && non_empty build && not (non_empty rest)

-- (?:-([0-9A-Za-z.-]+))?(?:\+[0-9A-Za-z.-]+)?$, giving the group, or the empty text without it
unfoldable pub pre_release : List ℕ → Option (List ℕ)
unfolding span is_build
pre_release [] = some []
pre_release (c ∷ s) =
    let (pre, rest) = span is_identifier_char s in
    if nat_eq c b'-'
    then (if non_empty pre && is_build rest then some pre else none)
    else if is_build (c ∷ s)
    then some []
    else none

-- The digits in front of a dot, and what follows the dot.
unfoldable pub dotted : List ℕ → Option (List ℕ × List ℕ)
unfolding span
dotted s =
    let (digits, rest) = span is_digit s in
    elim rest [ [] ↦ none | c ∷ more ↦ if nat_eq c b'.' then some (digits, more) else none ]

unfoldable pub parse_sem_version : List ℕ → Option SemVersion
unfolding trim_space strip_v dotted parse_part pre_release span
parse_sem_version s = do
  first ← dotted (strip_v (trim_space s))
  second ← dotted first.1
  let third = span is_digit second.1
  pre ← pre_release third.1
  major ← parse_part first.0
  minor ← parse_part second.0
  patch ← parse_part third.0
  some (record { major = major; minor = minor; patch = patch; pre = pre })

-- The switch on whether the two identifiers are integers.
unfoldable pub compare_parsed : Option ℤ → Option ℤ → List ℕ → List ℕ → Ordering
unfolding text_lt
compare_parsed (some x) (some y) a b = if ltb_ℤ x y then Ordering.lt else Ordering.gt
compare_parsed (some x) none a b = Ordering.lt
compare_parsed none (some y) a b = Ordering.gt
compare_parsed none none a b = if text_lt a b then Ordering.lt else Ordering.gt

unfoldable pub compare_identifiers : List (List ℕ) → List (List ℕ) → Ordering
unfolding compare_parsed parse_int same_text
compare_identifiers [] [] = Ordering.eq
compare_identifiers [] (_ ∷ _) = Ordering.lt
compare_identifiers (_ ∷ _) [] = Ordering.gt
compare_identifiers (a ∷ xs) (b ∷ ys) =
    if same_text a b
    then compare_identifiers xs ys
    else compare_parsed (parse_int a) (parse_int b) a b

unfoldable pub compare_prerelease : List ℕ → List ℕ → Ordering
unfolding compare_identifiers split
compare_prerelease a b = compare_identifiers (split b'.' a) (split b'.' b)

unfoldable pub compare_pre : List ℕ → List ℕ → Ordering
unfolding compare_prerelease same_text
compare_pre a b =
    if same_text a b
    then Ordering.eq
    else if not (non_empty a)
    then Ordering.gt
    else if not (non_empty b)
    then Ordering.lt
    else compare_prerelease a b

-- A number decides unless it is equal.
abbrev pub compare_then : ℕ → ℕ → Ordering → Ordering
compare_then m n rest =
    if not (nat_eq m n) then (if ltb m n then Ordering.lt else Ordering.gt) else rest

unfoldable pub compare_versions : SemVersion → SemVersion → Ordering
unfolding compare_pre
compare_versions v o =
    compare_then v.major o.major
      (compare_then v.minor o.minor (compare_then v.patch o.patch (compare_pre v.pre o.pre)))
