-- ===== src/Contract/Semver/Range.antt =====
-- MatchVersionRange and normalizeBetaVersion of pkg/contract/semver.go.
mod Samples
use Prim.Native.Nat.{Ordering}
use mathlib.Core.Option
use claim2kernel.Base.{
  Bool, List, Option, String, [], false, if◌then◌else◌, map, nat_eq, none, not, some, true, ℕ, ◌&&◌,
  ◌++◌, ◌||◌, ◌∷◌,
}
use claim2kernel.Base.Maybe.{◌>>=◌}
use claim2kernel.Base.Text.{codes, is_digit, same_text, span, split, strip_prefix, trim_space}
use claim2kernel.Contract.Semver.{
  SemVersion, compare_versions, non_empty, parse_sem_version, strip_v,
}

-- `[vV]?[0-9]+\.[0-9]+\.[0-9]+` at the front: its length in characters is what was scanned.
unfoldable pub some_digits : List ℕ → Option (List ℕ × List ℕ)
unfolding span
some_digits s =
    let (digits, rest) = span is_digit s in if non_empty digits then some (digits, rest) else none

unfoldable pub digits_dot : List ℕ → Option (List ℕ × List ℕ)
unfolding some_digits strip_prefix
digits_dot s = do
  found ← some_digits s
  rest ← strip_prefix (codes ".") found.1
  some (found.0 ++ codes ".", rest)

-- (a|b|rc), giving the tag and the rest
unfoldable pub pep_tag : List ℕ → Option (List ℕ × List ℕ)
unfolding strip_prefix
pep_tag s = elim (strip_prefix (codes "a") s) [
  | some rest ↦ some (codes "a", rest)
  | none ↦ elim (strip_prefix (codes "b") s) [
    | some rest ↦ some (codes "b", rest)
    | none ↦ elim (strip_prefix (codes "rc") s) [
      | some rest ↦ some (codes "rc", rest)
      | none ↦ none
    ]
  ]
]

-- (.*)$: no newline
unfoldable pub one_line : List ℕ → Bool
one_line [] = true
one_line (c ∷ s) = not (nat_eq c 10) && one_line s

abbrev pub v_prefix : List ℕ → List ℕ
v_prefix [] = []
v_prefix (c ∷ s) = if nat_eq c b'v' || nat_eq c b'V' then c ∷ [] else []

-- The rewritten text where pepPrereleaseRE matches.
unfoldable pub pep_match : List ℕ → Option (List ℕ)
unfolding strip_v digits_dot some_digits pep_tag one_line
pep_match s = do
  first ← digits_dot (strip_v s)
  second ← digits_dot first.1
  third ← some_digits second.1
  tag ← pep_tag third.1
  count ← some_digits tag.1
  if one_line count.1
      then some (
          v_prefix s
          ++ (first.0
              ++ (second.0
                  ++ (third.0 ++ (codes "-" ++ (tag.0 ++ (codes "." ++ (count.0 ++ count.1))))))))
      else none

unfoldable pub normalize_beta_version : List ℕ → List ℕ
unfolding trim_space pep_match
normalize_beta_version s = elim (pep_match (trim_space s)) [ some t ↦ t | none ↦ trim_space s ]

pub data Comparator : Type 0 where
  at_least at_most above below exactly : Comparator

abbrev pub op_or : Comparator → Option (List ℕ) → Comparator × List ℕ → Comparator × List ℕ
op_or op none otherwise = otherwise
op_or op (some rest) otherwise = (op, rest)

-- The first of the operators that the part begins with, and the rest; `=` if none does.
unfoldable pub comparator_of : List ℕ → Comparator × List ℕ
unfolding strip_prefix trim_space
comparator_of part = op_or at_least (Option.map trim_space (strip_prefix (codes ">=") part)) (
    op_or at_most (Option.map trim_space (strip_prefix (codes "<=") part)) (
      op_or above (Option.map trim_space (strip_prefix (codes ">") part)) (
        op_or below (Option.map trim_space (strip_prefix (codes "<") part))
          (op_or exactly (Option.map trim_space (strip_prefix (codes "=") part)) (exactly, part)))))

unfoldable pub satisfies : Comparator → Ordering → Bool
satisfies exactly Ordering.eq = true
satisfies above Ordering.gt = true
satisfies at_least Ordering.gt = true
satisfies at_least Ordering.eq = true
satisfies below Ordering.lt = true
satisfies at_most Ordering.lt = true
satisfies at_most Ordering.eq = true
satisfies _ _ = false

pub data VersionError : Type 0 where
  invalid_version empty_comparator invalid_range : VersionError

pub data Matching : Type 0 where
  matched : Bool → Matching
  version_error : VersionError → Matching

unfoldable pub match_parts : SemVersion → List (List ℕ) → Matching
unfolding trim_space comparator_of parse_sem_version normalize_beta_version satisfies
    compare_versions
match_parts v [] = matched true
match_parts v (raw ∷ parts) =
    let rest = match_parts v parts in
    let part = trim_space raw in
    let (op, bound) = comparator_of part in
    if not (non_empty part)
    then version_error empty_comparator
    else elim (parse_sem_version (normalize_beta_version bound)) [
      | none ↦ version_error invalid_range
      | some target ↦ if satisfies op (compare_versions v target) then rest else matched false
    ]

unfoldable pub match_range : Option SemVersion → List ℕ → Matching
unfolding match_parts split same_text trim_space
match_range none expr = version_error invalid_version
match_range (some v) expr =
    if not (non_empty (trim_space expr)) || same_text (trim_space expr) (codes "*")
    then matched true
    else match_parts v (split b',' (trim_space expr))

unfoldable pub match_version_range : String → String → Matching
unfolding match_range parse_sem_version normalize_beta_version
match_version_range version expr =
    match_range (parse_sem_version (normalize_beta_version (codes version))) (codes expr)
