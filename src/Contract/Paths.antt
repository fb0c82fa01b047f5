-- ===== src/Contract/Paths.antt =====
-- `path.Clean` and the containment test on artifact paths (pkg/contract/validate.go).
use mathlib.Core.List.{reverse}
use claim2kernel.Base.{
  Bool, List, [], false, if◌then◌else◌, nat_eq, none, not, refl, some, true, ℕ, ◌&&◌, ◌++◌, ◌||◌,
  ◌∷◌, ◌≡◌,
}
use claim2kernel.Base.Text.{codes, same_text, split, strip_prefix}
use claim2kernel.Contract.Checks.{has_char}
use claim2kernel.Contract.Semver.{non_empty}

abbrev pub dot_dot : List ℕ
dot_dot = codes ".."

-- One component put on the stack of those kept so far, the last one on top.
unfoldable pub push_component : Bool → List (List ℕ) → List ℕ → List (List ℕ)
unfolding same_text
push_component rooted [] c =
    if not (non_empty c) || same_text c (codes ".")
    then []
    else if same_text c dot_dot && rooted
    then []
    else c ∷ []
push_component rooted (top ∷ stack) c =
    if not (non_empty c) || same_text c (codes ".")
    then top ∷ stack
    else if same_text c dot_dot && not (same_text top dot_dot)
    then stack
    else c ∷ top ∷ stack

unfoldable pub clean_stack : Bool → List (List ℕ) → List (List ℕ) → List (List ℕ)
unfolding push_component
clean_stack rooted stack [] = stack
clean_stack rooted stack (c ∷ cs) = clean_stack rooted (push_component rooted stack c) cs

unfoldable pub join : List (List ℕ) → List ℕ
join [] = []
join (c ∷ []) = c
join (c ∷ d ∷ cs) = c ++ b'/' ∷ join (d ∷ cs)

abbrev pub is_abs : List ℕ → Bool
is_abs [] = false
is_abs (c ∷ _) = nat_eq c b'/'

unfoldable pub clean_components : List ℕ → List (List ℕ)
unfolding clean_stack split
clean_components s = reverse (clean_stack (is_abs s) [] (split b'/' s))

-- path.Clean
unfoldable pub clean : List ℕ → List ℕ
unfolding clean_components join
clean s =
    if is_abs s
    then b'/' ∷ join (clean_components s)
    else elim (clean_components s) [ [] ↦ codes "." | c ∷ cs ↦ join (c ∷ cs) ]

-- The condition under which `validateProfileBase` refuses `spec.artifact.path`.
unfoldable pub escapes : List ℕ → Bool
unfolding clean same_text strip_prefix has_char
escapes s =
    not (non_empty s)
    || has_char 0 s
    || has_char 92 s
    || is_abs s
    || same_text (clean s) (codes ".")
    || same_text (clean s) dot_dot
    || elim (strip_prefix (codes "../") (clean s)) [ none ↦ false | some _ ↦ true ]

cleaned :
    (clean (codes "a/./b//../c/") ≡ codes "a/c")
    × (clean (codes "a/../../b") ≡ codes "../b")
    × (clean (codes "/../a") ≡ codes "/a")
    × (clean (codes "") ≡ codes ".")
    × (escapes (codes "bin/../../x") ≡ true)
    × (escapes (codes "bin/kernel") ≡ false)
unfolding clean escapes
cleaned = (refl, refl, refl, refl, refl, refl)
