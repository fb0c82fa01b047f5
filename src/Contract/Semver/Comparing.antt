-- ===== src/Contract/Semver/Comparing.antt =====
-- The comparators of MatchVersionRange in pkg/contract/semver.go: which operator a text begins with, and
-- what the operator asks of the order of two versions.
use Prim.Native.Nat.{Ordering}
use claim2kernel.Base.{
  Bool-cases, List, Option-cases, [], ap, arith, inl, inr, nat_eq, none, refl, some, true, ℕ, ◌++◌,
  ◌∙◌, ◌∷◌, ◌≡◌, ◌≢◌,
}
use claim2kernel.Base.Text.{codes, strip_prefix, trim_space}
use claim2kernel.Contract.Semver.Range.{
  Comparator, above, at_least, at_most, below, comparator_of, exactly, satisfies,
}

-- What an operator asks of the order of the version and its bound.
abbrev pub Meets : Comparator → Ordering → Type 0
Meets at_least order = order ≢ Ordering.lt
Meets at_most order = order ≢ Ordering.gt
Meets above order = order ≡ Ordering.gt
Meets below order = order ≡ Ordering.lt
Meets exactly order = order ≡ Ordering.eq

-- The operator that a comparator's text begins with, and its bound, the text behind: `>=` and `<=` come
-- before `>` and `<`, and a text without an operator is the bound of `=`.
pub data Asks (part : List ℕ) : Comparator → List ℕ → Type 0 where
  asks_at_least : (rest : List ℕ) → part ≡ codes ">=" ++ rest → Asks part at_least (trim_space rest)
  asks_at_most : (rest : List ℕ) → part ≡ codes "<=" ++ rest → Asks part at_most (trim_space rest)
  asks_above :
      (rest : List ℕ)
      → part ≡ codes ">" ++ rest
      → ((more : List ℕ) → part ≢ codes ">=" ++ more)
      → Asks part above (trim_space rest)
  asks_below :
      (rest : List ℕ)
      → part ≡ codes "<" ++ rest
      → ((more : List ℕ) → part ≢ codes "<=" ++ more)
      → Asks part below (trim_space rest)
  asks_exactly : (rest : List ℕ) → part ≡ codes "=" ++ rest → Asks part exactly (trim_space rest)
  asks_bare :
      ((more : List ℕ) → part ≢ codes ">" ++ more)
      → ((more : List ℕ) → part ≢ codes "<" ++ more)
      → ((more : List ℕ) → part ≢ codes "=" ++ more)
      → Asks part exactly part

pub Meets-of_test : (op : Comparator) (o : Ordering) → satisfies op o ≡ true → Meets op o
unfolding satisfies
Meets-of_test at_least Ordering.lt h = absurd (cc (h))
Meets-of_test at_least Ordering.eq h = λ e. absurd (cc (e))
Meets-of_test at_least Ordering.gt h = λ e. absurd (cc (e))
Meets-of_test at_most Ordering.lt h = λ e. absurd (cc (e))
Meets-of_test at_most Ordering.eq h = λ e. absurd (cc (e))
Meets-of_test at_most Ordering.gt h = absurd (cc (h))
Meets-of_test above Ordering.lt h = absurd (cc (h))
Meets-of_test above Ordering.eq h = absurd (cc (h))
Meets-of_test above Ordering.gt h = refl
Meets-of_test below Ordering.lt h = refl
Meets-of_test below Ordering.eq h = absurd (cc (h))
Meets-of_test below Ordering.gt h = absurd (cc (h))
Meets-of_test exactly Ordering.lt h = absurd (cc (h))
Meets-of_test exactly Ordering.eq h = refl
Meets-of_test exactly Ordering.gt h = absurd (cc (h))

pub test_of_Meets : (op : Comparator) (o : Ordering) → Meets op o → satisfies op o ≡ true
unfolding satisfies
test_of_Meets at_least Ordering.lt h = absurd (h refl)
test_of_Meets at_least Ordering.eq h = refl
test_of_Meets at_least Ordering.gt h = refl
test_of_Meets at_most Ordering.lt h = refl
test_of_Meets at_most Ordering.eq h = refl
test_of_Meets at_most Ordering.gt h = absurd (h refl)
test_of_Meets above o h = rw h refl
test_of_Meets below o h = rw h refl
test_of_Meets exactly o h = rw h refl

strip_prefix-append : (p s : List ℕ) → strip_prefix p (p ++ s) ≡ some s
unfolding strip_prefix
strip_prefix-append [] s = refl
strip_prefix-append (c ∷ p) s =
    let same : nat_eq c c ≡ true = ground arith in rw (same) (strip_prefix-append p s)

strip_prefix-some : (p s rest : List ℕ) → strip_prefix p s ≡ some rest → s ≡ p ++ rest
unfolding strip_prefix
strip_prefix-some [] s rest h = cc (h)
strip_prefix-some (c ∷ p) [] rest h = absurd (cc (h))
strip_prefix-some (c ∷ p) (d ∷ s) rest h = elim (Bool-cases (nat_eq c d)) [
  | inl found ↦
      let head_same : d ≡ c = ground (arith, found) in
      let tail_same = strip_prefix-some p s rest (rw (found, strip_prefix) at h) in
      cc (head_same, tail_same)
  | inr apart ↦ absurd (cc (rw (apart, strip_prefix) at h))
]

strip_prefix-none : (p s : List ℕ) → ((rest : List ℕ) → s ≢ p ++ rest) → strip_prefix p s ≡ none
strip_prefix-none p s h = elim (Option-cases (strip_prefix p s)) [
  | inl gone ↦ gone
  | inr (rest, found) ↦ absurd (h rest (strip_prefix-some p s rest found))
]

not_prefix : (p s : List ℕ) → strip_prefix p s ≡ none → (rest : List ℕ) → s ≢ p ++ rest
not_prefix p s h rest e = absurd (cc (h, ap (strip_prefix p) e, strip_prefix-append p rest))

found_prefix : (p s rest : List ℕ) → s ≡ p ++ rest → strip_prefix p s ≡ some rest
found_prefix p s rest e = ap (strip_prefix p) e ∙ strip_prefix-append p rest

pub comparator_of-Asks : (part : List ℕ) → Asks part (comparator_of part).0 (comparator_of part).1
unfolding comparator_of
comparator_of-Asks part = elim (Option-cases (strip_prefix (codes ">=") part)) [
  | inr (rest, found) ↦
      rw (found, comparator_of)
        (asks_at_least rest (strip_prefix-some (codes ">=") part rest found))
  | inl a ↦ elim (Option-cases (strip_prefix (codes "<=") part)) [
    | inr (rest, found) ↦
        rw (a, found, comparator_of)
          (asks_at_most rest (strip_prefix-some (codes "<=") part rest found))
    | inl b ↦ elim (Option-cases (strip_prefix (codes ">") part)) [
      | inr (rest, found) ↦
          rw (a, b, found, comparator_of)
            (asks_above rest (strip_prefix-some (codes ">") part rest found)
              (not_prefix (codes ">=") part a))
      | inl c ↦ elim (Option-cases (strip_prefix (codes "<") part)) [
        | inr (rest, found) ↦
            rw (a, b, c, found, comparator_of)
              (asks_below rest (strip_prefix-some (codes "<") part rest found)
                (not_prefix (codes "<=") part b))
        | inl d ↦ elim (Option-cases (strip_prefix (codes "=") part)) [
          | inr (rest, found) ↦
              rw (a, b, c, d, found, comparator_of)
                (asks_exactly rest (strip_prefix-some (codes "=") part rest found))
          | inl e ↦
              rw (a, b, c, d, e, comparator_of)
                (asks_bare (not_prefix (codes ">") part c) (not_prefix (codes "<") part d)
                  (not_prefix (codes "=") part e))
        ]
      ]
    ]
  ]
]

pub found_of_Asks :
    (part rest : List ℕ) (op : Comparator) → Asks part op rest → comparator_of part ≡ (op, rest)
unfolding comparator_of strip_prefix
found_of_Asks part _ op (asks_at_least rest e) =
    let found = found_prefix (codes ">=") part rest e in rw (found, comparator_of) refl
found_of_Asks part _ op (asks_at_most rest e) =
    let a : strip_prefix (codes ">=") part ≡ none = ap (strip_prefix (codes ">=")) e in
    let found = found_prefix (codes "<=") part rest e in rw (a, found, comparator_of) refl
found_of_Asks part _ op (asks_above rest e longer) =
    let a = strip_prefix-none (codes ">=") part longer in
    let b : strip_prefix (codes "<=") part ≡ none = ap (strip_prefix (codes "<=")) e in
    let found = found_prefix (codes ">") part rest e in rw (a, b, found, comparator_of) refl
found_of_Asks part _ op (asks_below rest e longer) =
    let a : strip_prefix (codes ">=") part ≡ none = ap (strip_prefix (codes ">=")) e in
    let b = strip_prefix-none (codes "<=") part longer in
    let c : strip_prefix (codes ">") part ≡ none = ap (strip_prefix (codes ">")) e in
    let found = found_prefix (codes "<") part rest e in rw (a, b, c, found, comparator_of) refl
found_of_Asks part _ op (asks_exactly rest e) =
    let a : strip_prefix (codes ">=") part ≡ none = ap (strip_prefix (codes ">=")) e in
    let b : strip_prefix (codes "<=") part ≡ none = ap (strip_prefix (codes "<=")) e in
    let c : strip_prefix (codes ">") part ≡ none = ap (strip_prefix (codes ">")) e in
    let d : strip_prefix (codes "<") part ≡ none = ap (strip_prefix (codes "<")) e in
    let found = found_prefix (codes "=") part rest e in rw (a, b, c, d, found, comparator_of) refl
found_of_Asks part _ op (asks_bare no_above no_below no_exact) =
    let a = strip_prefix-none (codes ">=") part (λ more. no_above (codes "=" ++ more)) in
    let b = strip_prefix-none (codes "<=") part (λ more. no_below (codes "=" ++ more)) in
    let c = strip_prefix-none (codes ">") part no_above in
    let d = strip_prefix-none (codes "<") part no_below in
    let f = strip_prefix-none (codes "=") part no_exact in rw (a, b, c, d, f, comparator_of) refl
