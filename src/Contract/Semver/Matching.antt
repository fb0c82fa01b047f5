-- ===== src/Contract/Semver/Matching.antt =====
-- MatchVersionRange of pkg/contract/semver.go: a version is in a range exactly when every comparator
-- holds of it.
use claim2kernel.Base.{
  All, Bool, Bool-cases, List, Option-cases, String, [], ap, false, inl, inr, not, refl, some,
  subst, true, ℕ, ◌||◌, ◌↔◌, ◌∙◌, ◌∷◌, ◌≡◌, ◌≢◌,
}
use claim2kernel.Base.Text.{codes, same_text, split, trim_space}
use claim2kernel.Contract.Semver.{SemVersion, compare_versions, non_empty, parse_sem_version}
use claim2kernel.Contract.Semver.Comparing.{
  Asks, Meets, Meets-of_test, comparator_of-Asks, found_of_Asks, test_of_Meets,
}
use claim2kernel.Contract.Semver.Range.{
  Comparator, comparator_of, match_parts, match_range, match_version_range, matched,
  normalize_beta_version, satisfies,
}

-- One comparator of a range, as its text between commas: the operator it begins with asks something of
-- the order of the version and the bound behind it.
pub record ComparatorHolds (v : SemVersion) (raw : List ℕ) : Type 0 where
  pub op : Comparator
  pub bound : List ℕ
  pub target : SemVersion
  pub written : trim_space raw ≢ []
  pub asks : Asks (trim_space raw) op bound
  pub readable : parse_sem_version (normalize_beta_version bound) ≡ some target
  pub satisfied : Meets op (compare_versions v target)

non_empty-≢ : (s : List ℕ) → non_empty s ≡ true → s ≢ []
non_empty-≢ [] h e = absurd (cc (h))
non_empty-≢ (c ∷ s) h e = absurd (cc (e))

≢-non_empty : (s : List ℕ) → s ≢ [] → non_empty s ≡ true
≢-non_empty [] h = absurd (h refl)
≢-non_empty (c ∷ s) h = refl

match_parts-ComparatorHolds :
    (v : SemVersion) (parts : List (List ℕ))
    → match_parts v parts ≡ matched true
    → All (ComparatorHolds v) parts
unfolding match_parts
match_parts-ComparatorHolds v [] h = tt
match_parts-ComparatorHolds v (raw ∷ parts) h =
    let part = trim_space raw in
    let op = (comparator_of part).0 in
    let bound = (comparator_of part).1 in
    elim (Bool-cases (non_empty part)) [
      | inr bad ↦ absurd (cc (rw (bad, match_parts) at h))
      | inl written ↦ elim (Option-cases (parse_sem_version (normalize_beta_version bound))) [
        | inl bad ↦ absurd (cc (rw (written, bad, match_parts) at h))
        | inr (target, found) ↦ elim (Bool-cases (satisfies op (compare_versions v target))) [
          | inr bad ↦ absurd (cc (rw (written, found, bad, match_parts) at h))
          | inl good ↦ (
            record {
              op = op;
              bound = bound;
              target = target;
              written = non_empty-≢ part written;
              asks = comparator_of-Asks part;
              readable = found;
              satisfied = Meets-of_test op (compare_versions v target) good;
            },
            match_parts-ComparatorHolds v parts (rw (written, found, good, match_parts) at h),
          )
        ]
      ]
    ]

matched_of_parts :
    (v : SemVersion) (parts : List (List ℕ))
    → All (ComparatorHolds v) parts
    → match_parts v parts ≡ matched true
unfolding match_parts
matched_of_parts v [] k = refl
matched_of_parts v (raw ∷ parts) k =
    let c = k.0 in
    let written = ≢-non_empty (trim_space raw) c.written in
    let split_off = found_of_Asks (trim_space raw) c.bound c.op c.asks in
    let readable =
      ap (λ (z : Comparator × List ℕ). parse_sem_version (normalize_beta_version z.1)) split_off
      ∙ c.readable in
    let good =
      ap (λ (z : Comparator × List ℕ). satisfies z.0 (compare_versions v c.target)) split_off
      ∙ test_of_Meets c.op (compare_versions v c.target) c.satisfied in
    rw (written, readable, good, match_parts) (matched_of_parts v parts k.1)

-- The text that stands for every version.
abbrev pub is_wildcard : List ℕ → Bool
is_wildcard expr = not (non_empty (trim_space expr)) || same_text (trim_space expr) (codes "*")

-- The version is one, and is in the range.
pub record InRange (version expr : String) : Type 0 where
  pub parsed : SemVersion
  pub readable : parse_sem_version (normalize_beta_version (codes version)) ≡ some parsed
  pub comparators :
      is_wildcard (codes expr) ≡ false
      → All (ComparatorHolds parsed) (split b',' (trim_space (codes expr)))

match_range-some :
    (v : SemVersion) (expr : List ℕ)
    → (match_range (some v) expr ≡ matched true)
      ↔ (is_wildcard expr ≡ false → All (ComparatorHolds v) (split b',' (trim_space expr)))
unfolding match_range
match_range-some v expr = elim (Bool-cases (is_wildcard expr)) [
  | inl wild ↦ ((λ h n. absurd (cc (wild, n))), (λ k. rw (wild, match_range) refl))
  | inr listed ↦ (
    (λ h n. match_parts-ComparatorHolds v _ (rw (listed, match_range) at h)),
    (λ k. rw (listed, match_range) (matched_of_parts v _ (k listed))),
  )
]

-- MatchVersionRange finds a version in a range exactly where the version is readable and the range is
-- empty, a star, or a list of comparators, whose bounds are readable and at or below the version, below
-- it, at or above it, above it or equal to it in the order of versions, as the operator in front says.
pub match_version_range_iff :
    (version expr : String)
    → (match_version_range version expr ≡ matched true) ↔ InRange version expr
unfolding match_version_range
match_version_range_iff version expr =
    elim (Option-cases (parse_sem_version (normalize_beta_version (codes version)))) [
      | inl bad ↦ (
        (λ h. absurd (cc (rw (bad, match_version_range, match_range) at h))),
        (λ k. absurd (cc (bad, k.readable))),
      )
      | inr (v, found) ↦ (
        (λ h. record {
          parsed = v;
          readable = found;
          comparators = (match_range-some v (codes expr)).0 (rw (found, match_version_range) at h);
        }),
        (λ k.
            let same : k.parsed ≡ v = cc (found, k.readable) in
            rw (found, match_version_range)
              ((match_range-some v (codes expr)).1 (λ n.
                subst (λ x. All (ComparatorHolds x) (split b',' (trim_space (codes expr)))) same
                  (k.comparators n)))),
      )
    ]
