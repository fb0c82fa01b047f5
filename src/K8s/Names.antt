-- ===== src/K8s/Names.antt =====
-- nameWithSuffix of pkg/k8smanifest/render.go.
use mathlib.Core.List.{reverse, reverse_aux}
use claim2kernel.Base.{
  Bool-cases, List, [], ap, arith, inl, inr, leb, length, length-append, length-take_le, nat_eq,
  some, sym, take, ℕ, ◌++◌, ◌+◌, ◌-◌, ◌∙◌, ◌∷◌, ◌≡◌, ◌≤◌,
}
use claim2kernel.Base.Text.{codes}
use claim2kernel.K8s.{drop_dashes, name_with_suffix, trim_dashes}

length-reverse_aux :
    {A : Type 0} (xs ys : List A) → length (reverse_aux xs ys) ≡ length xs + length ys
length-reverse_aux [] ys = omega arith
length-reverse_aux (x ∷ xs) ys = omega (arith, length-reverse_aux xs (x ∷ ys))

length-reverse : {A : Type 0} (xs : List A) → length (reverse xs) ≡ length xs
length-reverse xs = length-reverse_aux xs [] ∙ omega arith

length-drop_dashes_le : (s : List ℕ) → length (drop_dashes s) ≤ length s
unfolding drop_dashes
length-drop_dashes_le [] = omega arith
length-drop_dashes_le (c ∷ s) = elim (Bool-cases (nat_eq c b'-')) [
  | inl dash ↦ rw (dash) (omega (arith, length-drop_dashes_le s))
  | inr other ↦ rw (other) (omega arith)
]

length-trim_dashes_le : (s : List ℕ) → length (trim_dashes s) ≤ length s
unfolding trim_dashes
length-trim_dashes_le s =
    let inner = drop_dashes s in
    omega (
      arith,
      length-drop_dashes_le s,
      length-reverse inner,
      length-drop_dashes_le (reverse inner),
      length-reverse (drop_dashes (reverse inner)),
    )

-- How a name is made.
pub record IsNamed (base suffix name : List ℕ) : Type 0 where
  pub bounded : length name ≤ 63
  pub ending :
      length (trim_dashes suffix) ≤ 61
      → (front : List ℕ) × (name ≡ front ++ (codes "-" ++ trim_dashes suffix))

-- A name that nameWithSuffix makes has at most 63 characters, and ends with a dash and the trimmed
-- suffix where that has at most 61.
pub name_with_suffix-IsNamed :
    (base suffix name : List ℕ)
    → name_with_suffix base suffix ≡ some name
    → IsNamed base suffix name
unfolding name_with_suffix
name_with_suffix-IsNamed base suffix name h =
    let short = trim_dashes suffix in
    let front = trim_dashes (take (62 - length short) base) in
    elim (Bool-cases (leb 62 (length short))) [
      | inr fits ↦
          let made : front ++ (codes "-" ++ short) ≡ name = cc (rw (fits, name_with_suffix) at h) in
          let size = length-append front (codes "-" ++ short) in
          let cut = length-trim_dashes_le (take (62 - length short) base) in
          let taken = length-take_le (62 - length short) base in
          let total = ap (λ (n : List ℕ). length n) made in
          record {
            bounded = ground (arith, fits, size, cut, taken, total);
            ending = λ e. (front, sym made);
          }
      | inl long ↦ elim (Bool-cases (leb 63 (length short))) [
        | inr bad ↦ absurd (cc (rw (long, bad, name_with_suffix) at h))
        | inl enough ↦
            let made : take 63 short ≡ name = cc (rw (long, enough, name_with_suffix) at h) in
            record {
              bounded = omega (arith, length-take_le 63 short, ap (λ (n : List ℕ). length n) made);
              ending = λ e. absurd (ground (arith, long, e));
            }
      ]
    ]
