-- ===== src/Base/Lists.antt =====
-- Lists measured by native numbers, and predicates on all their members.
use Prim.Native.Nat.{ℕ, zero, suc, ◌+◌, ◌≤◌, ◌<◌}
use mathlib.Core.Path.{◌≡◌, refl, ap}
use mathlib.Core.List.{List, [], ◌∷◌, ◌++◌}
use mathlib.Core.Bool.{Bool, true, false, ◌||◌}
use native.Mathlib.Omega.{arith}
use Prim.Native.String.{String}
use text.Mathlib.Text.{◌==◌}
use text.Mathlib.TextPositions.{eq_refl}

module _ {ℓ} {A : Type ℓ} where
  abbrev pub length : List A → ℕ
  length [] = 0
  length (x ∷ xs) = suc (length xs)

  pub length-append : (xs ys : List A) → length (xs ++ ys) ≡ length xs + length ys
  length-append [] ys = omega arith
  length-append (x ∷ xs) ys = omega (arith, length-append xs ys)

module _ {ℓ κ} {A : Type ℓ} where
  abbrev pub All : (A → Type κ) → List A → Type κ
  All P [] = Unit
  All P (x ∷ xs) = P x × All P xs

  pub All-append : (P : A → Type κ) (xs ys : List A) → All P xs → All P ys → All P (xs ++ ys)
  All-append P [] ys hx hy = hy
  All-append P (x ∷ xs) ys hx hy = (hx.0, All-append P xs ys hx.1 hy)

module _ {ℓ} {A : Type ℓ} where
  unfoldable pub take : ℕ → List A → List A
  take n [] = []
  take zero (x ∷ xs) = []
  take (suc n) (x ∷ xs) = x ∷ take n xs

  pub length-take_le : (n : ℕ) (xs : List A) → length (take n xs) ≤ n
  unfolding take
  length-take_le n [] = omega arith
  length-take_le zero (x ∷ xs) = omega arith
  length-take_le (suc n) (x ∷ xs) = omega (arith, length-take_le n xs)

  -- A cut that is shorter than its limit cuts nothing.
  pub take_whole : (n : ℕ) (xs : List A) → length (take n xs) < n → take n xs ≡ xs
  unfolding take
  take_whole n [] h = refl
  take_whole zero (x ∷ xs) h = absurd (omega arith)
  take_whole (suc n) (x ∷ xs) h = ap (λ r. x ∷ r) (take_whole n xs (omega arith))

  pub take_all : (n : ℕ) (xs : List A) → length xs ≤ n → take n xs ≡ xs
  unfolding take
  take_all n [] h = refl
  take_all zero (x ∷ xs) h = absurd (omega arith)
  take_all (suc n) (x ∷ xs) h = ap (λ r. x ∷ r) (take_all n xs (omega arith))

  -- What a cut takes of an append, before and behind its first part's end.
  pub take-append_before : (n : ℕ) (xs ys : List A) → n ≤ length xs → take n (xs ++ ys) ≡ take n xs
  unfolding take
  take-append_before zero [] [] h = refl
  take-append_before zero [] (y ∷ ys) h = refl
  take-append_before (suc n) [] ys h = absurd (omega arith)
  take-append_before zero (x ∷ xs) ys h = refl
  take-append_before (suc n) (x ∷ xs) ys h =
      ap (λ r. x ∷ r) (take-append_before n xs ys (omega arith))

  pub take-append_behind :
      (m n : ℕ) (xs ys : List A) → m ≡ length xs + n → take m (xs ++ ys) ≡ xs ++ take n ys
  unfolding take
  take-append_behind m n [] ys h = let e : m ≡ n = omega (arith, h) in ap (λ k. take k ys) e
  take-append_behind zero n (x ∷ xs) ys h = absurd (omega arith)
  take-append_behind (suc m) n (x ∷ xs) ys h =
      ap (λ r. x ∷ r) (take-append_behind m n xs ys (omega arith))

-- A byte sequence.
abbrev pub Bytes : Type 0
Bytes = List ℕ

-- Membership of a text in a list of texts: the loop of Go's `contains` helpers.
unfoldable pub contains : List String → String → Bool
contains [] x = false
contains (v ∷ vs) x = (v == x) || contains vs x

pub contains-cons_self : (x : String) (xs : List String) → contains (x ∷ xs) x ≡ true
unfolding contains
contains-cons_self x xs = rw eq_refl

pub contains-cons :
    (x y : String) (xs : List String) → contains xs y ≡ true → contains (x ∷ xs) y ≡ true
unfolding contains
contains-cons x y xs c = ground arith
