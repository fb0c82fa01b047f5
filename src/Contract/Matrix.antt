-- ===== src/Contract/Matrix.antt =====
-- positiveDefiniteSymmetric of pkg/contract/validate.go. Nothing is returned where the Go code
-- panics: the symmetry loop reads `a[j][i]` before the length of row `j` is known.
use claim2kernel.Base.{
  Bool, List, Option, [], false, if◌then◌else◌, length, nat_eq, none, not, some, suc, true, zero, ℕ,
  ◌++◌, ◌||◌, ◌∷◌,
}
use claim2kernel.Contract.Checks.{finite}
use claim2kernel.Float64.{Float64, absf, f0, f1, lef, ltf, maxf, sqrtf, ◌*f◌, ◌-f◌, ◌/f◌}

-- `row[i]`; nothing is an index out of range
unfoldable pub index {ℓ} : {A : Type ℓ} → List A → ℕ → Option A
index [] i = none
index (x ∷ xs) zero = some x
index (x ∷ xs) (suc i) = index xs i

abbrev pub asymmetric : Float64 → Float64 → Float64 → Bool
asymmetric tolerance x y =
    not (finite x) || ltf (tolerance *f maxf f1 (maxf (absf x) (absf y))) (absf (x -f y))

-- The inner loop for row `i`, over the row's entries beside the rows `a[j]` for j = 0, 1, …
unfoldable pub row_symmetric : Float64 → ℕ → List Float64 → List (List Float64) → Option Bool
unfolding index
row_symmetric tolerance i [] rows = some true
row_symmetric tolerance i (x ∷ row) [] = some true
row_symmetric tolerance i (x ∷ row) (r ∷ rows) =
    let rest = row_symmetric tolerance i row rows in
    if not (finite x) then some false else elim (index r i) [
      | none ↦ none
      | some y ↦ if asymmetric tolerance x y then some false else rest
    ]

-- The outer loop over the rows from the `i`-th.
unfoldable pub rows_symmetric :
    Float64 → ℕ → List (List Float64) → List (List Float64) → Option Bool
unfolding row_symmetric
rows_symmetric tolerance i [] a = some true
rows_symmetric tolerance i (row ∷ rest) a =
    let more = rows_symmetric tolerance (suc i) rest a in
    if not (nat_eq (length row) (length a))
    then some false
    else elim (row_symmetric tolerance i row a) [
      | none ↦ none
      | some false ↦ some false
      | some true ↦ more
    ]

-- sum - l[i][0] * l[j][0] - l[i][1] * l[j][1] - …, over the entries of row `i` there are so far
unfoldable pub subtract_products : Float64 → List Float64 → List Float64 → Float64
subtract_products sum [] ys = sum
subtract_products sum (x ∷ xs) [] = sum
subtract_products sum (x ∷ xs) (y ∷ ys) = subtract_products (sum -f x *f y) xs ys

abbrev pub last_or : Float64 → List Float64 → Float64
last_or d [] = d
last_or d (x ∷ xs) = last_or x xs

-- Row `i` of the factor: one entry for each finished row `l[j]`, whose last entry is `l[j][j]`, then
-- the diagonal; nothing if the pivot fails.
unfoldable pub cholesky_row :
    Float64 → List Float64 → List (List Float64) → List Float64 → Option (List Float64)
unfolding subtract_products
cholesky_row tolerance [] finished l = some l
cholesky_row tolerance (x ∷ row) [] l =
    let sum = subtract_products x l l in
    if lef sum tolerance || not (finite sum) then none else some (l ++ sqrtf sum ∷ [])
cholesky_row tolerance (x ∷ row) (lj ∷ finished) l =
    cholesky_row tolerance row finished (l ++ (subtract_products x l lj /f last_or f0 lj) ∷ [])

unfoldable pub cholesky : Float64 → List (List Float64) → List (List Float64) → Bool
unfolding cholesky_row
cholesky tolerance finished [] = true
cholesky tolerance finished (row ∷ rest) = elim (cholesky_row tolerance row finished []) [
  | none ↦ false
  | some l ↦ cholesky tolerance (finished ++ l ∷ []) rest
]

unfoldable pub positive_definite_symmetric : List (List Float64) → Float64 → Option Bool
unfolding rows_symmetric cholesky
positive_definite_symmetric [] tolerance = some false
positive_definite_symmetric (row ∷ rows) tolerance =
    elim (rows_symmetric tolerance 0 (row ∷ rows) (row ∷ rows)) [
      | none ↦ none
      | some false ↦ some false
      | some true ↦ some (cholesky tolerance [] (row ∷ rows))
    ]
