-- ===== src/Base/Maps.antt =====
-- Go's `map[string]V` as an association list.
use mathlib.Core.Path.{◌≡◌, refl}
use mathlib.Core.Option.{Option, none, some}
use mathlib.Core.List.{List, [], ◌∷◌}
use native.Mathlib.Omega.{arith}
use Prim.Native.String.{String}
use text.Mathlib.Text.{◌==◌}
use text.Mathlib.TextEquality.{eq_iff}
use mathlib.Core.Logic.{◌≢◌, ◌⊎◌, inl, inr}
use claim2kernel.Base.Tests.{if◌then◌else◌, Bool-cases, ==-true, ==-false}

abbrev pub Map {ℓ} : Type ℓ → Type ℓ
Map V = List (String × V)

module _ {ℓ} {V : Type ℓ} where
  unfoldable pub lookup : Map V → String → Option V
  lookup [] k = none
  lookup ((j, v) ∷ m) k = if j == k then some v else lookup m k

  unfoldable pub insert : Map V → String → V → Map V
  insert [] k v = (k, v) ∷ []
  insert ((j, w) ∷ m) k v = if j == k then (k, v) ∷ m else (j, w) ∷ insert m k v

  -- `delete(m, k)`
  unfoldable pub delete : Map V → String → Map V
  delete [] k = []
  delete ((j, w) ∷ m) k = let rest = delete m k in if j == k then rest else (j, w) ∷ rest

  pub lookup-insert :
      (m : Map V) (k j : String) (v : V)
      → lookup (insert m k v) j ≡ (if k == j then some v else lookup m j)
  unfolding lookup insert
  lookup-insert [] k j v = refl
  lookup-insert ((i, w) ∷ m) k j v =
      ground (arith, eq_iff k j, eq_iff i k, eq_iff i j, lookup-insert m k j v)

  pub lookup-delete :
      (m : Map V) (k j : String) → lookup (delete m k) j ≡ (if k == j then none else lookup m j)
  unfolding lookup delete
  lookup-delete [] k j = ground arith
  lookup-delete ((i, w) ∷ m) k j =
      ground (arith, lookup-delete m k j, eq_iff i k, eq_iff i j, eq_iff k j)

pub lookup-nil {ℓ} : {V : Type ℓ} (k : String) → lookup {V = V} [] k ≡ none
unfolding lookup
lookup-nil k = refl

module _ {ℓ} {V : Type ℓ} (m : Map V) (k j : String) where
  -- What a look-up finds after a write: the value written, or what was there under another key.
  pub lookup-insert_cases :
      (v w : V)
      → lookup (insert m k v) j ≡ some w
      → ((k ≡ j) × (v ≡ w)) ⊎ ((k ≢ j) × (lookup m j ≡ some w))
  lookup-insert_cases v w h = elim (Bool-cases (k == j)) [
    | inl same ↦ inl ((==-true k j same), cc (lookup-insert m k j v, same, h))
    | inr other ↦ inr ((==-false k j other), cc (lookup-insert m k j v, other, h))
  ]

  pub lookup-delete-some :
      (w : V) → lookup (delete m k) j ≡ some w → (k ≢ j) × (lookup m j ≡ some w)
  lookup-delete-some w h = elim (Bool-cases (k == j)) [
    | inl same ↦ absurd (cc (lookup-delete m k j, same, h))
    | inr other ↦ ((==-false k j other), cc (lookup-delete m k j, other, h))
  ]

  pub lookup-insert_ne : (v : V) → k ≢ j → lookup (insert m k v) j ≡ lookup m j
  lookup-insert_ne v h = ground (arith, lookup-insert m k j v, eq_iff k j)

pub lookup-insert_self {ℓ} :
    {V : Type ℓ} (m : Map V) (k : String) (v : V) → lookup (insert m k v) k ≡ some v
lookup-insert_self m k v = ground (arith, lookup-insert m k k v, eq_iff k k)
