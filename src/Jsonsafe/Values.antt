-- ===== src/Jsonsafe/Values.antt =====
-- JSON values as the tokens of pkg/jsonsafe/jsonsafe.go spell them.
use claim2kernel.Base.{List, String, [], contains, false, suc, ℕ, ◌+◌, ◌∷◌, ◌≡◌, ◌≤◌}
use claim2kernel.Jsonsafe.{
  Token, close_array, close_object, open_array, open_object, scalar_token, text_token,
}

mutual
  pub data Json : Type 0 where
    scalar : Json
    text : String → Json
    object : Members → Json
    array : Elements → Json

  pub data Members : Type 0 where
    no_member : Members
    member : String → Json → Members → Members

  pub data Elements : Type 0 where
    no_element : Elements
    element : Json → Elements → Elements

-- The tokens of a value, in front of the rest.
unfoldable mutual
  pub print : Json → List Token → List Token
  print scalar rest = scalar_token ∷ rest
  print (text s) rest = text_token s ∷ rest
  print (object ms) rest = open_object ∷ print_members ms rest
  print (array es) rest = open_array ∷ print_elements es rest

  pub print_members : Members → List Token → List Token
  print_members no_member rest = close_object ∷ rest
  print_members (member key v ms) rest = text_token key ∷ print v (print_members ms rest)

  pub print_elements : Elements → List Token → List Token
  print_elements no_element rest = close_array ∷ rest
  print_elements (element v es) rest = print v (print_elements es rest)

-- No object has a key twice, and no value stands deeper than the maximum.
unfoldable mutual
  unfolding contains

  pub IsStrict : ℕ → ℕ → Json → Type 0
  IsStrict max depth scalar = depth ≤ max
  IsStrict max depth (text s) = depth ≤ max
  IsStrict max depth (object ms) = (depth ≤ max) × AreStrictMembers max depth [] ms
  IsStrict max depth (array es) = (depth ≤ max) × AreStrictElements max depth es

  pub AreStrictMembers : ℕ → ℕ → List String → Members → Type 0
  AreStrictMembers max depth seen no_member = Unit
  AreStrictMembers max depth seen (member key v ms) =
      (contains seen key ≡ false)
      × IsStrict max (suc depth) v
      × AreStrictMembers max depth (key ∷ seen) ms

  pub AreStrictElements : ℕ → ℕ → Elements → Type 0
  AreStrictElements max depth no_element = Unit
  AreStrictElements max depth (element v es) =
      IsStrict max (suc depth) v × AreStrictElements max depth es

-- The fuel that a value takes.
unfoldable mutual
  pub weight : Json → ℕ
  weight scalar = 1
  weight (text s) = 1
  weight (object ms) = suc (weight_members ms)
  weight (array es) = suc (weight_elements es)

  pub weight_members : Members → ℕ
  weight_members no_member = 1
  weight_members (member key v ms) = suc (weight v + weight_members ms)

  pub weight_elements : Elements → ℕ
  weight_elements no_element = 1
  weight_elements (element v es) = suc (weight v + weight_elements es)
