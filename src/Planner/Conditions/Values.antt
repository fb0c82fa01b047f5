-- ===== src/Planner/Conditions/Values.antt =====
-- Scalar and Contains of pkg/dra/metadata.go, and `equal` of pkg/planner/planner.go, against what an
-- attribute shows and lists.
use mathlib.Core.List.{Memᴰ}
use mathlib.Core.List.Memᴰ
use mathlib.Core.List.Memᴰ.{head, tail}
use claim2kernel.Base.{
  ==-true, Bool, Bool-cases, List, Option-cases, [], arith, contains, eq_refl, false, inl, inr,
  none, refl, some, subst, sym, true, ◌-◌, ◌^◌, ◌||◌, ◌∷◌, ◌≡◌, ◌⊎◌,
}
use claim2kernel.Base.Int.{ltb_ℤ, negsuc, pos, sub_ℕ, ℤ, ◌≤ℤ◌}
use claim2kernel.Contract.Value.{
  Value, bool_value, max_exact_integer, number_value, string_value, unset,
}
use claim2kernel.Dra.{Attribute}
use claim2kernel.Dra.Attributes.{
  any_bool, any_int, bool_eq, elements, equal_value, exact_int, list_contains, scalar,
}
use claim2kernel.Float64.{Float64, eqf, from_int}
use claim2kernel.Planner.Conditions.{
  Equals, Lists, Shows, equal_numbers, equal_texts, equal_truths, lists_bool, lists_int,
  lists_string, lists_version, shows_bool, shows_int, shows_string, shows_version,
}
use claim2kernel.Planner.Devices.{equal}

pub Equals-of_test : (v w : Value) → equal_value v w ≡ true → Equals v w
unfolding equal_value
Equals-of_test (number_value x) (number_value y) h = equal_numbers x y h
Equals-of_test (string_value s) (string_value t) h =
    subst (λ z. Equals (string_value s) (string_value z)) (==-true s t h) (equal_texts s)
Equals-of_test (bool_value true) (bool_value true) h = equal_truths true
Equals-of_test (bool_value false) (bool_value false) h = equal_truths false
Equals-of_test (bool_value true) (bool_value false) h = absurd (cc (h))
Equals-of_test (bool_value false) (bool_value true) h = absurd (cc (h))
Equals-of_test unset w h = absurd (cc (h))
Equals-of_test (number_value x) unset h = absurd (cc (h))
Equals-of_test (number_value x) (string_value t) h = absurd (cc (h))
Equals-of_test (number_value x) (bool_value b) h = absurd (cc (h))
Equals-of_test (string_value s) unset h = absurd (cc (h))
Equals-of_test (string_value s) (number_value y) h = absurd (cc (h))
Equals-of_test (string_value s) (bool_value b) h = absurd (cc (h))
Equals-of_test (bool_value b) unset h = absurd (cc (h))
Equals-of_test (bool_value b) (number_value y) h = absurd (cc (h))
Equals-of_test (bool_value b) (string_value t) h = absurd (cc (h))

pub test_of_Equals : (v w : Value) → Equals v w → equal_value v w ≡ true
unfolding equal_value
test_of_Equals v w (equal_numbers x y h) = h
test_of_Equals v w (equal_texts s) = eq_refl s
test_of_Equals v w (equal_truths true) = refl
test_of_Equals v w (equal_truths false) = refl

-- The planner's `equal` has the same text.
pub equal-equal_value : (v w : Value) → equal v w ≡ equal_value v w
unfolding equal equal_value
equal-equal_value unset w = refl
equal-equal_value (number_value x) w = refl
equal-equal_value (string_value x) w = refl
equal-equal_value (bool_value x) w = refl

or_false : (b c : Bool) → (b || c) ≡ false → (b ≡ false) × (c ≡ false)
or_false true c h = absurd (cc (h))
or_false false c h = (refl, h)

both_false : (b c : Bool) → b ≡ false → c ≡ false → (b || c) ≡ false
both_false true c h k = h
both_false false c h k = k

abbrev is_far : ℤ → Bool
is_far i = ltb_ℤ (pos max_exact_integer) i || ltb_ℤ i (sub_ℕ 0 max_exact_integer)

IsExact-of_test : (i : ℤ) → is_far i ≡ false → (negsuc (2 ^ 53 - 2) ≤ℤ i) × (i ≤ℤ pos (2 ^ 53 - 1))
IsExact-of_test (pos n) h =
    let k =
      or_false (ltb_ℤ (pos max_exact_integer) (pos n)) (ltb_ℤ (pos n) (sub_ℕ 0 max_exact_integer))
        h in
    (omega arith, ground (arith, k.0))
IsExact-of_test (negsuc n) h =
    let k =
      or_false (ltb_ℤ (pos max_exact_integer) (negsuc n))
        (ltb_ℤ (negsuc n) (sub_ℕ 0 max_exact_integer)) h in
    (ground (arith, k.1), omega arith)

test_of_IsExact : (i : ℤ) → negsuc (2 ^ 53 - 2) ≤ℤ i → i ≤ℤ pos (2 ^ 53 - 1) → is_far i ≡ false
test_of_IsExact (pos n) low high =
    both_false (ltb_ℤ (pos max_exact_integer) (pos n)) (ltb_ℤ (pos n) (sub_ℕ 0 max_exact_integer))
      (ground (arith, high)) (ground arith)
test_of_IsExact (negsuc n) low high =
    both_false (ltb_ℤ (pos max_exact_integer) (negsuc n))
      (ltb_ℤ (negsuc n) (sub_ℕ 0 max_exact_integer)) (ground arith) (ground (arith, low))

exact_int-some :
    (i : ℤ) (v : Value)
    → exact_int i ≡ some v
    → (negsuc (2 ^ 53 - 2) ≤ℤ i) × (i ≤ℤ pos (2 ^ 53 - 1)) × (number_value (from_int i) ≡ v)
unfolding exact_int
exact_int-some i v h =
    elim (Bool-cases (ltb_ℤ (pos max_exact_integer) i || ltb_ℤ i (sub_ℕ 0 max_exact_integer))) [
      | inl far ↦ absurd (cc (rw (far, exact_int) at h))
      | inr near ↦
          let (low, high) = IsExact-of_test i near in (low, high, cc (rw (near, exact_int) at h))
    ]

exact_int-near :
    (i : ℤ)
    → negsuc (2 ^ 53 - 2) ≤ℤ i
    → i ≤ℤ pos (2 ^ 53 - 1)
    → exact_int i ≡ some (number_value (from_int i))
unfolding exact_int
exact_int-near i low high =
    let near : (ltb_ℤ (pos max_exact_integer) i || ltb_ℤ i (sub_ℕ 0 max_exact_integer)) ≡ false =
      test_of_IsExact i low high in
    rw (near, exact_int) refl

-- Scalar gives a value exactly where the attribute shows it.
pub Shows-of_scalar : (a : Attribute) (v : Value) → scalar a ≡ some v → Shows a v
unfolding scalar
Shows-of_scalar a v h = elim (Option-cases a.int) [
  | inr (i, found) ↦
      let (low, high, one) = exact_int-some i v (rw (found, scalar) at h) in
      subst (Shows a) one (shows_int i found low high)
  | inl no_int ↦ elim (Option-cases a.bool) [
    | inr (b, found) ↦
        subst (Shows a) (cc (rw (no_int, found, scalar) at h)) (shows_bool b no_int found)
    | inl no_bool ↦ elim (Option-cases a.string) [
      | inr (s, found) ↦
          subst (Shows a) (cc (rw (no_int, no_bool, found, scalar) at h))
            (shows_string s no_int no_bool found)
      | inl no_string ↦ elim (Option-cases a.version) [
        | inr (s, found) ↦
            subst (Shows a) (cc (rw (no_int, no_bool, no_string, found, scalar) at h))
              (shows_version s no_int no_bool no_string found)
        | inl no_version ↦ absurd (cc (rw (no_int, no_bool, no_string, no_version, scalar) at h))
      ]
    ]
  ]
]

pub scalar_of_Shows : (a : Attribute) (v : Value) → Shows a v → scalar a ≡ some v
unfolding scalar
scalar_of_Shows a v (shows_int i e low high) = rw (e, exact_int-near i low high) refl
scalar_of_Shows a v (shows_bool b n e) = rw (n, e) refl
scalar_of_Shows a v (shows_string s n k e) = rw (n, k, e) refl
scalar_of_Shows a v (shows_version s n k l e) = rw (n, k, l, e) refl

or_cases : (b c : Bool) → (b || c) ≡ true → (b ≡ true) ⊎ (c ≡ true)
or_cases true c h = inl refl
or_cases false c h = inr h

or_true : (b c : Bool) → c ≡ true → (b || c) ≡ true
or_true true c h = refl
or_true false c h = h

any_int-Memᴰ :
    (is : List ℤ) (x : Float64)
    → any_int is x ≡ true
    → (i : ℤ) × Memᴰ i is × (eqf (from_int i) x ≡ true)
unfolding any_int
any_int-Memᴰ [] x h = absurd (cc (h))
any_int-Memᴰ (i ∷ is) x h = elim (or_cases (eqf (from_int i) x) (any_int is x) h) [
  | inl this ↦ (i, head refl, this)
  | inr rest ↦ let (j, place, equal_there) = any_int-Memᴰ is x rest in (j, tail place, equal_there)
]

any_int_of_Memᴰ :
    (i : ℤ) (is : List ℤ) (x : Float64)
    → Memᴰ i is
    → eqf (from_int i) x ≡ true
    → any_int is x ≡ true
unfolding any_int
any_int_of_Memᴰ i [] x m h = absurd (Memᴰ.not-nil m)
any_int_of_Memᴰ i (j ∷ is) x (head e) h = subst (λ z. any_int (z ∷ is) x ≡ true) e (rw h refl)
any_int_of_Memᴰ i (j ∷ is) x (tail place) h =
    or_true (eqf (from_int j) x) (any_int is x) (any_int_of_Memᴰ i is x place h)

bool_eq-≡ : (b c : Bool) → bool_eq b c ≡ true → b ≡ c
bool_eq-≡ true true h = refl
bool_eq-≡ true false h = absurd (cc (h))
bool_eq-≡ false true h = absurd (cc (h))
bool_eq-≡ false false h = refl

any_bool-Memᴰ : (bs : List Bool) (b : Bool) → any_bool bs b ≡ true → Memᴰ b bs
unfolding any_bool
any_bool-Memᴰ [] b h = absurd (cc (h))
any_bool-Memᴰ (c ∷ bs) b h = elim (or_cases (bool_eq c b) (any_bool bs b) h) [
  | inl this ↦ head (sym (bool_eq-≡ c b this))
  | inr rest ↦ tail (any_bool-Memᴰ bs b rest)
]

bool_eq_refl : (b : Bool) → bool_eq b b ≡ true
bool_eq_refl true = refl
bool_eq_refl false = refl

any_bool_of_Memᴰ : (b : Bool) (bs : List Bool) → Memᴰ b bs → any_bool bs b ≡ true
unfolding any_bool
any_bool_of_Memᴰ b [] m = absurd (Memᴰ.not-nil m)
any_bool_of_Memᴰ b (c ∷ bs) (head e) =
    subst (λ z. any_bool (z ∷ bs) b ≡ true) e (rw (bool_eq_refl b) refl)
any_bool_of_Memᴰ b (c ∷ bs) (tail place) =
    or_true (bool_eq c b) (any_bool bs b) (any_bool_of_Memᴰ b bs place)

pub Lists-of_test : (a : Attribute) (v : Value) → list_contains a v ≡ true → Lists a v
unfolding list_contains
Lists-of_test a unset h = absurd (cc (h))
Lists-of_test a (number_value x) h =
    let (i, place, same_number) = any_int-Memᴰ (elements a.ints) x h in
    lists_int i x place same_number
Lists-of_test a (bool_value b) h = lists_bool b (any_bool-Memᴰ (elements a.bools) b h)
Lists-of_test a (string_value s) h =
    elim (or_cases (contains (elements a.strings) s) (contains (elements a.versions) s) h) [
      | inl this ↦ lists_string s this
      | inr this ↦ lists_version s this
    ]

pub test_of_Lists : (a : Attribute) (v : Value) → Lists a v → list_contains a v ≡ true
unfolding list_contains
test_of_Lists a v (lists_int i x place h) = any_int_of_Memᴰ i (elements a.ints) x place h
test_of_Lists a v (lists_bool b place) = any_bool_of_Memᴰ b (elements a.bools) place
test_of_Lists a v (lists_string s h) = rw h refl
test_of_Lists a v (lists_version s h) =
    or_true (contains (elements a.strings) s) (contains (elements a.versions) s) h

pub none_shown : (a : Attribute) → scalar a ≡ none → (v : Value) → ¬ Shows a v
none_shown a h v k = absurd (cc (h, scalar_of_Shows a v k))
