-- ===== src/Float64.antt =====
-- Go's `float64` (IEEE 754 binary64) with the operations that the program uses. A finite value is
-- held exactly, as its multiple of 2^-1074, which every finite double is; sums and products round
-- to nearest, ties to even, and overflow to an infinity. The two zeros are one value here: no
-- operation below tells them apart. A product and a sum are rounded one after the other (no FMA).
pub mod Order
use Prim.Native.Nat.{max}
use claim2kernel.Base.{
  Bool, false, if◌then◌else◌, ltb, nat_eq, not, refl, suc, true, zero, ℕ, ◌%◌, ◌&&◌, ◌*◌, ◌+◌, ◌-◌,
  ◌/◌, ◌^◌, ◌||◌, ◌≡◌,
}
use claim2kernel.Base.Int.{eq_ℤ, ltb_ℤ, neg_part, negsuc, pos, pos_part, sub_ℕ, ℤ, ◌*ℤ◌, ◌+ℤ◌}

pub data Float64 : Type 0 where
  nan : Float64
  inf_pos : Float64
  inf_neg : Float64
  fin : ℤ → Float64

-- The number of binary digits of a number below 2 ^ fuel.
bit_length : ℕ → ℕ → ℕ
bit_length zero n = 0
bit_length (suc fuel) n = elim (nat_eq n 0) [ true ↦ 0 | false ↦ suc (bit_length fuel (n / 2)) ]

-- Magnitudes are below 2 ^ 2098 units, so a product of two is below 2 ^ 4196.
abbrev bits_fuel : ℕ
bits_fuel = 4200

-- n / 2 ^ scale to 53 significant bits (or to a whole unit), to nearest, ties to even.
round_units : ℕ → ℕ → ℕ
unfolding bit_length
round_units n scale =
    let k = max scale (bit_length bits_fuel n - 53) in
    let d = 2 ^ k in
    let q = n / d in
    let r = n % d in
    let up = ltb d (2 * r) || (nat_eq (2 * r) d && nat_eq (q % 2) 1) in
    (if up then q + 1 else q) * 2 ^ (k - scale)

round_magnitude : ℤ → ℕ → Float64
round_magnitude (pos n) m = if ltb m (2 ^ 2098) then fin (pos m) else inf_pos
round_magnitude (negsuc n) m = if ltb m (2 ^ 2098) then fin (sub_ℕ 0 m) else inf_neg

-- The float nearest to z / 2 ^ scale units.
round_to_float : ℤ → ℕ → Float64
unfolding round_magnitude round_units
round_to_float z scale = round_magnitude z (round_units (pos_part z + neg_part z) scale)

unfoldable pub is_nan : Float64 → Bool
is_nan nan = true
is_nan _ = false

-- math.IsInf(v, 0)
unfoldable pub is_inf : Float64 → Bool
is_inf inf_pos = true
is_inf inf_neg = true
is_inf _ = false

abbrev neg : Float64 → Float64
neg nan = nan
neg inf_pos = inf_neg
neg inf_neg = inf_pos
neg (fin z) = fin (sub_ℕ (neg_part z) (pos_part z))

infixl 65 ◌+f◌ ◌-f◌
infixl 70 ◌*f◌
unfoldable pub ◌+f◌ : Float64 → Float64 → Float64
unfolding round_to_float ◌+ℤ◌
fin a +f fin b = round_to_float (a +ℤ b) 0
nan +f _ = nan
_ +f nan = nan
inf_pos +f inf_neg = nan
inf_neg +f inf_pos = nan
inf_pos +f _ = inf_pos
inf_neg +f _ = inf_neg
fin _ +f inf_pos = inf_pos
fin _ +f inf_neg = inf_neg

unfoldable pub ◌-f◌ : Float64 → Float64 → Float64
unfolding ◌+f◌
a -f b = a +f neg b

pub data Sign : Type 0 where
  none_of : Sign
  zero_of : Sign
  plus : Sign
  minus : Sign

abbrev sign : Float64 → Sign
sign nan = none_of
sign inf_pos = plus
sign inf_neg = minus
sign (fin (pos zero)) = zero_of
sign (fin (pos (suc n))) = plus
sign (fin (negsuc n)) = minus

-- A product with an infinite factor.
abbrev inf_times : Sign → Sign → Float64
inf_times plus plus = inf_pos
inf_times minus minus = inf_pos
inf_times plus minus = inf_neg
inf_times minus plus = inf_neg
inf_times _ _ = nan

unfoldable pub ◌*f◌ : Float64 → Float64 → Float64
unfolding round_to_float ◌*ℤ◌
fin a *f fin b = round_to_float (a *ℤ b) 1074
a *f b = inf_times (sign a) (sign b)

-- The comparisons: false whenever an operand is NaN.
unfoldable pub ltf : Float64 → Float64 → Bool
ltf (fin a) (fin b) = ltb_ℤ a b
ltf (fin _) inf_pos = true
ltf inf_neg (fin _) = true
ltf inf_neg inf_pos = true
ltf _ _ = false

unfoldable pub eqf : Float64 → Float64 → Bool
eqf (fin a) (fin b) = eq_ℤ a b
eqf inf_pos inf_pos = true
eqf inf_neg inf_neg = true
eqf _ _ = false

unfoldable pub lef : Float64 → Float64 → Bool
unfolding ltf eqf
lef a b = ltf a b || eqf a b

-- math.Trunc
unfoldable pub trunc : Float64 → Float64
trunc (fin (pos n)) = fin (pos (n / 2 ^ 1074 * 2 ^ 1074))
trunc (fin (negsuc n)) = fin (sub_ℕ 0 (suc n / 2 ^ 1074 * 2 ^ 1074))
trunc v = v

-- float64(i) of an integer
unfoldable pub from_int : ℤ → Float64
unfolding round_to_float ◌*ℤ◌
from_int z = round_to_float (z *ℤ pos (2 ^ 1074)) 0

-- math.Abs
unfoldable pub absf : Float64 → Float64
absf (fin z) = fin (pos (pos_part z + neg_part z))
absf inf_neg = inf_pos
absf v = v

-- math.Max
unfoldable pub maxf : Float64 → Float64 → Float64
unfolding ltf
maxf nan inf_pos = inf_pos
maxf inf_pos nan = inf_pos
maxf nan _ = nan
maxf _ nan = nan
maxf a b = if ltf a b then b else a

-- A magnitude in half-units of 2 ^ -1074, its last bit set if something was cut off.
abbrev sticky : ℕ → Bool → ℕ
sticky n cut = 2 * n + (if cut then 1 else 0)

divide_magnitudes : ℕ → ℕ → ℕ
unfolding round_units
divide_magnitudes a b =
    let n = a * 2 ^ 1075 in round_units (sticky (n / b) (not (nat_eq (n % b) 0))) 2

-- A quotient; a finite number over zero takes the sign of a positive zero.
infixl 70 ◌/f◌
unfoldable pub ◌/f◌ : Float64 → Float64 → Float64
unfolding round_magnitude divide_magnitudes ◌*ℤ◌
nan /f _ = nan
_ /f nan = nan
fin a /f fin (pos zero) = elim (sign (fin a)) [ plus ↦ inf_pos | minus ↦ inf_neg | _ ↦ nan ]
fin a /f fin b =
    round_magnitude (a *ℤ b) (divide_magnitudes (pos_part a + neg_part a) (pos_part b + neg_part b))
fin a /f _ = fin (pos 0)
a /f fin b = inf_times (sign a) (elim (sign (fin b)) [ minus ↦ minus | _ ↦ plus ])
_ /f _ = nan

-- The integer square root, by Newton's steps down from above.
isqrt_from : ℕ → ℕ → ℕ → ℕ
isqrt_from zero n x = x
isqrt_from (suc fuel) n x =
    let y = (x + n / x) / 2 in elim (ltb y x) [ true ↦ isqrt_from fuel n y | false ↦ x ]

-- math.Sqrt. The root of a number below 2 ^ 2 b starts from 2 ^ b; a step more than halves the
-- excess, so that 4200 steps are enough.
unfoldable pub sqrtf : Float64 → Float64
unfolding round_magnitude round_units bit_length isqrt_from
sqrtf (fin (pos zero)) = fin (pos 0)
sqrtf (fin (pos (suc m))) =
    let n = suc m * 2 ^ 1076 in
    let r = isqrt_from bits_fuel n (2 ^ (bit_length bits_fuel n / 2 + 1)) in
    round_magnitude (pos 0) (round_units (sticky r (not (nat_eq (r * r) n))) 2)
sqrtf inf_pos = inf_pos
sqrtf _ = nan

-- m * 2 ^ -k, for literals
unfoldable pub dyadic : ℕ → ℕ → Float64
dyadic m k = fin (pos (m * 2 ^ (1074 - k)))

unfoldable pub f0 : Float64
f0 = fin (pos 0)

unfoldable pub f1 : Float64
f1 = fin (pos (2 ^ 1074))

two_halves : dyadic 1 1 +f dyadic 1 1 ≡ f1
unfolding dyadic ◌+f◌ f1
two_halves = refl

half_of_three : dyadic 1 1 *f dyadic 3 0 ≡ dyadic 3 1
unfolding dyadic ◌*f◌
half_of_three = refl

-- 2^53 + 1 is no double: the tie goes to the even neighbour.
tie_to_even : from_int (pos 9007199254740993) ≡ from_int (pos 9007199254740992)
unfolding from_int
tie_to_even = refl

trunc_below : trunc (dyadic 7 1) ≡ dyadic 3 0
unfolding trunc dyadic
trunc_below = refl

third : f1 /f dyadic 3 0 ≡ dyadic 6004799503160661 54
unfolding ◌/f◌ f1 dyadic
third = refl

root_two : sqrtf (dyadic 2 0) ≡ dyadic 6369051672525773 52
unfolding sqrtf dyadic
root_two = refl

root_four : sqrtf (dyadic 4 0) ≡ dyadic 2 0
unfolding sqrtf dyadic
root_four = refl
