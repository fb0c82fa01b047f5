-- ===== src/Float64/Order.antt =====
-- Go's float64: the comparisons are a total order on what is not NaN.
use claim2kernel.Base.{arith, false, true, ◌≡◌}
use claim2kernel.Float64.{Float64, eqf, is_nan, lef, ltf}

pub ltf_trans : (a b c : Float64) → ltf a b ≡ true → ltf b c ≡ true → ltf a c ≡ true
unfolding ltf
ltf_trans a b c h k = ground arith

pub ltf_irrefl : (a : Float64) → ltf a a ≡ false
unfolding ltf
ltf_irrefl a = ground arith

pub eqf→≡ : (a b : Float64) → eqf a b ≡ true → a ≡ b
unfolding eqf
eqf→≡ a b h = ground arith

pub lef_of_not_ltf :
    (a b : Float64) → is_nan a ≡ false → is_nan b ≡ false → ltf a b ≡ false → lef b a ≡ true
unfolding is_nan ltf eqf lef
lef_of_not_ltf a b h k e = ground arith
