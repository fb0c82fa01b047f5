-- ===== src/Base/Text.antt =====
-- Texts as lists of code points: what the program uses of Go's `strings` and `strconv`.
-- JSON decoding yields valid UTF-8 only, so Go's bytewise order is the order of code points.
use Prim.Native.Char.{code}
use Prim.Native.Nat.{ℕ, ◌+◌, ◌-◌, ◌*◌, ◌^◌}
use Prim.Native.String.{String}
use mathlib.Core.Path.{◌≡◌, refl}
use mathlib.Core.Bool.{Bool, true, false, ◌&&◌, ◌||◌}
use mathlib.Core.Option.{Option, none, some}
use mathlib.Core.List.{List, [], ◌∷◌, reverse}
use claim2kernel.Base.Tests.{ltb, leb, nat_eq, if◌then◌else◌}
use claim2kernel.Base.Int.{ℤ, pos, negsuc, sub_ℕ}

abbrev pub codes : String → List ℕ
codes String.[] = []
codes (String.◌∷◌ c s) = code c ∷ codes s

abbrev pub is_digit : ℕ → Bool
is_digit c = leb b'0' c && leb c b'9'

abbrev pub is_lower : ℕ → Bool
is_lower c = leb b'a' c && leb c b'z'

abbrev pub is_upper : ℕ → Bool
is_upper c = leb b'A' c && leb c b'Z'

-- Unicode's White_Space, which `strings.TrimSpace` cuts.
unfoldable pub is_space : ℕ → Bool
is_space c =
    (leb 9 c && leb c 13)
    || nat_eq c 32
    || nat_eq c 0x85
    || nat_eq c 0xa0
    || nat_eq c 0x1680
    || (leb 0x2000 c && leb c 0x200a)
    || nat_eq c 0x2028
    || nat_eq c 0x2029
    || nat_eq c 0x202f
    || nat_eq c 0x205f
    || nat_eq c 0x3000

unfoldable pub drop_spaces : List ℕ → List ℕ
unfolding is_space
drop_spaces [] = []
drop_spaces (c ∷ s) = let rest = drop_spaces s in if is_space c then rest else c ∷ s

-- strings.TrimSpace
unfoldable pub trim_space : List ℕ → List ℕ
unfolding drop_spaces
trim_space s = reverse (drop_spaces (reverse (drop_spaces s)))

unfoldable pub same_text : List ℕ → List ℕ → Bool
same_text [] [] = true
same_text [] (_ ∷ _) = false
same_text (_ ∷ _) [] = false
same_text (c ∷ s) (d ∷ t) = nat_eq c d && same_text s t

-- Go's `<` on strings.
unfoldable pub text_lt : List ℕ → List ℕ → Bool
text_lt [] [] = false
text_lt [] (_ ∷ _) = true
text_lt (_ ∷ _) [] = false
text_lt (c ∷ s) (d ∷ t) = ltb c d || (nat_eq c d && text_lt s t)

-- The text behind a prefix: `strings.HasPrefix` and `strings.TrimPrefix` in one.
unfoldable pub strip_prefix : List ℕ → List ℕ → Option (List ℕ)
strip_prefix [] s = some s
strip_prefix (_ ∷ _) [] = none
strip_prefix (c ∷ p) (d ∷ s) = let rest = strip_prefix p s in if nat_eq c d then rest else none

unfoldable pub split_cons : ℕ → List (List ℕ) → List (List ℕ)
split_cons c [] = (c ∷ []) ∷ []
split_cons c (w ∷ ws) = (c ∷ w) ∷ ws

-- strings.Split at a one-character separator.
unfoldable pub split : ℕ → List ℕ → List (List ℕ)
unfolding split_cons
split sep [] = [] ∷ []
split sep (c ∷ s) = let rest = split sep s in if nat_eq c sep then [] ∷ rest else split_cons c rest

-- The longest prefix in a class of characters, and the rest.
unfoldable pub span : (ℕ → Bool) → List ℕ → List ℕ × List ℕ
span p [] = ([], [])
span p (c ∷ s) = let rest = span p s in if p c then (c ∷ rest.0, rest.1) else ([], c ∷ s)

unfoldable pub decimal : ℕ → List ℕ → Option ℕ
decimal n [] = some n
decimal n (c ∷ s) = let rest = decimal (n * 10 + (c - b'0')) s in if is_digit c then rest else none

unfoldable pub unsigned : List ℕ → Option ℕ
unfolding decimal
unsigned [] = none
unsigned (c ∷ s) = decimal 0 (c ∷ s)

-- A magnitude within the range of `int64`; the negative side reaches one further.
unfoldable pub signed : Bool → Option ℕ → Option ℤ
signed minus none = none
signed true (some n) = if leb n (2 ^ 63) then some (sub_ℕ 0 n) else none
signed false (some n) = if ltb n (2 ^ 63) then some (pos n) else none

-- strconv.ParseInt(s, 10, 64): an optional sign, then digits; an error if out of range.
unfoldable pub parse_int : List ℕ → Option ℤ
unfolding unsigned signed
parse_int [] = none
parse_int (c ∷ s) =
    if nat_eq c b'-'
    then signed true (unsigned s)
    else if nat_eq c b'+'
    then signed false (unsigned s)
    else signed false (unsigned (c ∷ s))

split_dots : split b'.' (codes "a..b") ≡ codes "a" ∷ [] ∷ codes "b" ∷ []
unfolding split
split_dots = refl

parse_limits :
    (parse_int (codes "9223372036854775808") ≡ none)
    × (parse_int (codes "-9223372036854775808") ≡ some (negsuc 9223372036854775807))
    × (parse_int (codes "+07") ≡ some (pos 7))
unfolding parse_int
parse_limits = (refl, refl, refl)

trims : trim_space (codes "  a b ") ≡ codes "a b"
unfolding trim_space
trims = refl
