-- ===== src/Sdk/Decimal.antt =====
-- packages/sdk/src/decimal.ts: decimal strings as exact integers scaled by a million.
pub mod RoundTrip
use waterx_predict_agent.Base.{
  ℕ, zero, suc, ◌+◌, ◌-◌, ◌/◌, ◌%◌, ◌==◌, ltb, leb, if◌then◌else◌, Bool, true, false, ◌&&◌, not,
  Option, none, some, List, [], ◌∷◌, ◌++◌, length, replicate, take, drop, Text, all_digits,
  digits_value,
}

abbrev pub scale : ℕ
scale = 6

-- `value.split('.')`: the part before the first point, and what follows it.
abbrev pub split_point : Text → Text × Option Text
split_point [] = ([], none)
split_point (c ∷ cs) =
    let (whole, fraction) = split_point cs in
    if c == b'.' then ([], some cs) else (c ∷ whole, fraction)

abbrev pub is_empty : Text → Bool
is_empty [] = true
is_empty (c ∷ cs) = false

-- `DECIMAL`: digits, and at most one fraction part.
abbrev pub is_decimal_parts : Text × Option Text → Bool
is_decimal_parts (whole, none) = not (is_empty whole) && all_digits whole
is_decimal_parts (whole, some fraction) =
    (not (is_empty whole) && all_digits whole) && (not (is_empty fraction) && all_digits fraction)

abbrev pub fraction_of : Text × Option Text → Text
fraction_of (whole, none) = []
fraction_of (whole, some fraction) = fraction

abbrev pub pad_end : ℕ → Text → Text
pad_end n cs = cs ++ replicate (n - length cs) b'0'

abbrev pub pad_start : ℕ → Text → Text
pad_start n cs = replicate (n - length cs) b'0' ++ cs

-- `none` stands for the `RangeError`.
unfoldable pub to_scaled : Text → Option ℕ
to_scaled value =
    let parts = split_point value in
    if is_decimal_parts parts
    then (if ltb scale (length (fraction_of parts))
        then none
        else some (digits_value 0 (parts.0 ++ pad_end scale (fraction_of parts))))
    else none

-- `BigInt.toString`: the digits of `n`, before `acc`.
print_from : ℕ → ℕ → Text → Text
print_from zero n acc = acc
print_from (suc fuel) n acc =
    let rest = print_from fuel (n / 10) ((b'0' + n % 10) ∷ acc) in
    if ltb n 10 then (b'0' + n) ∷ acc else rest

pub print_digits : ℕ → Text
unfolding print_from
print_digits n = print_from (suc n) n []

-- A scaled number is a natural number here, so the check for a negative one never fails.
unfoldable pub from_scaled : ℕ → Text
unfolding print_digits
from_scaled scaled =
    let digits = pad_start (scale + 1) (print_digits scaled) in
    let cut = length digits - scale in take cut digits ++ b'.' ∷ drop cut digits

pub data Sign : Type 0 where
  less equal greater : Sign

abbrev pub sign : ℕ → ℕ → Sign
sign a b = if ltb a b then Sign.less else if ltb b a then Sign.greater else Sign.equal

unfoldable pub compare_decimal : Text → Text → Option Sign
compare_decimal a b = elim (to_scaled a) [
  | none ↦ none
  | some left ↦ elim (to_scaled b) [ none ↦ none | some right ↦ some (sign left right) ]
]

pub data Side : Type 0 where
  buy sell : Side

abbrev pub at_most : Sign → Bool
at_most Sign.greater = false
at_most _ = true

abbrev pub at_least : Sign → Bool
at_least Sign.less = false
at_least _ = true

abbrev reached : Side → Sign → Bool
reached buy c = at_most c
reached sell c = at_least c

unfoldable pub target_reached : Side → Text → Text → Option Bool
unfolding compare_decimal
target_reached side quoted target = elim (compare_decimal quoted target) [
  | none ↦ none
  | some c ↦ some (reached side c)
]
