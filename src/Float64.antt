-- ===== src/Float64.antt =====
-- Go's `float64` by its values: every finite one is a whole multiple of 2^-1074, so comparisons are
-- those of integers. The two zeros are one value here, which no comparison tells apart. Arithmetic is exact
-- on the integers and then rounded to the nearest value of 53 bits, to even between two.
use match_mind.Base.{
  ℕ, ◌*◌, ◌^◌, Bool, true, false, if◌then◌else◌, leb, ltb, nat_beq, suc, ◌%◌, ◌&&◌, ◌/◌, ◌||◌, zero,
}
use match_mind.Base.Int.{ℤ, pos, ltb_ℤ, leb_ℤ, negsuc, ◌*ℤ◌, ◌+ℤ◌, ◌-ℤ◌}

pub data Float64 : Type 0 where
  nan pos_inf neg_inf : Float64
  finite : ℤ → Float64

-- The number of units in 1.
unfoldable pub unit : ℕ
unit = 2 ^ 1074

-- A whole number as a `float64`.
abbrev pub float : ℕ → Float64
float n = finite (pos (n * unit))

abbrev pub is_nan : Float64 → Bool
is_nan nan = true
is_nan _ = false

abbrev pub is_pos_inf : Float64 → Bool
is_pos_inf pos_inf = true
is_pos_inf _ = false

abbrev pub is_inf : Float64 → Bool
is_inf pos_inf = true
is_inf neg_inf = true
is_inf _ = false

-- `x < y`, which is false where an operand is not a number.
unfoldable pub float_lt : Float64 → Float64 → Bool
float_lt nan y = false
float_lt x nan = false
float_lt pos_inf y = false
float_lt neg_inf neg_inf = false
float_lt neg_inf y = true
float_lt (finite a) pos_inf = true
float_lt (finite a) neg_inf = false
float_lt (finite a) (finite b) = ltb_ℤ a b

unfoldable pub float_le : Float64 → Float64 → Bool
float_le nan y = false
float_le x nan = false
float_le neg_inf y = true
float_le pos_inf pos_inf = true
float_le pos_inf y = false
float_le (finite a) pos_inf = true
float_le (finite a) neg_inf = false
float_le (finite a) (finite b) = leb_ℤ a b

-- `x == y`
abbrev pub float_eq : Float64 → Float64 → Bool
float_eq x y = elim (float_le x y) [ true ↦ float_le y x | false ↦ false ]

-- The bits of `n` beyond 53; `fuel` is above the bits of any `n` that arises, which are fewer than 4300.
unfoldable pub excess : ℕ → ℕ → ℕ
excess zero n = 0
excess (suc fuel) n = elim (ltb n (2 ^ 53)) [ true ↦ 0 | false ↦ suc (excess fuel (n / 2)) ]

-- The units that are nearest to `n / d`.
unfoldable pub nearest : ℕ → ℕ → ℕ
unfolding excess
nearest n d =
    let e = excess 4300 (n / d) in
    let w = d * 2 ^ e in
    let q = n / w in
    let twice = 2 * (n % w) in
    if ltb w twice || (nat_beq w twice && nat_beq (q % 2) 1) then suc q * 2 ^ e else q * 2 ^ e

-- `a / d` units as a `float64`.
unfoldable pub rounded : ℤ → ℕ → Float64
unfolding nearest
rounded (pos n) d = let m = nearest n d in if leb (2 ^ 2098) m then pos_inf else finite (pos m)
rounded (negsuc n) d =
    let m = nearest (suc n) d in if leb (2 ^ 2098) m then neg_inf else finite (pos 0 -ℤ pos m)

-- The literal `n / d`.
abbrev pub float_ratio : ℕ → ℕ → Float64
float_ratio n d = rounded (pos (n * unit)) d

-- `float64(n)` of an `int`.
abbrev pub float_of : ℤ → Float64
float_of n = rounded (n *ℤ pos unit) 1

abbrev pub float_neg : Float64 → Float64
float_neg nan = nan
float_neg pos_inf = neg_inf
float_neg neg_inf = pos_inf
float_neg (finite a) = finite (pos 0 -ℤ a)

unfoldable pub float_add : Float64 → Float64 → Float64
unfolding rounded
float_add nan y = nan
float_add x nan = nan
float_add pos_inf neg_inf = nan
float_add neg_inf pos_inf = nan
float_add pos_inf y = pos_inf
float_add neg_inf y = neg_inf
float_add x pos_inf = pos_inf
float_add x neg_inf = neg_inf
float_add (finite a) (finite b) = rounded (a +ℤ b) 1

abbrev pub float_sub : Float64 → Float64 → Float64
float_sub x y = float_add x (float_neg y)

-- A product with an infinity, by the other factor.
abbrev inf_times : Bool → Float64 → Float64
inf_times negative nan = nan
inf_times negative pos_inf = if negative then neg_inf else pos_inf
inf_times negative neg_inf = if negative then pos_inf else neg_inf
inf_times negative (finite (pos zero)) = nan
inf_times negative (finite (pos (suc n))) = if negative then neg_inf else pos_inf
inf_times negative (finite (negsuc n)) = if negative then pos_inf else neg_inf

unfoldable pub float_mul : Float64 → Float64 → Float64
unfolding rounded
float_mul nan y = nan
float_mul pos_inf y = inf_times false y
float_mul neg_inf y = inf_times true y
float_mul (finite a) nan = nan
float_mul (finite a) pos_inf = inf_times false (finite a)
float_mul (finite a) neg_inf = inf_times true (finite a)
float_mul (finite a) (finite b) = rounded (a *ℤ b) unit

-- `x / float64(n)` for a positive `n`.
unfoldable pub float_over : Float64 → ℕ → Float64
unfolding rounded
float_over nan n = nan
float_over pos_inf n = pos_inf
float_over neg_inf n = neg_inf
float_over (finite a) n = rounded a n

-- `x / y`. The zero of this model stands for +0 as a divisor.
unfoldable pub float_div : Float64 → Float64 → Float64
unfolding rounded
float_div nan y = nan
float_div x nan = nan
float_div (finite a) (finite (pos zero)) = inf_times false (finite a)
float_div (finite a) (finite (pos (suc b))) = rounded (a *ℤ pos unit) (suc b)
float_div (finite a) (finite (negsuc b)) = rounded ((pos 0 -ℤ a) *ℤ pos unit) (suc b)
float_div (finite a) pos_inf = float 0
float_div (finite a) neg_inf = float 0
float_div pos_inf (finite (negsuc b)) = neg_inf
float_div pos_inf (finite (pos b)) = pos_inf
float_div neg_inf (finite (negsuc b)) = pos_inf
float_div neg_inf (finite (pos b)) = neg_inf
float_div x y = nan

abbrev pub float_abs : Float64 → Float64
float_abs x = if float_lt x (float 0) then float_neg x else x

-- `math.Max(x, y)`
abbrev pub float_max : Float64 → Float64 → Float64
float_max nan y = if is_pos_inf y then pos_inf else nan
float_max x nan = if is_pos_inf x then pos_inf else nan
float_max x y = if float_lt x y then y else x

-- `int(x)` for a finite `x`, which drops the fraction.
abbrev pub truncate : Float64 → ℤ
truncate (finite (pos n)) = pos (n / unit)
truncate (finite (negsuc n)) = pos 0 -ℤ pos (suc n / unit)
truncate _ = pos 0
