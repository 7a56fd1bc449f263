-- ===== src/Decimal.antt =====
-- Python's `decimal.Decimal`, as exact rational numbers: the value of a Decimal is
-- (up - down) / (below + 1). The rounding of the decimal context, to 28 digits, is not modelled.
-- Comparisons go by value, and a division by zero is an error of the caller's choice.
pub mod Order
pub mod Floor
pub mod Signs
use kometa.Prelude.{
  ℕ, suc, ◌+◌, ◌-◌, ◌*◌, ◌/◌, ◌≤◌, ◌<◌, ◌≡◌, Bool, List, [], ◌∷◌, Result, ok, err, ltb, leb, ◌&&◌,
  if◌then◌else◌,
}

pub record Decimal : Type 0 where
  pub up : ℕ
  pub down : ℕ
  pub below : ℕ

abbrev pub den : Decimal → ℕ
den x = suc x.below

-- `Decimal(n)`, and the fraction n / d of two numbers, for d not zero.
abbrev pub dec : ℕ → Decimal
dec n = record { up = n; down = 0; below = 0 }

abbrev pub frac : ℕ → ℕ → Decimal
frac n d = record { up = n; down = 0; below = d - 1 }

-- `ZERO`
abbrev pub dec_zero : Decimal
dec_zero = dec 0

-- The predecessor of the product of two denominators.
abbrev below_mul : ℕ → ℕ → ℕ
below_mul a b = b + a * suc b

infixl 65 ◌+ℚ◌ ◌-ℚ◌
infixl 70 ◌*ℚ◌
infix 50 ◌≤ℚ◌ ◌<ℚ◌
unfoldable pub ◌+ℚ◌ : Decimal → Decimal → Decimal
x +ℚ y = record {
  up = x.up * den y + y.up * den x;
  down = x.down * den y + y.down * den x;
  below = below_mul x.below y.below;
}

unfoldable pub ◌-ℚ◌ : Decimal → Decimal → Decimal
x -ℚ y = record {
  up = x.up * den y + y.down * den x;
  down = x.down * den y + y.up * den x;
  below = below_mul x.below y.below;
}

unfoldable pub ◌*ℚ◌ : Decimal → Decimal → Decimal
x *ℚ y = record {
  up = x.up * y.up + x.down * y.down;
  down = x.up * y.down + x.down * y.up;
  below = below_mul x.below y.below;
}

abbrev pub ◌≤ℚ◌ : Decimal → Decimal → Type 0
x ≤ℚ y = x.up * den y + y.down * den x ≤ y.up * den x + x.down * den y

abbrev pub ◌<ℚ◌ : Decimal → Decimal → Type 0
x <ℚ y = x.up * den y + y.down * den x < y.up * den x + x.down * den y

-- `x <= y`, `x < y` and `x == y`
unfoldable pub leb_ℚ : Decimal → Decimal → Bool
leb_ℚ x y = leb (x.up * den y + y.down * den x) (y.up * den x + x.down * den y)

unfoldable pub ltb_ℚ : Decimal → Decimal → Bool
ltb_ℚ x y = ltb (x.up * den y + y.down * den x) (y.up * den x + x.down * den y)

unfoldable pub eqb_ℚ : Decimal → Decimal → Bool
unfolding leb_ℚ
eqb_ℚ x y = leb_ℚ x y && leb_ℚ y x

-- `min(x, y)` and `max(x, y)`: the first of two equal arguments
unfoldable pub min_ℚ : Decimal → Decimal → Decimal
unfolding ltb_ℚ
min_ℚ x y = if ltb_ℚ y x then y else x

unfoldable pub max_ℚ : Decimal → Decimal → Decimal
unfolding ltb_ℚ
max_ℚ x y = if ltb_ℚ x y then y else x

unfoldable pub neg_ℚ : Decimal → Decimal
neg_ℚ x = record { up = x.down; down = x.up; below = x.below }

-- `abs(x)`
unfoldable pub abs_ℚ : Decimal → Decimal
unfolding neg_ℚ
abs_ℚ x = if ltb x.up x.down then neg_ℚ x else x

-- `x / y` for a divisor that is positive or negative by the amount n + 1.
unfoldable pub div_up : Decimal → Decimal → ℕ → Decimal
div_up x y n = record { up = x.up * den y; down = x.down * den y; below = below_mul x.below n }

unfoldable pub div_down : Decimal → Decimal → ℕ → Decimal
div_down x y n = record { up = x.down * den y; down = x.up * den y; below = below_mul x.below n }

-- `x / y`
unfoldable pub div_ℚ : {E : Type 0} → E → Decimal → Decimal → Result E Decimal
unfolding div_up div_down
div_ℚ zero_division x y =
    if ltb y.down y.up
    then ok (div_up x y (y.up - y.down - 1))
    else if ltb y.up y.down
    then ok (div_down x y (y.down - y.up - 1))
    else err zero_division

-- `x.to_integral_value(rounding=ROUND_FLOOR)`
unfoldable pub floor_ℚ : Decimal → Decimal
floor_ℚ x =
    if leb x.down x.up
    then record { up = (x.up - x.down) / den x; down = 0; below = 0 }
    else record { up = 0; down = (x.down - x.up + x.below) / den x; below = 0 }

-- `sum(xs, ZERO)` adds from the left.
unfoldable pub sum_ℚ : Decimal → List Decimal → Decimal
unfolding ◌+ℚ◌
sum_ℚ acc [] = acc
sum_ℚ acc (x ∷ xs) = sum_ℚ (acc +ℚ x) xs
