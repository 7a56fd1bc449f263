-- ===== src/Decimal/Signs.antt =====
-- Signs: products of positive decimals, distances, and bounds from a failed test.
use kometa.Prelude.{ℕ, suc, ◌+◌, ◌-◌, ◌*◌, ◌<◌, ◌≡◌, arith}
use kometa.Decimal.{Decimal, dec, dec_zero, ◌+ℚ◌, ◌-ℚ◌, ◌*ℚ◌, ◌≤ℚ◌, ◌<ℚ◌, abs_ℚ}
use kometa.Decimal.Floor.{pos_parts}

-- With the amounts m + 1 and n + 1 of the factors.
mul_parts : (a b c d m n : ℕ) → a ≡ b + suc m → c ≡ d + suc n → a * d + b * c < a * c + b * d
mul_parts a b c d m n p q = rw (p, q) (omega arith)

pub mul_ℚ_pos : (x y : Decimal) → dec_zero <ℚ x → dec_zero <ℚ y → dec_zero <ℚ x *ℚ y
unfolding ◌*ℚ◌
mul_ℚ_pos x y p q = omega (
  arith,
  mul_parts x.up x.down y.up y.down (x.up - x.down - 1) (y.up - y.down - 1) (pos_parts x p)
      (pos_parts y q),
)

-- The distance of two different prices is positive.
pub abs_sub_pos_gt : (x y : Decimal) → y <ℚ x → dec_zero <ℚ abs_ℚ (x -ℚ y)
unfolding abs_ℚ ◌-ℚ◌
abs_sub_pos_gt x y h = ground arith

pub abs_sub_pos_lt : (x y : Decimal) → x <ℚ y → dec_zero <ℚ abs_ℚ (x -ℚ y)
unfolding abs_ℚ ◌-ℚ◌
abs_sub_pos_lt x y h = ground arith

pub add_one_pos : (x : Decimal) → dec_zero ≤ℚ x → dec_zero <ℚ x +ℚ dec 1
unfolding ◌+ℚ◌
add_one_pos x h = omega arith
