-- ===== src/Decimal/Floor.antt =====
-- Division and rounding down, as far as sizes and budgets need them: the floor of a decimal is at
-- most the decimal, and a size that is at most a quotient costs at most the dividend.
use mathlib.Core.Path.{subst}
use native.Mathlib.Nat.{div-mul-le_self}
use kometa.Prelude.{ℕ, suc, ◌+◌, ◌-◌, ◌*◌, ◌/◌, ◌≤◌, ◌≡◌, sym, ◌∙◌, ok, arith, lt→ltb, ok-injective}
use kometa.Decimal.{Decimal, den, dec_zero, ◌*ℚ◌, ◌≤ℚ◌, ◌<ℚ◌, div_up, div_ℚ, floor_ℚ}

pub floor_ℚ-le : (x : Decimal) → floor_ℚ x ≤ℚ x
unfolding floor_ℚ
floor_ℚ-le x =
    ground (arith, div-mul-le_self (x.up - x.down) (den x), ceil_ge (x.down - x.up) x.below)
  where
    ceil_ge : (n b : ℕ) → n ≤ (n + b) / suc b * suc b
    ceil_ge n b = grind arith

-- Cross-multiplied, with the divisor's amount less one as n.
quotient_bound :
    (zu zd zb xu xd xb yu yd yb n : ℕ)
    → yu ≡ yd + suc n
    → zu * (suc xb * suc n) + xd * suc yb * suc zb ≤ xu * suc yb * suc zb + zd * (suc xb * suc n)
    → (zu * yu + zd * yd) * suc xb + xd * (suc zb * suc yb)
      ≤ xu * (suc zb * suc yb) + (zu * yd + zd * yu) * suc xb
quotient_bound zu zd zb xu xd xb yu yd yb n e h = rw e (omega arith)

pub pos_parts : (y : Decimal) → dec_zero <ℚ y → y.up ≡ y.down + suc (y.up - y.down - 1)
pos_parts y h = omega arith

-- Division by a positive decimal does not fail.
pub div_ℚ_pos :
    {E : Type 0} (e : E) (x y : Decimal)
    → dec_zero <ℚ y
    → div_ℚ e x y ≡ ok (div_up x y (y.up - y.down - 1))
unfolding div_ℚ
div_ℚ_pos e x y h = rw (lt→ltb y.down y.up (omega arith))

mul_ℚ-le_of_le-div_up :
    (x y z : Decimal) → dec_zero <ℚ y → z ≤ℚ div_up x y (y.up - y.down - 1) → z *ℚ y ≤ℚ x
unfolding div_up ◌*ℚ◌
mul_ℚ-le_of_le-div_up x y z pos le =
    let n = y.up - y.down - 1 in
    omega (
      arith,
      quotient_bound z.up z.down z.below x.up x.down x.below y.up y.down y.below n (pos_parts y pos)
          (omega arith),
    )

-- A size z that is at most budget / cost costs at most the budget.
pub mul_ℚ-le_of_le-div :
    {E : Type 0} (e : E) (x y z q : Decimal)
    → dec_zero <ℚ y
    → div_ℚ e x y ≡ ok q
    → z ≤ℚ q
    → z *ℚ y ≤ℚ x
mul_ℚ-le_of_le-div e x y z q pos h le =
    mul_ℚ-le_of_le-div_up x y z pos
      (subst (λ r. z ≤ℚ r) (ok-injective (sym h ∙ div_ℚ_pos e x y pos)) le)
