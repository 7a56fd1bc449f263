-- ===== src/Decimal/Order.antt =====
-- The order of decimals: the tests decide it, it is total and transitive, and `min` and `max` are
-- its bounds.
use native.Mathlib.Nat.{le_of_mul-le-mul_left, lt_of_mul-lt-mul_left, mul-le-mul_right, zero-lt-suc}
use kometa.Prelude.{ℕ, suc, ◌+◌, ◌*◌, ◌≤◌, ◌<◌, ◌≡◌, ◌⊎◌, true, false, arith}
use kometa.Decimal.{Decimal, ◌≤ℚ◌, ◌<ℚ◌, leb_ℚ, ltb_ℚ, min_ℚ, max_ℚ}

pub leb→≤ℚ : (x y : Decimal) → leb_ℚ x y ≡ true → x ≤ℚ y
unfolding leb_ℚ
leb→≤ℚ x y h = ground arith

pub ≤ℚ→leb : (x y : Decimal) → x ≤ℚ y → leb_ℚ x y ≡ true
unfolding leb_ℚ
≤ℚ→leb x y h = ground arith

pub leb-false : (x y : Decimal) → leb_ℚ x y ≡ false → y <ℚ x
unfolding leb_ℚ
leb-false x y h = ground arith

pub ltb→<ℚ : (x y : Decimal) → ltb_ℚ x y ≡ true → x <ℚ y
unfolding ltb_ℚ
ltb→<ℚ x y h = ground arith

pub <ℚ→ltb : (x y : Decimal) → x <ℚ y → ltb_ℚ x y ≡ true
unfolding ltb_ℚ
<ℚ→ltb x y h = ground arith

pub ltb-false : (x y : Decimal) → ltb_ℚ x y ≡ false → y ≤ℚ x
unfolding ltb_ℚ
ltb-false x y h = ground arith

pub ≤ℚ_refl : (x : Decimal) → x ≤ℚ x
≤ℚ_refl x = omega arith

pub ≤ℚ_total : (x y : Decimal) → (x ≤ℚ y) ⊎ (y <ℚ x)
≤ℚ_total x y = omega arith

pub <ℚ_≤ℚ : (x y : Decimal) → x <ℚ y → x ≤ℚ y
<ℚ_≤ℚ x y h = omega arith

-- Cross-multiplied, the middle denominator cancels.
cross_trans :
    (a a' b b' c c' p q r : ℕ)
    → a * suc q + b' * suc p ≤ b * suc p + a' * suc q
    → b * suc r + c' * suc q ≤ c * suc q + b' * suc r
    → a * suc r + c' * suc p ≤ c * suc p + a' * suc r
cross_trans a a' b b' c c' p q r h k =
    le_of_mul-le-mul_left {k = suc q}
      (omega (arith, mul-le-mul_right (suc r) h, mul-le-mul_right (suc p) k)) (zero-lt-suc q)

pub ≤ℚ_trans : (x y z : Decimal) → x ≤ℚ y → y ≤ℚ z → x ≤ℚ z
≤ℚ_trans x y z h k = cross_trans x.up x.down y.up y.down z.up z.down x.below y.below z.below h k

cross_trans_lt :
    (a a' b b' c c' p q r : ℕ)
    → a * suc q + b' * suc p < b * suc p + a' * suc q
    → b * suc r + c' * suc q ≤ c * suc q + b' * suc r
    → a * suc r + c' * suc p < c * suc p + a' * suc r
cross_trans_lt a a' b b' c c' p q r h k =
    lt_of_mul-lt-mul_left (suc q)
      (omega (arith, mul-le-mul_right (suc r) h, mul-le-mul_right (suc p) k))

pub <ℚ_trans_≤ℚ : (x y z : Decimal) → x <ℚ y → y ≤ℚ z → x <ℚ z
<ℚ_trans_≤ℚ x y z h k =
    cross_trans_lt x.up x.down y.up y.down z.up z.down x.below y.below z.below h k

pub min_ℚ-le_left : (x y : Decimal) → min_ℚ x y ≤ℚ x
unfolding min_ℚ
min_ℚ-le_left x y = ground arith

pub min_ℚ-le_right : (x y : Decimal) → min_ℚ x y ≤ℚ y
unfolding min_ℚ
min_ℚ-le_right x y = ground arith

pub max_ℚ-ge_left : (x y : Decimal) → x ≤ℚ max_ℚ x y
unfolding max_ℚ
max_ℚ-ge_left x y = ground arith

pub max_ℚ-ge_right : (x y : Decimal) → y ≤ℚ max_ℚ x y
unfolding max_ℚ
max_ℚ-ge_right x y = ground arith

pub le-min_ℚ : (m x y : Decimal) → m ≤ℚ x → m ≤ℚ y → m ≤ℚ min_ℚ x y
unfolding min_ℚ
le-min_ℚ m x y h k = ground arith
