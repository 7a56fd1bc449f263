-- ===== src/Lifecycle/Stats/Drawdown.antt =====
-- `max_drawdown_r` of packages/lifecycle/src/autotrader/lifecycle/stats.py against the curve of
-- cumulative R.
use kometa.Prelude.{
  ◌*◌, ◌≡◌, ◌⊎◌, inl, inr, refl, sym, ap, ◌∙◌, suc, true, false, List, [], ◌∷◌, ◌++◌, map, arith,
  Bool-cases, if◌then◌else◌,
}
use Prim.{Unit, tt}
use mathlib.Core.Path.{subst}
use native.Mathlib.Nat.{mul-le-mul_right}
use kometa.Decimal.{Decimal, dec_zero, ◌+ℚ◌, ◌-ℚ◌, ◌≤ℚ◌, max_ℚ, ltb_ℚ}
use kometa.Decimal.Order.{≤ℚ_refl, ≤ℚ_trans, max_ℚ-ge_left, max_ℚ-ge_right}
use kometa.Lifecycle.Stats.{drawdown_from, max_drawdown_r}

-- the curve after each trade
abbrev pub curve : Decimal → List Decimal → List Decimal
curve cum [] = []
curve cum (r ∷ rs) = (cum +ℚ r) ∷ curve (cum +ℚ r) rs

-- the fall from each point of a curve to itself and to each later one
abbrev pub falls : List Decimal → List Decimal
falls [] = []
falls (c ∷ cs) = (c -ℚ c) ∷ map (λ x. c -ℚ x) cs ++ falls cs

abbrev pub Bounds : Decimal → List Decimal → Type 0
Bounds m [] = Unit
Bounds m (x ∷ xs) = (x ≤ℚ m) × Bounds m xs

abbrev pub IsIn : Decimal → List Decimal → Type 0
IsIn m [] = false ≡ true
IsIn m (x ∷ xs) = (m ≡ x) ⊎ IsIn m xs

pub Bounds-IsIn : (m y : Decimal) (xs : List Decimal) → Bounds m xs → IsIn y xs → y ≤ℚ m
Bounds-IsIn m y [] b i = cc
Bounds-IsIn m y (x ∷ xs) b (inl e) = subst (λ z. z ≤ℚ m) (sym e) b.0
Bounds-IsIn m y (x ∷ xs) b (inr i) = Bounds-IsIn m y xs b.1 i

Bounds-append :
    (m : Decimal) (xs ys : List Decimal) → Bounds m xs → Bounds m ys → Bounds m (xs ++ ys)
Bounds-append m [] ys a b = b
Bounds-append m (x ∷ xs) ys a b = (a.0, Bounds-append m xs ys a.1 b)

IsIn-left : (m : Decimal) (xs ys : List Decimal) → IsIn m xs → IsIn m (xs ++ ys)
IsIn-left m [] ys i = cc
IsIn-left m (x ∷ xs) ys (inl e) = inl e
IsIn-left m (x ∷ xs) ys (inr i) = inr (IsIn-left m xs ys i)

IsIn-right : (m : Decimal) (xs ys : List Decimal) → IsIn m ys → IsIn m (xs ++ ys)
IsIn-right m [] ys i = i
IsIn-right m (x ∷ xs) ys i = inr (IsIn-right m xs ys i)

IsIn-append : (m : Decimal) (xs ys : List Decimal) → IsIn m (xs ++ ys) → IsIn m xs ⊎ IsIn m ys
IsIn-append m [] ys i = inr i
IsIn-append m (x ∷ xs) ys (inl e) = inl (inl e)
IsIn-append m (x ∷ xs) ys (inr i) = elim (IsIn-append m xs ys i) [
  | inl j ↦ inl (inr j)
  | inr j ↦ inr j
]

pub max_ℚ_either : (x y : Decimal) → (max_ℚ x y ≡ x) ⊎ (max_ℚ x y ≡ y)
unfolding max_ℚ
max_ℚ_either x y = elim (Bool-cases (ltb_ℚ x y)) [
  | inl e ↦ inr (ap (λ b. if b then y else x) e)
  | inr e ↦ inl (ap (λ b. if b then y else x) e)
]

pub sub_ℚ_mono : (x y z : Decimal) → x ≤ℚ y → x -ℚ z ≤ℚ y -ℚ z
unfolding ◌-ℚ◌
sub_ℚ_mono x y z h = omega (arith, mul-le-mul_right (suc z.below * suc z.below) h)

Bounds-sub :
    (m x y : Decimal) (zs : List Decimal)
    → x ≤ℚ y
    → Bounds m (map (λ z. y -ℚ z) zs)
    → Bounds m (map (λ z. x -ℚ z) zs)
Bounds-sub m x y [] h b = tt
Bounds-sub m x y (z ∷ zs) h b =
    (≤ℚ_trans (x -ℚ z) (y -ℚ z) m (sub_ℚ_mono x y z h) b.0, Bounds-sub m x y zs h b.1)

-- Above what the loop starts with, above every fall from its peak, and above every fall of the curve
abbrev IsAbove : (peak worst : Decimal) → List Decimal → Decimal → Type 0
IsAbove peak worst cs m = (worst ≤ℚ m) × Bounds m (map (λ x. peak -ℚ x) cs) × Bounds m (falls cs)

module _ (peak c worst m : Decimal) (cs : List Decimal) where
  abbrev top : Decimal
  top = max_ℚ peak c

  abbrev deeper : Decimal
  deeper = max_ℚ worst (top -ℚ c)

  fall_below : (x : Decimal) → x ≤ℚ top → deeper ≤ℚ m → x -ℚ c ≤ℚ m
  fall_below x h d =
      ≤ℚ_trans (x -ℚ c) (top -ℚ c) m (sub_ℚ_mono x top c h)
        (≤ℚ_trans (top -ℚ c) deeper m (max_ℚ-ge_right worst (top -ℚ c)) d)

  step-IsAbove : IsAbove top deeper cs m → IsAbove peak worst (c ∷ cs) m
  step-IsAbove (d, from_top, rest) = (
    ≤ℚ_trans worst deeper m (max_ℚ-ge_left worst (top -ℚ c)) d,
    (
      fall_below peak (max_ℚ-ge_left peak c) d,
      Bounds-sub m peak top cs (max_ℚ-ge_left peak c) from_top,
    ),
    (
      fall_below c (max_ℚ-ge_right peak c) d,
      Bounds-append m (map (λ x. c -ℚ x) cs) (falls cs)
          (Bounds-sub m c top cs (max_ℚ-ge_right peak c) from_top) rest,
    ),
  )

  abbrev all_falls : Decimal → List Decimal → List Decimal
  all_falls p xs = map (λ x. p -ℚ x) xs ++ falls xs

  skip : IsIn m (map (λ x. peak -ℚ x) cs) ⊎ IsIn m (falls cs) → IsIn m (all_falls peak (c ∷ cs))
  skip (inl i) = inr (IsIn-left m (map (λ x. peak -ℚ x) cs) _ i)
  skip (inr i) =
      inr (IsIn-right m (map (λ x. peak -ℚ x) cs) _ (inr (IsIn-right m (map (λ x. c -ℚ x) cs) _ i)))

  step_worst : m ≡ deeper → (m ≡ worst) ⊎ IsIn m (all_falls peak (c ∷ cs))
  step_worst e = elim (max_ℚ_either worst (top -ℚ c)) [
    | inl p ↦ inl (e ∙ p)
    | inr p ↦ elim (max_ℚ_either peak c) [
      | inl q ↦ inr (inl (e ∙ p ∙ ap (λ x. x -ℚ c) q))
      | inr q ↦
          inr (inr (IsIn-right m (map (λ x. peak -ℚ x) cs) _ (inl (e ∙ p ∙ ap (λ x. x -ℚ c) q))))
    ]
  ]

  step_rest : IsIn m (all_falls top cs) → IsIn m (all_falls peak (c ∷ cs))
  step_rest i = elim (max_ℚ_either peak c) [
    | inl q ↦
        skip (IsIn-append m (map (λ x. peak -ℚ x) cs) _ (subst (λ x. IsIn m (all_falls x cs)) q i))
    | inr q ↦
        inr (
          IsIn-right m (map (λ x. peak -ℚ x) cs) _ (inr (subst (λ x. IsIn m (all_falls x cs)) q i)))
  ]

  step-IsIn :
      (m ≡ deeper) ⊎ IsIn m (all_falls top cs) → (m ≡ worst) ⊎ IsIn m (all_falls peak (c ∷ cs))
  step-IsIn (inl e) = step_worst e
  step-IsIn (inr i) = inr (step_rest i)

drawdown_from-IsAbove :
    (peak cum worst : Decimal) (rs : List Decimal)
    → IsAbove peak worst (curve cum rs) (drawdown_from peak cum worst rs)
unfolding drawdown_from
drawdown_from-IsAbove peak cum worst [] = (≤ℚ_refl worst, tt, tt)
drawdown_from-IsAbove peak cum worst (r ∷ rs) =
    step-IsAbove peak (cum +ℚ r) worst _ (curve (cum +ℚ r) rs) (
      drawdown_from-IsAbove (max_ℚ peak (cum +ℚ r)) (cum +ℚ r)
        (max_ℚ worst (max_ℚ peak (cum +ℚ r) -ℚ (cum +ℚ r))) rs)

drawdown_from-IsIn :
    (peak cum worst : Decimal) (rs : List Decimal)
    → let m = drawdown_from peak cum worst rs in
      (m ≡ worst) ⊎ IsIn m (map (λ x. peak -ℚ x) (curve cum rs) ++ falls (curve cum rs))
unfolding drawdown_from
drawdown_from-IsIn peak cum worst [] = inl refl
drawdown_from-IsIn peak cum worst (r ∷ rs) =
    step-IsIn peak (cum +ℚ r) worst _ (curve (cum +ℚ r) rs) (
      drawdown_from-IsIn (max_ℚ peak (cum +ℚ r)) (cum +ℚ r)
        (max_ℚ worst (max_ℚ peak (cum +ℚ r) -ℚ (cum +ℚ r))) rs)

-- the first point of the curve is zero
first-Bounds :
    (m : Decimal) (cs : List Decimal)
    → IsAbove dec_zero dec_zero cs m
    → Bounds m (falls (dec_zero ∷ cs))
unfolding ◌-ℚ◌
first-Bounds m cs (start, from_zero, rest) =
    (start, Bounds-append m (map (λ x. dec_zero -ℚ x) cs) (falls cs) from_zero rest)

first-IsIn :
    (m : Decimal) (cs : List Decimal)
    → (m ≡ dec_zero) ⊎ IsIn m (map (λ x. dec_zero -ℚ x) cs ++ falls cs)
    → IsIn m (falls (dec_zero ∷ cs))
unfolding ◌-ℚ◌
first-IsIn m cs i = i

-- The drawdown of a version's trades is the largest fall of their curve of cumulative R, which starts
-- at zero: no fall from a point of the curve to a later one is larger, and it is one of these falls.
pub max_drawdown_r-largest :
    (rs : List Decimal)
    → let all_falls = falls (dec_zero ∷ curve dec_zero rs) in
      Bounds (max_drawdown_r rs) all_falls × IsIn (max_drawdown_r rs) all_falls
unfolding max_drawdown_r
max_drawdown_r-largest rs = (
  first-Bounds _ (curve dec_zero rs) (drawdown_from-IsAbove dec_zero dec_zero dec_zero rs),
  first-IsIn _ (curve dec_zero rs) (drawdown_from-IsIn dec_zero dec_zero dec_zero rs),
)
