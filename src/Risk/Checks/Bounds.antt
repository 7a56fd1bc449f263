-- ===== src/Risk/Checks/Bounds.antt =====
-- What a cap by a budget promises: the size is rejected, or at most the limit and a reduction of
-- the size before.
use kometa.Prelude.{◌≡◌, sym, ◌⊎◌, inl, inr, true, ok, ◌>>=◌, >>=-eq-ok}
use mathlib.Core.Path.{subst}
use kometa.Core.Broker.{division_by_zero}
use kometa.Decimal.{Decimal, dec_zero, ◌≤ℚ◌, ◌<ℚ◌, ◌*ℚ◌, div_ℚ}
use kometa.Decimal.Order.{≤ℚ_refl, ≤ℚ_trans, <ℚ_≤ℚ}
use kometa.Decimal.Floor.{mul_ℚ-le_of_le-div}
use kometa.Risk.Exposure.{floor_step}
use kometa.Risk.Work.{Work, Why}
use kometa.Risk.Work.Bounds.{Capped, rejects, keeps, lowers, floor_step-le, cap-Capped}
use kometa.Risk.Checks.{Facts, capped, cap_quotient}

-- `w'` is rejected, or a reduction of `w`; a size that was at least `m` still is.
pub data Reduces (m : Decimal) (w w' : Work) : Type 0 where
  stops : w'.rejected ≡ true → Reduces m w w'
  reduces :
      w'.lots ≤ℚ w.lots
      → (m ≤ℚ w.lots → m ≤ℚ w'.lots)
      → (w.rejected ≡ true → w'.rejected ≡ true)
      → Reduces m w w'

pub Reduces-refl : (m : Decimal) (w : Work) → Reduces m w w
Reduces-refl m w = reduces (≤ℚ_refl w.lots) (λ h. h) (λ h. h)

pub Reduces-trans : (m : Decimal) (u v w : Work) → Reduces m u v → Reduces m v w → Reduces m u w
Reduces-trans m u v w r (stops h) = stops h
Reduces-trans m u v w (stops h) (reduces b c d) = stops (d h)
Reduces-trans m u v w (reduces b c d) (reduces b' c' d') =
    reduces (≤ℚ_trans w.lots v.lots u.lots b' b) (λ h. c' (c h)) (λ h. d' (d h))

-- Rejected, or at most the limit.
abbrev pub Bounded : Decimal → Work → Type 0
Bounded l w = (w.rejected ≡ true) ⊎ (w.lots ≤ℚ l)

pub Bounded-Reduces : (m l : Decimal) (u w : Work) → Reduces m u w → Bounded l u → Bounded l w
Bounded-Reduces m l u w (stops h) b = inl h
Bounded-Reduces m l u w (reduces b c d) (inl h) = inl (d h)
Bounded-Reduces m l u w (reduces b c d) (inr h) = inr (≤ℚ_trans w.lots u.lots l b h)

weaken : (l k : Decimal) (w : Work) → l ≤ℚ k → Bounded l w → Bounded k w
weaken l k w h (inl r) = inl r
weaken l k w h (inr b) = inr (≤ℚ_trans w.lots l k b h)

Capped-Reduces : (l m : Decimal) (w w' : Work) → Capped l m w w' → Reduces m w w'
Capped-Reduces l m w w' (rejects h) = stops h
Capped-Reduces l m w w' (keeps e b) = subst (Reduces m w) (sym e) (Reduces-refl m w)
Capped-Reduces l m w w' (lowers live over le fits) =
    reduces (≤ℚ_trans w'.lots l w.lots le (<ℚ_≤ℚ l w.lots over)) (λ h. fits) (λ h. cc)

Capped-Bounded : (l m : Decimal) (w w' : Work) → Capped l m w w' → Bounded l w'
Capped-Bounded l m w w' (rejects h) = inl h
Capped-Bounded l m w w' (keeps e b) = inr (subst (λ v. v.lots ≤ℚ l) (sym e) b)
Capped-Bounded l m w w' (lowers live over le fits) = inr le

-- Rejected, or of a cost that is at most the budget.
abbrev pub Costs : Decimal → Decimal → Work → Type 0
Costs room cost w = (w.rejected ≡ true) ⊎ (w.lots *ℚ cost ≤ℚ room)

pub Bounded-Costs :
    (room cost : Decimal) (w : Work) {q : Decimal}
    → dec_zero <ℚ cost
    → div_ℚ division_by_zero room cost ≡ ok q
    → Bounded q w
    → Costs room cost w
Bounded-Costs room cost w pos eq (inl h) = inl h
Bounded-Costs room cost w {q} pos eq (inr h) =
    inr (mul_ℚ-le_of_le-div division_by_zero room cost w.lots q pos eq h)

-- The instrument's step and smallest size are positive (`Instrument._check_lots`).
module _ (f : Facts) (step_pos : dec_zero <ℚ f.inst.lot_step)
    (min_pos : dec_zero <ℚ f.inst.min_lot) where
  pub capped-Reduces :
      (l : Decimal) (why : Why) (w w' : Work)
      → capped f l why w ≡ ok w'
      → Reduces f.inst.min_lot w w' × Bounded l w'
  capped-Reduces l why w w' h =
      let c = cap-Capped f.inst.lot_step f.inst.min_lot step_pos min_pos l why w h in
      (Capped-Reduces l f.inst.min_lot w w' c, Capped-Bounded l f.inst.min_lot w w' c)

  -- A cap by a budget: the size after is a reduction, and at most the budget over the cost.
  pub cap_quotient-Reduces :
      (room cost : Decimal) (why : Why) (w w' : Work)
      → cap_quotient f room cost why w ≡ ok w'
      → (q : Decimal) × (div_ℚ division_by_zero room cost ≡ ok q)
        × Reduces f.inst.min_lot w w'
        × Bounded q w'
  unfolding cap_quotient
  cap_quotient-Reduces room cost why w w' h =
      let (q, eq, next) =
        >>=-eq-ok (div_ℚ division_by_zero room cost)
          (λ q. floor_step q f.inst.lot_step >>= λ limit. capped f limit why w) h in
      let (limit, le, done) =
        >>=-eq-ok (floor_step q f.inst.lot_step) (λ limit. capped f limit why w) next in
      let (r, b) = capped-Reduces limit why w w' done in
      (q, eq, r, weaken limit q w' (floor_step-le q f.inst.lot_step step_pos le) b)
