-- ===== src/Risk/Checks/Steps.antt =====
-- Every check only reduces or rejects, and what the checks 4, 6, 7, 8 and 9 ensure of a size that
-- they let pass.
use kometa.Prelude.{
  ◌≡◌, refl, sym, ◌∙◌, ◌⊎◌, inl, inr, Bool, true, false, Result, ok, ◌>>=◌, >>=-eq-ok, ok-injective,
  Bool-cases, arith, if◌then◌else◌, string_eq, ◌==◌,
}
use mathlib.Core.Path.{subst}
use kometa.Core.Broker.{DataError, division_by_zero}
use kometa.Core
use kometa.Core.Models.{Stage, stage_eq, demo_only, halt_eq, is_buy, halt_beq_eq}
use kometa.Decimal.{Decimal, dec_zero, ◌-ℚ◌, ◌<ℚ◌, ◌*ℚ◌, leb_ℚ, ltb_ℚ, div_ℚ}
use kometa.Risk.Exposure.{floor_step, sum_where, every, risk_money, of_strategy}
use kometa.Risk.Work.{Work, Why, Reason, reject, unless_rejected, below_min_lot}
use kometa.Risk.Checks.{
  Facts, dist, per_lot_risk, own_fraction, capped, cap_quotient, check_halt, check_stop, check_size,
  check_open_risk,
}
use kometa.Risk.Checks.Bounds.{
  Reduces, stops, Reduces-refl, Reduces-trans, Bounded, Bounded-Reduces, capped-Reduces,
  cap_quotient-Reduces,
}

pub reject-Reduces : (m : Decimal) (why : Reason) (w : Work) → Reduces m w (reject why w)
unfolding reject
reject-Reduces m why w = stops refl

pub reject_rejected : (why : Reason) (w : Work) → (reject why w).rejected ≡ true
unfolding reject
reject_rejected why w = refl

pub if_Reduces :
    (m : Decimal) (w : Work) (b : Bool) (x y : Work)
    → Reduces m w x
    → Reduces m w y
    → Reduces m w (if b then x else y)
if_Reduces m w true x y p q = p
if_Reduces m w false x y p q = q

-- What both branches of a test ensure.
pub if_ensures :
    {A : Type 0} {P : Type 0} (b : Bool) (x y : A) (r : A)
    → (b ≡ true → x ≡ r → P)
    → (b ≡ false → y ≡ r → P)
    → (if b then x else y) ≡ r
    → P
if_ensures true x y r p q = p refl
if_ensures false x y r p q = q refl

-- A check under `if not w.rejected` reduces where the check does.
pub unless_rejected-Reduces :
    (m : Decimal) (check : Work → Result DataError Work) (w w' : Work)
    → ((v v' : Work) → check v ≡ ok v' → Reduces m v v')
    → unless_rejected check w ≡ ok w'
    → Reduces m w w'
unfolding unless_rejected
unless_rejected-Reduces m check w w' r h = elim (Bool-cases w.rejected) [
  | inl done ↦ stops (subst (λ v. v.rejected ≡ true) (ok-injective (sym (same done) ∙ h)) done)
  | inr live ↦ r w w' (sym (run live) ∙ h)
]
  where
    same : w.rejected ≡ true → (if w.rejected then ok w else check w) ≡ ok w
    same e = ground arith

    run : w.rejected ≡ false → (if w.rejected then ok w else check w) ≡ check w
    run e = ground arith

-- What a check ensures unless it rejects, it ensures under `if not w.rejected` too.
pub unless_rejected_ensures :
    {P : Work → Type 0} (check : Work → Result DataError Work) (w w' : Work)
    → ((v v' : Work) → check v ≡ ok v' → (v'.rejected ≡ true) ⊎ P v')
    → unless_rejected check w ≡ ok w'
    → (w'.rejected ≡ true) ⊎ P w'
unfolding unless_rejected
unless_rejected_ensures check w w' r h = elim (Bool-cases w.rejected) [
  | inl done ↦ inl (subst (λ v. v.rejected ≡ true) (ok-injective (sym (same done) ∙ h)) done)
  | inr live ↦ r w w' (sym (run live) ∙ h)
]
  where
    same : w.rejected ≡ true → (if w.rejected then ok w else check w) ≡ ok w
    same e = ground arith

    run : w.rejected ≡ false → (if w.rejected then ok w else check w) ≡ check w
    run e = ground arith

pub check_halt-Reduces : (m : Decimal) (f : Facts) (w : Work) → Reduces m w (check_halt f w)
unfolding check_halt reject
check_halt-Reduces m f w = elim (Bool-cases (f.halt == Core.Models.normal)) [
  | inl e ↦ rw e (Reduces-refl m w)
  | inr e ↦ rw e (stops refl)
]

-- A size passes check 1 only in the normal state.
pub check_halt_ensures :
    (f : Facts) (w : Work) → ((check_halt f w).rejected ≡ true) ⊎ (f.halt ≡ Core.Models.normal)
unfolding check_halt reject
check_halt_ensures f w = ground (arith, halt_beq_eq f.halt Core.Models.normal)

-- The test of check 2 for a stop on the wrong side.
abbrev pub wrong_stop : Facts → Bool
wrong_stop f = if is_buy f.intent.signal.side then leb_ℚ f.entry f.stop else leb_ℚ f.stop f.entry

pub check_stop-Reduces : (m : Decimal) (f : Facts) (w : Work) → Reduces m w (check_stop f w)
unfolding check_stop
check_stop-Reduces m f w = if_Reduces m w w.rejected _ _ (Reduces-refl m w) (
    if_Reduces m w (wrong_stop f) _ _ (reject-Reduces m _ w) (
      if_Reduces m w (ltb_ℚ (dist f) (f.lim.min_stop_spreads *ℚ (f.snap.ask -ℚ f.snap.bid))) _ _
        (reject-Reduces m _ w)
        (if_Reduces m w (leb_ℚ f.snap.equity dec_zero) _ _ (reject-Reduces m _ w)
          (Reduces-refl m w))))

-- A size passes check 2 only with a stop on the right side and far enough, and positive equity.
pub check_stop_ensures :
    (f : Facts) (w : Work)
    → ((check_stop f w).rejected ≡ true)
      ⊎ ((wrong_stop f ≡ false)
          × (ltb_ℚ (dist f) (f.lim.min_stop_spreads *ℚ (f.snap.ask -ℚ f.snap.bid)) ≡ false)
          × (leb_ℚ f.snap.equity dec_zero ≡ false))
unfolding check_stop reject
check_stop_ensures f w = ground arith

module _ (f : Facts) (step_pos : dec_zero <ℚ f.inst.lot_step)
    (min_pos : dec_zero <ℚ f.inst.min_lot) where
  pub check_size-Reduces : (w w' : Work) → check_size f w ≡ ok w' → Reduces f.inst.min_lot w w'
  unfolding check_size
  check_size-Reduces w w' h =
      let judge : Decimal → Result DataError Work = λ own.
        if ltb_ℚ own f.inst.min_lot
        then ok (reject below_min_lot w)
        else capped f own Why.independent_sizing w in
      let (q, eq, next) =
        >>=-eq-ok (div_ℚ division_by_zero (f.snap.equity *ℚ own_fraction f) (per_lot_risk f))
          (λ q. floor_step q f.inst.lot_step >>= judge) h in
      let (own, le, last) = >>=-eq-ok (floor_step q f.inst.lot_step) judge next in
      if_ensures {P = Reduces f.inst.min_lot w w'} (ltb_ℚ own f.inst.min_lot) _ _ (ok w')
        (λ _ e.
          subst (Reduces f.inst.min_lot w) (ok-injective e)
            (reject-Reduces f.inst.min_lot below_min_lot w))
        (λ _ e. (capped-Reduces f step_pos min_pos own Why.independent_sizing w w' e).0) last

  -- What check 4 ensures, with the sums that it has taken.
  pub record OpenRisk (w' : Work) : Type 0 where
    pub strategy_sum : Decimal
    pub total_sum : Decimal
    pub strategy_is :
        sum_where
          (of_strategy f.intent.signal.strategy_id)
          (risk_money f.lim f.snap)
          dec_zero
          f.snap.exposures
        ≡ ok strategy_sum
    pub total_is :
        sum_where every (risk_money f.lim f.snap) dec_zero f.snap.exposures ≡ ok total_sum
    pub trade_quotient : Decimal
    pub strategy_quotient : Decimal
    pub total_quotient : Decimal
    pub trade_div :
        div_ℚ division_by_zero (f.snap.equity *ℚ f.lim.risk_per_trade_max) (per_lot_risk f)
        ≡ ok trade_quotient
    pub strategy_div :
        div_ℚ division_by_zero
          (f.snap.equity *ℚ f.lim.open_risk_per_strategy_max -ℚ strategy_sum)
          (per_lot_risk f)
        ≡ ok strategy_quotient
    pub total_div :
        div_ℚ division_by_zero
          (f.snap.equity *ℚ f.lim.open_risk_total_max -ℚ total_sum)
          (per_lot_risk f)
        ≡ ok total_quotient
    pub within_trade : Bounded trade_quotient w'
    pub within_strategy : Bounded strategy_quotient w'
    pub within_total : Bounded total_quotient w'

  pub check_open_risk-Reduces :
      (w w' : Work) → check_open_risk f w ≡ ok w' → Reduces f.inst.min_lot w w' × OpenRisk w'
  unfolding check_open_risk
  check_open_risk-Reduces w w' h =
      let m = f.inst.min_lot in
      let (w1, e1, h1) = >>=-eq-ok (cap_quotient f _ _ _ w) _ h in
      let (strat, e2, h2) = >>=-eq-ok (sum_where _ _ dec_zero f.snap.exposures) _ h1 in
      let (w2, e3, h3) = >>=-eq-ok (cap_quotient f _ _ _ w1) _ h2 in
      let (total, e4, h4) = >>=-eq-ok (sum_where _ _ dec_zero f.snap.exposures) _ h3 in
      let (q1, d1, r1, b1) = cap_quotient-Reduces f step_pos min_pos _ _ _ w w1 e1 in
      let (q2, d2, r2, b2) = cap_quotient-Reduces f step_pos min_pos _ _ _ w1 w2 e3 in
      let (q3, d3, r3, b3) = cap_quotient-Reduces f step_pos min_pos _ _ _ w2 w' h4 in
      let r23 = Reduces-trans m w1 w2 w' r2 r3 in
      (
        Reduces-trans m w w1 w' r1 r23,
        record {
          strategy_sum = strat;
          total_sum = total;
          strategy_is = e2;
          total_is = e4;
          trade_quotient = q1;
          strategy_quotient = q2;
          total_quotient = q3;
          trade_div = d1;
          strategy_div = d2;
          total_div = d3;
          within_trade = Bounded-Reduces m q1 w1 w' r23 b1;
          within_strategy = Bounded-Reduces m q2 w2 w' r3 b2;
          within_total = b3;
        },
      )
