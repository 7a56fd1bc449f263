-- ===== src/Risk/Checks/Market.antt =====
-- The checks 5 to 9: currencies, leverage and lot caps, margin, calendar, stage. Each reduces, and
-- ensures its own condition unless it rejects.
use kometa.Prelude.{
  ◌≡◌, refl, ◌⊎◌, inl, inr, Bool, true, false, Option, none, some, [], ◌∷◌, ok, >>=-eq-ok,
  ok-injective, String, Bool-cases, arith, leb, string_eq, ◌==◌,
}
use kometa.Prelude.Dict.{Dict, lookup}
use mathlib.Core.Path.{subst}
use kometa.Core.Broker.{division_by_zero}
use kometa.Core.Models.{Stage, stage_eq, demo_only}
use kometa.Decimal.{Decimal, dec, dec_zero, ◌+ℚ◌, ◌-ℚ◌, ◌<ℚ◌, ◌*ℚ◌, leb_ℚ, ltb_ℚ, div_ℚ}
use kometa.Decimal.Order.{≤ℚ_refl}
use kometa.Risk.Config.{max_lots}
use kometa.Risk.Events.{in_blackout}
use kometa.Risk.Exposure.{
  Direction, currency_dirs, sum_where, every, notional, on_symbol, count_if, holds,
}
use kometa.Risk.Work
use kometa.Risk.Work.{Work, Why, reject, add_reason}
use kometa.Risk.Checks.{
  Facts, LocalTime, stage_of, stage_limit, capped, cap_quotient, check_dirs, check_currency,
  check_leverage, margin_cap, check_margin, check_calendar, demo_cap, judge_stage, check_stage,
  trades_in, after_weekly_cutoff,
}
use kometa.Risk.Checks.Bounds.{
  Reduces, reduces, Reduces-refl, Reduces-trans, Bounded, Bounded-Reduces, capped-Reduces,
  cap_quotient-Reduces,
}
use kometa.Risk.Checks.Steps.{reject-Reduces, reject_rejected, if_Reduces, if_ensures}

pub check_dirs-Reduces :
    (m : _) (f : Facts) (dirs : Dict String Direction) (w : Work)
    → Reduces m w (check_dirs f dirs w)
unfolding check_dirs
check_dirs-Reduces m f [] w = Reduces-refl m w
check_dirs-Reduces m f ((ccy, d) ∷ dirs) w =
    if_Reduces m w _ _ _ (reject-Reduces m _ w) (check_dirs-Reduces m f dirs w)

-- The conditions of check 5, for every currency of the instrument.
abbrev pub HasRoom : Facts → Dict String Direction → Type 0
HasRoom f [] = Unit
HasRoom f ((ccy, d) ∷ dirs) =
    (leb f.lim.same_currency_same_direction_max_positions
        (count_if (holds f.snap ccy d) f.snap.exposures)
      ≡ false)
    × HasRoom f dirs

pub check_dirs_ensures :
    (f : Facts) (dirs : Dict String Direction) (w : Work)
    → ((check_dirs f dirs w).rejected ≡ true) ⊎ HasRoom f dirs
unfolding check_dirs reject
check_dirs_ensures f [] w = inr tt
check_dirs_ensures f ((ccy, d) ∷ dirs) w = ground (arith, check_dirs_ensures f dirs w)

pub check_currency-Reduces :
    (f : Facts) (w w' : Work)
    → check_currency f w ≡ ok w'
    → Reduces f.inst.min_lot w w'
      × ((w'.rejected ≡ true) ⊎ HasRoom f (currency_dirs f.inst f.intent.signal.side))
unfolding check_currency
check_currency-Reduces f w w' h =
    let dirs = currency_dirs f.inst f.intent.signal.side in
    let e : check_dirs f dirs w ≡ w' = ok-injective h in
    (
      subst (Reduces f.inst.min_lot w) e (check_dirs-Reduces f.inst.min_lot f dirs w),
      subst (λ v. (v.rejected ≡ true) ⊎ HasRoom f dirs) e (check_dirs_ensures f dirs w),
    )

-- A rejection reduces, whatever it would otherwise have to ensure.
rejects_with :
    (P : Type 0) (f : Facts) (why : Work.Reason) (w w' : Work)
    → reject why w ≡ w'
    → Reduces f.inst.min_lot w w' × ((w'.rejected ≡ true) ⊎ P)
rejects_with P f why w w' e = (
  subst (Reduces f.inst.min_lot w) e (reject-Reduces f.inst.min_lot why w),
  inl (subst (λ v. v.rejected ≡ true) e (reject_rejected why w)),
)

-- Check 8 passes outside a news blackout and before the weekly cutoff.
abbrev pub blacked_out : Facts → Bool
blacked_out f = elim f.snap.events [
  | none ↦ false
  | some index ↦
      in_blackout index f.snap.now (f.inst.base ∷ f.inst.quote ∷ []) f.lim.news_blackout_minutes
]

pub check_calendar-Reduces :
    (local : LocalTime) (f : Facts) (w w' : Work)
    → check_calendar local f w ≡ ok w'
    → Reduces f.inst.min_lot w w'
      × ((w'.rejected ≡ true)
          ⊎ ((blacked_out f ≡ false) × (after_weekly_cutoff local f.lim f.snap.now ≡ false)))
unfolding check_calendar
check_calendar-Reduces local f w w' h =
    if_ensures {P = Passed} (blacked_out f) _ _ (ok w')
      (λ _ e. rejects_with Open f Work.news_blackout w w' (ok-injective e))
      (λ no_news.
        if_ensures {P = Passed} (after_weekly_cutoff local f.lim f.snap.now) _ _ (ok w')
          (λ _ e. rejects_with Open f Work.weekly_cutoff w w' (ok-injective e))
          (λ before e. (
            subst (Reduces f.inst.min_lot w) (ok-injective e) (Reduces-refl f.inst.min_lot w),
            inr (no_news, before),
          )))
      h
  where
    Open : Type 0
    Open = (blacked_out f ≡ false) × (after_weekly_cutoff local f.lim f.snap.now ≡ false)

    Passed : Type 0
    Passed = Reduces f.inst.min_lot w w' × ((w'.rejected ≡ true) ⊎ Open)

module _ (f : Facts) (step_pos : dec_zero <ℚ f.inst.lot_step)
    (min_pos : dec_zero <ℚ f.inst.min_lot) where
  -- What check 6 ensures of leverage, with the notional that it has summed.
  pub record Leverage (w' : Work) : Type 0 where
    pub held : Decimal
    pub held_is :
        sum_where every (λ e. notional f.snap e.symbol e.lots e.entry) dec_zero f.snap.exposures
        ≡ ok held
    pub quotient : Decimal
    pub quotient_is :
        div_ℚ division_by_zero
          (f.snap.equity *ℚ f.lim.leverage_notional_max -ℚ held)
          (f.inst.contract_size *ℚ f.entry *ℚ f.fx)
        ≡ ok quotient
    pub within_leverage : Bounded quotient w'
    pub lots_on : Decimal
    pub lots_on_is :
        sum_where (on_symbol f.intent.signal.symbol) (λ e. ok e.lots) dec_zero f.snap.exposures
        ≡ ok lots_on
    pub most : Decimal
    pub most_is : max_lots f.lim f.intent.signal.symbol ≡ ok most
    pub within_symbol : Bounded (most -ℚ lots_on) w'
    pub within_broker : Bounded f.inst.max_lot w'

  pub check_leverage-Reduces :
      (w w' : Work) → check_leverage f w ≡ ok w' → Reduces f.inst.min_lot w w' × Leverage w'
  unfolding check_leverage
  check_leverage-Reduces w w' h =
      let m = f.inst.min_lot in
      let (held, e1, h1) = >>=-eq-ok (sum_where _ _ dec_zero f.snap.exposures) _ h in
      let (w1, e2, h2) = >>=-eq-ok (cap_quotient f _ _ _ w) _ h1 in
      let (on, e3, h3) = >>=-eq-ok (sum_where _ _ dec_zero f.snap.exposures) _ h2 in
      let (most, e4, h4) = >>=-eq-ok (max_lots f.lim f.intent.signal.symbol) _ h3 in
      let (w2, e5, h5) = >>=-eq-ok (capped f _ _ w1) _ h4 in
      let (q, d, r1, b1) = cap_quotient-Reduces f step_pos min_pos _ _ _ w w1 e2 in
      let (r2, b2) = capped-Reduces f step_pos min_pos _ _ w1 w2 e5 in
      let (r3, b3) = capped-Reduces f step_pos min_pos _ _ w2 w' h5 in
      let r23 = Reduces-trans m w1 w2 w' r2 r3 in
      (
        Reduces-trans m w w1 w' r1 r23,
        record {
          held = held;
          held_is = e1;
          quotient = q;
          quotient_is = d;
          within_leverage = Bounded-Reduces m q w1 w' r23 b1;
          lots_on = on;
          lots_on_is = e3;
          most = most;
          most_is = e4;
          within_symbol = Bounded-Reduces m (most -ℚ on) w2 w' r3 b2;
          within_broker = b3;
        },
      )

  -- Check 7 passes only with a positive margin per lot, for which there is room.
  pub record HasMargin (o : Option Decimal) (w' : Work) : Type 0 where
    pub mpl : Decimal
    pub mpl_is : o ≡ some mpl
    pub positive : leb_ℚ mpl dec_zero ≡ false
    pub quotient : Decimal
    pub quotient_is :
        div_ℚ division_by_zero f.snap.free_margin ((f.lim.min_free_margin_ratio +ℚ dec 1) *ℚ mpl)
        ≡ ok quotient
    pub within_margin : Bounded quotient w'

  margin_cap-Reduces :
      (o : Option Decimal) (w w' : Work)
      → margin_cap f o w ≡ ok w'
      → Reduces f.inst.min_lot w w' × ((w'.rejected ≡ true) ⊎ HasMargin o w')
  unfolding margin_cap
  margin_cap-Reduces none w w' h =
      rejects_with (HasMargin none w') f Work.no_margin_data w w' (ok-injective h)
  margin_cap-Reduces (some mpl) w w' h =
      if_ensures
        {P = Reduces f.inst.min_lot w w' × ((w'.rejected ≡ true) ⊎ HasMargin (some mpl) w')}
        (leb_ℚ mpl dec_zero) _ _ (ok w')
        (λ _ e. rejects_with (HasMargin (some mpl) w') f Work.no_margin_data w w' (ok-injective e))
        (λ p e.
          let (q, d, r, b) = cap_quotient-Reduces f step_pos min_pos _ _ _ w w' e in
          (
            r,
            inr (record {
              mpl = mpl;
              mpl_is = refl;
              positive = p;
              quotient = q;
              quotient_is = d;
              within_margin = b;
            }),
          ))
        h

  pub check_margin-Reduces :
      (w w' : Work)
      → check_margin f w ≡ ok w'
      → Reduces f.inst.min_lot w w'
        × ((w'.rejected ≡ true)
            ⊎ HasMargin (lookup f.intent.signal.symbol f.snap.margin_per_lot) w')
  unfolding check_margin
  check_margin-Reduces w w' h =
      margin_cap-Reduces (lookup f.intent.signal.symbol f.snap.margin_per_lot) w w' h

  demo_cap-Reduces :
      (o : Option Stage) (w w' : Work) → demo_cap f o w ≡ ok w' → Reduces f.inst.min_lot w w'
  demo_cap-Reduces none w w' h =
      subst (Reduces f.inst.min_lot w) (ok-injective h) (Reduces-refl f.inst.min_lot w)
  demo_cap-Reduces (some s) w w' h =
      if_ensures {P = Reduces f.inst.min_lot w w'} (s == demo_only) _ _ (ok w')
        (λ _ e. (capped-Reduces f step_pos min_pos _ _ w w' e).0)
        (λ _ e. subst (Reduces f.inst.min_lot w) (ok-injective e) (Reduces-refl f.inst.min_lot w)) h

  judge_stage-Reduces :
      (w : Work)
      → Reduces f.inst.min_lot w (judge_stage f w)
        × (((judge_stage f w).rejected ≡ true) ⊎ (trades_in (stage_limit f) (stage_of f) ≡ true))
  unfolding judge_stage add_reason
  judge_stage-Reduces w = (
    if_Reduces f.inst.min_lot w (trades_in (stage_limit f) (stage_of f)) _ _
        (if_Reduces f.inst.min_lot w (ltb_ℚ (stage_limit f) f.intent.risk_fraction) _ _
          (reduces (≤ℚ_refl w.lots) (λ h. h) (λ h. h)) (Reduces-refl f.inst.min_lot w))
        (reject-Reduces f.inst.min_lot _ w),
    elim (Bool-cases (trades_in (stage_limit f) (stage_of f))) [
      | inl e ↦ inr e
      | inr e ↦ inl (rw e (reject_rejected _ w))
    ],
  )

  -- Check 9 passes only in a stage that trades.
  pub check_stage-Reduces :
      (w w' : Work)
      → check_stage f w ≡ ok w'
      → Reduces f.inst.min_lot w w'
        × ((w'.rejected ≡ true) ⊎ (trades_in (stage_limit f) (stage_of f) ≡ true))
  unfolding check_stage
  check_stage-Reduces w w' h =
      let (w1, e, last) = >>=-eq-ok (demo_cap f (stage_of f) w) _ h in
      let (r, passed) = judge_stage-Reduces w1 in
      subst
        (λ v.
          Reduces f.inst.min_lot w v
          × ((v.rejected ≡ true) ⊎ (trades_in (stage_limit f) (stage_of f) ≡ true)))
        (ok-injective last)
        (Reduces-trans f.inst.min_lot w w1 _ (demo_cap-Reduces (stage_of f) w w1 e) r, passed)
