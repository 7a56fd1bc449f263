-- ===== src/Risk/Checks/Trace.antt =====
-- The nine checks together: from a size that comes out of `run_checks` back to each of them.
use kometa.Prelude.{
  ◌≡◌, sym, ◌∙◌, Bool-cases, ◌⊎◌, inl, inr, true, false, Option, ok, >>=-eq-ok, string_eq,
}
use mathlib.Core.Bool.{false≢true}
use kometa.Prelude.Dict.{lookup}
use kometa.Core.Models.{normal}
use kometa.Decimal.{Decimal, dec_zero, ◌*ℚ◌, ◌≤ℚ◌, ◌<ℚ◌, leb_ℚ, ltb_ℚ, ◌-ℚ◌}
use kometa.Risk.Exposure.{currency_dirs}
use kometa.Risk.Work.{Work, unless_rejected}
use kometa.Risk.Checks.{
  Facts, LocalTime, dist, stage_of, stage_limit, check_halt, check_stop, check_size,
  check_open_risk, check_currency, check_leverage, check_margin, check_calendar, run_checks,
  trades_in, after_weekly_cutoff,
}
use kometa.Risk.Checks.Bounds.{Reduces, stops, reduces, Reduces-trans, Bounded-Reduces}
use kometa.Risk.Checks.Steps.{
  unless_rejected-Reduces, unless_rejected_ensures, check_halt-Reduces, check_halt_ensures,
  check_stop-Reduces, check_stop_ensures, wrong_stop, check_size-Reduces, OpenRisk,
  check_open_risk-Reduces,
}
use kometa.Risk.Checks.Market.{
  HasRoom, check_currency-Reduces, blacked_out, check_calendar-Reduces, Leverage,
  check_leverage-Reduces, HasMargin, check_margin-Reduces, check_stage-Reduces,
}

module _ (f : Facts) (step_pos : dec_zero <ℚ f.inst.lot_step)
    (min_pos : dec_zero <ℚ f.inst.min_lot) where
  -- What all nine checks ensure of the size `w` that they leave of a size `start`.
  pub record Passed (local : LocalTime) (start w : Work) : Type 0 where
    pub at_most : w.lots ≤ℚ start.lots
    pub at_least : f.inst.min_lot ≤ℚ start.lots → f.inst.min_lot ≤ℚ w.lots
    pub normal_state : f.halt ≡ normal
    pub right_stop : wrong_stop f ≡ false
    pub far_stop : ltb_ℚ (dist f) (f.lim.min_stop_spreads *ℚ (f.snap.ask -ℚ f.snap.bid)) ≡ false
    pub solvent : leb_ℚ f.snap.equity dec_zero ≡ false
    pub open_risk : OpenRisk f step_pos min_pos w
    pub room : HasRoom f (currency_dirs f.inst f.intent.signal.side)
    pub leverage : Leverage f step_pos min_pos w
    pub margin :
        HasMargin f step_pos min_pos (lookup f.intent.signal.symbol f.snap.margin_per_lot) w
    pub no_news : blacked_out f ≡ false
    pub before_cutoff : after_weekly_cutoff local f.lim f.snap.now ≡ false
    pub trades : trades_in (stage_limit f) (stage_of f) ≡ true

  OpenRisk-Reduces :
      (w w' : Work)
      → Reduces f.inst.min_lot w w'
      → OpenRisk f step_pos min_pos w
      → OpenRisk f step_pos min_pos w'
  OpenRisk-Reduces w w' r o = record {
    strategy_sum = o.strategy_sum;
    total_sum = o.total_sum;
    strategy_is = o.strategy_is;
    total_is = o.total_is;
    trade_quotient = o.trade_quotient;
    strategy_quotient = o.strategy_quotient;
    total_quotient = o.total_quotient;
    trade_div = o.trade_div;
    strategy_div = o.strategy_div;
    total_div = o.total_div;
    within_trade = Bounded-Reduces f.inst.min_lot o.trade_quotient w w' r o.within_trade;
    within_strategy = Bounded-Reduces f.inst.min_lot o.strategy_quotient w w' r o.within_strategy;
    within_total = Bounded-Reduces f.inst.min_lot o.total_quotient w w' r o.within_total;
  }

  Leverage-Reduces :
      (w w' : Work)
      → Reduces f.inst.min_lot w w'
      → Leverage f step_pos min_pos w
      → Leverage f step_pos min_pos w'
  Leverage-Reduces w w' r o = record {
    held = o.held;
    held_is = o.held_is;
    quotient = o.quotient;
    quotient_is = o.quotient_is;
    within_leverage = Bounded-Reduces f.inst.min_lot o.quotient w w' r o.within_leverage;
    lots_on = o.lots_on;
    lots_on_is = o.lots_on_is;
    most = o.most;
    most_is = o.most_is;
    within_symbol = Bounded-Reduces f.inst.min_lot (o.most -ℚ o.lots_on) w w' r o.within_symbol;
    within_broker = Bounded-Reduces f.inst.min_lot f.inst.max_lot w w' r o.within_broker;
  }

  HasMargin-Reduces :
      (o : Option Decimal) (w w' : Work)
      → Reduces f.inst.min_lot w w'
      → HasMargin f step_pos min_pos o w
      → HasMargin f step_pos min_pos o w'
  HasMargin-Reduces o w w' r h = record {
    mpl = h.mpl;
    mpl_is = h.mpl_is;
    positive = h.positive;
    quotient = h.quotient;
    quotient_is = h.quotient_is;
    within_margin = Bounded-Reduces f.inst.min_lot h.quotient w w' r h.within_margin;
  }

  live_before :
      (w w' : Work) → Reduces f.inst.min_lot w w' → w'.rejected ≡ false → w.rejected ≡ false
  live_before w w' (stops h) e = cc
  live_before w w' (reduces b c d) e = elim (Bool-cases w.rejected) [
    | inl r ↦ absurd (false≢true (sym e ∙ d r))
    | inr live ↦ live
  ]

  ensured : {P : Type 0} (w : Work) → w.rejected ≡ false → (w.rejected ≡ true) ⊎ P → P
  ensured w live (inl h) = absurd (false≢true (sym live ∙ h))
  ensured w live (inr p) = p

  lots_le :
      (w w' : Work)
      → Reduces f.inst.min_lot w w'
      → w'.rejected ≡ false
      → (w'.lots ≤ℚ w.lots) × (f.inst.min_lot ≤ℚ w.lots → f.inst.min_lot ≤ℚ w'.lots)
  lots_le w w' (stops h) e = absurd (false≢true (sym e ∙ h))
  lots_le w w' (reduces b c d) e = (b, c)

  -- A size that comes out of the nine checks without being rejected has passed all of them.
  pub run_checks-Passed :
      (local : LocalTime) (start w : Work)
      → run_checks local f start ≡ ok w
      → w.rejected ≡ false
      → Passed local start w
  unfolding run_checks
  run_checks-Passed local start w h live =
      let m = f.inst.min_lot in
      let u1 = check_halt f start in
      let u2 = check_stop f u1 in
      let (w3, e3, h3) = >>=-eq-ok (unless_rejected (check_size f) u2) _ h in
      let (w4, e4, h4) = >>=-eq-ok (unless_rejected (check_open_risk f) w3) _ h3 in
      let (w5, e5, h5) = >>=-eq-ok (unless_rejected (check_currency f) w4) _ h4 in
      let (w6, e6, h6) = >>=-eq-ok (unless_rejected (check_leverage f) w5) _ h5 in
      let (w7, e7, h7) = >>=-eq-ok (unless_rejected (check_margin f) w6) _ h6 in
      let (w8, e8, e9) = >>=-eq-ok (unless_rejected (check_calendar local f) w7) _ h7 in
      let size = check_size-Reduces f step_pos min_pos in
      let risk = check_open_risk-Reduces f step_pos min_pos in
      let ccy = check_currency-Reduces f in
      let lev = check_leverage-Reduces f step_pos min_pos in
      let mar = check_margin-Reduces f step_pos min_pos in
      let cal = check_calendar-Reduces local f in
      let sta = check_stage-Reduces f step_pos min_pos in
      let r1 = check_halt-Reduces m f start in
      let r2 = check_stop-Reduces m f u1 in
      let r3 = unless_rejected-Reduces m _ u2 w3 size e3 in
      let r4 = unless_rejected-Reduces m _ w3 w4 (λ v v' e. (risk v v' e).0) e4 in
      let r5 = unless_rejected-Reduces m _ w4 w5 (λ v v' e. (ccy v v' e).0) e5 in
      let r6 = unless_rejected-Reduces m _ w5 w6 (λ v v' e. (lev v v' e).0) e6 in
      let r7 = unless_rejected-Reduces m _ w6 w7 (λ v v' e. (mar v v' e).0) e7 in
      let r8 = unless_rejected-Reduces m _ w7 w8 (λ v v' e. (cal v v' e).0) e8 in
      let r9 = unless_rejected-Reduces m _ w8 w (λ v v' e. (sta v v' e).0) e9 in
      let s8 = Reduces-trans m w7 w8 w r8 r9 in
      let s7 = Reduces-trans m w6 w7 w r7 s8 in
      let s6 = Reduces-trans m w5 w6 w r6 s7 in
      let s5 = Reduces-trans m w4 w5 w r5 s6 in
      let s4 = Reduces-trans m w3 w4 w r4 s5 in
      let s3 = Reduces-trans m u2 w3 w r3 s4 in
      let s2 = Reduces-trans m u1 u2 w r2 s3 in
      let (below, above) = lots_le start w (Reduces-trans m start u1 w r1 s2) live in
      let live2 = live_before u2 w s3 live in
      let live4 = live_before w4 w s5 live in
      let live5 = live_before w5 w s6 live in
      let live6 = live_before w6 w s7 live in
      let live7 = live_before w7 w s8 live in
      let live8 = live_before w8 w r9 live in
      let (right, far, solvent) = ensured u2 live2 (check_stop_ensures f u1) in
      let (no_news, before) =
        ensured w8 live8 (unless_rejected_ensures _ w7 w8 (λ v v' e. (cal v v' e).1) e8) in
      record {
        at_most = below;
        at_least = above;
        normal_state = ensured u1 (live_before u1 w s2 live) (check_halt_ensures f start);
        right_stop = right;
        far_stop = far;
        solvent = solvent;
        open_risk =
            OpenRisk-Reduces w4 w s5 (
              ensured w4 live4
                (unless_rejected_ensures _ w3 w4 (λ v v' e. inr (risk v v' e).1) e4));
        room = ensured w5 live5 (unless_rejected_ensures _ w4 w5 (λ v v' e. (ccy v v' e).1) e5);
        leverage =
            Leverage-Reduces w6 w s7 (
              ensured w6 live6 (unless_rejected_ensures _ w5 w6 (λ v v' e. inr (lev v v' e).1) e6));
        margin =
            HasMargin-Reduces _ w7 w s8
              (ensured w7 live7 (unless_rejected_ensures _ w6 w7 (λ v v' e. (mar v v' e).1) e7));
        no_news = no_news;
        before_cutoff = before;
        trades = ensured w live (unless_rejected_ensures _ w8 w (λ v v' e. (sta v v' e).1) e9);
      }
