-- ===== src/Risk/Gate/Limits.antt =====
-- What an approval means: the guards of `decide`, and the budgets of the signed limits.
use kometa.Prelude.{
  some_inj, ◌≡◌, ◌≢◌, sym, ap, ◌∙◌, true, false, some, Result, ok, ◌>>=◌, inl, inr, arith,
  if◌then◌else◌, string_eq, ok-injective,
}
use mathlib.Core.Path.{subst}
use mathlib.Core.Bool.{false≢true}
use kometa.Prelude.Dict.{lookup}
use kometa.Core.Broker.{DataError, division_by_zero}
use kometa.Core.Models.{
  Instrument, OrderIntent, Verdict, normal, Side, is_buy, check_lots, stop_on_right_side,
}
use kometa.Decimal.{
  Decimal, dec, dec_zero, ◌+ℚ◌, ◌-ℚ◌, ◌*ℚ◌, ◌≤ℚ◌, ◌<ℚ◌, leb_ℚ, min_ℚ, abs_ℚ, div_ℚ,
}
use kometa.Decimal.Order.{≤ℚ_trans, leb-false, ltb-false, <ℚ→ltb, ltb→<ℚ, le-min_ℚ}
use kometa.Decimal.Floor.{mul_ℚ-le_of_le-div}
use kometa.Decimal.Signs.{mul_ℚ_pos, abs_sub_pos_gt, abs_sub_pos_lt, add_one_pos}
use kometa.Risk.Config.{max_lots}
use kometa.Risk.Exposure.{Snapshot, sum_where, every, of_strategy, on_symbol, risk_money, notional}
use kometa.Risk.Work.{Work}
use kometa.Risk.Checks.{
  Facts, dist, per_lot_risk, stage_of, stage_limit, run_checks, trades_in, after_weekly_cutoff,
}
use kometa.Risk.Checks.Bounds.{Bounded}
use kometa.Risk.Checks.Market.{blacked_out}
use kometa.Risk.Checks.Trace.{Passed, run_checks-Passed}
use kometa.Risk.Gate.{
  Gate, GateEnv, Decision, entry_of, start_work, facts_of, assess_with, assess, decide,
}
use kometa.Risk.Gate.Reduces.{decide_inversion, finish_fields, verdict_of_allowed}

-- A validated instrument has a positive step, smallest size and contract size.
valid_parts :
    (i : Instrument)
    → check_lots i ≡ true
    → (dec_zero <ℚ i.lot_step) × (dec_zero <ℚ i.min_lot) × (dec_zero <ℚ i.contract_size)
valid_parts i h = (
  leb-false i.lot_step dec_zero (ground arith),
  ltb→<ℚ dec_zero i.min_lot (ground arith),
  leb-false i.contract_size dec_zero (ground arith),
)

-- A stop that is not on the wrong side is at a distance.
dist_pos :
    (s : Side) (entry st : Decimal)
    → (if is_buy s then leb_ℚ entry st else leb_ℚ st entry) ≡ false
    → (stop_on_right_side s entry st ≡ true) × (dec_zero <ℚ abs_ℚ (entry -ℚ st))
dist_pos Side.buy entry st h =
    let lt = leb-false entry st h in (<ℚ→ltb st entry lt, abs_sub_pos_gt entry st lt)
dist_pos Side.sell entry st h =
    let lt = leb-false st entry h in (<ℚ→ltb entry st lt, abs_sub_pos_lt entry st lt)

-- The size that is approved keeps a bound that the checks left.
bounded_cost :
    (room cost q lots : Decimal) (w : Work)
    → dec_zero <ℚ cost
    → div_ℚ division_by_zero room cost ≡ ok q
    → w.rejected ≡ false
    → lots ≤ℚ w.lots
    → Bounded q w
    → lots *ℚ cost ≤ℚ room
bounded_cost room cost q lots w pos e live le (inl h) = absurd (false≢true (sym live ∙ h))
bounded_cost room cost q lots w pos e live le (inr h) =
    mul_ℚ-le_of_le-div division_by_zero room cost lots q pos e (≤ℚ_trans lots w.lots q le h)

bounded_cost_from :
    (cost lots : Decimal) (w : Work)
    → dec_zero <ℚ cost
    → w.rejected ≡ false
    → lots ≤ℚ w.lots
    → (room q : Decimal) → div_ℚ division_by_zero room cost ≡ ok q
    → Bounded q w
    → lots *ℚ cost ≤ℚ room
bounded_cost_from cost lots w pos live le room q e b =
    bounded_cost room cost q lots w pos e live le b

bounded_lots :
    (l lots : Decimal) (w : Work) → w.rejected ≡ false → lots ≤ℚ w.lots → Bounded l w → lots ≤ℚ l
bounded_lots l lots w live le (inl h) = absurd (false≢true (sym live ∙ h))
bounded_lots l lots w live le (inr h) = ≤ℚ_trans lots w.lots l le h

assess_facts :
    (k : GateEnv) (intent : OrderIntent) (snap : Snapshot) (g : Gate) {inst : Instrument}
    {fx entry : Decimal}
    → lookup intent.signal.symbol snap.instruments ≡ some inst
    → snap.to_account inst.quote ≡ ok fx
    → entry_of snap intent.signal ≡ ok entry
    → assess k g intent snap
      ≡ run_checks k.local (facts_of g intent snap inst fx entry) (start_work intent)
unfolding assess
assess_facts k intent snap g {inst} {fx} known rate price =
    ap (assess_with k g intent snap) known
    ∙ ap (λ r. r >>= from_rate) rate
    ∙ ap (λ r. r >>= from_entry fx) price
  where
    from_entry : Decimal → Decimal → Result DataError Work
    from_entry x y = run_checks k.local (facts_of g intent snap inst x y) (start_work intent)

    from_rate : Decimal → Result DataError Work
    from_rate x = entry_of snap intent.signal >>= from_entry x

-- The gate has decided about the intent, with a verdict other than reject, for an instrument that
-- is known and valid, with a positive rate into the account currency.
module _ (k : GateEnv) (intent : OrderIntent) (snap : Snapshot) (g : Gate) {g' : Gate}
    {d : Decision} (decided : decide k intent snap g ≡ ok (g', d))
    (allowed : d.verdict ≢ Verdict.reject) {inst : Instrument}
    (known : lookup intent.signal.symbol snap.instruments ≡ some inst)
    (valid : check_lots inst ≡ true) {fx : Decimal} (rate : snap.to_account inst.quote ≡ ok fx)
    (fx_pos : dec_zero <ℚ fx) {entry : Decimal}
    (price : entry_of snap intent.signal ≡ ok entry) where
  abbrev facts : Facts
  facts = facts_of g intent snap inst fx entry

  abbrev step_pos : dec_zero <ℚ inst.lot_step
  step_pos = (valid_parts inst valid).0

  abbrev min_pos : dec_zero <ℚ inst.min_lot
  min_pos = (valid_parts inst valid).1

  -- The size that the checks left, what they ensure of it, and the decision's size.
  passed :
      (w : Work) × (w.rejected ≡ false)
      × Passed facts step_pos min_pos k.local (start_work intent) w
      × (d.approved_lots ≤ℚ w.lots)
      × (d.approved_lots ≡ min_ℚ w.lots intent.proposed_lots)
      × (dec_zero <ℚ d.approved_lots)
  passed =
      let (w, e, f) = decide_inversion k intent snap g decided in
      let (lots, v) = finish_fields k intent w snap.now g f in
      let (live, pos, le, same) =
        verdict_of_allowed intent.proposed_lots w (λ r. allowed (v ∙ r)) in
      (
        w,
        live,
        run_checks-Passed facts step_pos min_pos k.local (start_work intent) w
            (sym (assess_facts k intent snap g known rate price) ∙ e) live,
        subst (λ l. l ≤ℚ w.lots) (sym lots) le,
        lots ∙ same,
        subst (λ l. dec_zero <ℚ l) (sym lots) pos,
      )

  -- For a known and valid instrument, a positive currency rate and an entry price: an entry is
  -- approved only in the normal halt state, with its stop on the right side of the entry
  -- price and at least the configured number of spreads away, with positive equity, outside a news
  -- blackout and before the weekly cutoff, for a strategy version whose stage trades.
  pub approved_guards :
      (g.state.halt ≡ normal)
      × (stop_on_right_side intent.signal.side entry intent.signal.stop_price ≡ true)
      × (g.lim.min_stop_spreads *ℚ (snap.ask -ℚ snap.bid)
          ≤ℚ abs_ℚ (entry -ℚ intent.signal.stop_price))
      × (dec_zero <ℚ snap.equity)
      × (blacked_out facts ≡ false)
      × (after_weekly_cutoff k.local g.lim snap.now ≡ false)
      × (trades_in (stage_limit facts) (stage_of facts) ≡ true)
  approved_guards =
      let (w, live, p, le, same, pos) = passed in
      (
        p.normal_state,
        (dist_pos intent.signal.side entry intent.signal.stop_price p.right_stop).0,
        ltb-false (dist facts) (g.lim.min_stop_spreads *ℚ (snap.ask -ℚ snap.bid)) p.far_stop,
        leb-false snap.equity dec_zero p.solvent,
        p.no_news,
        p.before_cutoff,
        p.trades,
      )

  per_lot_risk_pos : dec_zero <ℚ per_lot_risk facts
  per_lot_risk_pos =
      let (w, live, p, le, same, pos) = passed in
      mul_ℚ_pos (dist facts *ℚ inst.contract_size) fx
        (mul_ℚ_pos (dist facts) inst.contract_size
          (dist_pos intent.signal.side entry intent.signal.stop_price p.right_stop).1
          (valid_parts inst valid).2)
        fx_pos

  -- For a known and valid instrument, a positive currency rate and an entry price: the money at
  -- risk of an approved entry, its lots times the risk per lot, is at most the per-trade
  -- maximum, and with the open risk of its strategy, and of the whole account, at most their maxima.
  pub approved_within_risk_budgets :
      (strategy total : Decimal)
      → sum_where
          (of_strategy intent.signal.strategy_id)
          (risk_money g.lim snap)
          dec_zero
          snap.exposures
        ≡ ok strategy
      → sum_where every (risk_money g.lim snap) dec_zero snap.exposures ≡ ok total
      → let risk = d.approved_lots *ℚ per_lot_risk facts in
        (risk ≤ℚ snap.equity *ℚ g.lim.risk_per_trade_max)
        × (risk ≤ℚ snap.equity *ℚ g.lim.open_risk_per_strategy_max -ℚ strategy)
        × (risk ≤ℚ snap.equity *ℚ g.lim.open_risk_total_max -ℚ total)
  approved_within_risk_budgets strategy total hs ht =
      let (w, live, p, le, same, pos) = passed in
      let o = p.open_risk in
      let cost = per_lot_risk facts in
      let at_cost = bounded_cost_from cost d.approved_lots w per_lot_risk_pos live le in
      (
        at_cost _ o.trade_quotient o.trade_div o.within_trade,
        subst (λ x. d.approved_lots *ℚ cost ≤ℚ snap.equity *ℚ g.lim.open_risk_per_strategy_max -ℚ x)
            (ok-injective (sym o.strategy_is ∙ hs))
            (at_cost _ o.strategy_quotient o.strategy_div o.within_strategy),
        subst (λ x. d.approved_lots *ℚ cost ≤ℚ snap.equity *ℚ g.lim.open_risk_total_max -ℚ x)
            (ok-injective (sym o.total_is ∙ ht))
            (at_cost _ o.total_quotient o.total_div o.within_total),
      )

  -- For a known and valid instrument, a positive currency rate and entry price, and a margin ratio
  -- that is not negative, where the caps and the margin per lot are configured: the notional of an
  -- approved entry fits in what leverage leaves beside the open positions, its
  -- lots fit the caps of the symbol and of the broker, and the free margin covers it with the ratio.
  pub approved_within_leverage_and_margin :
      (held on most mpl : Decimal)
      → dec_zero <ℚ entry
      → dec_zero ≤ℚ g.lim.min_free_margin_ratio
      → sum_where every (λ e. notional snap e.symbol e.lots e.entry) dec_zero snap.exposures
        ≡ ok held
      → sum_where (on_symbol intent.signal.symbol) (λ e. ok e.lots) dec_zero snap.exposures ≡ ok on
      → max_lots g.lim intent.signal.symbol ≡ ok most
      → lookup intent.signal.symbol snap.margin_per_lot ≡ some mpl
      → (d.approved_lots *ℚ (inst.contract_size *ℚ entry *ℚ fx)
          ≤ℚ snap.equity *ℚ g.lim.leverage_notional_max -ℚ held)
        × (d.approved_lots ≤ℚ most -ℚ on)
        × (d.approved_lots ≤ℚ inst.max_lot)
        × (d.approved_lots *ℚ ((g.lim.min_free_margin_ratio +ℚ dec 1) *ℚ mpl) ≤ℚ snap.free_margin)
  approved_within_leverage_and_margin held on most mpl entry_pos ratio hh ho hm hp =
      let (w, live, p, le, same, pos) = passed in
      let l = p.leverage in
      let m = p.margin in
      let lots = d.approved_lots in
      let cost = inst.contract_size *ℚ entry *ℚ fx in
      let mpl_same : m.mpl ≡ mpl = some_inj (sym m.mpl_is ∙ hp) in
      (
        subst (λ x. lots *ℚ cost ≤ℚ snap.equity *ℚ g.lim.leverage_notional_max -ℚ x)
            (ok-injective (sym l.held_is ∙ hh))
            (bounded_cost_from cost lots w
              (mul_ℚ_pos (inst.contract_size *ℚ entry) fx
                (mul_ℚ_pos inst.contract_size entry (valid_parts inst valid).2 entry_pos) fx_pos)
              live le _ l.quotient l.quotient_is l.within_leverage),
        subst (λ x. lots ≤ℚ most -ℚ x) (ok-injective (sym l.lots_on_is ∙ ho))
            (subst (λ x. lots ≤ℚ x -ℚ l.lots_on) (ok-injective (sym l.most_is ∙ hm))
              (bounded_lots (l.most -ℚ l.lots_on) lots w live le l.within_symbol)),
        bounded_lots inst.max_lot lots w live le l.within_broker,
        subst (λ x. lots *ℚ ((g.lim.min_free_margin_ratio +ℚ dec 1) *ℚ x) ≤ℚ snap.free_margin)
            mpl_same
            (bounded_cost_from ((g.lim.min_free_margin_ratio +ℚ dec 1) *ℚ m.mpl) lots w
              (mul_ℚ_pos (g.lim.min_free_margin_ratio +ℚ dec 1) m.mpl
                (add_one_pos g.lim.min_free_margin_ratio ratio)
                (leb-false m.mpl dec_zero m.positive))
              live le _ m.quotient m.quotient_is m.within_margin),
      )

  -- For a known and valid instrument, a positive currency rate and an entry price: if the proposal is
  -- at least the smallest lot, then so is what is approved of it.
  pub approved-ge-min_lot : inst.min_lot ≤ℚ intent.proposed_lots → inst.min_lot ≤ℚ d.approved_lots
  approved-ge-min_lot h =
      let (w, live, p, le, same, pos) = passed in
      subst (λ x. inst.min_lot ≤ℚ x) (sym same)
        (le-min_ℚ inst.min_lot w.lots intent.proposed_lots (p.at_least h) h)
