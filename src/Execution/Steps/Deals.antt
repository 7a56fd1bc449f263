-- ===== src/Execution/Steps/Deals.antt =====
-- What `initialize` and `sync_deals` of packages/execution/src/autotrader/execution/order_manager.py leave.
use kometa.Prelude.{
  if◌then◌else◌, ◌≡◌, refl, suc, ℕ, true, false, Option, some, none, List, [], ◌∷◌,
}
use kometa.Core.Broker.{BrokerDeal}
use kometa.Core.Time.{Datetime}
use kometa.Decimal.{dec_zero, leb_ℚ}
use kometa.Execution.Journal.{TrackedOrder, closed}
use kometa.Execution.World.{Effect, Env}
use kometa.Execution.Orders.{first_opened}
use kometa.Execution.Deals.{
  first_start, initialize, open_by_deal, apply_in, apply_out, apply_trade, apply_deal, apply_deals,
  keep_cursor, sync_deals, take_out, reduce, close_empty,
}
use kometa.Execution.Kept.{moved}
use kometa.Execution.Later.{Later, Later-refl, Later-trans}
use kometa.Execution.Steps.{
  Decimal, Steps, bind, seq, give-Steps, gets-Steps, if_Steps, ask-Steps, now-Steps,
  set_state-Steps,
}
use kometa.Execution.Steps.Journal.{
  is_placing, amend-Steps, save-Steps, alert-Steps, record_fill-Steps, closed_trade-Steps,
}
use kometa.Execution.Steps.Stops.{confirm_stop-Steps}

pub first_opened-Later :
    (o : Option Decimal) (price lots : Decimal) (t u : TrackedOrder)
    → Later t u
    → Later t (first_opened o price lots u)
first_opened-Later none price lots t u h = record {
  same_key = h.same_key;
  same_intent = h.same_intent;
  same_side = h.same_side;
  same_symbol = h.same_symbol;
  same_magic = h.same_magic;
  stop = h.stop;
}
first_opened-Later (some p) price lots t u h = h

close_empty-Later : (t : TrackedOrder) → Later t (close_empty t)
close_empty-Later t =
    elim (leb_ℚ t.lots dec_zero)
      as (λ c. Later t (if c then record t { state = closed; lots = dec_zero } else t)) [
        | true ↦
            moved t (record t { state = closed; lots = dec_zero }) refl refl refl refl refl refl
        | false ↦ Later-refl t
      ]

take_out-Later : (d : BrokerDeal) (t : TrackedOrder) → Later t (take_out d t)
take_out-Later d t =
    Later-trans t (reduce d t) (take_out d t) (moved t (reduce d t) refl refl refl refl refl refl)
      (close_empty-Later (reduce d t))

module _ {B : Type 0} {Q : List Effect → Effect → Type 0}
    (quiet : (past : List Effect) (e : Effect) → is_placing e ≡ false → Q past e) where
  first_start-Steps : (k : Env B) (since : Option Datetime) → Steps Q (first_start k since)
  first_start-Steps k (some since) = give-Steps _
  first_start-Steps k none = bind (ask-Steps _) (λ acct.
      bind (now-Steps k) (λ time. seq (set_state-Steps _ (λ s. refl)) (save-Steps quiet k)))

  pub initialize-Steps : (k : Env B) → Steps Q (initialize k)
  unfolding initialize
  initialize-Steps k = bind (gets-Steps _) (first_start-Steps k)

  open_by_deal-Steps :
      (k : Env B) (d : BrokerDeal) (t : TrackedOrder) → Steps Q (open_by_deal k d t)
  open_by_deal-Steps k d t =
      bind
        (amend-Steps _ _ (λ u.
          first_opened-Later u.entry_price d.price d.lots u _
            (moved u _ refl refl refl refl refl refl)))
        (λ a. bind (gets-Steps _) (λ u. bind (record_fill-Steps quiet k u _ _ _ _) (λ b.
          bind (save-Steps quiet k)
            (λ c. bind (confirm_stop-Steps quiet k u) (λ e. give-Steps _)))))

  apply_in-Steps : (k : Env B) (d : BrokerDeal) (t : TrackedOrder) → Steps Q (apply_in k d t)
  apply_in-Steps k d t =
      bind (amend-Steps _ _ (λ u. moved u _ refl refl refl refl refl refl))
        (λ a. if_Steps _ (open_by_deal-Steps k d t) (give-Steps _))

  apply_out-Steps : (k : Env B) (d : BrokerDeal) (t : TrackedOrder) → Steps Q (apply_out k d t)
  apply_out-Steps k d t = bind (amend-Steps _ _ (take_out-Later d)) (λ a.
      bind (gets-Steps _) (λ u. if_Steps _ (closed_trade-Steps quiet k u d.time) (give-Steps _)))

  apply_trade-Steps :
      (k : Env B) (d : BrokerDeal) (t : Option TrackedOrder) → Steps Q (apply_trade k d t)
  apply_trade-Steps k d none = give-Steps _
  apply_trade-Steps k d (some t) =
      if_Steps _ (apply_in-Steps k d t) (if_Steps _ (apply_out-Steps k d t) (give-Steps _))

  apply_deal-Steps : (k : Env B) (d : BrokerDeal) → Steps Q (apply_deal k d)
  unfolding apply_deal
  apply_deal-Steps k d =
      bind (set_state-Steps _ (λ s. refl))
        (λ a. if_Steps _ (alert-Steps quiet _ _ _) (bind (gets-Steps _) (apply_trade-Steps k d)))

  apply_deals-Steps :
      (k : Env B) (ds : List BrokerDeal) (cursor : Datetime) (new : ℕ)
      → Steps Q (apply_deals k ds cursor new)
  unfolding apply_deals
  apply_deals-Steps k [] cursor new = give-Steps _
  apply_deals-Steps k (d ∷ ds) cursor new = bind (gets-Steps _) (λ seen.
      if_Steps _ (apply_deals-Steps k ds cursor new)
        (seq (apply_deal-Steps k d) (apply_deals-Steps k ds _ (suc new))))

  keep_cursor-Steps : (k : Env B) (r : Datetime × ℕ) → Steps Q (keep_cursor k r)
  keep_cursor-Steps k (cursor, new) = bind (gets-Steps _) (λ old.
      bind (if_Steps _ (seq (set_state-Steps _ (λ s. refl)) (save-Steps quiet k)) (give-Steps _))
        (λ a. give-Steps _))

  pub sync_deals-Steps : (k : Env B) → Steps Q (sync_deals k)
  unfolding sync_deals
  sync_deals-Steps k = bind (now-Steps k) (λ time.
      bind (gets-Steps _) (λ old.
        bind (ask-Steps _) (λ deals. bind (apply_deals-Steps k _ _ 0) (keep_cursor-Steps k))))
