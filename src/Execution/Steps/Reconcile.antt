-- ===== src/Execution/Steps/Reconcile.antt =====
-- What the check, the resync and the jobs of packages/execution/src/autotrader/execution/reconcile.py leave.
use kometa.Decimal.{dec_zero, leb_ℚ}
use kometa.Prelude.{
  any, ◌||◌, not, keep_if, ◌≡◌, ◌∙◌, refl, sym, ap, Bool, false, String, Option, some, none, List,
  [], ◌∷◌, ◌==◌, string_eq, Bool-cases, inl, inr, some_inj, if◌then◌else◌,
}
use kometa.Prelude.Dict.{Dict, lookup, insert, lookup-insert}
use kometa.Core.Broker.{is_system_comment, BrokerOrder, BrokerPosition, BrokerDeal}
use kometa.Core.Time.{Datetime}
use kometa.Execution.Journal.{closed, failed, TrackedOrder}
use kometa.Execution.World.{set_state, Effect, Env, World, ◌>>=◌, gets}
use kometa.Execution.Kept.{if_Later, moved, none-some, insert-Kept}
use kometa.Execution.Later.{Later-refl, Later}
use kometa.Execution.Reconcile.Texts.{
  MismatchKind, Mismatch, unconfirmed_send, untracked_position, untracked_order, missing_position,
  missing_order, missing_stop, broker_unreachable,
}
use kometa.Execution.Reconcile.Report.{index_by, ReconReport, BrokerView}
use kometa.Execution.Reconcile.Check.{
  view, flag_each, save_any, flag_external, see, report_of, check,
}
use kometa.Execution.Reconcile.Resync.{
  lots_out, deals_explain, records, settle_sent, settle_missing_position, settle_lots, track,
  adopt_unknown, past_now, settle_missing_order, resolve_sent, resolve_known, resolve, resolve_all,
  resync_any, resync,
}
use kometa.Execution.Steps.{
  Step, Steps, bind, bind_at, if_at, seq, catch, give-Steps, gets-Steps, if_Steps, ask-Steps,
  now-Steps, set_state-Steps,
}
use kometa.Execution.Steps.Journal.{is_placing, amend-Steps, save-Steps, alert-Steps, Kept-Step}
use kometa.Execution.Steps.Stops.{confirm_stop-Steps}
use kometa.Execution.Steps.Deals.{sync_deals-Steps}

-- Each item of a dictionary stands under its own key.
Indexed : {A : Type 0} → (A → String) → Dict String A → Type 0
Indexed {A} key d = (c : String) (x : A) → lookup c d ≡ some x → key x ≡ c

insert-Indexed :
    {A : Type 0} (key : A → String) (y : A) (d : Dict String A)
    → Indexed key d
    → Indexed key (insert (key y) y d)
unfolding Indexed
insert-Indexed key y d h c x e = elim (Bool-cases (key y == c)) [
  | inl b ↦
      sym (
        ap key (
          some_inj (
            sym (ap (λ q. if q then some y else lookup c d) b)
            ∙ (sym (lookup-insert c (key y) y d) ∙ e))))
      ∙ (string_eq.beq_iff (key y) c).0 b
  | inr b ↦
      h c x (
        sym (ap (λ q. if q then some y else lookup c d) b)
        ∙ (sym (lookup-insert c (key y) y d) ∙ e))
]

index_by-Indexed :
    {A : Type 0} (key : A → String) (xs : List A) (d : Dict String A)
    → Indexed key d
    → Indexed key (index_by key d xs)
index_by-Indexed key [] d h = h
index_by-Indexed key (x ∷ xs) d h =
    index_by-Indexed key xs (insert (key x) x d) (insert-Indexed key x d h)

settle_sent-Later :
    (adopt_all : Bool) (ref : String) (deals : List BrokerDeal) (p : Option BrokerPosition)
    (o : Option BrokerOrder) (t : TrackedOrder)
    → Later t (settle_sent adopt_all ref deals p o t)
unfolding settle_sent
settle_sent-Later adopt_all ref deals (some p) o t = moved t _ refl refl refl refl refl refl
settle_sent-Later adopt_all ref deals none (some o) t = moved t _ refl refl refl refl refl refl
settle_sent-Later adopt_all ref deals none none t =
    if_Later (not (any (λ d. d.comment == ref) deals)) t
      (record t { state = failed; note = "never reached the broker" })
      (if adopt_all then record t { state = closed; note = "owner resync" } else t)
      (moved t _ refl refl refl refl refl refl)
      (if_Later adopt_all t (record t { state = closed; note = "owner resync" }) t
        (moved t _ refl refl refl refl refl refl) (Later-refl t))

settle_missing_position-Later :
    (adopt_all : Bool) (deals : List BrokerDeal) (t : TrackedOrder)
    → Later t (settle_missing_position adopt_all deals t)
unfolding settle_missing_position
settle_missing_position-Later adopt_all deals t =
    if_Later (leb_ℚ t.lots (lots_out t.position_id deals) || adopt_all) t
      (record t { state = closed; lots = dec_zero }) t (moved t _ refl refl refl refl refl refl)
      (Later-refl t)

settle_lots-Later :
    (adopt_all : Bool) (deals : List BrokerDeal) (p : Option BrokerPosition) (t : TrackedOrder)
    → Later t (settle_lots adopt_all deals p t)
unfolding settle_lots
settle_lots-Later adopt_all deals none t = Later-refl t
settle_lots-Later adopt_all deals (some p) t =
    if_Later (adopt_all || deals_explain deals t p.lots) t (record t { lots = p.lots }) t
      (moved t _ refl refl refl refl refl refl) (Later-refl t)

module _ {B : Type 0} {Q : List Effect → Effect → Type 0}
    (quiet : (past : List Effect) (e : Effect) → is_placing e ≡ false → Q past e) where
  view-Steps : (k : Env B) → Steps Q (view k)
  unfolding view
  view-Steps k =
      bind (ask-Steps _) (λ a. bind (ask-Steps _) (λ b. bind (ask-Steps _) (λ c. give-Steps _)))

  flag_each-Steps : (es : List String) → Steps Q (flag_each {B = B} es)
  unfolding flag_each
  flag_each-Steps [] = give-Steps _
  flag_each-Steps (e ∷ es) =
      bind (alert-Steps quiet _ _ _)
        (λ a. bind (set_state-Steps _ (λ s. refl)) (λ b. flag_each-Steps es))

  save_any-Steps : (k : Env B) (es : List String) → Steps Q (save_any k es)
  save_any-Steps k [] = give-Steps _
  save_any-Steps k (e ∷ es) = save-Steps quiet k

  flag_external-Steps : (k : Env B) (es : List String) → Steps Q (flag_external k es)
  unfolding flag_external
  flag_external-Steps k es =
      bind (gets-Steps _) (λ flagged. bind (flag_each-Steps _) (λ a. save_any-Steps k _))

  report_of-Steps :
      (k : Env B) (time : Datetime) (v : Option BrokerView) → Steps Q (report_of k time v)
  report_of-Steps k time none = give-Steps _
  report_of-Steps k time (some v) =
      bind (gets-Steps _) (λ out. bind (flag_external-Steps k _) (λ a. give-Steps _))

  see-Steps : (k : Env B) → Steps Q (see k)
  unfolding see
  see-Steps k =
      catch (bind (sync_deals-Steps quiet k) (λ n. bind (view-Steps k) (λ v. give-Steps _)))
        (λ e. give-Steps _)

  pub check-Steps : (k : Env B) → Steps Q (check k)
  unfolding check
  check-Steps k = bind (now-Steps k) (λ time. bind (see-Steps k) (report_of-Steps k time))

  track-Step :
      (t : TrackedOrder) (w : World B)
      → lookup t.client_order_id w.state.orders ≡ none
      → Step Q w (track t w).1
  unfolding set_state
  track-Step t w h =
      Kept-Step w (record w.state { orders = insert t.client_order_id t w.state.orders })
        (insert-Kept t.client_order_id t w.state.orders h refl)

  adopt_unknown-Step :
      (k : Env B) (ref : String) (p : Option BrokerPosition) (o : Option BrokerOrder) (w : World B)
      → ((x : BrokerPosition) → p ≡ some x → x.comment ≡ ref)
      → ((x : BrokerOrder) → o ≡ some x → x.comment ≡ ref)
      → lookup ref w.state.orders ≡ none
      → Step Q w (adopt_unknown k p o w).1
  unfolding adopt_unknown
  adopt_unknown-Step k ref (some p) o w h g e =
      track-Step _ w (ap (λ c. lookup c w.state.orders) (h p refl) ∙ e)
  adopt_unknown-Step k ref none (some o) w h g e =
      track-Step _ w (ap (λ c. lookup c w.state.orders) (g o refl) ∙ e)
  adopt_unknown-Step k ref none none w h g e = (give-Steps _).from w

  past_now-Steps : (k : Env B) (at : Option Datetime) → Steps Q (past_now k at)
  past_now-Steps k none = give-Steps _
  past_now-Steps k (some at) = bind (now-Steps k) (λ time. give-Steps _)

  settle_missing_order-Steps :
      (k : Env B) (adopt_all : Bool) (t : TrackedOrder) (fill : Option BrokerDeal)
      → Steps Q (settle_missing_order k adopt_all t fill)
  settle_missing_order-Steps k adopt_all t (some fill) =
      amend-Steps _ _ (λ u. moved u _ refl refl refl refl refl refl)
  settle_missing_order-Steps k adopt_all t none = bind (past_now-Steps k _) (λ past.
      if_Steps _
        (bind (past_now-Steps k _)
          (λ again. amend-Steps _ _ (λ u. moved u _ refl refl refl refl refl refl)))
        (give-Steps _))

  module _ (k : Env B) (v : BrokerView) (deals : List BrokerDeal) (adopt_all : Bool) where
    resolve_sent-Step :
        (ref : String) (t : Option TrackedOrder) (w : World B)
        → lookup ref w.state.orders ≡ t
        → Step Q w (resolve_sent k (records v deals) adopt_all ref t w).1
    unfolding Indexed
    resolve_sent-Step ref none w h =
        if_at w adopt_all _ _
          (λ a.
            adopt_unknown-Step k ref _ _ w
              (λ x e.
                index_by-Indexed (λ p. p.comment)
                  (keep_if (λ p. is_system_comment p.comment) v.positions) []
                  (λ c y f. elim (none-some y f) [ ]) ref x e)
              (λ x e.
                index_by-Indexed (λ p. p.comment)
                  (keep_if (λ p. is_system_comment p.comment) v.orders) []
                  (λ c y f. elim (none-some y f) [ ]) ref x e)
              h)
          (λ a. (give-Steps _).from w)
    resolve_sent-Step ref (some t) w h =
        (amend-Steps _ _ (settle_sent-Later adopt_all ref deals _ _)).from w

    resolve_known-Steps :
        (kind : MismatchKind) (t : Option TrackedOrder)
        → Steps Q (resolve_known k (records v deals) adopt_all kind t)
    resolve_known-Steps kind none = give-Steps _
    resolve_known-Steps missing_position (some t) =
        amend-Steps _ _ (settle_missing_position-Later adopt_all deals)
    resolve_known-Steps missing_order (some t) = settle_missing_order-Steps k adopt_all t _
    resolve_known-Steps MismatchKind.lots (some t) =
        amend-Steps _ _ (settle_lots-Later adopt_all deals _)
    resolve_known-Steps missing_stop (some t) = seq (confirm_stop-Steps quiet k t) (give-Steps _)
    resolve_known-Steps broker_unreachable (some t) = give-Steps _
    resolve_known-Steps unconfirmed_send (some t) = give-Steps _
    resolve_known-Steps untracked_position (some t) = give-Steps _
    resolve_known-Steps untracked_order (some t) = give-Steps _
    resolve_known-Steps MismatchKind.balance (some t) = give-Steps _

    resolve-Step :
        (kind : MismatchKind) (ref : String) (t : Option TrackedOrder) (w : World B)
        → lookup ref w.state.orders ≡ t
        → Step Q w (resolve k (records v deals) adopt_all kind ref t w).1
    resolve-Step unconfirmed_send ref t w h = resolve_sent-Step ref t w h
    resolve-Step untracked_position ref t w h = resolve_sent-Step ref t w h
    resolve-Step untracked_order ref t w h = resolve_sent-Step ref t w h
    resolve-Step missing_position ref t w h = (resolve_known-Steps missing_position t).from w
    resolve-Step missing_order ref t w h = (resolve_known-Steps missing_order t).from w
    resolve-Step MismatchKind.lots ref t w h = (resolve_known-Steps MismatchKind.lots t).from w
    resolve-Step missing_stop ref t w h = (resolve_known-Steps missing_stop t).from w
    resolve-Step broker_unreachable ref t w h = (resolve_known-Steps broker_unreachable t).from w
    resolve-Step MismatchKind.balance ref t w h =
        (resolve_known-Steps MismatchKind.balance t).from w

    resolve_each :
        (m : Mismatch) (ms : List Mismatch) (w : World B)
        → Steps Q (resolve_all k (records v deals) adopt_all ms)
        → Step Q w (resolve_all k (records v deals) adopt_all (m ∷ ms) w).1
    unfolding resolve_all ◌>>=◌ gets
    resolve_each m ms w rest =
        let t = lookup m.ref w.state.orders in
        bind_at w (resolve k (records v deals) adopt_all m.kind m.ref t)
          (λ u. resolve_all k (records v deals) adopt_all ms) (resolve-Step m.kind m.ref t w refl)
          (λ u. rest.from (resolve k (records v deals) adopt_all m.kind m.ref t w).1)

    resolve_all-Steps :
        (ms : List Mismatch) → Steps Q (resolve_all k (records v deals) adopt_all ms)
    unfolding resolve_all
    resolve_all-Steps [] = give-Steps _
    resolve_all-Steps (m ∷ ms) = record { from = λ w. resolve_each m ms w (resolve_all-Steps ms) }

  resync_any-Steps :
      (k : Env B) (report : ReconReport) (adopt_all : Bool)
      → Steps Q (resync_any k report adopt_all)
  resync_any-Steps k report adopt_all = bind (view-Steps k) (λ v. bind (gets-Steps _) (λ orders.
      bind (now-Steps k) (λ time. bind (ask-Steps _) (λ deals.
        bind (resolve_all-Steps k v deals adopt_all _) (λ a.
          bind (if_Steps _ (set_state-Steps _ (λ s. refl)) (give-Steps _))
            (λ b. save-Steps quiet k))))))

  pub resync-Steps :
      (k : Env B) (report : ReconReport) (adopt_all : Bool) → Steps Q (resync k report adopt_all)
  unfolding resync
  resync-Steps k report adopt_all = if_Steps _ (give-Steps _) (resync_any-Steps k report adopt_all)
