-- ===== src/Lifecycle/Evaluator/Verdicts.antt =====
-- The evaluator on a version that trades money: what each of its verdicts records.
use kometa.Lifecycle.Evaluator.Windows.{HasSamples, HasWindows, band-some, reasons-some}
use kometa.Lifecycle.Registry.Moves.{legal_for}
use kometa.Lifecycle.Evaluator.Money.{
  not_ready, micro_metrics, on_target, micro_exit, judge_money, judge_findings, judge_sharpe,
  judge_micro, promote_to_live, demoted,
}
use kometa.Lifecycle.Evaluator.Shadow.{moved_to}
use kometa.Lifecycle.Registry.{value_error, changed, Registry}
use kometa.Prelude.{
  ◌&&◌, ◌-◌, ℕ, ◌≡◌, ◌<◌, refl, sym, ◌∙◌, ap, Bool, true, false, String, Option, none, some, List,
  [], ◌∷◌, if◌then◌else◌, ◌==◌, length, arith, leb, ltb,
}
use kometa.Core.Time.{Datetime, days}
use kometa.Core.Models.{Stage, micro, live, scaled, stage_eq, Trade}
use kometa.Core.Events.{StageChanged}
use kometa.Core.Broker.{ExecutionQuality}
use kometa.Decimal.{ltb_ℚ, Decimal}
use kometa.Lifecycle.Stats.{mean}
use kometa.Lifecycle.Evaluator.Base.{ActionAlert, Action, Env, World, give}
use kometa.Lifecycle.Evaluator.Metrics.{multiples, slippage_ratio, Metrics, Findings}
use kometa.Lifecycle.Evaluator.Outcome.{
  Ensures, give-Ensures, bind-Ensures, now-Ensures, gets-Ensures, or_fail-Ensures, if_Ensures,
  move-Ensures, moved_by, Moved, IsAt, tick,
}
use kometa.Lifecycle.Evaluator.Demotions.{Acted, demote_acts}
use kometa.Lifecycle.Ladder.{
  allowed, demotion, VersionState, BacktestProfile, key_of, legal, evaluator, money_stage,
  has_profile,
}
use kometa.Lifecycle.Registry as Reg

-- From micro to live only while fewer versions than the weekly limit entered live in the week before
-- the time `now`.
abbrev pub InLimit : Env → VersionState → (now : Datetime) → Registry → StageChanged → Type 0
InLimit k v now g ev =
    v.stage ≡ micro
    → ev.to_stage ≡ live
    → Reg.promotions_to live (now - days 7) g < k.cfg.limits.max_promotions_to_live_per_week

-- Nothing is changed and nothing is asked of execution; or one legal change is recorded, within the
-- weekly limit, and a demotion has its actions.
abbrev pub Judged :
    Env
    → VersionState
    → (now : Datetime) → Registry
    → List Action
    → List ActionAlert
    → Option StageChanged
    → World
    → Type 0
Judged k v now g done alerts none u = (u.registry ≡ g) × (u.done ≡ done)
Judged k v now g done alerts (some ev) u =
    Moved v g ev u.registry
    × InLimit k v now g ev
    × (demotion v.stage ev.to_stage ≡ true
        → Acted k.actions (key_of v) ev.to_stage ev.reason done alerts u)

stay-Judged :
    (k : Env) (v : VersionState) (start : Datetime) (w : World)
    → Ensures (give none) w (Judged k v start w.registry w.done w.alerts)
stay-Judged k v start w = give-Ensures none w (refl, refl)

-- a promotion, or the retirement of a version in shadow
move-Judged :
    (k : Env) (v : VersionState) (to : Stage) (reason : String) (m : Metrics) (start : Datetime)
    (w : World)
    → IsAt v w.registry
    → legal v to evaluator ≡ true
    → demotion v.stage to ≡ false
    → (v.stage ≡ micro
        → to ≡ live
        → Reg.promotions_to live (start - days 7) w.registry
          < k.cfg.limits.max_promotions_to_live_per_week)
    → Ensures (moved_to k (key_of v) to reason m) w (Judged k v start w.registry w.done w.alerts)
unfolding moved_to
move-Judged k v to reason m start w here l up limit = move-Ensures k v to reason m _ w here l (
    give-Ensures (some (changed v to reason (k.clock w.readings))) _
      (moved_by k v to reason m w l, limit, λ h. elim (true-ne-false (sym h ∙ up)) [ ]))
  where
    true-ne-false : true ≡ false → ⊥
    true-ne-false h = cc

demoted-Judged :
    (k : Env) (v : VersionState) (reason : String) (m : Metrics) (w : World)
    → IsAt v w.registry
    → money_stage v.stage ≡ true
    → Ensures (demoted k v reason m) w (Judged k v (k.clock w.readings) w.registry w.done w.alerts)
unfolding demoted
demoted-Judged k v reason m w here money =
    bind-Ensures (demote_acts k v reason m w here money)
      (λ ev u h. give-Ensures (some ev) u (h.moved, λ s t. elim (h.not_live s t) [ ], λ d. h.acted))

leb-false→lt : (a b : ℕ) → leb a b ≡ false → b < a
leb-false→lt a b h = ground arith

enough_trades : (n least : ℕ) → 0 < least → ltb n least ≡ false → 0 < n
enough_trades n least h k = ground arith

stage_is : (s t : Stage) → (s == t) ≡ true → s ≡ t
stage_is s t h = (stage_eq.beq_iff s t).0 h

-- the legal moves, at a stage that is known
pub legal_at :
    (v : VersionState) (s to : Stage)
    → v.stage ≡ s
    → ((p q : Bool) → legal_for p q false s to ≡ true)
    → legal v to evaluator ≡ true
unfolding legal
legal_at v s to e h =
    ap (λ t. legal_for v.info.paper_only (has_profile v) false t to) e
    ∙ h v.info.paper_only (has_profile v)

micro_live-legal : (v : VersionState) → v.stage ≡ micro → legal v live evaluator ≡ true
unfolding allowed
micro_live-legal v e = legal_at v micro live e (λ p q. ground arith)

live_scaled-legal : (v : VersionState) → v.stage ≡ live → legal v scaled evaluator ≡ true
unfolding allowed
live_scaled-legal v e = legal_at v live scaled e (λ p q. ground arith)

micro_live-up : (s : Stage) → s ≡ micro → demotion s live ≡ false
unfolding demotion
micro_live-up s e = ap (λ t. demotion t live) e

live_scaled-up : (s : Stage) → s ≡ live → demotion s scaled ≡ false
unfolding demotion
live_scaled-up s e = ap (λ t. demotion t scaled) e

scaled-not_live : scaled ≡ live → ⊥
scaled-not_live h = cc

stage_live : (s : Stage) (b : Bool) → (s == live && b) ≡ true → s ≡ live
stage_live s b h = stage_is s live (left (s == live) b h)
  where
    left : (a b : Bool) → (a && b) ≡ true → a ≡ true
    left a b h = ground arith

promote-Judged :
    (k : Env) (v : VersionState) (m : Metrics) (w : World)
    → IsAt v w.registry
    → v.stage ≡ micro
    → Ensures (promote_to_live k v m) w (Judged k v (k.clock w.readings) w.registry w.done w.alerts)
unfolding promote_to_live
promote-Judged k v m w here e = now-Ensures k _ (
    gets-Ensures _ _ (
      if_Ensures _ (λ full. stay-Judged k v (k.clock w.readings) (tick w))
        (λ room.
          move-Judged k v live "micro targets met" m (k.clock w.readings) (tick w) here
            (micro_live-legal v e) (micro_live-up v.stage e) (λ s t. leb-false→lt _ _ room))))

micro-Judged :
    (k : Env) (v : VersionState) (o : Option BacktestProfile) (ts : List Trade)
    (fills : List ExecutionQuality) (m : Metrics) (w : World)
    → IsAt v w.registry
    → v.stage ≡ micro
    → HasWindows k.cfg
    → HasSamples o
    → Ensures
        (judge_micro k v o ts fills m)
        w
        (Judged k v (k.clock w.readings) w.registry w.done w.alerts)
unfolding judge_micro
micro-Judged k v none ts fills m w here e c s = stay-Judged k v _ w
micro-Judged k v (some p) ts fills m w here e c s =
    if_Ensures _ (λ few. stay-Judged k v _ w)
      (λ enough.
        let band =
          band-some k.numbers p.trade_r (length ts) k.cfg.micro.exit.band
            (enough_trades _ _ c.min_trades enough) s.0 in
        let ratio = slippage_ratio fills (some p) in
        let avg = mean (multiples ts) in
        or_fail-Ensures value_error _ _ band.0 band.1 (
          if_Ensures {n = promote_to_live k v (micro_metrics ratio avg band.0 m)}
            (not_ready k ratio avg band.0) (λ odd. stay-Judged k v _ w)
            (λ fits. promote-Judged k v (micro_metrics ratio avg band.0 m) w here e)))

below-Judged :
    (k : Env) (v : VersionState) (sharpe : Decimal) (m : Metrics) (w : World)
    → IsAt v w.registry
    → money_stage v.stage ≡ true
    → Ensures
        (if v.stage == scaled && ltb_ℚ sharpe k.cfg.live.exit.min_rolling_sharpe
          then demoted k v (k.texts.slipped sharpe k.cfg.live.exit.min_rolling_sharpe) m
          else give none)
        w
        (Judged k v (k.clock w.readings) w.registry w.done w.alerts)
below-Judged k v sharpe m w here money =
    let text = k.texts.slipped sharpe k.cfg.live.exit.min_rolling_sharpe in
    if_Ensures {m = demoted k v text m}
      (v.stage == scaled && ltb_ℚ sharpe k.cfg.live.exit.min_rolling_sharpe)
      (λ slipped. demoted-Judged k v text m w here money) (λ fine. stay-Judged k v _ w)

sharpe-Judged :
    (k : Env) (v : VersionState) (ts : List Trade) (sharpe : Decimal) (m : Metrics) (w : World)
    → IsAt v w.registry
    → money_stage v.stage ≡ true
    → Ensures
        (judge_sharpe k v ts sharpe m)
        w
        (Judged k v (k.clock w.readings) w.registry w.done w.alerts)
unfolding judge_sharpe
sharpe-Judged k v ts sharpe m w here money =
    if_Ensures (v.stage == live && on_target k ts sharpe)
      (λ good.
        let e = stage_live v.stage (on_target k ts sharpe) good in
        move-Judged k v scaled "live targets met" m (k.clock w.readings) w here
          (live_scaled-legal v e) (live_scaled-up v.stage e) (λ s t. elim (scaled-not_live t) [ ]))
      (λ not_good. below-Judged k v sharpe m w here money)

findings-Judged :
    (k : Env) (v : VersionState) (ts : List Trade) (fills : List ExecutionQuality) (f : Findings)
    (w : World)
    → IsAt v w.registry
    → money_stage v.stage ≡ true
    → HasWindows k.cfg
    → HasSamples v.profile
    → Ensures
        (judge_findings k v ts fills f)
        w
        (Judged k v (k.clock w.readings) w.registry w.done w.alerts)
unfolding judge_findings micro_exit
findings-Judged k v ts fills (r ∷ rs, m) w here money c s = demoted-Judged k v _ m w here money
findings-Judged k v ts fills ([], m) w here money c s =
    if_Ensures (v.stage == micro)
      (λ e. micro-Judged k v v.profile _ fills m w here (stage_is v.stage micro e) c s)
      (λ other. sharpe-Judged k v _ _ _ w here money)

-- A verdict on a version in a money stage does not raise, where the windows are positive and a
-- profile has samples. It changes nothing, or it records one legal change of that version, to live
-- from micro only if fewer versions than the weekly limit entered live in the week before the clock's
-- first reading, and a demotion has its actions done
-- without an alert or reported in one.
pub judge_money-Judged :
    (k : Env) (v : VersionState) (w : World)
    → IsAt v w.registry
    → money_stage v.stage ≡ true
    → HasWindows k.cfg
    → HasSamples v.profile
    → Ensures (judge_money k v) w (Judged k v (k.clock w.readings) w.registry w.done w.alerts)
unfolding judge_money
judge_money-Judged k v w here money c s =
    let found = reasons-some k.numbers k.cfg.demotion v.profile _ _ c.drift s in
    or_fail-Ensures value_error _ _ found.0 found.1
      (findings-Judged k v _ _ found.0 w here money c s)
