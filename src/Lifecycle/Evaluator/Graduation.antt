-- ===== src/Lifecycle/Evaluator/Graduation.antt =====
-- The evaluator's verdict on a version in shadow.
use kometa.Decimal.Order.{ltb-false, <ℚ_trans_≤ℚ}
use kometa.Lifecycle.Stats.{quotient}
use kometa.Prelude.{
  if◌then◌else◌, ltb, ◌≤◌, ℕ, suc, ◌≡◌, ◌-◌, ◌<◌, refl, sym, Bool, true, false, Option, none, some,
  List, [], ◌∷◌, ◌||◌, length, map, arith,
}
use mathlib.Core.Path.{ap, subst}
use kometa.Core.Time.{Datetime}
use kometa.Core.Models.{shadow, micro, retired, stage_eq, Trade}
use kometa.Core.Events.{StageChanged}
use kometa.Decimal.{◌<ℚ◌, leb_ℚ, dec_zero, eqb_ℚ, ◌≤ℚ◌, Decimal, dec, frac}
use kometa.Lifecycle.Evaluator.Base.{Env, World, Action}
use kometa.Lifecycle.Evaluator.Outcome.{
  Ensures, give-Ensures, bind-Ensures, now-Ensures, or_fail-Ensures, if_Ensures, move-Ensures,
  moved_by, Moved, IsAt, tick,
}
use kometa.Lifecycle.Evaluator.Shadow.{
  judge_shadow, judge_profile, leave_shadow, compare_shadow, compare_avg, not_due, whole_weeks,
  week, Verdict, moved_to,
}
use kometa.Lifecycle.Evaluator.Verdicts.{legal_at}
use kometa.Lifecycle.Evaluator.Windows.{HasSamples, band-some, length-map}
use kometa.Lifecycle.Evaluator.Metrics.{Metrics}
use kometa.Lifecycle.Ladder.{VersionState, BacktestProfile, key_of, legal, allowed, evaluator}
use kometa.Lifecycle.Registry.{zero_division_error, Registry, value_error}

-- Long enough in shadow at the time `now`, with enough signals, and not bound to paper.
abbrev pub MayRisk : Env → VersionState → (now : Datetime) → Type 0
MayRisk k v now =
    (k.cfg.shadow.exit.min_weeks ≤ℚ frac (now - v.stage_since) week)
    × (k.cfg.shadow.exit.min_signals ≤ k.stage_data.signal_count (key_of v) v.stage_since)
    × (v.info.paper_only ≡ false)

-- Nothing is changed; or one legal change is recorded, and the version may risk money. Execution is asked for nothing.
abbrev pub Graduated :
    Env
    → VersionState
    → (now : Datetime) → Registry
    → List Action
    → Option StageChanged
    → World
    → Type 0
Graduated k v now g done none u = (u.registry ≡ g) × (u.done ≡ done)
Graduated k v now g done (some ev) u = Moved v g ev u.registry × MayRisk k v now × (u.done ≡ done)

-- a value, with nothing changed
abbrev Still : {A : Type 0} → World → A → World → Type 0
Still w a u = u ≡ w

compare_avg-Still :
    (k : Env) (p : BacktestProfile) (ts : List Trade) (b : Bool) (m : Metrics) (w : World)
    → 0 < length p.trade_r
    → Ensures (compare_avg k p ts b m) w (Still w)
unfolding compare_avg
compare_avg-Still k p [] b m w h = give-Ensures (false, m) w refl
compare_avg-Still k p (t ∷ ts) b m w h =
    let band =
      band-some k.numbers p.trade_r (suc (length ts)) k.cfg.shadow.exit.band (omega arith) h in
    or_fail-Ensures value_error _ _ band.0 band.1 (give-Ensures _ w refl)

whole_weeks_pos : (x : Decimal) → 0 < whole_weeks x
whole_weeks_pos x = ground arith

compare_shadow-Still :
    (k : Env) (p : BacktestProfile) (weeks : Decimal) (signals : ℕ) (ts : List Trade) (w : World)
    → HasSamples (some p)
    → eqb_ℚ weeks dec_zero ≡ false
    → Ensures (compare_shadow k p weeks signals ts) w (Still w)
unfolding compare_shadow
compare_shadow-Still k p weeks signals ts w h some_time =
    let band =
      band-some k.numbers (map dec p.weekly_entries) (whole_weeks weeks) k.cfg.shadow.exit.band
        (whole_weeks_pos weeks) (subst (λ n. 0 < n) (sym (length-map dec p.weekly_entries)) h.1) in
    or_fail-Ensures zero_division_error _ _ (quotient (dec (length ts)) weeks)
      (ap (λ b. if b then none else some (quotient (dec (length ts)) weeks)) some_time)
      (or_fail-Ensures value_error _ _ band.0 band.1 (compare_avg-Still k p ts _ _ w h.0))

shadow_micro-legal :
    (v : VersionState)
    → v.stage ≡ shadow
    → v.info.paper_only ≡ false
    → legal v micro evaluator ≡ true
unfolding legal allowed
shadow_micro-legal v e p = ground arith

shadow_retired-legal : (v : VersionState) → v.stage ≡ shadow → legal v retired evaluator ≡ true
unfolding allowed
shadow_retired-legal v e = legal_at v shadow retired e (λ p q. ground arith)

leave-Graduated :
    (k : Env) (v : VersionState) (x : Verdict) (now : Datetime) (w : World)
    → IsAt v w.registry
    → v.stage ≡ shadow
    → MayRisk k v now
    → Ensures (leave_shadow k (key_of v) x) w (Graduated k v now w.registry w.done)
unfolding leave_shadow moved_to
leave-Graduated k v (true, m) now w here e risk =
    let l = shadow_micro-legal v e risk.2 in
    move-Ensures k v micro "shadow matches backtest" m _ w here l
      (give-Ensures _ _ (moved_by k v micro "shadow matches backtest" m w l, risk, refl))
leave-Graduated k v (false, m) now w here e risk =
    let l = shadow_retired-legal v e in
    move-Ensures k v retired "shadow diverges from backtest" m _ w here l
      (give-Ensures _ _ (moved_by k v retired "shadow diverges from backtest" m w l, risk, refl))

profile-Graduated :
    (k : Env) (v : VersionState) (o : Option BacktestProfile) (weeks : Decimal) (signals : ℕ)
    (now : Datetime) (w : World)
    → IsAt v w.registry
    → v.stage ≡ shadow
    → MayRisk k v now
    → HasSamples o
    → eqb_ℚ weeks dec_zero ≡ false
    → Ensures (judge_profile k v o weeks signals) w (Graduated k v now w.registry w.done)
unfolding judge_profile
profile-Graduated k v none weeks signals now w here e risk s some_time =
    give-Ensures none w (refl, refl)
profile-Graduated k v (some p) weeks signals now w here e risk s some_time =
    bind-Ensures (compare_shadow-Still k p weeks signals _ w s some_time) (λ x u same.
      subst (λ u. Ensures (leave_shadow k (key_of v) x) u (Graduated k v now w.registry w.done))
        (sym same) (leave-Graduated k v x now w here e risk))

split_or : (a b : Bool) → (a || b) ≡ false → (a ≡ false) × (b ≡ false)
split_or a b h = ground arith

due_parts :
    (k : Env) (weeks : Decimal) (signals : ℕ)
    → not_due k weeks signals ≡ false
    → (k.cfg.shadow.exit.min_weeks ≤ℚ weeks) × (k.cfg.shadow.exit.min_signals ≤ signals)
unfolding not_due
due_parts k weeks signals h =
    let parts = split_or _ _ h in
    (ltb-false weeks k.cfg.shadow.exit.min_weeks parts.0, at_least _ _ parts.1)
  where
    at_least : (m n : ℕ) → ltb m n ≡ false → n ≤ m
    at_least m n e = ground arith

pos_not_zero : (x : Decimal) → dec_zero <ℚ x → eqb_ℚ x dec_zero ≡ false
unfolding eqb_ℚ leb_ℚ
pos_not_zero x h = ground arith

-- A verdict on a version in shadow does not raise, where its profile has samples and the least time
-- in shadow is positive. It changes nothing, or records one legal change of that version, only if at
-- the clock's first reading the version has been in shadow for the least time, with the least number
-- of signals, and is not bound to paper. It asks execution for nothing.
pub judge_shadow-Graduated :
    (k : Env) (v : VersionState) (w : World)
    → IsAt v w.registry
    → v.stage ≡ shadow
    → dec_zero <ℚ k.cfg.shadow.exit.min_weeks
    → HasSamples v.profile
    → Ensures (judge_shadow k v) w (Graduated k v (k.clock w.readings) w.registry w.done)
unfolding judge_shadow
judge_shadow-Graduated k v w here e least s = now-Ensures k _ (
    let t = k.clock w.readings in
    let weeks = frac (t - v.stage_since) week in
    let signals = k.stage_data.signal_count (key_of v) v.stage_since in
    if_Ensures (not_due k weeks signals || v.info.paper_only)
      (λ no_move. give-Ensures none (tick w) (refl, refl))
      (λ due.
        let parts = split_or (not_due k weeks signals) v.info.paper_only due in
        let (time, enough) = due_parts k weeks signals parts.0 in
        profile-Graduated k v v.profile weeks signals t (tick w) here e (time, enough, parts.1) s
          (pos_not_zero weeks (<ℚ_trans_≤ℚ dec_zero k.cfg.shadow.exit.min_weeks weeks least time))))
