-- ===== src/Risk/Service.antt =====
-- `RiskGateService` of packages/risk/src/autotrader/risk/service.py: the handlers of the risk gate's
-- messages. A handler returns what it raised, if anything, and the service it leaves; `published`
-- holds the streams and messages of `bus.publish`, the newest last. `now` and `later` are what the
-- clock says at a handler's reads.
pub mod Answers
mod Tests
use kometa.Prelude.{
  ℕ, ◌-◌, Bool, true, false, ◌&&◌, not, String, Option, none, some, List, [], ◌∷◌, ◌++◌, Result, ok,
  err, ◌>>=◌, ◌==◌, ltb, string_eq, pair_eq, if◌then◌else◌,
}
use kometa.Prelude.Dict.{Dict, insert}
use kometa.Core.Time.{Datetime}
use kometa.Core.Broker.{
  DataError, key_error, division_by_zero, invalid_decimal, Quote, rate_from_quotes,
}
use kometa.Core.Models.{
  HaltState, halt_eq, normal, Instrument, Stage, OrderIntent, HaltCommand, for_state,
}
use kometa.Core.Events.{
  BusMessage, order_intent_created, risk_decided, stage_changed, stage_snapshot, account_update,
  halt_entered, halt_cleared, heartbeat, resume_requested, AccountUpdate, ReportedExposure,
}
use kometa.Risk.Events.{EventIndex}
use kometa.Risk.Exposure.{Exposure, Snapshot, get_item}
use kometa.Risk.Work.{Reason, missing_data, stated}
use kometa.Risk.Gate.{
  Gate, GateEnv, Decision, Token, TokenError, decide, reject_intent, on_account, roll_day, resume,
}

abbrev pub Message : Type 0
Message = BusMessage Reason

pub record Service : Type 0 where
  pub gate : Gate
  pub instruments : Dict String Instrument
  pub max_account_age : ℕ
  pub account : Option AccountUpdate
  pub stages : Dict (String × String) Stage
  pub published : List (String × Message)

-- What a service takes from outside: that of the gate, and the reading of a resume token.
pub record ServiceEnv : Type 0 where
  pub gate_env : GateEnv
  pub token_of : Dict String String → String → Token

-- What a handler raised, and the service it leaves.
abbrev pub Handled : Type 0
Handled = Option DataError × Service

abbrev done : Service → Handled
done s = (none, s)

abbrev pub publish : String → Message → Service → Service
publish stream msg s = record s { published = s.published ++ (stream, msg) ∷ [] }

abbrev pub with_gate : Gate → Service → Service
with_gate g s = record s { gate = g }

-- `_publish_halt`
unfoldable pub publish_halt : HaltCommand String → Service → Service
publish_halt cmd s = publish "halts" (halt_entered cmd.at cmd.state cmd.reason) s

unfoldable pub start : Datetime → Service → Service
start now s =
    if s.gate.state.halt == normal
    then s
    else publish_halt (for_state s.gate.state.halt s.gate.state.halt_reason now) s

unfoldable pub send_heartbeat : Datetime → Service → Service
send_heartbeat now s = publish "heartbeats" (heartbeat now "risk-gate") s

-- `HaltCleared`, if `cleared`
abbrev announce_clear : Bool → HaltState → String → Datetime → Service → Service
announce_clear cleared before actor now s =
    if cleared then publish "halts" (halt_cleared now before actor) s else s

abbrev roll_account : Bool → Datetime → Option AccountUpdate → Service → Service
roll_account new_week later none s = s
roll_account new_week later (some acct) s =
    let before = s.gate.state.halt in
    let g = roll_day acct.equity new_week s.gate in
    announce_clear (not (before == normal) && g.state.halt == normal) before "rollover" later
      (with_gate g s)

-- `roll_day` of the service
unfoldable pub roll_day_at : Bool → Datetime → Service → Service
roll_day_at new_week later s = roll_account new_week later s.account s

abbrev announce_resume :
    HaltState → Datetime → Service → Result TokenError Bool → Option TokenError × Service
announce_resume before later s (ok resumed) = (none, announce_clear resumed before "owner" later s)
announce_resume before later s (err e) = (some e, s)

unfoldable pub on_control :
    ServiceEnv → Message → (now later : Datetime) → Service → Option TokenError × Service
on_control k (resume_requested at token signature) now later s =
    let (g, resumed) = resume (k.token_of token signature) now s.gate in
    announce_resume s.gate.state.halt later (with_gate g s) resumed
on_control k _ now later s = (none, s)

abbrev stages_from :
    Dict (String × String) Stage → List (String × String × Stage) → Dict (String × String) Stage
stages_from d [] = d
stages_from d ((sid, v, st) ∷ rest) = stages_from (insert (sid, v) st d) rest

unfoldable pub on_stage : Message → Service → Service
on_stage (stage_snapshot at stages) s = record s { stages = stages_from [] stages }
on_stage (stage_changed e) s = record s {
  stages = insert (e.strategy_id, e.strategy_version) e.to_stage s.stages;
}
on_stage _ s = s

abbrev maybe_halt : Option (HaltCommand String) → Service → Service
maybe_halt none s = s
maybe_halt (some cmd) s = publish_halt cmd s

abbrev checked_account : Service → Result DataError (Gate × Option (HaltCommand String)) → Handled
checked_account s (ok (g, halt)) = done (maybe_halt halt (with_gate g s))
checked_account s (err e) = (some e, s)

-- `_on_account`
unfoldable pub on_account_update : Message → Datetime → Service → Handled
on_account_update (account_update acct) now s =
    checked_account (record s { account = some acct }) (on_account acct.equity now s.gate)
on_account_update _ now s = done s

abbrev quotes_of : Dict String Quote → List Quote → Dict String Quote
quotes_of d [] = d
quotes_of d (q ∷ qs) = quotes_of (insert q.symbol q d) qs

abbrev exposure_of : ReportedExposure → Exposure
exposure_of e = record {
  symbol = e.symbol;
  side = e.side;
  lots = e.lots;
  entry = e.entry;
  stop = e.stop;
  strategy_id = e.strategy_id;
  pending = e.pending;
  external = e.external;
}

abbrev exposures_of : List ReportedExposure → List Exposure
exposures_of [] = []
exposures_of (e ∷ es) = exposure_of e ∷ exposures_of es

-- `_snapshot`
unfoldable pub snapshot :
    Service → AccountUpdate → String → Datetime → Option EventIndex → Result DataError Snapshot
snapshot s acct symbol now events = do
  let quotes = quotes_of [] acct.quotes
  q ← get_item symbol quotes
  ok record {
    now = now;
    equity = acct.equity;
    free_margin = acct.free_margin;
    bid = q.bid;
    ask = q.ask;
    exposures = exposures_of acct.exposures;
    instruments = s.instruments;
    to_account = λ ccy. rate_from_quotes quotes ccy acct.currency;
    margin_per_lot = acct.margin_per_lot;
    stages = s.stages;
    events = events;
  }

abbrev pub decided : Datetime → Gate × Decision → Service → Handled
decided now (g, d) s = done (publish "decisions" (risk_decided now d) (with_gate g s))

abbrev pub reject_with : ServiceEnv → OrderIntent → Reason → Datetime → Service → Handled
reject_with k intent why now s = decided now (reject_intent k.gate_env intent why now s.gate) s

-- the outcome of `decide`, with its `except KeyError`
abbrev pub answer :
    ServiceEnv → OrderIntent → Datetime → Service → Result DataError (Gate × Decision) → Handled
answer k intent now s (ok x) = decided now x s
answer k intent now s (err (key_error e)) = reject_with k intent (missing_data (key_error e)) now s
answer k intent now s (err division_by_zero) = (some division_by_zero, s)
answer k intent now s (err invalid_decimal) = (some invalid_decimal, s)

-- `acct is None or now - acct.at > max_account_age`
abbrev pub stale : ℕ → Datetime → Option AccountUpdate → Bool
stale age now none = true
stale age now (some acct) = ltb age (now - acct.at)

-- `self.news is not None and events is None`: `news` is what the calendar returns, if there is one
abbrev pub no_calendar : Option (Option EventIndex) → Bool
no_calendar none = false
no_calendar (some none) = true
no_calendar (some (some index)) = false

abbrev pub events_of : Option (Option EventIndex) → Option EventIndex
events_of none = none
events_of (some events) = events

abbrev pub judge :
    ServiceEnv
    → OrderIntent
    → Option (Option EventIndex)
    → Datetime
    → Option AccountUpdate
    → Service
    → Handled
judge k intent news now none s = reject_with k intent (stated "no fresh account data") now s
judge k intent news now (some acct) s =
    if stale s.max_account_age now (some acct)
    then reject_with k intent (stated "no fresh account data") now s
    else if no_calendar news
    then reject_with k intent (stated "economic calendar unavailable or stale") now s
    else answer k intent now s (
        snapshot s acct intent.signal.symbol now (events_of news) >>= λ snap.
        decide k.gate_env intent snap s.gate)

-- `_on_intent`
unfoldable pub on_intent :
    ServiceEnv → Message → Option (Option EventIndex) → Datetime → Service → Handled
on_intent k (order_intent_created at intent timeframe) news now s =
    judge k intent news now s.account s
on_intent k _ news now s = done s
