-- ===== src/Risk/Gate.antt =====
-- `RiskGate` of packages/risk/src/autotrader/risk/gate.py: the decision, the halts and the resume.
-- The signature of a payload and its check are the cryptography library's, so they are parameters;
-- `saved` is what the state file holds (Risk/State/Store: `load` gives it back).
pub mod Reduces
pub mod Limits
pub mod Halts
pub mod Resume
pub mod History
pub mod Tests
use kometa.Prelude.{
  ℕ, ◌+◌, ◌<◌, Bool, true, false, ◌&&◌, not, String, Option, none, some, List, [], ◌∷◌, ◌++◌,
  Result, ok, err, ◌>>=◌, ◌==◌, contains, ltb, string_eq, if◌then◌else◌,
}
use kometa.Prelude.Dict.{lookup}
use kometa.Core.Time.{Datetime, seconds}
use kometa.Core.Broker.{DataError, invalid_decimal}
use kometa.Core.Models.{
  HaltState, halt_eq, normal, daily_halt, weekly_halt, recon_halt, full_halt, Instrument,
  OrderIntent, RiskDecision, Verdict, HaltCommand, for_state, Signal, EntryType, is_buy,
}
use kometa.Decimal.{Decimal, dec_zero, ◌-ℚ◌, leb_ℚ, eqb_ℚ, min_ℚ, max_ℚ, div_ℚ}
use kometa.Risk.Config.{RiskLimits}
use kometa.Risk.State.{RiskState, escalate}
use kometa.Risk.Exposure.{Snapshot}
use kometa.Risk.Work.{Work, Reason, unknown_instrument, reject}
use kometa.Risk.Checks.{Facts, LocalTime, run_checks}

abbrev pub Decision : Type 0
Decision = RiskDecision Reason

pub record Gate : Type 0 where
  pub lim : RiskLimits
  pub limits_hash : String
  pub state : RiskState
  pub saved : Option RiskState
  pub announced : List (Decision × OrderIntent)

-- `self._store.save(self.state)` after a change of the state
abbrev pub store : RiskState → Gate → Gate
store s g = record g { state = s; saved = some s }

-- What the gate takes from outside: the Ed25519 signature of an unsigned decision (`sign_bytes` of its
-- canonical payload), and the zone database.
pub record GateEnv : Type 0 where
  pub sign : Decision → String
  pub local : LocalTime

-- `min(w.lots, intent.proposed_lots)`, or nothing
unfoldable pub final_lots : Decimal → Work → Decimal
final_lots proposed w =
    let lots = if w.rejected then dec_zero else min_ℚ w.lots proposed in
    if leb_ℚ lots dec_zero then dec_zero else lots

unfoldable pub verdict_of : Decimal → Decimal → Verdict
verdict_of proposed lots =
    if leb_ℚ lots dec_zero
    then Verdict.reject
    else if eqb_ℚ lots proposed
    then Verdict.approve
    else Verdict.resize

-- the unsigned decision of `_finish`
unfoldable pub decision_of : Gate → OrderIntent → Work → Datetime → Decision
unfolding final_lots verdict_of
decision_of g intent w now =
    let lots = final_lots intent.proposed_lots w in
    record {
      intent_id = intent.intent_id;
      verdict = verdict_of intent.proposed_lots lots;
      approved_lots = lots;
      reasons = w.reasons;
      limits_snapshot_hash = g.limits_hash;
      decided_at = now;
      expires_at = now + seconds g.lim.decision_ttl_seconds;
      sequence = g.state.sequence + 1;
      signature = none;
    }

-- `_finish`, with `sign_decision`
unfoldable pub finish : GateEnv → OrderIntent → Work → Datetime → Gate → Gate × Decision
unfolding decision_of
finish k intent w now g =
    let d = decision_of g intent w now in
    let signed : Decision = record d { signature = some (k.sign d) } in
    let stored = store (record g.state { sequence = g.state.sequence + 1 }) g in
    (record stored { announced = g.announced ++ (signed, intent) ∷ [] }, signed)

-- the entry price of `decide`; a limit or stop signal has one (`Signal._check`)
unfoldable pub entry_of : Snapshot → Signal → Result DataError Decimal
entry_of snap sig = elim sig.entry_type [
  | EntryType.market ↦ ok (if is_buy sig.side then snap.ask else snap.bid)
  | EntryType.limit ↦ elim sig.entry_price [ none ↦ err invalid_decimal | some p ↦ ok p ]
  | EntryType.stop ↦ elim sig.entry_price [ none ↦ err invalid_decimal | some p ↦ ok p ]
]

abbrev pub start_work : OrderIntent → Work
start_work intent = record { lots = intent.proposed_lots; reasons = []; rejected = false }

abbrev pub facts_of : Gate → OrderIntent → Snapshot → Instrument → Decimal → Decimal → Facts
facts_of g intent snap inst fx entry = record {
  lim = g.lim;
  intent = intent;
  snap = snap;
  halt = g.state.halt;
  inst = inst;
  fx = fx;
  stop = intent.signal.stop_price;
  entry = entry;
}

unfoldable pub assess_with :
    GateEnv → Gate → OrderIntent → Snapshot → Option Instrument → Result DataError Work
unfolding entry_of
assess_with k g intent snap none =
    ok (reject (unknown_instrument intent.signal.symbol) (start_work intent))
assess_with k g intent snap (some inst) = do
  fx ← snap.to_account inst.quote
  entry ← entry_of snap intent.signal
  run_checks k.local (facts_of g intent snap inst fx entry) (start_work intent)

-- the size that `decide` gives to `_finish`
unfoldable pub assess : GateEnv → Gate → OrderIntent → Snapshot → Result DataError Work
unfolding assess_with
assess k g intent snap = assess_with k g intent snap (lookup intent.signal.symbol snap.instruments)

-- `decide`: an exception changes nothing
unfoldable pub decide : GateEnv → OrderIntent → Snapshot → Gate → Result DataError (Gate × Decision)
decide k intent snap g = do w ← assess k g intent snap; ok (finish k intent w snap.now g)

-- `reject`
unfoldable pub reject_intent : GateEnv → OrderIntent → Reason → Datetime → Gate → Gate × Decision
reject_intent k intent why now g =
    finish k intent (reject why (record { lots = dec_zero; reasons = []; rejected = false })) now g

-- `_enter`
unfoldable pub enter : HaltState → String → Datetime → Gate → Gate × Option (HaltCommand String)
enter new reason now g =
    let (s, changed) = escalate g.state new reason now in
    if changed then (store s g, some (for_state new reason now)) else (g, none)

-- `frac` of `losses`: None without a reference, or for a reference of zero
unfoldable pub loss_fraction : Option Decimal → Decimal → Result DataError (Option Decimal)
loss_fraction none equity = ok none
loss_fraction (some ref) equity =
    if eqb_ℚ ref dec_zero
    then ok none
    else (do q ← div_ℚ DataError.division_by_zero (ref -ℚ equity) ref; ok (some q))

-- `loss is not None and loss >= limit`
abbrev pub exceeds : Option Decimal → Decimal → Bool
exceeds none limit = false
exceeds (some loss) limit = leb_ℚ limit loss

-- the halt that the losses call for, the most severe first
unfoldable pub halt_for :
    Datetime
    → Gate
    → Option Decimal
    → Option Decimal
    → Option Decimal
    → Gate × Option (HaltCommand String)
halt_for now g peak week day =
    if exceeds peak g.lim.peak_drawdown_full_halt
    then enter full_halt "peak drawdown limit" now g
    else if exceeds week g.lim.weekly_loss_halt
    then enter weekly_halt "weekly loss limit" now g
    else if exceeds day g.lim.daily_loss_halt
    then enter daily_halt "daily loss limit" now g
    else (g, none)

-- `on_account`, with `losses`
unfoldable pub on_account :
    Decimal → Datetime → Gate → Result DataError (Gate × Option (HaltCommand String))
on_account equity now g = do
  peak ← loss_fraction g.state.peak_eod_equity equity
  week ← loss_fraction g.state.week_ref_equity equity
  day ← loss_fraction g.state.day_ref_equity equity
  ok (halt_for now g peak week day)

-- `s.peak_eod_equity or equity`: a peak of zero counts as none
abbrev pub peak_or : Option Decimal → Decimal → Decimal
peak_or none equity = equity
peak_or (some p) equity = if eqb_ℚ p dec_zero then equity else p

abbrev pub cleared : RiskState → RiskState
cleared s = record s { halt = normal; halt_reason = "" }

abbrev clear_if : HaltState → RiskState → RiskState
clear_if h s = if s.halt == h then cleared s else s

-- `roll_day`
unfoldable pub roll_day : Decimal → Bool → Gate → Gate
roll_day equity new_week g =
    let s = g.state in
    let s1 = clear_if daily_halt (record s {
      peak_eod_equity = some (max_ℚ (peak_or s.peak_eod_equity equity) equity);
      day_ref_equity = some equity;
    }) in
    let s2 = clear_if weekly_halt (record s1 { week_ref_equity = some equity }) in
    store (if new_week then s2 else s1) g

-- `enter_recon_halt` and `enter_full_halt`
unfoldable pub enter_recon_halt : String → Datetime → Gate → Gate × Option (HaltCommand String)
enter_recon_halt reason now g = enter recon_halt reason now g

unfoldable pub enter_full_halt : String → Datetime → Gate → Gate × Option (HaltCommand String)
enter_full_halt reason now g = enter full_halt reason now g

-- `clear_recon_halt`
unfoldable pub clear_recon_halt : Gate → Gate × Bool
clear_recon_halt g =
    if g.state.halt == recon_halt then (store (cleared g.state) g, true) else (g, false)

-- What the reading of a resume token raises: `KeyError` for a field that is not there, `ValueError`
-- for a text that is no date.
pub data TokenError : Type 0 where
  missing_field : TokenError
  bad_date : TokenError

-- A resume token: its texts, and the datetime that `expires_at` spells, or what reading it raises.
-- `genuine` says whether the owner's signature of the token is valid (`verify_bytes`).
pub record Token : Type 0 where
  pub action : Option String
  pub expires_at : Result TokenError Datetime
  pub nonce : Option String
  pub genuine : Bool

-- the nonce of a token that has not expired
unfoldable pub spend : Option String → Gate → Gate × Result TokenError Bool
spend none g = (g, err missing_field)
spend (some key) g = if contains key g.state.used_nonces then (g, ok false) else (
  store (cleared (record g.state { used_nonces = g.state.used_nonces ++ key ∷ [] })) g,
  ok true,
)

-- the expiry and the nonce of a token of the owner
unfoldable pub redeem :
    Result TokenError Datetime → Option String → Datetime → Gate → Gate × Result TokenError Bool
redeem (err e) key now g = (g, err e)
redeem (ok expires_at) key now g = if ltb expires_at now then (g, ok false) else spend key g

-- `resume`
unfoldable pub resume : Token → Datetime → Gate → Gate × Result TokenError Bool
resume t now g =
    if not (g.state.halt == full_halt)
    then (g, ok false)
    else if not (elim t.action [ none ↦ false | some a ↦ a == "resume_full_halt" ])
    then (g, ok false)
    else if not t.genuine
    then (g, ok false)
    else redeem t.expires_at t.nonce now g
