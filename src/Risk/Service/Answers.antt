-- ===== src/Risk/Service/Answers.antt =====
-- What the risk gate's service answers to an intent.
use kometa.Prelude.{
  ◌≡◌, refl, Bool, true, false, ◌||◌, Option, none, some, [], ◌∷◌, ◌++◌, if◌then◌else◌,
}
use kometa.Core.Time.{Datetime}
use kometa.Core.Models.{OrderIntent, Timeframe, Verdict}
use kometa.Core.Events.{order_intent_created, risk_decided, AccountUpdate}
use kometa.Decimal.{dec_zero, leb_ℚ}
use kometa.Risk.Events.{EventIndex}
use kometa.Risk.Work.{Reason, reject}
use kometa.Risk.Gate.{Decision, reject_intent, finish, decision_of, final_lots, verdict_of}
use kometa.Risk.Service.{
  Service, ServiceEnv, Handled, on_intent, judge, reject_with, stale, no_calendar,
}

-- One decision, a rejection of size 0 for this intent, is published; nothing is raised.
abbrev pub IsRefusal : OrderIntent → Datetime → Service → Handled → Type 0
IsRefusal intent now s (raised, s') =
    (raised ≡ none)
    × (d : Decision) × (s'.published ≡ s.published ++ ("decisions", risk_decided now d) ∷ [])
    × (d.intent_id ≡ intent.intent_id)
    × (d.verdict ≡ Verdict.reject)
    × (d.approved_lots ≡ dec_zero)

reject_with-IsRefusal :
    (k : ServiceEnv) (intent : OrderIntent) (why : Reason) (now : Datetime) (s : Service)
    → IsRefusal intent now s (reject_with k intent why now s)
unfolding reject_intent finish decision_of final_lots verdict_of reject leb_ℚ
reject_with-IsRefusal k intent why now s =
    (refl, (reject_intent k.gate_env intent why now s.gate).1, refl, refl, refl, refl)

if_Refusal :
    (intent : OrderIntent) (now : Datetime) (s : Service) (a b : Bool) (x y z : Handled)
    → (a || b) ≡ true
    → IsRefusal intent now s x
    → IsRefusal intent now s y
    → IsRefusal intent now s (if a then x else if b then y else z)
if_Refusal intent now s true b x y z h p q = p
if_Refusal intent now s false true x y z h p q = q
if_Refusal intent now s false false x y z h p q = cc

judge-IsRefusal :
    (k : ServiceEnv) (intent : OrderIntent) (news : Option (Option EventIndex)) (now : Datetime)
    (acct : Option AccountUpdate) (s : Service)
    → (stale s.max_account_age now acct || no_calendar news) ≡ true
    → IsRefusal intent now s (judge k intent news now acct s)
judge-IsRefusal k intent news now none s h = reject_with-IsRefusal k intent _ now s
judge-IsRefusal k intent news now (some acct) s h =
    if_Refusal intent now s (stale s.max_account_age now (some acct)) (no_calendar news) _ _ _ h
      (reject_with-IsRefusal k intent _ now s) (reject_with-IsRefusal k intent _ now s)

-- The service fails closed: with no account data, with stale account data, or with a calendar that is
-- configured and not available, an intent gets one decision, a rejection of size 0, and no exception.
pub on_intent_fails_closed :
    (k : ServiceEnv) (at : Datetime) (intent : OrderIntent) (timeframe : Timeframe)
    (news : Option (Option EventIndex)) (now : Datetime) (s : Service)
    → (stale s.max_account_age now s.account || no_calendar news) ≡ true
    → IsRefusal intent now s (on_intent k (order_intent_created at intent timeframe) news now s)
unfolding on_intent
on_intent_fails_closed k at intent timeframe news now s h =
    judge-IsRefusal k intent news now s.account s h
