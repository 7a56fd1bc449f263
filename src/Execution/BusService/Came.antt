-- ===== src/Execution/BusService/Came.antt =====
-- Which messages of the bus came, and the intents that are cached of them.
use Prim.{Unit, tt}
use mathlib.Core.Path.{subst}
use kometa.Prelude.{
  ℕ, zero, suc, ◌≡◌, ◌⊎◌, inl, inr, refl, sym, ap, ◌∙◌, Bool, true, false, String, Option, some,
  none, List, [], ◌∷◌, drop, if◌then◌else◌, ◌==◌, string_eq, Bool-cases, some_inj,
}
use kometa.Prelude.Dict.{Dict, lookup, insert}
use kometa.Core.Broker.{PlaceRequest}
use kometa.Core.Models.{OrderIntent, RiskDecision, Timeframe}
use kometa.Execution.BusService.{
  BusService, Message, Stream, intents, decisions, as_intent, as_decision, maybe_remember, remember,
  rejects,
}
use kometa.Execution.Calls.{Approved}
use kometa.Execution.World.{Effect, Env, placing}
use kometa.Execution.Steps.Written.{Written}

abbrev pub Inbound : Type 0
Inbound = Stream × Message

-- A message is one of those that came.
abbrev pub Came : Inbound → List Inbound → Type 0
Came m [] = ⊥
Came m (x ∷ xs) = (m ≡ x) ⊎ Came m xs

abbrev pub CameIntent : List Inbound → OrderIntent × Timeframe → Type 0
CameIntent ms x = (m : Message) × (as_intent m ≡ some x) × Came (intents, m) ms

abbrev pub CameDecision : List Inbound → RiskDecision String → Type 0
CameDecision ms d = (m : Message) × (as_decision m ≡ some d) × Came (decisions, m) ms

-- An intent that came, and a decision that came and does not reject, of which the request is the one
-- that the order manager makes, in the approved size, after it verified the decision.
pub record Permitted {B : Type 0} (k : Env B) (ms : List Inbound) (req : PlaceRequest)
    : Type 0 where
  pub intent : OrderIntent
  pub timeframe : Timeframe
  pub intent_came : CameIntent ms (intent, timeframe)
  pub decision : RiskDecision String
  pub decision_came : CameDecision ms decision
  pub not_rejected : rejects decision.verdict ≡ false
  pub approved : Approved k intent decision req

-- An effect that is a request to place is permitted by messages that came, and follows a journal write
-- that has its order.
unfoldable pub IsPermitted :
    {B : Type 0} → Env B → List Inbound → (past : List Effect) → Effect → Type 0
IsPermitted k ms past (placing req) = Permitted k ms req × Written req.client_order_id past
IsPermitted k ms past _ = Unit {0}

-- Every cached intent came.
abbrev pub AllCame : List Inbound → Dict String (OrderIntent × Timeframe) → Type 0
AllCame ms [] = Unit
AllCame ms ((key, (intent, tf)) ∷ d) = CameIntent ms (intent, tf) × AllCame ms d

AllCame-if :
    (ms : List Inbound) (b : Bool) (x y : Dict String (OrderIntent × Timeframe))
    → AllCame ms x
    → AllCame ms y
    → AllCame ms (if b then x else y)
AllCame-if ms true x y h k = h
AllCame-if ms false x y h k = k

AllCame-insert :
    (ms : List Inbound) (key : String) (intent : OrderIntent) (tf : Timeframe)
    (d : Dict String (OrderIntent × Timeframe))
    → CameIntent ms (intent, tf)
    → AllCame ms d
    → AllCame ms (insert key (intent, tf) d)
AllCame-insert ms key intent tf [] c h = (c, h)
AllCame-insert ms key intent tf ((j, (i, t)) ∷ d) c h =
    AllCame-if ms (j == key) ((j, (intent, tf)) ∷ d) ((j, (i, t)) ∷ insert key (intent, tf) d)
      (c, h.1) (h.0, AllCame-insert ms key intent tf d c h.1)

AllCame-drop :
    (ms : List Inbound) (n : ℕ) (d : Dict String (OrderIntent × Timeframe))
    → AllCame ms d
    → AllCame ms (drop n d)
AllCame-drop ms zero d h = h
AllCame-drop ms (suc n) [] h = h
AllCame-drop ms (suc n) ((j, (i, t)) ∷ d) h = AllCame-drop ms n d h.1

pub lookup-Came :
    (ms : List Inbound) (key : String) (intent : OrderIntent) (tf : Timeframe)
    (d : Dict String (OrderIntent × Timeframe))
    → AllCame ms d
    → lookup key d ≡ some (intent, tf)
    → CameIntent ms (intent, tf)
lookup-Came ms key intent tf [] h e = cc
lookup-Came ms key intent tf ((j, (i, t)) ∷ d) h e = elim (Bool-cases (j == key)) [
  | inl s ↦
      subst (CameIntent ms)
        (some_inj (sym (ap (λ b. if b then some (i, t) else lookup key d) s) ∙ e)) h.0
  | inr s ↦
      lookup-Came ms key intent tf d h.1
        (sym (ap (λ b. if b then some (i, t) else lookup key d) s) ∙ e)
]

abbrev pub AllIn : List Inbound → List Inbound → Type 0
AllIn [] ms = Unit
AllIn (x ∷ xs) ms = Came x ms × AllIn xs ms

AllIn-cons : (x : Inbound) (xs ms : List Inbound) → AllIn xs ms → AllIn xs (x ∷ ms)
AllIn-cons x [] ms h = tt
AllIn-cons x (y ∷ xs) ms (h, hs) = (inr h, AllIn-cons x xs ms hs)

pub AllIn-refl : (ms : List Inbound) → AllIn ms ms
AllIn-refl [] = tt
AllIn-refl (x ∷ xs) = (inl refl, AllIn-cons x xs xs (AllIn-refl xs))

pub remember-AllCame :
    (ms : List Inbound) (o : Option (OrderIntent × Timeframe)) (s : BusService)
    → ((x : OrderIntent × Timeframe) → o ≡ some x → CameIntent ms x)
    → AllCame ms s.intents
    → AllCame ms (maybe_remember o s).intents
unfolding remember
remember-AllCame ms none s c h = h
remember-AllCame ms (some (intent, tf)) s c h =
    AllCame-drop ms _ _
      (AllCame-insert ms intent.intent_id intent tf s.intents (c (intent, tf) refl) h)
