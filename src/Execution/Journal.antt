-- ===== src/Execution/Journal.antt =====
-- packages/execution/src/autotrader/execution/journal.py: what execution sent and what the broker
-- confirmed, and the file that keeps it. A UUID is its text; Core/Codec holds the parameters.
use kometa.Prelude.{
  ℕ, ◌+◌, ◌≡◌, Bool, true, false, String, Option, none, some, List, [], ◌∷◌, Result, ok, err, ◌>>=◌,
  ok-injective, refl, sym, ap, ◌∙◌, inl, inr, Bool-cases, ◌==◌, leb, string_eq, beq_refl,
  if◌then◌else◌,
}
use kometa.Prelude.Dict.{Dict}
use kometa.Core.Codec.{Codec}
use kometa.Core.Time.{Datetime, days}
use kometa.Core.Models.{Side, EntryType}
use kometa.Decimal.{Decimal}

pub data OrderState : Type 0 where
  sending pending_order open_order closed cancelled expired rejected failed : OrderState

pub data ReconEpisode : Type 0 where
  clean unreachable resyncing stuck : ReconEpisode

-- `state in ACTIVE`
unfoldable pub is_active : OrderState → Bool
is_active sending = true
is_active pending_order = true
is_active open_order = true
is_active _ = false

-- `SEEN_DEAL_RETENTION`
abbrev pub seen_deal_retention : ℕ
seen_deal_retention = days 7

pub record TrackedOrder : Type 0 where
  pub client_order_id : String
  pub intent_id : Option String
  pub account_id : String
  pub tenant_id : String
  pub strategy_id : String
  pub strategy_version : String
  pub symbol : String
  pub side : Side
  pub order_type : EntryType
  pub lots : Decimal
  pub requested_price : Option Decimal
  pub sl : Decimal
  pub tp : Option Decimal
  pub magic : ℕ
  pub state : OrderState
  pub broker_order_id : Option String
  pub position_id : Option String
  pub created_at : Datetime
  pub expires_at : Option Datetime
  pub stop_confirmed : Bool
  pub note : String
  pub entry_price : Option Decimal
  pub initial_sl : Option Decimal
  pub opened_lots : Option Decimal
  pub filled_at : Option Datetime
  pub realized : Decimal
  pub costs : Decimal
  pub out_value : Decimal
  pub out_lots : Decimal

-- `last_decision_sequence` is one more than in the code, where it begins at -1.
pub record ExecState : Type 0 where
  pub orders : Dict String TrackedOrder
  pub seen_deals : Dict String Datetime
  pub deals_cursor : Option Datetime
  pub cash_since : Option Datetime
  pub expected_balance : Option Decimal
  pub last_decision_sequence : ℕ
  pub alerted_external : List String
  pub recon_episode : ReconEpisode

abbrev pub empty_state : ExecState
empty_state = record {
  orders = [];
  seen_deals = [];
  deals_cursor = none;
  cash_since = none;
  expected_balance = none;
  last_decision_sequence = 0;
  alerted_external = [];
  recon_episode = clean;
}

abbrev active_in : Dict String TrackedOrder → List TrackedOrder
active_in [] = []
active_in ((k, o) ∷ d) = let rest = active_in d in if is_active o.state then o ∷ rest else rest

unfoldable pub active : ExecState → List TrackedOrder
active s = active_in s.orders

abbrev pub has_id : String → Option String → Bool
has_id id none = false
has_id id (some j) = j == id

abbrev pub first_order : (TrackedOrder → Bool) → Dict String TrackedOrder → Option TrackedOrder
first_order p [] = none
first_order p ((k, o) ∷ d) = if p o then some o else first_order p d

unfoldable pub by_position : String → ExecState → Option TrackedOrder
by_position id s = first_order (λ o. has_id id o.position_id) s.orders

unfoldable pub by_broker_order : String → ExecState → Option TrackedOrder
by_broker_order id s = first_order (λ o. has_id id o.broker_order_id) s.orders

-- `{k: t for k, t in seen_deals.items() if t >= now - SEEN_DEAL_RETENTION}`
abbrev pub recent : Datetime → Dict String Datetime → Dict String Datetime
recent now [] = []
recent now ((k, t) ∷ d) =
    let rest = recent now d in if leb now (t + seen_deal_retention) then (k, t) ∷ rest else rest

unfoldable pub prune : Option Datetime → ExecState → ExecState
prune none s = s
prune (some now) s = record s { seen_deals = recent now s.seen_deals }

-- `JournalCorruptError`
pub data JournalError : Type 0 where
  journal_corrupt : String → JournalError

module _ (c : Codec ExecState) where
  open c use {Json, Text, dump, validate, digest, render, parse}

  check_digest : Json × String → Result String ExecState
  check_digest (body, h) = if digest body == h then validate body else err "journal hash mismatch"

  as_corrupt : Result String ExecState → Result JournalError ExecState
  as_corrupt (ok s) = ok s
  as_corrupt (err e) = err (journal_corrupt e)

  -- `Journal.load`
  unfoldable pub load_journal : Option Text → Result JournalError ExecState
  unfolding as_corrupt check_digest
  load_journal none = ok empty_state
  load_journal (some text) = as_corrupt (parse text >>= check_digest)

  -- `Journal.save`: the state it leaves in memory, and the file
  unfoldable pub save_journal : Option Datetime → ExecState → ExecState × Option Text
  save_journal now s =
      let kept = prune now s in (kept, some (render (dump kept) (digest (dump kept))))

  -- the state is what the libraries made of a content that has the hash beside it
  abbrev pub IsChecked : Text → ExecState → Type 0
  IsChecked text s = (body : Json) × (parse text ≡ ok (body, digest body)) × (validate body ≡ ok s)

  validated-IsChecked :
      (text : Text) (body : Json) (s : ExecState) (r : Result String ExecState)
      → parse text ≡ ok (body, digest body)
      → validate body ≡ r
      → as_corrupt r ≡ ok s
      → IsChecked text s
  unfolding as_corrupt
  validated-IsChecked text body s (ok t) e v h = (body, e, v ∙ ap ok (ok-injective h))
  validated-IsChecked text body s (err why) e v h = cc

  read-IsChecked :
      (text : Text) (s : ExecState) (r : Result String (Json × String))
      → parse text ≡ r
      → as_corrupt (r >>= check_digest) ≡ ok s
      → IsChecked text s
  unfolding as_corrupt check_digest
  read-IsChecked text s (err why) e h = cc
  read-IsChecked text s (ok (body, d)) e h = elim (Bool-cases (digest body == d)) [
    | inl same ↦
        validated-IsChecked text body s (validate body)
          (e ∙ ap (λ x. ok (body, x)) (sym ((string_eq.beq_iff (digest body) d).0 same))) refl
          (rw same at h)
    | inr other ↦ elim (refused (rw other at h)) [ ]
  ]
    where
      refused :
          ◌≡◌ {A = Result JournalError ExecState}
            (err (journal_corrupt "journal hash mismatch"))
            (ok s)
          → ⊥
      refused x = cc

  checked-loaded :
      (text : Text) (s : ExecState) → IsChecked text s → load_journal (some text) ≡ ok s
  unfolding load_journal as_corrupt check_digest
  checked-loaded text s (body, e, v) = rw e (rw (beq_refl (digest body)) (rw v refl_ok))
    where
      refl_ok : ◌≡◌ {A = Result JournalError ExecState} (ok s) (ok s)
      refl_ok = refl

  -- Whatever is in the journal's file, a state is loaded from it exactly if it is what the libraries
  -- validate of a content whose hash is the one beside it.
  pub load_journal-IsChecked :
      (text : Text) (s : ExecState)
      → (load_journal (some text) ≡ ok s → IsChecked text s)
        × (IsChecked text s → load_journal (some text) ≡ ok s)
  unfolding load_journal
  load_journal-IsChecked text s = (read-IsChecked text s (parse text) refl, checked-loaded text s)
