-- ===== src/Execution/Tests.antt =====
-- One decision carried out and sent again; a journal; quotes out of order.
use kometa.Prelude.{
  ◌++◌, string_eq, ℕ, ◌+◌, ◌≤◌, ◌≡◌, ◌≢◌, refl, arith, Bool, true, String, none, some, [], ◌∷◌, ok,
}
use kometa.Prelude.Dict.{lookup}
use kometa.Core.Codec.{Codec}
use kometa.Core.Broker.{Quote}
use kometa.Core.Models.{RiskDecision, Verdict}
use kometa.Decimal.{dec, frac, dec_zero, ◌<ℚ◌, leb_ℚ}
use kometa.Execution.Verifier.{Verifier, Refusal, verify, signed_by}
use kometa.Execution.Verifier.Replays.{Call, verify_all, verify_needs, verify_once}
use kometa.Execution.Journal.{
  ExecState, empty_state, load_journal, load_journal-IsChecked, IsChecked,
}
use kometa.Execution.Quotes.{Quotes, update_all, update_all_newest}

abbrev decision : RiskDecision String
decision = record {
  intent_id = "5a1c";
  verdict = Verdict.approve;
  approved_lots = frac 1 10;
  reasons = [];
  limits_snapshot_hash = "77aa";
  decided_at = 100;
  expires_at = 200;
  sequence = 4;
  signature = some "sig";
}

abbrev genuine : RiskDecision String → String → Bool
genuine d sig = true

abbrev verifier : Verifier
verifier = record { last_sequence_plus_one = 2 }

abbrev call : Call String
call = record { decision = decision; intent_id = "5a1c"; now = 150 }

abbrev other_call : Call String
other_call = record call { now = 300 }

carried_out : (verify genuine decision "5a1c" 150 verifier).0 ≡ none
unfolding verify leb_ℚ
carried_out = refl

verify_needs_example :
    (signed_by genuine decision ≡ true)
    × (decision.intent_id ≡ "5a1c")
    × (150 ≤ decision.expires_at)
    × (2 ≤ decision.sequence)
    × (decision.verdict ≢ Verdict.reject)
    × (dec_zero <ℚ decision.approved_lots)
    × ((verify genuine decision "5a1c" 150 verifier).1.last_sequence_plus_one ≡ 4 + 1)
verify_needs_example = verify_needs genuine decision "5a1c" 150 verifier carried_out

verify_once_example :
    let later =
      verify_all genuine (other_call ∷ []) (verify genuine decision "5a1c" 150 verifier).1 in
    ((r : Refusal) × ((verify genuine decision "5a1c" 150 later).0 ≡ some r))
    × ((verify genuine decision "5a1c" 150 later).1 ≡ later)
verify_once_example =
    verify_once genuine call call (other_call ∷ []) verifier carried_out (omega arith)

abbrev codec : Codec ExecState
codec = record {
  Json = ExecState;
  Text = ExecState × String;
  dump = λ s. s;
  validate = λ s. ok s;
  digest = λ s. "0";
  render = λ j h. (j, h);
  parse = λ t. ok t;
}

abbrev journal : ExecState
journal = record empty_state { seen_deals = ("d1", 5) ∷ ("d2", 900000000000) ∷ [] }

load_journal-IsChecked_example :
    (load_journal codec (some (journal, "1")) ≡ ok journal → IsChecked codec (journal, "1") journal)
    × (IsChecked codec (journal, "1") journal
        → load_journal codec (some (journal, "1")) ≡ ok journal)
load_journal-IsChecked_example = load_journal-IsChecked codec (journal, "1") journal

abbrev quote_at : ℕ → Quote
quote_at t = record { symbol = "EURUSD"; bid = dec 1; ask = dec 1; time = t }

abbrev no_quotes : Quotes
no_quotes = []

update_all_newest_example :
    (s : Quote) × (lookup "EURUSD"
        (update_all ((quote_at 3 ∷ []) ++ quote_at 7 ∷ quote_at 5 ∷ []) no_quotes)
      ≡ some s)
    × (7 ≤ s.time)
update_all_newest_example =
    update_all_newest (quote_at 3 ∷ []) (quote_at 5 ∷ []) (quote_at 7) no_quotes
