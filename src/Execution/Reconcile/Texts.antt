-- ===== src/Execution/Reconcile/Texts.antt =====
-- The mismatches of packages/execution/src/autotrader/execution/reconcile.py, and the texts of a report.
use Prim.Native.String.{◌++◌}
use kometa.Prelude.{String, List, [], ◌∷◌, ◌==◌, string_eq, if◌then◌else◌}

pub data MismatchKind : Type 0 where
  broker_unreachable unconfirmed_send missing_position missing_order untracked_position
        untracked_order lots missing_stop balance :
      MismatchKind

pub record Mismatch : Type 0 where
  pub kind : MismatchKind
  pub ref : String

-- the name of an external position, and of an external order
abbrev pub position_label : String → String
position_label id = "position:" ++ id

abbrev pub order_label : String → String
order_label id = "order:" ++ id

abbrev kind_text : MismatchKind → String
kind_text broker_unreachable = "broker_unreachable"
kind_text unconfirmed_send = "unconfirmed_send"
kind_text missing_position = "missing_position"
kind_text missing_order = "missing_order"
kind_text untracked_position = "untracked_position"
kind_text untracked_order = "untracked_order"
kind_text lots = "lots"
kind_text missing_stop = "missing_stop"
kind_text balance = "balance"

-- `f"{m.kind} {m.ref}".strip()`, where a reference has no blank at its ends
abbrev mismatch_text : Mismatch → String
mismatch_text m = if m.ref == "" then kind_text m.kind else kind_text m.kind ++ (" " ++ m.ref)

abbrev summary_from : String → List Mismatch → String
summary_from s [] = s
summary_from s (m ∷ ms) = summary_from (s ++ ("; " ++ mismatch_text m)) ms

abbrev pub summary : List Mismatch → String
summary [] = ""
summary (m ∷ ms) = summary_from (mismatch_text m) ms
