-- ===== src/Risk/State/Tests.antt =====
-- A state file with a hash by the halt's reason.
use kometa.Prelude.{◌≡◌, ◌⊎◌, refl, String, ok, some}
use kometa.Core.Codec.{Codec}
use kometa.Core.Models.{full_halt}
use kometa.Risk.State.{RiskState, initial_state}
use kometa.Risk.State.Store.{save, load, load-IsClosed, IsChecked, IsClosed}

abbrev codec : Codec RiskState
codec = record {
  Json = RiskState;
  Text = RiskState × String;
  dump = λ s. s;
  validate = λ s. ok s;
  digest = λ s. s.halt_reason;
  render = λ j h. (j, h);
  parse = λ t. ok t;
}

abbrev halted_state : RiskState
halted_state = record initial_state {
  halt = full_halt;
  halt_reason = "peak drawdown limit";
  sequence = 7;
}

saved : load codec (save codec halted_state) ≡ halted_state
unfolding load save
saved = refl

load-IsClosed_example :
    IsChecked codec
      (initial_state, "peak drawdown limit")
      (load codec (some (initial_state, "peak drawdown limit")))
    ⊎ IsClosed codec
        (initial_state, "peak drawdown limit")
        (load codec (some (initial_state, "peak drawdown limit")))
load-IsClosed_example = load-IsClosed codec (initial_state, "peak drawdown limit")
