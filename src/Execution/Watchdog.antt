-- ===== src/Execution/Watchdog.antt =====
-- The watchdog of packages/execution/src/autotrader/execution/watchdog.py: a watched service that is silent
-- for too long has every pending entry of the system cancelled.
pub mod Returns
use Prim.Native.Nat.{Ordering}
use Prim.Native.String.{compare, ◌++◌}
use kometa.Prelude.{
  ℕ, ◌+◌, Bool, true, false, ◌&&◌, not, String, List, [], ◌∷◌, ltb, keep_if, sort_by, contains,
  ◌==◌, string_eq, if◌then◌else◌,
}
use kometa.Prelude.Dict.{Dict, insert, get_or}
use kometa.Core.Time.{Datetime}
use kometa.Core.Events.{critical, information}
use kometa.Execution.World.{Env, Method, ◌>>=◌, ◌>>◌, give, catching, now}
use kometa.Execution.Orders.{alert, joined}
use kometa.Execution.Ends.{cancel_pending_entries}

-- `tripped` is a set; here a list without repetition.
pub record Watchdog : Type 0 where
  pub started_at : Datetime
  pub last_beat : Dict String Datetime
  pub tripped : List String
  pub cancel_done : Bool

abbrev pub new_watchdog : Datetime → Watchdog
new_watchdog at = record { started_at = at; last_beat = []; tripped = []; cancel_done = true }

-- `beat`
unfoldable pub beat : String → Datetime → Watchdog → Watchdog
beat service at d = record d { last_beat = insert service at d.last_beat }

abbrev pub is_below : Ordering → Bool
is_below Ordering.lt = true
is_below _ = false

-- `sorted` of texts
abbrev pub sort_texts : List String → List String
sort_texts ss = sort_by (λ a b. is_below (compare a b)) ss

-- whether a service was last heard of more than the timeout ago
abbrev pub is_silent : ℕ → Datetime → Watchdog → String → Bool
is_silent timeout time d s = ltb (get_or s d.started_at d.last_beat + timeout) time

-- `silent`
unfoldable pub silent : List String → ℕ → Datetime → Watchdog → List String
silent watched timeout time d = keep_if (is_silent timeout time d) watched

-- `self.tripped.discard(s)`
abbrev pub discard : String → List String → List String
discard s ss = keep_if (λ t. not (t == s)) ss

abbrev pub is_any : List String → Bool
is_any [] = false
is_any (s ∷ ss) = true

module _ {B : Type 0} where
  -- the loop over the services that are lost
  unfoldable pub trip_all : List String → Watchdog → Method B Watchdog
  trip_all [] d = give d
  trip_all (s ∷ ss) d =
      if contains s d.tripped
      then trip_all ss d
      else (alert critical "heartbeat_lost" s
          >> trip_all ss (record d { tripped = s ∷ d.tripped; cancel_done = false }))

  -- the loop over the services that are back
  unfoldable pub restore_all : List String → Watchdog → Method B Watchdog
  restore_all [] d = give d
  restore_all (s ∷ ss) d =
      alert information "heartbeat_restored" s
      >> restore_all ss (record d { tripped = discard s d.tripped })

  abbrev pub cancel_entries : Env B → Watchdog → Method B Watchdog
  cancel_entries k d =
      catching
        (cancel_pending_entries k ("watchdog: " ++ joined (sort_texts d.tripped))
          >> give (record d { cancel_done = true }))
        (λ e. alert critical "watchdog_cancel_failed" e >> give d)

  -- `check`: the services that are lost, in order, are those of the watchdog it leaves. It catches all that
  -- its calls raise, so the watchdog is what it returns.
  unfoldable pub check : Env B → Watchdog → Method B Watchdog
  check k d0 = do
    time ← now k
    let lost = silent k.cfg.watched_services k.cfg.watchdog_timeout time d0
    d1 ← trip_all lost d0
    d2 ← restore_all (sort_texts (keep_if (λ s. not (contains s lost)) d1.tripped)) d1
    if is_any d2.tripped && not d2.cancel_done then cancel_entries k d2 else give d2
