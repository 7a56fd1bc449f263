-- ===== src/Core/Sessions.antt =====
-- `in_session` and `sessions_of` of packages/core/src/autotrader/core/indicators/sessions.py. The zone
-- database is a parameter: `local tz t` is the weekday and the microsecond of the day.
use kometa.Prelude.{
  ℕ, ◌*◌, ◌<◌, ◌≡◌, Bool, ◌&&◌, ◌||◌, not, String, List, [], ◌∷◌, ltb, leb, nat_eq, contains,
  if◌then◌else◌, arith,
}
use kometa.Core.Time.{Datetime}
use kometa.Core.Models.{SessionWindow}

abbrev pub Zones : Type 0
Zones = String → Datetime → ℕ × ℕ

-- whether a time of day is in a window, also in one that crosses midnight
abbrev pub in_hours : ℕ → ℕ → ℕ → Bool
in_hours start end t = if leb start end then leb start t && ltb t end else leb start t || ltb t end

unfoldable pub in_session : Zones → Datetime → SessionWindow → Bool
in_session local ts w =
    let (weekday, t) = local w.tz ts in contains weekday w.weekdays && in_hours w.start w.end t

unfoldable pub sessions_of : Zones → Datetime → List SessionWindow → List String
sessions_of local ts [] = []
sessions_of local ts (w ∷ ws) =
    let rest = sessions_of local ts ws in if in_session local ts w then w.name ∷ rest else rest

abbrev weekdays : List ℕ
weekdays = 0 ∷ 1 ∷ 2 ∷ 3 ∷ 4 ∷ []

abbrev window : String → String → ℕ → ℕ → SessionWindow
window name tz start end = record {
  name = name;
  tz = tz;
  start = start * 3600000000;
  end = end * 3600000000;
  weekdays = weekdays;
}

abbrev pub default_sessions : List SessionWindow
default_sessions =
    window "asia" "Asia/Tokyo" 9 18
    ∷ window "london" "Europe/London" 8 17
    ∷ window "new_york" "America/New_York" 8 17
    ∷ []

-- A window and the one with its ends swapped divide the day: unless the two ends are the same, a time of
-- day is in exactly one of them.
pub in_hours_swap :
    (start end t : ℕ) → start < end → in_hours end start t ≡ not (in_hours start end t)
in_hours_swap start end t h = ground arith
