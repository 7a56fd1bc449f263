-- ===== src/Risk/Events.antt =====
-- `EventIndex` of packages/core/src/autotrader/core/indicators/sessions.py: the economic calendar
-- that the gate's news blackout reads. A distance in time is in microseconds.
use kometa.Prelude.{
  ℕ, ◌-◌, Bool, true, false, ◌||◌, String, Option, none, some, List, [], ◌∷◌, leb, ◌==◌, string_eq,
  find, if◌then◌else◌,
}
use kometa.Core.Time.{Datetime, minutes}

pub data Impact : Type 0 where
  low medium high : Impact

abbrev pub is_high : Impact → Bool
is_high high = true
is_high _ = false

pub record CalendarEvent : Type 0 where
  pub time : Datetime
  pub currency : String
  pub impact : Impact
  pub name : String

-- `sorted`, by insertion
abbrev pub insert_sorted : Datetime → List Datetime → List Datetime
insert_sorted t [] = t ∷ []
insert_sorted t (u ∷ us) = if leb t u then t ∷ u ∷ us else u ∷ insert_sorted t us

abbrev pub sorted : List Datetime → List Datetime
sorted [] = []
sorted (t ∷ ts) = insert_sorted t (sorted ts)

-- The times of one currency's high-impact events, in the order of the calendar.
abbrev pub times_of : String → List CalendarEvent → List Datetime
times_of c [] = []
times_of c (e ∷ es) =
    let rest = times_of c es in
    if is_high e.impact then (if e.currency == c then e.time ∷ rest else rest) else rest

-- `EventIndex.__init__` and `self._times.get(currency)`: the index as a function of the currency,
-- with no times for a currency that no event has.
abbrev pub EventIndex : Type 0
EventIndex = String → List Datetime

abbrev pub event_index : List CalendarEvent → EventIndex
event_index events c = sorted (times_of c events)

-- `times[bisect_left(times, ts)]` and `times[bisect_left(times, ts) - 1]` on sorted times
abbrev pub next_at : Datetime → List Datetime → Option Datetime
next_at ts times = find (λ t. leb ts t) times

abbrev pub last_before : Datetime → List Datetime → Option Datetime
last_before ts [] = none
last_before ts (t ∷ times) =
    if leb ts t then none else elim (last_before ts times) [ none ↦ some t | some u ↦ some u ]

-- `minutes_to_next` and `minutes_since_last`
abbrev pub until_next : EventIndex → Datetime → String → Option ℕ
until_next index ts c = elim (next_at ts (index c)) [ none ↦ none | some t ↦ some (t - ts) ]

abbrev pub since_last : EventIndex → Datetime → String → Option ℕ
since_last index ts c = elim (last_before ts (index c)) [ none ↦ none | some t ↦ some (ts - t) ]

abbrev pub within : ℕ → Option ℕ → Bool
within m none = false
within m (some d) = leb d (minutes m)

-- `in_blackout`
unfoldable pub in_blackout : EventIndex → Datetime → List String → ℕ → Bool
in_blackout index ts [] m = false
in_blackout index ts (c ∷ cs) m =
    (within m (until_next index ts c) || within m (since_last index ts c))
    || in_blackout index ts cs m
