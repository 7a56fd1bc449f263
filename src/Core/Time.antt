-- ===== src/Core/Time.antt =====
-- Times of the program: aware UTC datetimes, as microseconds since the first one that Python's
-- datetime has; a timedelta is a number of microseconds too. Calendars and zones are parameters
-- of what needs them.
use kometa.Prelude.{ℕ, ◌*◌}

abbrev pub Datetime : Type 0
Datetime = ℕ

abbrev pub seconds : ℕ → ℕ
seconds n = 1000000 * n

abbrev pub minutes : ℕ → ℕ
minutes n = seconds (60 * n)

abbrev pub days : ℕ → ℕ
days n = minutes (1440 * n)
