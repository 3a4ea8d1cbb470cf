-- ===== src/Trigger/Clock.antt =====
-- A pausable clock for the tests.
use babylon_playground_demo.Common.{ℕ, ◌-◌, ◌/◌, refl}
use babylon_playground_demo.Trigger.Zone.{PausableClock}
use babylon_playground_demo.Trigger.Frozen.{Pauses}

-- A clock: it runs since a time, or stands at a reading in milliseconds.
pub data Clock : Type 0 where
  runs_since : ℕ → Clock
  stands_at : ℕ → Clock

abbrev elapsed_at : Clock → ℕ → ℕ
elapsed_at (runs_since s) now = (now - s) / 1_000_000
elapsed_at (stands_at e) now = e

abbrev pub pause_at : Clock → ℕ → Clock
pause_at c now = stands_at (elapsed_at c now)

instance abbrev pub clock : PausableClock Clock
clock = record { begin = runs_since; pause = pause_at; elapsed_millis = elapsed_at }

pub clock-Pauses : Pauses clock
clock-Pauses = record { stands_still = λ c s t. refl; pause_twice = λ c s t. refl }
