-- ===== src/Countdown.antt =====
-- src/countdown.rs: a counter that is checked in until it is used up. The type parameter `T`, an
-- unsigned integer, is ℕ: the code only subtracts one from a positive value, so no width matters.
pub mod Count
mod Tests
use babylon_playground_demo.Common.{ℕ, ◌-◌, Bool, true, false, ltb, if◌then◌else◌}

pub record Countdown : Type 0 where
  pub value : ℕ
  pub initial_value : ℕ

unfoldable pub new : ℕ → Countdown
new value = record { value = value; initial_value = value }

unfoldable pub checkin : Countdown → Bool × Countdown
checkin c = if ltb 0 c.value then (true, record c { value = c.value - 1 }) else (false, c)

unfoldable pub reset : Countdown → Countdown
reset c = record c { value = c.initial_value }

-- The method `value`.
unfoldable pub get_value : Countdown → ℕ × ℕ
get_value c = (c.value, c.initial_value)
