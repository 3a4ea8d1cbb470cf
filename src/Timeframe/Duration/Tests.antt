-- ===== src/Timeframe/Duration/Tests.antt =====
-- Two Februaries.
use babylon_playground_demo.Common.{◌≡◌, refl}
use babylon_playground_demo.Timeframe.{mm1}
use babylon_playground_demo.Timeframe.Duration.{duration, days_in_month, is_leap_year}

leap_february : days_in_month 2_024 2 ≡ 29
unfolding days_in_month is_leap_year
leap_february = refl

short_february : duration 1_900 2 mm1 ≡ 2_419_200_000
unfolding duration days_in_month is_leap_year
short_february = refl
