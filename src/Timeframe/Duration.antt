-- ===== src/Timeframe/Duration.antt =====
-- src/timeframe.rs and src/util.rs: how long a timeframe is, in milliseconds. The length of a month is that of
-- the month on the clock, whose year (not before the year 0) and number are arguments.
mod Tests
use babylon_playground_demo.Common.{
  ℕ, ◌+◌, ◌*◌, ◌%◌, ◌≤◌, Bool, true, false, not, ◌&&◌, ◌||◌, ◌==◌, ltb, ◌≡◌, refl, ◌⊎◌, inl, inr,
  if◌then◌else◌, arith,
}
use babylon_playground_demo.Timeframe.{
  Timeframe, na, ms100, ms250, ms500, s1, s3, s5, s15, s30, m1, m3, m5, m15, m30, h1, h2, h4, h6,
  h8, h12, d1, d3, w1, mm1, millis,
}

unfoldable pub is_leap_year : ℕ → Bool
is_leap_year year = year % 4 == 0 && (not (year % 100 == 0) || year % 400 == 0)

unfoldable pub days_in_month : ℕ → ℕ → ℕ
unfolding is_leap_year
days_in_month year month =
    if month == 4 || month == 6 || month == 9 || month == 11
    then 30
    else if month == 2 && is_leap_year year
    then 29
    else if month == 2
    then 28
    else 31

abbrev seconds : ℕ → ℕ
seconds n = n * 1_000

abbrev minutes : ℕ → ℕ
minutes n = n * 60_000

abbrev hours : ℕ → ℕ
hours n = n * 3_600_000

abbrev days : ℕ → ℕ
days n = n * 86_400_000

abbrev weeks : ℕ → ℕ
weeks n = n * 604_800_000

unfoldable pub duration : ℕ → ℕ → Timeframe → ℕ
unfolding days_in_month
duration year month na = 0
duration year month ms100 = 100
duration year month ms250 = 250
duration year month ms500 = 500
duration year month s1 = seconds 1
duration year month s3 = seconds 3
duration year month s5 = seconds 5
duration year month s15 = seconds 15
duration year month s30 = seconds 30
duration year month m1 = minutes 1
duration year month m3 = minutes 3
duration year month m5 = minutes 5
duration year month m15 = minutes 15
duration year month m30 = minutes 30
duration year month h1 = hours 1
duration year month h2 = hours 2
duration year month h4 = hours 4
duration year month h6 = hours 6
duration year month h8 = hours 8
duration year month h12 = hours 12
duration year month d1 = days 1
duration year month d3 = days 3
duration year month w1 = weeks 1
duration year month mm1 = days (days_in_month year month)

days_in_month-bounds :
    (year month : ℕ) → (28 ≤ days_in_month year month) × (days_in_month year month ≤ 31)
unfolding days_in_month
days_in_month-bounds year month = (ground arith, ground arith)

-- The duration of a timeframe is its number of milliseconds, but for the month, which lasts from 28 to 31 days
-- where its number of milliseconds is that of 30.
pub duration-millis :
    (year month : ℕ) (timeframe : Timeframe)
    → (duration year month timeframe ≡ millis timeframe)
      ⊎ (timeframe ≡ mm1)
        × ((28 * 86_400_000 ≤ duration year month timeframe)
            × (duration year month timeframe ≤ 31 * 86_400_000))
unfolding duration millis
duration-millis year month na = inl refl
duration-millis year month ms100 = inl refl
duration-millis year month ms250 = inl refl
duration-millis year month ms500 = inl refl
duration-millis year month s1 = inl refl
duration-millis year month s3 = inl refl
duration-millis year month s5 = inl refl
duration-millis year month s15 = inl refl
duration-millis year month s30 = inl refl
duration-millis year month m1 = inl refl
duration-millis year month m3 = inl refl
duration-millis year month m5 = inl refl
duration-millis year month m15 = inl refl
duration-millis year month m30 = inl refl
duration-millis year month h1 = inl refl
duration-millis year month h2 = inl refl
duration-millis year month h4 = inl refl
duration-millis year month h6 = inl refl
duration-millis year month h8 = inl refl
duration-millis year month h12 = inl refl
duration-millis year month d1 = inl refl
duration-millis year month d3 = inl refl
duration-millis year month w1 = inl refl
duration-millis year month mm1 =
    let (low, high) = days_in_month-bounds year month in inr (refl, (omega arith, omega arith))
