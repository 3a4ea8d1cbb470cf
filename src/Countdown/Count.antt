-- ===== src/Countdown/Count.antt =====
-- src/countdown.rs: what a series of calls of `checkin` grants.
use babylon_playground_demo.Common.{ℕ, zero, suc, ◌+◌, ◌-◌, ◌≡◌, refl, arith, if◌then◌else◌}
use babylon_playground_demo.Countdown.{Countdown, checkin, reset}

-- How many of `n` calls of `checkin` are granted, and the countdown after them.
unfoldable pub checkins : ℕ → Countdown → ℕ × Countdown
checkins zero c = (0, c)
checkins (suc n) c =
    let (granted, c') = checkin c in
    let (count, c'') = checkins n c' in (if granted then suc count else count, c'')

-- Each grant of `checkin` uses up one of the value and no call takes it below zero, so `n` calls
-- grant what the value falls by, which is `n` or all of it; the initial value stays, and `reset`
-- brings it back.
pub checkins-count :
    (n : ℕ) (c : Countdown)
    → ((checkins n c).0 + (checkins n c).1.value ≡ c.value)
      × ((checkins n c).1.value ≡ c.value - n)
      × ((reset (checkins n c).1).value ≡ c.initial_value)
unfolding checkins checkin reset
checkins-count zero c = (omega arith, omega arith, refl)
checkins-count (suc n) c = ground (arith, checkins-count n (checkin c).1)
