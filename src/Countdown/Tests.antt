-- ===== src/Countdown/Tests.antt =====
-- Countdowns at concrete values.
use babylon_playground_demo.Common.{◌≡◌, refl}
use babylon_playground_demo.Countdown.{new, checkin}
use babylon_playground_demo.Countdown.Count.{checkins}

two_uses : (checkins 5 (new 2)).0 ≡ 2
unfolding checkins checkin new
two_uses = refl
