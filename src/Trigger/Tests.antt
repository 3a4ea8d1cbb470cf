-- ===== src/Trigger/Tests.antt =====
-- Triggers at concrete prices and times. Prices are thousandths.
use babylon_playground_demo.Common.{ℕ, ◌≤◌, ◌≡◌, refl, true, false, none, some, [], ◌∷◌, arith}
use babylon_playground_demo.Float.Units.{thousandths}
use babylon_playground_demo.Trigger.Simple.{DelayedTrigger}
use babylon_playground_demo.Trigger.Reached.{
  DistanceTrigger, ProximityTrigger, has_reached_distance,
}
use babylon_playground_demo.Trigger.Zone.{is_in_critical_zone, DelayedZoneTrigger}
use babylon_playground_demo.Trigger.Clock.{Clock, runs_since, pause_at, clock, clock-Pauses}
use babylon_playground_demo.Trigger.Dispatch.{DynTrigger, distance, proximity}
use babylon_playground_demo.Trigger.Latch.{
  count_fires, delayed_in, reached_any, delayed-count_fires,
}
use babylon_playground_demo.Trigger.Frozen.{ever_fires, paused_never_fires}

abbrev after_5 : DelayedTrigger
after_5 = record { delay = 5; start_time = some 100; triggered = false }

delayed-count_fires_example :
    count_fires {W = ℕ} (delayed_in Clock after_5) ((101, 7) ∷ (106, 7) ∷ (107, 7) ∷ []) ≤ 1
delayed-count_fires_example =
    delayed-count_fires Clock after_5 ((101, 7) ∷ (106, 7) ∷ (107, 7) ∷ [])

abbrev five_percent : DistanceTrigger ℕ
five_percent = record {
  anchor_price = 100_000;
  distance_ratio = 50;
  shorting = false;
  triggered = false;
}

it_fires : reached_any five_percent ((1, 101_000) ∷ (2, 106_000) ∷ (3, 99_000) ∷ []) ≡ true
unfolding has_reached_distance
it_fires = refl

abbrev near_110 : ProximityTrigger ℕ
near_110 = record {
  previous_price = none;
  anchor_price = 100_000;
  target_price = 110_000;
  proximity = 100;
  shorting = false;
  triggered = false;
}

abbrev boxed : DynTrigger ℕ Clock
boxed = proximity near_110

abbrev boxed_distance : DynTrigger ℕ Clock
boxed_distance = distance five_percent

-- Ten seconds, paused after four.
abbrev zone : DelayedZoneTrigger ℕ Clock
zone = record {
  target_price = 100_000;
  threshold_price = 90_000;
  delay = 10_000_000_000;
  reset_timer_on_reentry = false;
  clock = some (pause_at (runs_since 0) 4_000_000_000);
  triggered = false;
}

zone_safe : is_in_critical_zone zone 95_000 ≡ false
unfolding is_in_critical_zone
zone_safe = refl

-- An hour later the price is still between target and threshold.
paused_never_fires_example :
    ever_fires zone ((5_000_000_000, 95_000) ∷ (3_600_000_000_000, 95_000) ∷ []) ≡ false
paused_never_fires_example =
    paused_never_fires zone (runs_since 0) 4_000_000_000
      ((5_000_000_000, 95_000) ∷ (3_600_000_000_000, 95_000) ∷ []) clock-Pauses refl refl
      (omega arith) (zone_safe, (zone_safe, tt))
