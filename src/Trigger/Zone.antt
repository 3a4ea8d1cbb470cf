-- ===== src/Trigger/Zone.antt =====
-- src/trigger_delayed_zone.rs: between the target price and the threshold price the trigger fires
-- after a delay; beyond the threshold it fires at once.
use babylon_playground_demo.Common.{
  ℕ, ◌/◌, ◌%◌, ◌^◌, Bool, true, false, not, ◌&&◌, ◌||◌, Option, none, some, ltb, is_some,
  if◌then◌else◌,
}
use babylon_playground_demo.Common.Result.{Result, ok, err}
use babylon_playground_demo.Float.{OrderedFloat, ◌≼◌, ◌≺◌, ◌≽◌, ◌≻◌, ◌≈◌}
use babylon_playground_demo.Trigger.{
  TriggerError, initialization_error, TriggerMetadata, delayed_zone_metadata,
}

-- `PausableClock` of the crate pausable_clock: `begin` is `default()`, and `elapsed_millis` is
-- `now().elapsed_millis()`, at a time.
pub record PausableClock (C : Type 0) : Type 0 where
  pub begin : ℕ → C
  pub pause : C → ℕ → C
  pub elapsed_millis : C → ℕ → ℕ

pub record DelayedZoneTrigger (W C : Type 0) : Type 0 where
  pub target_price : W
  pub threshold_price : W
  pub delay : ℕ
  pub reset_timer_on_reentry : Bool
  pub clock : Option C
  pub triggered : Bool

module _ {W C : Type 0} ⦃f : OrderedFloat W⦄ where
  unfoldable pub new : W → W → ℕ → Bool → Result (TriggerError W) (DelayedZoneTrigger W C)
  new target_price threshold_price delay reset_timer_on_reentry =
      if target_price ≈ threshold_price
      then err (initialization_error "target_price and threshold_price must be different")
      else ok (record {
        target_price = target_price;
        threshold_price = threshold_price;
        delay = delay;
        reset_timer_on_reentry = reset_timer_on_reentry;
        clock = none;
        triggered = false;
      })

  unfoldable pub is_in_critical_zone : DelayedZoneTrigger W C → W → Bool
  is_in_critical_zone t price =
      let shorting = t.target_price ≺ t.threshold_price in
      (not shorting && price ≼ t.threshold_price) || (shorting && price ≽ t.threshold_price)

  unfoldable pub is_in_normal_zone : DelayedZoneTrigger W C → W → Bool
  is_in_normal_zone t price =
      let shorting = t.target_price ≺ t.threshold_price in
      (not shorting && price ≻ t.target_price) || (shorting && price ≺ t.target_price)

module _ {C : Type 0} ⦃k : PausableClock C⦄ where
  pause_clock : Option C → ℕ → Option C
  pause_clock none now = none
  pause_clock (some c) now = some (k.pause c now)

  clock_elapsed : Option C → ℕ → ℕ → Bool
  clock_elapsed none delay now = false
  clock_elapsed (some c) delay now = ltb (delay / 1_000_000 % 2 ^ 64) (k.elapsed_millis c now)

module _ {W C : Type 0} where
  -- `Clone`: a clone has neither a clock nor fired.
  unfoldable pub clone : DelayedZoneTrigger W C → DelayedZoneTrigger W C
  clone t = record t { clock = none; triggered = false }

  unfoldable pub reset : DelayedZoneTrigger W C → DelayedZoneTrigger W C
  reset t = record t { clock = none; triggered = false }

  unfoldable pub metadata : DelayedZoneTrigger W C → TriggerMetadata W
  unfolding delayed_zone_metadata
  metadata t =
      delayed_zone_metadata t.target_price t.threshold_price t.delay t.reset_timer_on_reentry

  module _ ⦃k : PausableClock C⦄ where
    start_clock : DelayedZoneTrigger W C → ℕ → DelayedZoneTrigger W C
    start_clock t now = record t { clock = some (k.begin now) }

    reset_or_pause_clock : DelayedZoneTrigger W C → ℕ → DelayedZoneTrigger W C
    unfolding pause_clock
    reset_or_pause_clock t now =
        if t.reset_timer_on_reentry
        then record t { clock = none }
        else record t { clock = pause_clock t.clock now }

    unfoldable pub check_time_elapsed : DelayedZoneTrigger W C → ℕ → Bool
    unfolding clock_elapsed
    check_time_elapsed t now = clock_elapsed t.clock t.delay now

    module _ ⦃f : OrderedFloat W⦄ where
      -- The clock when the time is up to be judged: begun outside the normal zone, reset or paused
      -- inside it.
      unfoldable pub tend_clock : DelayedZoneTrigger W C → ℕ → W → DelayedZoneTrigger W C
      unfolding is_in_normal_zone start_clock reset_or_pause_clock
      tend_clock t now price =
          let t' =
            if not (is_in_normal_zone t price) && not (is_some t.clock)
            then start_clock t now
            else t in
          if is_in_normal_zone t' price && is_some t'.clock then reset_or_pause_clock t' now else t'

      unfoldable pub check : DelayedZoneTrigger W C → ℕ → W → Bool × DelayedZoneTrigger W C
      unfolding is_in_critical_zone tend_clock check_time_elapsed
      check t now price =
          let t' = tend_clock t now price in
          if is_in_critical_zone t price
          then (true, record t { triggered = true })
          else if is_some t'.clock && check_time_elapsed t' now
          then (true, record t' { triggered = true })
          else (false, t')
