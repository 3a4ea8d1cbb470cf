-- ===== src/Trigger.antt =====
-- src/trigger.rs: what triggers have in common. A trigger says at each price whether an order may be
-- placed. Prices are values of the type `W`; durations and times are nanoseconds.
pub mod Simple
pub mod Zone
pub mod Reached
pub mod Dispatch
pub mod Latch
pub mod Frozen
pub mod Clock
mod Tests
use babylon_playground_demo.Common.{ℕ, String, Bool, true, false, Option, none, some}
use babylon_playground_demo.Common.Result.{Result}

pub data TriggerError (W : Type 0) : Type 0 where
  initialization_error : String → TriggerError W
  already_activated : TriggerError W
  not_activated : TriggerError W
  negative_distance_ratio : W → TriggerError W
  invalid_proximity : W → TriggerError W
  missing_parameter : String → TriggerError W
  not_initialized : TriggerError W

pub data TriggerKind : Type 0 where
  no_kind instant delayed delayed_zone distance proximity : TriggerKind

pub record TriggerMetadata (W : Type 0) : Type 0 where
  pub kind : TriggerKind
  pub delay : Option ℕ
  pub target_price : Option W
  pub threshold_price : Option W
  pub reset_timer_on_reentry : Option Bool
  pub anchor_price : Option W
  pub distance_ratio : Option W
  pub proximity : Option W

-- The trait `Trigger`, as its clients use it: the price is checked at a time, and a check may change
-- the trigger.
pub record Trigger (W T : Type 0) : Type 0 where
  pub validate : T → Result (TriggerError W) (Unit {0})
  pub check : T → ℕ → W → Bool × T

module _ {W : Type 0} where
  -- `TriggerMetadata::default()`, which is also `TriggerMetadata::none()`.
  unfoldable pub none_metadata : TriggerMetadata W
  none_metadata = record {
    kind = no_kind;
    delay = none;
    target_price = none;
    threshold_price = none;
    reset_timer_on_reentry = none;
    anchor_price = none;
    distance_ratio = none;
    proximity = none;
  }

  unfoldable pub instant_metadata : TriggerMetadata W
  unfolding none_metadata
  instant_metadata = record none_metadata { kind = instant }

  unfoldable pub delayed_metadata : ℕ → TriggerMetadata W
  unfolding none_metadata
  delayed_metadata delay = record none_metadata { kind = delayed; delay = some delay }

  unfoldable pub delayed_zone_metadata : W → W → ℕ → Bool → TriggerMetadata W
  unfolding none_metadata
  delayed_zone_metadata target_price threshold_price delay reset_timer_on_reentry =
      record none_metadata {
        kind = delayed_zone;
        target_price = some target_price;
        threshold_price = some threshold_price;
        delay = some delay;
        reset_timer_on_reentry = some reset_timer_on_reentry;
      }

  unfoldable pub distance_metadata : W → W → TriggerMetadata W
  unfolding none_metadata
  distance_metadata anchor_price distance_ratio = record none_metadata {
    kind = distance;
    anchor_price = some anchor_price;
    distance_ratio = some distance_ratio;
  }

  unfoldable pub proximity_metadata : W → W → W → TriggerMetadata W
  unfolding none_metadata
  proximity_metadata anchor_price target_price ratio = record none_metadata {
    kind = TriggerKind.proximity;
    anchor_price = some anchor_price;
    target_price = some target_price;
    proximity = some ratio;
  }
