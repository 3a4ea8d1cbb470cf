-- ===== src/Trigger/Reached.antt =====
-- src/trigger_distance.rs and src/trigger_proximity.rs: triggers that a price sets off, and the
-- two helpers of src/util.rs that the latter uses.
use babylon_playground_demo.Common.{
  Bool, true, false, not, ◌&&◌, ◌||◌, Option, none, some, if◌then◌else◌,
}
use babylon_playground_demo.Common.Result.{Result, ok, err}
use babylon_playground_demo.Float.{
  OrderedFloat, ◌≼◌, ◌≺◌, ◌≽◌, ◌≻◌, ◌⊖◌, ◌⊗◌, ◌⊘◌, round_to_precision,
}
use babylon_playground_demo.Trigger.{
  TriggerError, initialization_error, negative_distance_ratio, invalid_proximity, TriggerMetadata,
  distance_metadata, proximity_metadata,
}

pub record DistanceTrigger (W : Type 0) : Type 0 where
  pub anchor_price : W
  pub distance_ratio : W
  pub shorting : Bool
  pub triggered : Bool

pub record ProximityTrigger (W : Type 0) : Type 0 where
  pub previous_price : Option W
  pub anchor_price : W
  pub target_price : W
  pub proximity : W
  pub shorting : Bool
  pub triggered : Bool

module _ {W : Type 0} ⦃f : OrderedFloat W⦄ where
  unfoldable pub new_distance : W → W → Result (TriggerError W) (DistanceTrigger W)
  new_distance anchor_price distance_ratio =
      if distance_ratio ≼ f.nought
      then err (initialization_error "distance_ratio must be greater than 0.0")
      else ok (record {
        anchor_price = anchor_price;
        distance_ratio = distance_ratio;
        shorting = false;
        triggered = false;
      })

  unfoldable pub has_reached_distance : DistanceTrigger W → W → Bool
  has_reached_distance t price = f.abs (price ⊖ t.anchor_price) ≽ t.distance_ratio ⊗ t.anchor_price

  unfoldable pub validate_distance : DistanceTrigger W → Result (TriggerError W) (Unit {0})
  validate_distance t =
      if t.distance_ratio ≼ f.nought then err (negative_distance_ratio t.distance_ratio) else ok tt

  unfoldable pub check_distance : DistanceTrigger W → W → Bool × DistanceTrigger W
  unfolding has_reached_distance
  check_distance t price =
      let t' = if has_reached_distance t price then record t { triggered = true } else t in
      (t'.triggered, t')

  unfoldable pub is_outside_inclusive : W → W → W → Bool
  is_outside_inclusive x low high = x ≼ low || x ≽ high

  unfoldable pub calc_relative_position_between : W → W → W → W
  calc_relative_position_between x low high = round_to_precision ((x ⊖ low) ⊘ (high ⊖ low)) 2

  unfoldable pub new_proximity : W → W → W → Result (TriggerError W) (ProximityTrigger W)
  unfolding is_outside_inclusive
  new_proximity anchor_price target_price proximity =
      if is_outside_inclusive proximity f.nought f.one
      then err (initialization_error "proximity must be between 0.0 and 1.0")
      else ok (record {
        previous_price = none;
        anchor_price = anchor_price;
        target_price = target_price;
        proximity = proximity;
        shorting = anchor_price ≻ target_price;
        triggered = false;
      })

  unfoldable pub update_target : ProximityTrigger W → W → ProximityTrigger W
  update_target t new_target = record t {
    target_price = new_target;
    shorting = t.anchor_price ≻ new_target;
  }

  unfoldable pub crossed_target : ProximityTrigger W → W → W → Bool
  crossed_target t previous_price current_price =
      (t.shorting && previous_price ≺ t.target_price && current_price ≽ t.target_price)
      || (not t.shorting && previous_price ≻ t.target_price && current_price ≼ t.target_price)

  unfoldable pub within_proximity : ProximityTrigger W → W → Bool
  unfolding calc_relative_position_between
  within_proximity t current_price =
      f.abs (f.one ⊖ calc_relative_position_between current_price t.anchor_price t.target_price)
      ≼ t.proximity

  near_since : ProximityTrigger W → Option W → W → Bool
  unfolding crossed_target within_proximity
  near_since t none current_price = false
  near_since t (some previous_price) current_price =
      crossed_target t previous_price current_price || within_proximity t current_price

  unfoldable pub is_near_target : ProximityTrigger W → W → Bool
  unfolding near_since
  is_near_target t current_price = near_since t t.previous_price current_price

  unfoldable pub validate_proximity : ProximityTrigger W → Result (TriggerError W) (Unit {0})
  unfolding is_outside_inclusive
  validate_proximity t =
      if is_outside_inclusive t.proximity f.nought f.one
      then err (invalid_proximity t.proximity)
      else ok tt

  unfoldable pub check_proximity : ProximityTrigger W → W → Bool × ProximityTrigger W
  unfolding is_near_target
  check_proximity t price =
      let t' = if is_near_target t price then record t { triggered = true } else t in
      (t'.triggered, record t' { previous_price = some price })

module _ {W : Type 0} where
  unfoldable pub reset_distance : DistanceTrigger W → DistanceTrigger W
  reset_distance t = record t { triggered = false }

  unfoldable pub distance_metadata_of : DistanceTrigger W → TriggerMetadata W
  unfolding distance_metadata
  distance_metadata_of t = distance_metadata t.anchor_price t.distance_ratio

  unfoldable pub reset_proximity : ProximityTrigger W → ProximityTrigger W
  reset_proximity t = record t { triggered = false }

  unfoldable pub proximity_metadata_of : ProximityTrigger W → TriggerMetadata W
  unfolding proximity_metadata
  proximity_metadata_of t = proximity_metadata t.anchor_price t.target_price t.proximity
