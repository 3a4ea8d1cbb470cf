-- ===== src/Trigger/Dispatch.antt =====
-- src/trigger.rs: the implementations of the trait `Trigger` side by side, and how metadata becomes
-- a trigger.
use babylon_playground_demo.Common.{ℕ, Bool, true, false}
use babylon_playground_demo.Common.Result.{Result, ok, err, ok_or, ◌>>=◌}
use babylon_playground_demo.Float.{OrderedFloat}
use babylon_playground_demo.Trigger.{
  TriggerError, missing_parameter, TriggerKind, no_kind, TriggerMetadata, Trigger, none_metadata,
  instant_metadata,
}
use babylon_playground_demo.Trigger.Simple
use babylon_playground_demo.Trigger.Simple.{DelayedTrigger}
use babylon_playground_demo.Trigger.Zone
use babylon_playground_demo.Trigger.Zone.{DelayedZoneTrigger, PausableClock}
use babylon_playground_demo.Trigger.Reached
use babylon_playground_demo.Trigger.Reached.{DistanceTrigger, ProximityTrigger}

-- A `Box<dyn Trigger>`: one of the six structs that implement the trait.
pub data DynTrigger (W C : Type 0) : Type 0 where
  no_trigger instant_trigger : DynTrigger W C
  delayed : DelayedTrigger → DynTrigger W C
  delayed_zone : DelayedZoneTrigger W C → DynTrigger W C
  distance : DistanceTrigger W → DynTrigger W C
  proximity : ProximityTrigger W → DynTrigger W C

-- A check of a trigger, put back into its variant.
abbrev rewrap : {A B : Type 0} → (A → B) → Bool × A → Bool × B
rewrap box r = (r.0, box r.1)

-- A trigger that was built without an error is put into its variant.
abbrev box {ℓ κ μ} : {E : Type ℓ} {A : Type κ} {B : Type μ} → (A → B) → Result E A → Result E B
box f (ok a) = ok (f a)
box f (err e) = err e

module _ {W C : Type 0} ⦃f : OrderedFloat W⦄ ⦃k : PausableClock C⦄ where
  unfoldable pub validate : DynTrigger W C → Result (TriggerError W) (Unit {0})
  unfolding Reached.validate_distance Reached.validate_proximity
  validate (distance t) = Reached.validate_distance t
  validate (proximity t) = Reached.validate_proximity t
  validate _ = ok tt

  unfoldable pub check : DynTrigger W C → ℕ → W → Bool × DynTrigger W C
  unfolding Simple.check Zone.check Reached.check_distance Reached.check_proximity
  check no_trigger now price = (false, no_trigger)
  check instant_trigger now price = (true, instant_trigger)
  check (delayed t) now price = rewrap delayed (Simple.check t now)
  check (delayed_zone t) now price = rewrap delayed_zone (Zone.check t now price)
  check (distance t) now price = rewrap distance (Reached.check_distance t price)
  check (proximity t) now price = rewrap proximity (Reached.check_proximity t price)

  unfoldable pub reset : DynTrigger W C → ℕ → DynTrigger W C
  unfolding Simple.reset Zone.reset Reached.reset_distance Reached.reset_proximity
  reset no_trigger now = no_trigger
  reset instant_trigger now = instant_trigger
  reset (delayed t) now = delayed (Simple.reset t now)
  reset (delayed_zone t) now = delayed_zone (Zone.reset t)
  reset (distance t) now = distance (Reached.reset_distance t)
  reset (proximity t) now = proximity (Reached.reset_proximity t)

  unfoldable pub metadata : DynTrigger W C → TriggerMetadata W
  unfolding none_metadata instant_metadata Simple.metadata Zone.metadata
      Reached.distance_metadata_of Reached.proximity_metadata_of
  metadata no_trigger = none_metadata
  metadata instant_trigger = instant_metadata
  metadata (delayed t) = Simple.metadata t
  metadata (delayed_zone t) = Zone.metadata t
  metadata (distance t) = Reached.distance_metadata_of t
  metadata (proximity t) = Reached.proximity_metadata_of t

  -- `into_trigger`, by the kind, at a time.
  trigger_of_kind : TriggerKind → TriggerMetadata W → ℕ → Result (TriggerError W) (DynTrigger W C)
  unfolding Simple.new Zone.new Reached.new_distance Reached.new_proximity
  trigger_of_kind no_kind m now = ok no_trigger
  trigger_of_kind TriggerKind.instant m now = ok instant_trigger
  trigger_of_kind TriggerKind.delayed m now = do
    delay ← ok_or m.delay (missing_parameter "delay")
    ok (delayed (Simple.new delay now))
  trigger_of_kind TriggerKind.delayed_zone m now = do
    target_price ← ok_or m.target_price (missing_parameter "target_price")
    threshold_price ← ok_or m.threshold_price (missing_parameter "threshold_price")
    delay ← ok_or m.delay (missing_parameter "delay")
    reset_timer ← ok_or m.reset_timer_on_reentry (missing_parameter "reset_timer_on_reentry")
    box delayed_zone (Zone.new target_price threshold_price delay reset_timer)
  trigger_of_kind TriggerKind.distance m now = do
    anchor_price ← ok_or m.anchor_price (missing_parameter "anchor_price")
    distance_ratio ← ok_or m.distance_ratio (missing_parameter "distance_ratio")
    box distance (Reached.new_distance anchor_price distance_ratio)
  trigger_of_kind TriggerKind.proximity m now = do
    anchor_price ← ok_or m.anchor_price (missing_parameter "anchor_price")
    target_price ← ok_or m.target_price (missing_parameter "target_price")
    ratio ← ok_or m.proximity (missing_parameter "proximity")
    box proximity (Reached.new_proximity anchor_price target_price ratio)

  unfoldable pub into_trigger : TriggerMetadata W → ℕ → Result (TriggerError W) (DynTrigger W C)
  unfolding trigger_of_kind
  into_trigger m now = trigger_of_kind m.kind m now

  -- The implementations fill the interface that orders use.
  instance abbrev pub dyn_trigger : Trigger W (DynTrigger W C)
  dyn_trigger = record { validate = validate; check = check }
