-- ===== src/Trigger/Simple.antt =====
-- src/trigger_delayed.rs: a trigger that fires once, after a delay.
use babylon_playground_demo.Common.{
  ℕ, ◌-◌, Bool, true, false, not, ◌&&◌, Option, none, some, leb, if◌then◌else◌,
}
use babylon_playground_demo.Trigger.{TriggerMetadata, delayed_metadata}

pub record DelayedTrigger : Type 0 where
  pub delay : ℕ
  pub start_time : Option ℕ
  pub triggered : Bool

-- `DelayedTrigger::new` at the time `now`.
unfoldable pub new : ℕ → ℕ → DelayedTrigger
new delay now = record { delay = delay; start_time = some now; triggered = false }

abbrev elapsed_since : Option ℕ → ℕ → ℕ → Bool
elapsed_since (some start_time) delay now = leb delay (now - start_time)
elapsed_since none delay now = false

unfoldable pub check_time_elapsed : DelayedTrigger → ℕ → Bool
check_time_elapsed t now = elapsed_since t.start_time t.delay now

unfoldable pub check : DelayedTrigger → ℕ → Bool × DelayedTrigger
unfolding check_time_elapsed
check t now =
    if not t.triggered && check_time_elapsed t now
    then (true, record t { triggered = true })
    else (false, t)

unfoldable pub reset : DelayedTrigger → ℕ → DelayedTrigger
reset t now = record t { start_time = some now; triggered = false }

unfoldable pub metadata : {W : Type 0} → DelayedTrigger → TriggerMetadata W
unfolding delayed_metadata
metadata t = delayed_metadata t.delay
