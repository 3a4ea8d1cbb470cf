-- ===== src/Order/Trail.antt =====
-- src/order.rs: what `compute` and its handlers do to an order by themselves: the checks of the
-- activator and the step of a trailing stop.
use babylon_playground_demo.Common.{Bool, true, false, not, ◌&&◌, Option, none, some, if◌then◌else◌}
use babylon_playground_demo.Float.{OrderedFloat, ◌≼◌, ◌≽◌, ◌⊕◌, ◌⊖◌, ◌⊗◌, ◌⊘◌}
use babylon_playground_demo.Trigger.{Trigger}
use babylon_playground_demo.Types.{NormalizedSide, buy, sell, order_type_eq, stop_loss_limit}
use babylon_playground_demo.Instruction.{ManagedInstruction, InstructionState, executed, failed}
use babylon_playground_demo.Order.State.{OrderState}
use babylon_playground_demo.Order.Data.{Order, StoplossMetadata}
use babylon_playground_demo.Order.Query.{clear_pending_instruction}
use babylon_playground_demo.Order.Monad.{World, M, pure, read, gets, modify, ◌>>=◌, ◌>>◌}

-- `()`, returned.
abbrev pub return : {W T : Type 0} → M W T (Unit {0})
return = pure tt

abbrev pub set_current_state : {W T : Type 0} → OrderState → Order W T → Order W T
set_current_state s o = record o { state = s }

-- An executed or failed instruction is cleared before the next one is computed.
abbrev is_settled : InstructionState → Bool
is_settled executed = true
is_settled failed = true
is_settled _ = false

abbrev pub settled : {W : Type 0} → Option (ManagedInstruction W) → Bool
settled none = false
settled (some i) = is_settled i.state

unfoldable pub clear_settled : {W T : Type 0} → Order W T → Order W T
unfolding clear_pending_instruction
clear_settled o = if settled o.pending_instruction then clear_pending_instruction o else o

-- The stop price moves with the market, in the direction of the side.
abbrev by_side : {A : Type 0} → NormalizedSide → A → A → A
by_side buy a b = a
by_side sell a b = b

module _ {W T : Type 0} ⦃f : OrderedFloat W⦄ ⦃t : Trigger W T⦄ (world : World W) where
  -- `self.activator.check(price)`.
  unfoldable pub check_activator : W → M W T Bool
  check_activator price = do
    now ← read world.now
    activator ← gets (λ o. o.activator)
    let r = t.check activator now price
    modify (λ o. record o { activator = r.1 })
    pure r.0

  -- `!is_created_on_exchange && !activator.check(market price)`: the order may not be computed.
  unfoldable pub is_held_back : Bool → M W T Bool
  unfolding check_activator
  is_held_back true = pure false
  is_held_back false = do
    price ← read world.market_price
    allowed ← check_activator price
    pure (not allowed)

  unfoldable pub touch : M W T (Unit {0})
  touch = do now ← read world.now; modify (λ o. record o { updated_at = some now })

  -- The trailing step: how far the market has run past the stop, and the new stop and limit prices
  -- where it has run far enough.
  unfoldable pub trail : Order W T → StoplossMetadata W → W → Option (W × Option W)
  trail o s market_price =
      let step_amount = s.reference_price ⊗ s.trailing_step_ratio in
      let delta_amount = market_price ⊖ o.price ⊖ step_amount in
      let delta_ratio = delta_amount ⊘ s.reference_price in
      let whole_steps = f.floor (delta_ratio ⊘ s.trailing_step_ratio) in
      let num_steps = if whole_steps ≼ f.one then f.one else whole_steps in
      let total_delta = s.reference_price ⊗ s.trailing_step_ratio ⊗ num_steps in
      let stop = by_side o.side (o.price ⊖ total_delta) (o.price ⊕ total_delta) in
      let offset = stop ⊗ o.metadata.limit_price_offset_ratio in
      if s.is_trailing_enabled && delta_ratio ≽ s.trailing_step_ratio
      then some (
        stop,
        if order_type_eq o.order_type stop_loss_limit
            then some (by_side o.side (stop ⊕ offset) (stop ⊖ offset))
            else none,
      )
      else none
