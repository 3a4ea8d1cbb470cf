-- ===== src/Order/Handlers.antt =====
-- src/order.rs: `set_state`, `compute_stoploss` and the handlers of `compute_next_instruction`. The two
-- methods that they call again, `compute` and `compute_next_instruction`, are parameters here.
use babylon_playground_demo.Common.{
  Bool, true, false, not, ◌||◌, Option, none, some, is_some, if◌then◌else◌,
}
use babylon_playground_demo.Float.{OrderedFloat, ◌≼◌}
use babylon_playground_demo.Countdown
use babylon_playground_demo.Cooldown
use babylon_playground_demo.Trigger.{Trigger}
use babylon_playground_demo.Instruction.{ManagedInstruction}
use babylon_playground_demo.Order.State.{
  OrderState, idle, pending_open, open_failed, opened, partially_filled, filled, closed,
  pending_cancel, cancelled, cancelled_and_pending_replace, cancel_failed, replace_failed, replaced,
  rejected, expired, finished, state_eq, transition,
}
use babylon_playground_demo.Order.Error.{
  invalid_order_state_transition, stoploss_missing_metadata, invalid_current_market_price,
}
use babylon_playground_demo.Order.Data.{OrderMode, StoplossMetadata}
use babylon_playground_demo.Order.Query.{mode_eq, is_paused, is_stoploss, set_pending_instruction}
use babylon_playground_demo.Order.Make.{
  instruction_open, instruction_cancel, instruction_cancel_replace_stoploss,
}
use babylon_playground_demo.Order.Trail.{return, set_current_state, check_activator, touch, trail}
use babylon_playground_demo.Order.Monad.{World, M, pure, fail, read, gets, modify, ◌>>=◌, ◌>>◌}

module _ {W T : Type 0} ⦃f : OrderedFloat W⦄ ⦃t : Trigger W T⦄ (world : World W) where
  module _ (compute : M W T (Unit {0}))
      (compute_next_instruction : M W T (Option (ManagedInstruction W))) where
    unfoldable pub move_to : OrderState → OrderState → Option OrderState → M W T (Unit {0})
    unfolding touch
    move_to old new_state none = fail (invalid_order_state_transition old new_state)
    move_to old new_state (some s) = do
      modify (set_current_state s)
      if state_eq s old then return else touch world
      compute

    unfoldable pub set_state_with : OrderState → M W T (Unit {0})
    unfolding move_to
    set_state_with new_state = do
      old ← gets (λ o. o.state)
      if state_eq old new_state then return else move_to old new_state (transition old new_state)

    unfoldable pub terminate_with : M W T (Unit {0})
    terminate_with = do modify (λ o. record o { termination_flag = true }); compute

    -- `handle_idle` past the mode.
    unfoldable pub open_idle : M W T (Option (ManagedInstruction W))
    unfolding set_state_with instruction_open
    open_idle = do
      o ← gets (λ o. o)
      if is_paused o
          then pure none
          else if o.termination_flag || o.cancel_and_replace_flag || o.cancel_and_idle_flag
          then pure none
          else do set_state_with pending_open; i ← instruction_open world; pure (some i)

    unfoldable pub switch_mode :
        OrderMode → Option OrderMode → M W T (Option (ManagedInstruction W))
    unfolding open_idle
    switch_mode mode none = open_idle
    switch_mode mode (some pending) = do
      modify (λ o. record o { pending_mode = none })
      if mode_eq mode pending
          then pure none
          else do modify (λ o. record o { mode = pending }); open_idle

    unfoldable pub handle_idle : M W T (Option (ManagedInstruction W))
    unfolding switch_mode
    handle_idle = do o ← gets (λ o. o); switch_mode o.mode o.pending_mode

    -- The retry of `handle_open_failed`, by the answer of `retry_counter.checkin()`.
    unfoldable pub retry_open : Bool → M W T (Option (ManagedInstruction W))
    unfolding terminate_with set_state_with instruction_open
    retry_open true = do terminate_with; pure none
    retry_open false = do set_state_with pending_open; i ← instruction_open world; pure (some i)

    unfoldable pub handle_open_failed : M W T (Option (ManagedInstruction W))
    unfolding retry_open
    handle_open_failed = do
      o ← gets (λ o. o)
      if o.termination_flag then pure none else do
        now ← read world.now
        if not (Cooldown.is_available o.retry_cooldown now)
            then (do terminate_with; pure none)
            else do
              let r = Countdown.checkin o.retry_counter
              modify (λ p. record p { retry_counter = r.1 })
              retry_open r.0

    unfoldable pub cancel : M W T (Option (ManagedInstruction W))
    unfolding set_state_with instruction_cancel
    cancel = do set_state_with pending_cancel; i ← instruction_cancel world; pure (some i)

    -- The update of a trailing stop, where one is due.
    unfoldable pub replace_stop : Option (W × Option W) → M W T (Option (ManagedInstruction W))
    unfolding set_state_with instruction_cancel_replace_stoploss
    replace_stop none = pure none
    replace_stop (some (new_stop_price, new_limit_price)) = do
      modify (λ o. record o { cancel_and_replace_flag = true })
      set_state_with pending_cancel
      i ← instruction_cancel_replace_stoploss world new_stop_price new_limit_price
      modify (set_pending_instruction i)
      gets (λ o. o.pending_instruction)

    unfoldable pub stoploss_of :
        W → Option (StoplossMetadata W) → M W T (Option (ManagedInstruction W))
    unfolding replace_stop
    stoploss_of market_price none = fail stoploss_missing_metadata
    stoploss_of market_price (some s) = do
      allowed ← check_activator world market_price
      if not allowed
          then pure none
          else if market_price ≼ f.nought
          then fail (invalid_current_market_price market_price)
          else do
            o ← gets (λ o. o)
            if is_some o.pending_instruction
                then pure none
                else replace_stop (trail world o s market_price)

    unfoldable pub compute_stoploss_with : W → M W T (Option (ManagedInstruction W))
    unfolding stoploss_of
    compute_stoploss_with market_price = do
      o ← gets (λ o. o)
      if is_paused o
          then pure none
          else if not (is_stoploss o)
          then pure none
          else stoploss_of market_price o.metadata.stoploss

    unfoldable pub handle_opened_and_partially_filled : M W T (Option (ManagedInstruction W))
    unfolding cancel compute_stoploss_with
    handle_opened_and_partially_filled = do
      market_price ← read world.market_price
      if f.is_zero market_price then pure none else do
        o ← gets (λ o. o)
        if o.termination_flag || o.cancel_and_idle_flag
            then cancel
            else compute_stoploss_with market_price

    unfoldable pub handle_instruction_failed : M W T (Option (ManagedInstruction W))
    unfolding set_state_with
    handle_instruction_failed = do set_state_with rejected; pure none

    unfoldable pub handle_cancelled : M W T (Option (ManagedInstruction W))
    unfolding set_state_with
    handle_cancelled = do
      set_state_with finished
      now ← read world.now
      modify (λ o. record o { is_finished_by_cancel = true; cancelled_at = some now })
      compute_next_instruction

    unfoldable pub handle_filled : M W T (Option (ManagedInstruction W))
    unfolding set_state_with
    handle_filled = do set_state_with closed; compute; compute_next_instruction

    unfoldable pub handle_replaced : M W T (Option (ManagedInstruction W))
    unfolding set_state_with
    handle_replaced = do set_state_with opened; compute_next_instruction

    unfoldable pub handle_closed : M W T (Option (ManagedInstruction W))
    unfolding set_state_with
    handle_closed = do
      modify (λ o. record o { is_created_on_exchange = false })
      set_state_with finished
      compute_next_instruction

    -- The `match` of `compute_next_instruction`. The handlers of `Filled`, `Replaced` and `Closed`
    -- begin with a test of that state, which holds here.
    unfoldable pub next_of : OrderState → M W T (Option (ManagedInstruction W))
    unfolding handle_idle handle_open_failed handle_opened_and_partially_filled
        handle_instruction_failed handle_cancelled handle_filled handle_replaced handle_closed
    next_of idle = handle_idle
    next_of pending_open = pure none
    next_of rejected = handle_instruction_failed
    next_of open_failed = handle_open_failed
    next_of opened = handle_opened_and_partially_filled
    next_of partially_filled = handle_opened_and_partially_filled
    next_of pending_cancel = pure none
    next_of cancel_failed = pure none
    next_of cancelled_and_pending_replace = pure none
    next_of expired = handle_cancelled
    next_of cancelled = handle_cancelled
    next_of replace_failed = pure none
    next_of replaced = handle_replaced
    next_of filled = handle_filled
    next_of closed = handle_closed
    next_of finished = pure none

    unfoldable pub next_with : M W T (Option (ManagedInstruction W))
    unfolding next_of
    next_with = do s ← gets (λ o. o.state); next_of s
