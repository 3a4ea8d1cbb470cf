-- ===== src/Trade/Compute.antt =====
-- src/trade.rs: `set_state`, `compute_lifecycle`, `compute` and what they call. The depth is that of the
-- nested calls of the orders' `compute`.
use babylon_playground_demo.Common.{
  ℕ, Bool, false, not, ◌&&◌, ◌||◌, ◌==◌, Option, none, some, is_some, if◌then◌else◌,
}
use babylon_playground_demo.Float.{OrderedFloat}
use babylon_playground_demo.Trigger.{Trigger}
use babylon_playground_demo.Instruction.{ManagedInstruction, is_cancellation, is_executed}
use babylon_playground_demo.Order.Monad.{World}
use babylon_playground_demo.Order.Query.{
  is_active, is_failed, is_finished, is_partially_filled, is_pending_cancel, is_pending_open,
}
use babylon_playground_demo.Order.Query
use babylon_playground_demo.Order.Operation.{
  Operation, perform, compute_order, terminate, cancel_pending_instruction, cancel_and_idle,
}
use babylon_playground_demo.Trade.Error.{invalid_trade_state_transition}
use babylon_playground_demo.Trade.State.{
  TradeState, entering, entry_failed, exiting, closed, idle, normal, cancelled, transition,
  state_eq,
}
use babylon_playground_demo.Trade.Data.{
  Trade, Slot, entry_slot, exit_slot, stoploss_slot, order_at, pnl_at,
}
use babylon_playground_demo.Trade.Query.{
  is_new, is_idle, is_entering, is_exiting, is_closed, active_slot,
}
use babylon_playground_demo.Trade.Monad.{M, pure, fail, read, gets, modify, on, ◌>>=◌, ◌>>◌}

abbrev pub return : {W T : Type 0} → M W T (Unit {0})
return = pure tt

abbrev has_executed : {W : Type 0} → Option (ManagedInstruction W) → Bool
has_executed none = false
has_executed (some i) = is_executed i

-- An executed special instruction is taken off the trade.
unfoldable pub clear_special : {W T : Type 0} → Trade W T → Trade W T
clear_special t =
    if has_executed t.special_pending_instruction
    then record t { special_pending_instruction = none }
    else t

-- Whether the pending instruction is that of this order.
abbrev is_pending_for : Option ℕ → ℕ → Bool
is_pending_for none order_id = false
is_pending_for (some pending) order_id = order_id == pending

unfoldable pub maintenance : {W T : Type 0} → Trade W T → Trade W T
maintenance t =
    if is_exiting t && is_pending_for t.pending_instruction_order_id t.entry.local_order_id
    then record t { pending_instruction_order_id = none }
    else t

abbrev pub assign : {W T : Type 0} → Slot → Trade W T → Trade W T
assign slot t = record t { pending_instruction_order_id = some (order_at slot t).local_order_id }

module _ {W T : Type 0} ⦃f : OrderedFloat W⦄ ⦃t : Trigger W T⦄ (world : World W) (depth : ℕ) where
  -- A call of a method of one of the orders.
  abbrev pub call : Slot → Operation W T → M W T (Unit {0})
  call slot operation = on slot (perform world depth operation)

  unfoldable pub move_to : TradeState → TradeState → Option TradeState → M W T (Unit {0})
  move_to old new_state none = do
    trade ← gets (λ t. t)
    fail (invalid_trade_state_transition trade.symbol trade.id old new_state)
  move_to old new_state (some s) = do
    modify (λ t. record t { state = s })
    if state_eq s old
        then return
        else do now ← read world.now; modify (λ t. record t { updated_at = some now })

  unfoldable pub set_state : TradeState → M W T (Unit {0})
  unfolding move_to
  set_state new_state = do
    old ← gets (λ t. t.state)
    move_to old new_state (transition old new_state)

  -- The entry order was cancelled before anything of it was filled.
  unfoldable pub close_cancelled : M W T (Unit {0})
  unfolding set_state
  close_cancelled = do
    call entry_slot terminate
    modify (λ t. record t { close_reason = some cancelled })
    set_state closed

  unfoldable pub leave_entry : M W T (Unit {0})
  unfolding set_state
  leave_entry = do modify (λ t. record t { status = idle }); set_state exiting

  unfoldable pub close_normally : M W T (Unit {0})
  unfolding set_state
  close_normally = do
    modify (λ t. record t { close_reason = some normal })
    set_state closed
    modify (λ t. record t { status = idle })

  -- `compute_lifecycle` past the entry order that was cancelled.
  unfoldable pub advance : M W T (Unit {0})
  unfolding leave_entry close_normally
  advance = do
    filled ← gets (λ t. is_entering t && is_finished t.entry)
    if filled then leave_entry else return
    ended ← gets (λ t. is_exiting t && (is_finished t.exit || is_finished t.stoploss))
    if ended then close_normally else return

  unfoldable pub compute_lifecycle : M W T (Unit {0})
  unfolding set_state close_cancelled advance
  compute_lifecycle = do
    entry_fails ← gets (λ t. is_failed t.entry)
    if entry_fails then set_state entry_failed else return
    unfilled ← gets (λ t. t.entry.is_finished_by_cancel && not (is_partially_filled t.entry))
    if unfilled then close_cancelled else advance

  -- `compute` of a trade that is new or entering.
  unfoldable pub offer_entry : M W T (Unit {0})
  offer_entry = do
    pending ← gets (λ t. is_some t.entry.pending_instruction)
    if pending then modify (assign entry_slot) else return

  -- Whether the entry must not be submitted: an instruction is pending, or an order is active.
  abbrev pub waits : Trade W T → Bool
  waits trade = is_some trade.pending_instruction_order_id || not (is_idle trade)

  unfoldable pub submit_entry : M W T (Unit {0})
  unfolding set_state offer_entry
  submit_entry = do set_state entering; offer_entry

  unfoldable pub begin_entry : M W T (Unit {0})
  unfolding submit_entry
  begin_entry = do waiting ← gets waits; if waiting then return else submit_entry

  unfoldable pub enter : M W T (Unit {0})
  unfolding begin_entry
  enter = do call entry_slot compute_order; begin_entry

  abbrev pub is_busy : Trade W T → Bool
  is_busy trade =
      not (is_pending_open trade.exit) && is_active trade.exit
      || is_pending_cancel trade.exit
      || is_pending_cancel trade.stoploss

  unfoldable pub offer_exit : Trade W T → M W T (Unit {0})
  offer_exit trade =
      if not (is_pending_open trade.exit) && not (Query.is_idle trade.stoploss)
      then return
      else do call stoploss_slot cancel_pending_instruction; modify (assign exit_slot)

  unfoldable pub withdraw_stoploss : M W T (Unit {0})
  withdraw_stoploss = do
    call stoploss_slot cancel_pending_instruction
    call stoploss_slot cancel_and_idle

  -- The exit order has an instruction: the stoploss must be out of its way first.
  unfoldable pub make_way : Trade W T → M W T (Unit {0})
  unfolding withdraw_stoploss offer_exit
  make_way trade =
      if trade.stoploss.cancel_and_replace_flag
      then call stoploss_slot cancel_pending_instruction
      else if trade.stoploss.cancel_and_idle_flag
      then return
      else if is_active trade.stoploss
      then withdraw_stoploss
      else offer_exit trade

  unfoldable pub hand_over_exit : Trade W T → M W T (Unit {0})
  unfolding make_way
  hand_over_exit trade = if is_busy trade then return else make_way trade

  -- The `match` on the pending instructions of the exit and of the stoploss.
  unfoldable pub choose :
      Trade W T → Option (ManagedInstruction W) → Option (ManagedInstruction W) → M W T (Unit {0})
  unfolding hand_over_exit
  choose t none none = return
  choose t (some exit_instruction) none = hand_over_exit t
  choose t (some exit_instruction) (some stoploss_instruction) =
      if is_cancellation stoploss_instruction || is_pending_cancel t.stoploss
      then modify (assign stoploss_slot)
      else hand_over_exit t
  choose t none (some stoploss_instruction) =
      if is_cancellation stoploss_instruction || is_pending_cancel t.stoploss
      then modify (assign stoploss_slot)
      else if is_active t.exit
      then return
      else if is_active t.stoploss
      then modify (assign stoploss_slot)
      else return

  unfoldable pub leave : W → M W T (Unit {0})
  unfolding maintenance choose
  leave market_price = do
    modify maintenance
    modify (λ t. record t { pnl = pnl_at market_price t })
    call exit_slot compute_order
    call stoploss_slot compute_order
    trade ← gets (λ t. t)
    if is_some trade.special_pending_instruction || is_some trade.pending_instruction_order_id
        then return
        else choose trade trade.exit.pending_instruction trade.stoploss.pending_instruction

  -- `compute` past `compute_lifecycle`.
  unfoldable pub compute_open : W → M W T (Unit {0})
  unfolding enter leave
  compute_open market_price = do
    trade ← gets (λ t. t)
    if is_closed trade
        then return
        else if is_entering trade || is_new trade
        then enter
        else leave market_price

  unfoldable pub compute : M W T (Unit {0})
  unfolding clear_special compute_lifecycle compute_open
  compute = do
    market_price ← read world.market_price
    modify clear_special
    compute_lifecycle
    compute_open market_price

  -- `cancel_active_order_and_idle` and `cancel_active_order_and_terminate`.
  abbrev pub on_active : Operation W T → Option Slot → M W T (Unit {0})
  on_active operation none = return
  on_active operation (some slot) = call slot operation

  unfoldable pub cancel_active_order_and_idle : M W T (Unit {0})
  cancel_active_order_and_idle = do slot ← gets active_slot; on_active cancel_and_idle slot

  unfoldable pub cancel_active_order_and_terminate : M W T (Unit {0})
  cancel_active_order_and_terminate = do slot ← gets active_slot; on_active terminate slot
