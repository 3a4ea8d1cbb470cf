-- ===== src/Trade/Confirm.antt =====
-- src/trade.rs: the methods by which the trader passes on what the exchange confirmed.
use babylon_playground_demo.Common.{ℕ, Bool, true, false, Option, none, some, if◌then◌else◌, ◌==◌}
use babylon_playground_demo.Common.Result.{Result, ok, err}
use babylon_playground_demo.Float.{OrderedFloat}
use babylon_playground_demo.Trigger.{Trigger}
use babylon_playground_demo.SmartId.{HandleOrderKind, entry_order, order_kind, decode}
use babylon_playground_demo.Instruction.{
  OrderId, ManagedInstruction, InstructionExecutionResult, ExecutionOutcome, success, failure,
  InstructionError, InstructionState,
}
use babylon_playground_demo.Instruction
use babylon_playground_demo.Order.Data.{OrderFill, NormalizedOrderEvent}
use babylon_playground_demo.Order.Monad.{World}
use babylon_playground_demo.Order.Operation.{Operation}
use babylon_playground_demo.Trade.Error.{
  TradeError, order_not_found, trade_mismatch, special_instruction_is_missing,
  special_instruction_id_mismatch, no_special_instruction_execution_outcome,
  instruction_result_local_order_id_is_missing, unexpected_order_kind, instruction_error,
}
use babylon_playground_demo.Trade.State.{TradeStatus, idle, entry_failed, exit_failed}
use babylon_playground_demo.Trade.Data.{Trade, Slot}
use babylon_playground_demo.Trade.Query.{is_entering, local_slot, slot_of_kind, status_of_kind}
use babylon_playground_demo.Trade.Compute.{return, call, set_state, compute, compute_lifecycle}
use babylon_playground_demo.Trade.Monad.{M, fail, read, gets, lift, modify, attempt, ◌>>=◌, ◌>>◌}

abbrev is_entry_kind : HandleOrderKind → Bool
is_entry_kind entry_order = true
is_entry_kind _ = false

-- What was filled of the entry order is what the other two orders may sell.
abbrev pub hand_on_quantity : {W T : Type 0} → Trade W T → Trade W T
hand_on_quantity t = record t {
  exit = record t.exit { initial_quantity = t.entry.accumulated_filled_quantity };
  stoploss = record t.stoploss { initial_quantity = t.entry.accumulated_filled_quantity };
}

abbrev with_error :
    {W : Type 0}
    → Result (InstructionError W) (ManagedInstruction W)
    → Result (TradeError W) (ManagedInstruction W)
with_error (ok i) = ok i
with_error (err e) = err (instruction_error e)

module _ {W T : Type 0} ⦃f : OrderedFloat W⦄ ⦃t : Trigger W T⦄ (world : World W) (depth : ℕ) where
  unfoldable pub confirm_in : OrderId → Operation W T → Option Slot → M W T (Unit {0})
  confirm_in order_id operation none = do
    trade ← gets (λ t. t)
    fail (order_not_found trade.symbol trade.id order_id)
  confirm_in order_id operation (some slot) = call world depth slot operation

  -- The relevant order, `get_local_order_mut`, confirms.
  unfoldable pub confirm : OrderId → Operation W T → M W T (Unit {0})
  unfolding confirm_in
  confirm order_id operation = do
    slot ← gets (local_slot order_id)
    confirm_in order_id operation slot

  unfoldable pub become : HandleOrderKind → Option TradeStatus → M W T (Unit {0})
  become kind none = fail (unexpected_order_kind kind)
  become kind (some status) = modify (λ t. record t { status = status })

  -- The status of the trade becomes that of the order's kind.
  unfoldable pub become_status_of : OrderId → M W T (Unit {0})
  unfolding become
  become_status_of order_id = become (order_kind order_id) (status_of_kind (order_kind order_id))

  unfoldable pub rest : M W T (Unit {0})
  rest = modify (λ t. record t { status = idle })

  unfoldable pub confirm_opened : OrderId → Option OrderId → M W T (Unit {0})
  unfolding confirm become_status_of
  confirm_opened local_order_id exchange_order_id = do
    confirm local_order_id (Operation.confirm_opened exchange_order_id)
    become_status_of local_order_id
    compute world depth

  unfoldable pub confirm_open_failed : OrderId → M W T (Unit {0})
  unfolding confirm rest
  confirm_open_failed local_order_id = do
    confirm local_order_id Operation.confirm_open_failed
    rest
    entering_trade ← gets is_entering
    if entering_trade then set_state world depth entry_failed else set_state world depth exit_failed
    compute world depth

  unfoldable pub confirm_replace_failed : OrderId → M W T (Unit {0})
  unfolding confirm
  confirm_replace_failed local_order_id = do
    confirm local_order_id Operation.confirm_replace_failed
    compute world depth

  unfoldable pub confirm_filled : OrderId → OrderFill W → M W T (Unit {0})
  unfolding confirm
  confirm_filled local_order_id latest_fill = do
    confirm local_order_id (Operation.confirm_filled latest_fill)
    if is_entry_kind (order_kind local_order_id) then modify hand_on_quantity else return
    compute world depth

  unfoldable pub confirm_cancelled : OrderId → M W T (Unit {0})
  unfolding confirm rest
  confirm_cancelled local_order_id = do
    confirm local_order_id Operation.confirm_cancelled
    rest
    compute world depth

  unfoldable pub confirm_cancel_failed : OrderId → M W T (Unit {0})
  unfolding confirm
  confirm_cancel_failed local_order_id = do
    confirm local_order_id Operation.confirm_cancel_failed
    compute world depth

  unfoldable pub confirm_rejected : OrderId → M W T (Unit {0})
  unfolding confirm rest
  confirm_rejected local_order_id = do
    confirm local_order_id Operation.confirm_rejected
    rest
    compute world depth

  unfoldable pub confirm_expired : OrderId → M W T (Unit {0})
  unfolding confirm
  confirm_expired local_order_id = do
    confirm local_order_id Operation.confirm_expired
    compute world depth

  unfoldable pub confirm_replaced : OrderId → NormalizedOrderEvent W → M W T (Unit {0})
  unfolding confirm become_status_of
  confirm_replaced local_original_order_id event = do
    confirm local_original_order_id (Operation.confirm_replaced event)
    become_status_of local_original_order_id
    compute world depth

  unfoldable pub store_special : ManagedInstruction W → M W T (Unit {0})
  store_special i = modify (λ t. record t { special_pending_instruction = some i })

  -- The outcomes of the special instruction of the trade.
  unfoldable pub confirm_special_outcome :
      ManagedInstruction W → InstructionExecutionResult → Option ExecutionOutcome → M W T (Unit {0})
  unfolding store_special
  confirm_special_outcome special result (some success) = do
    updated ← read world.now
    modify (λ t. record t { updated_at = some updated })
    now ← read world.now
    i ← lift (with_error (Instruction.set_state now InstructionState.executed special))
    store_special (record i { executed_at = result.executed_at })
  confirm_special_outcome special result (some (failure reason)) = do
    now ← read world.now
    i ← lift (with_error (Instruction.set_state now InstructionState.failed special))
    store_special i
  confirm_special_outcome special result none = do
    trade ← gets (λ t. t)
    fail (no_special_instruction_execution_outcome trade.symbol trade.id result)

  unfoldable pub confirm_special :
      Trade W T → InstructionExecutionResult → Option (ManagedInstruction W) → M W T (Unit {0})
  unfolding confirm_special_outcome
  confirm_special trade result none =
      fail (special_instruction_is_missing trade.symbol trade.id result)
  confirm_special trade result (some special) =
      if special.id == result.instruction_id
      then (do
        confirm_special_outcome special result result.outcome
        modify (λ t. record t { special_pending_instruction = none }))
      else fail
          (special_instruction_id_mismatch trade.symbol trade.id special.id result.instruction_id)

  -- An instruction of one of the orders, by the kind that the order id names.
  unfoldable pub confirm_regular :
      HandleOrderKind → InstructionExecutionResult → Option Slot → M W T (Unit {0})
  confirm_regular kind result none = fail (unexpected_order_kind kind)
  confirm_regular kind result (some slot) = do
    call world depth slot (Operation.confirm_instruction_execution result)
    modify (λ t. record t { pending_instruction_order_id = none })

  unfoldable pub confirm_of_order :
      Trade W T → InstructionExecutionResult → Option OrderId → M W T (Unit {0})
  unfolding confirm_special confirm_regular
  confirm_of_order trade result none =
      fail (instruction_result_local_order_id_is_missing trade.symbol trade.id result)
  confirm_of_order trade result (some local_order_id) =
      let d = decode local_order_id in
      if d.handle_id == trade.id
      then if result.metadata.is_special
        then confirm_special trade result trade.special_pending_instruction
        else confirm_regular d.order_kind result (slot_of_kind d.order_kind)
      else fail (trade_mismatch trade.symbol trade.id d.handle_id)

  unfoldable pub confirm_instruction_execution : InstructionExecutionResult → M W T (Unit {0})
  unfolding confirm_of_order
  confirm_instruction_execution result = do
    trade ← gets (λ t. t)
    confirm_of_order trade result result.metadata.local_order_id
    attempt (compute_lifecycle world depth)
    compute world depth
