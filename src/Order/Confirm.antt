-- ===== src/Order/Confirm.antt =====
-- src/order.rs: the methods by which the rest of the program drives an order. Each takes the depth up to
-- which nested calls of `compute` and `compute_next_instruction` are followed.
use babylon_playground_demo.Common.{
  ℕ, Bool, true, false, not, Option, none, some, if◌then◌else◌, ◌==◌, ◌++◌, ◌∷◌, [],
}
use babylon_playground_demo.Common.Result.{Result, ok, err}
use babylon_playground_demo.Float.{OrderedFloat}
use babylon_playground_demo.SmartId
use babylon_playground_demo.Trigger.{Trigger}
use babylon_playground_demo.Instruction.{
  OrderId, DateTime, ManagedInstruction, InstructionExecutionResult, ExecutionOutcome, success,
  failure, set_state, executed, failed,
}
use babylon_playground_demo.Order.State.{
  OrderState, idle, open_failed, opened, filled, partially_filled, cancelled,
  cancelled_and_pending_replace, cancel_failed, replace_failed, replaced, rejected, expired,
  state_eq,
}
use babylon_playground_demo.Order.Error.{
  OrderError, order_has_no_pending_instruction, no_instruction_execution_outcome,
  wrong_instruction_execution_result, instruction_error, trigger_error, zero_quantity, zero_price,
  invalid_replace_confirmation_state,
}
use babylon_playground_demo.Order.Data.{
  Order, OrderMode, normal, paused, OrderFill, OrderFillStatus, NormalizedOrderEvent,
}
use babylon_playground_demo.Order.Query.{clear_pending_instruction}
use babylon_playground_demo.Order.Compute.{
  compute, compute_next_instruction, cancel_pending_instruction_with,
}
use babylon_playground_demo.Order.Trail.{return, touch}
use babylon_playground_demo.Order.Handlers.{set_state_with}
use babylon_playground_demo.Order.Monad.{World, M, fail, read, gets, modify, lift, ◌>>=◌, ◌>>◌}

abbrev pub fill_state : OrderFillStatus → OrderState
fill_state OrderFillStatus.partially_filled = partially_filled
fill_state OrderFillStatus.filled = filled

-- `OrderFillMetadata::validate`.
unfoldable pub validate_fill :
    {W : Type 0} ⦃f : OrderedFloat W⦄ → OrderFill W → Result (OrderError W) (Unit {0})
validate_fill ⦃f⦄ fill =
    if f.is_zero fill.metadata.quantity
    then err zero_quantity
    else if f.is_zero fill.metadata.price
    then err zero_price
    else ok tt

-- The totals of the order become those that the fill reports.
abbrev pub record_fill : {W T : Type 0} → OrderFill W → Order W T → Order W T
record_fill fill o = record o {
  accumulated_filled_quantity = fill.metadata.accumulated_filled_quantity;
  accumulated_filled_quote = fill.metadata.accumulated_filled_quote;
  fills = o.fills ++ fill ∷ [];
}

-- An error of an instruction or a trigger, as an error of the order.
abbrev pub with_error : {W E A : Type 0} → (E → OrderError W) → Result E A → Result (OrderError W) A
with_error g (ok a) = ok a
with_error g (err e) = err (g e)

abbrev is_cancelled_or_pending_replace : OrderState → Bool
is_cancelled_or_pending_replace cancelled = true
is_cancelled_or_pending_replace cancelled_and_pending_replace = true
is_cancelled_or_pending_replace _ = false

abbrev pub replace_by : {W T : Type 0} → NormalizedOrderEvent W → Order W T → Order W T
replace_by event o = record o {
  is_created_on_exchange = true;
  exchange_order_id = some event.exchange_order_id;
  local_order_id = event.local_order_id;
  accumulated_filled_quantity = event.cumulative_filled_quantity;
  accumulated_filled_quote = event.cumulative_quote_asset_transacted_quantity;
  order_type = event.order_type;
  price = event.order_price;
  limit_price = none;
  initial_quantity = event.quantity;
  num_updates = SmartId.sequence_number event.local_order_id;
}

module _ {W T : Type 0} ⦃f : OrderedFloat W⦄ ⦃t : Trigger W T⦄ (world : World W) (depth : ℕ) where
  unfoldable pub change_state : OrderState → M W T (Unit {0})
  change_state new_state =
      set_state_with world (compute world depth) (compute_next_instruction world depth) new_state

  unfoldable pub cancel_pending_instruction : M W T (Unit {0})
  cancel_pending_instruction =
      cancel_pending_instruction_with world (compute world depth)
        (compute_next_instruction world depth)

  unfoldable pub set_pending_mode : Option OrderMode → M W T (Unit {0})
  set_pending_mode new_mode = do
    modify (λ o. record o { pending_mode = new_mode })
    compute world depth

  unfoldable pub pause : M W T (Unit {0})
  unfolding set_pending_mode
  pause = set_pending_mode (some paused)

  unfoldable pub resume : M W T (Unit {0})
  unfolding set_pending_mode
  resume = set_pending_mode (some normal)

  unfoldable pub terminate : M W T (Unit {0})
  terminate = do modify (λ o. record o { termination_flag = true }); compute world depth

  unfoldable pub cancel_and_idle : M W T (Unit {0})
  cancel_and_idle = do
    flagged ← gets (λ o. o.cancel_and_idle_flag)
    if flagged
        then return
        else do modify (λ o. record o { cancel_and_idle_flag = true }); compute world depth

  unfoldable pub set_initial_quantity : W → M W T (Unit {0})
  set_initial_quantity quantity = do
    modify (λ o. record o { initial_quantity = quantity })
    compute world depth

  unfoldable pub set_activator : T → M W T (Unit {0})
  set_activator activator = do
    lift (with_error trigger_error (t.validate activator))
    modify (λ o. record o { activator = activator })
    compute world depth

  unfoldable pub set_deactivator : T → M W T (Unit {0})
  set_deactivator deactivator = do
    lift (with_error trigger_error (t.validate deactivator))
    modify (λ o. record o { deactivator = deactivator })
    compute world depth

  -- The outcomes of `confirm_instruction_execution`, for the pending instruction that they concern.
  unfoldable pub confirm_outcome :
      ManagedInstruction W → Option DateTime → Option ExecutionOutcome → M W T (Unit {0})
  unfolding touch clear_pending_instruction
  confirm_outcome pending executed_at none = fail no_instruction_execution_outcome
  confirm_outcome pending executed_at (some success) = do
    touch world
    now ← read world.now
    i ← lift (with_error instruction_error (set_state now executed pending))
    modify (λ o. record o { pending_instruction = some (record i { executed_at = executed_at }) })
    modify clear_pending_instruction
    compute world depth
  confirm_outcome pending executed_at (some (failure reason)) = do
    now ← read world.now
    i ← lift (with_error instruction_error (set_state now failed pending))
    modify (λ o. record o { pending_instruction = some i; termination_flag = true })
    compute world depth

  unfoldable pub confirm_result :
      Option (ManagedInstruction W) → InstructionExecutionResult → M W T (Unit {0})
  unfolding confirm_outcome
  confirm_result none result = fail order_has_no_pending_instruction
  confirm_result (some pending) result =
      if pending.id == result.instruction_id
      then confirm_outcome pending result.executed_at result.outcome
      else do
        id ← gets (λ o. o.local_order_id)
        fail (wrong_instruction_execution_result id pending result)

  unfoldable pub confirm_instruction_execution : InstructionExecutionResult → M W T (Unit {0})
  unfolding confirm_result
  confirm_instruction_execution result = do
    pending ← gets (λ o. o.pending_instruction)
    confirm_result pending result

  -- A confirmation of a state that the order is in already does nothing.
  unfoldable pub unless_in : OrderState → M W T (Unit {0}) → M W T (Unit {0})
  unless_in s confirm = do
    current ← gets (λ o. o.state)
    if state_eq current s then return else confirm

  unfoldable pub confirm_opened : Option OrderId → M W T (Unit {0})
  unfolding unless_in change_state touch
  confirm_opened exchange_order_id = unless_in opened do
    change_state opened
    modify (λ o. record o { exchange_order_id = exchange_order_id; is_created_on_exchange = true })
    now ← read world.now
    modify (λ o. record o { opened_at = some now })
    touch world
    compute world depth

  unfoldable pub confirm_open_failed : M W T (Unit {0})
  unfolding unless_in change_state
  confirm_open_failed = unless_in open_failed do change_state open_failed; compute world depth

  unfoldable pub confirm_replace_failed : M W T (Unit {0})
  unfolding unless_in change_state
  confirm_replace_failed =
      unless_in replace_failed do change_state replace_failed; compute world depth

  unfoldable pub confirm_filled : OrderFill W → M W T (Unit {0})
  unfolding unless_in change_state touch validate_fill
  confirm_filled latest_fill = unless_in filled do
    lift (validate_fill latest_fill)
    modify (record_fill latest_fill)
    touch world
    change_state (fill_state latest_fill.status)
    compute world depth

  -- `confirm_cancelled` past its test, by the flags.
  unfoldable pub cancel_by_flags : Bool → Bool → M W T (Unit {0})
  unfolding change_state pause
  cancel_by_flags true idle_flag = do
    modify (λ o. record o { cancel_and_replace_flag = false })
    change_state cancelled_and_pending_replace
  cancel_by_flags false true = do
    modify (λ o. record o { cancel_and_idle_flag = false })
    pause
    change_state idle
  cancel_by_flags false false = change_state cancelled

  unfoldable pub confirm_cancelled : M W T (Unit {0})
  unfolding cancel_by_flags
  confirm_cancelled = do
    o ← gets (λ o. o)
    if is_cancelled_or_pending_replace o.state then return else do
      cancel_by_flags o.cancel_and_replace_flag o.cancel_and_idle_flag
      modify (λ p. record p { is_created_on_exchange = false })

  unfoldable pub confirm_cancel_failed : M W T (Unit {0})
  unfolding unless_in change_state
  confirm_cancel_failed = unless_in cancel_failed (change_state cancel_failed)

  unfoldable pub confirm_rejected : M W T (Unit {0})
  unfolding unless_in change_state
  confirm_rejected = unless_in rejected (change_state rejected)

  unfoldable pub confirm_expired : M W T (Unit {0})
  unfolding unless_in change_state
  confirm_expired = unless_in expired (change_state expired)

  unfoldable pub confirm_replaced : NormalizedOrderEvent W → M W T (Unit {0})
  unfolding unless_in change_state touch
  confirm_replaced event = unless_in replaced do
    o ← gets (λ o. o)
    if not (state_eq o.state cancelled_and_pending_replace)
        then fail (invalid_replace_confirmation_state o.state cancelled_and_pending_replace)
        else do modify (replace_by event); touch world; change_state replaced
