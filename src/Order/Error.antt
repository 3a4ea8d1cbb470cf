-- ===== src/Order/Error.antt =====
-- src/order.rs: the errors of an order. `Ustr` and the other payloads are as in the source; the text
-- of a message is not modelled.
use babylon_playground_demo.Common.{ℕ, String}
use babylon_playground_demo.Types.{Ustr, NormalizedSide, NormalizedOrderType, Status}
use babylon_playground_demo.SmartId.{SmartIdError}
use babylon_playground_demo.Trigger.{TriggerError}
use babylon_playground_demo.Instruction.{
  OrderId, HandleId, DateTime, ManagedInstruction, InstructionExecutionResult, InstructionError,
}
use babylon_playground_demo.Order.State.{OrderState}

pub data OrderError (W : Type 0) : Type 0 where
  local_order_id_is_zero : OrderError W
  no_entry_price : OrderError W
  no_exit_price : OrderError W
  no_stop : OrderError W
  invalid_stop : OrderError W
  non_positive_quantity : OrderError W
  non_positive_price : OrderError W
  rate_limited : OrderError W
  order_not_found : OrderId → OrderError W
  order_is_closed : OrderId → OrderError W
  roundtrip_not_found : OrderId → OrderError W
  existing_roundtrip_id : OrderId → OrderError W
  empty_roundtrip_id : OrderId → OrderError W
  existing_order_id : OrderId → OrderError W
  empty_order_id : OrderId → OrderError W
  trade_not_found : HandleId → OrderError W
  leveraged_trade_not_repaid : HandleId → OrderError W
  existing_trade_id : HandleId → OrderError W
  trade_is_closed : HandleId → OrderError W
  order_has_no_price : OrderId → OrderError W
  zero_quantity : OrderError W
  zero_price : OrderError W
  zero_move_to_price : OrderError W
  zero_entry_price : OrderError W
  zero_exit_price : OrderError W
  zero_stop_price : OrderError W
  zero_stop_limit_price : OrderError W
  invalid_order_state_transition : OrderState → OrderState → OrderError W
  error : String → OrderError W
  invalid_order_fill : OrderError W
  symbol_mismatch : Ustr → Ustr → OrderId → HandleId → OrderError W
  order_not_finalized : Ustr → OrderId → OrderError W
  order_is_already_finalized : Ustr → OrderId → OrderError W
  side_mismatch : NormalizedSide → NormalizedSide → OrderError W
  missing_timeframe : OrderError W
  zero_remote_order_id : OrderError W
  roundtrip_is_already_finalized : OrderId → OrderError W
  missing_order_fill_metadata : Ustr → OrderId → OrderError W
  invalid_timestamp : DateTime → OrderError W
  order_has_no_pending_instruction : OrderError W
  wrong_instruction_execution_result :
      OrderId → ManagedInstruction W → InstructionExecutionResult → OrderError W
  unsupported_instruction_execution_status : Status → OrderError W
  order_local_id_already_exists : OrderId → OrderError W
  order_remote_id_already_exists : OrderId → OrderError W
  order_already_exists_in_trade : Ustr → HandleId → OrderId → OrderError W
  no_instruction_execution_outcome : OrderError W
  order_missing_latest_fill : Ustr → ℕ → ℕ → OrderError W
  stop_order_id_is_zero : OrderError W
  invalid_stop_price : W → OrderError W
  invalid_limit_price : W → OrderError W
  invalid_stop_or_limit_price : OrderError W
  invalid_current_market_price : W → OrderError W
  invalid_initial_stop_price : W → OrderError W
  invalid_limit_price_offset_ratio : W → OrderError W
  invalid_initial_step_ratio : W → OrderError W
  invalid_trailing_step_ratio : W → OrderError W
  limit_price_not_specified : OrderError W
  stoploss_missing_metadata : OrderError W
  invalid_buy_stop_price : W → W → OrderError W
  invalid_buy_limit_price : W → W → OrderError W
  invalid_sell_stop_price : W → W → OrderError W
  invalid_sell_limit_price : W → W → OrderError W
  order_is_not_stoploss : OrderError W
  invalid_order_type : NormalizedOrderType → OrderError W
  invalid_reference_price : W → OrderError W
  invalid_replace_confirmation_state : OrderState → OrderState → OrderError W
  pending_instruction_is_in_progress : ManagedInstruction W → OrderError W
  cannot_cancel_active_pending_instruction :
      HandleId → OrderId → ManagedInstruction W → OrderError W
  invalid_cancel_state : OrderState → OrderState → OrderError W
  trigger_error : TriggerError W → OrderError W
  id_error : SmartIdError → OrderError W
  instruction_error : InstructionError W → OrderError W
