-- ===== src/Trade/Error.antt =====
-- src/trade.rs: the errors of a trade. The text of a message is not modelled.
use babylon_playground_demo.Common.{ℕ, String, Option}
use babylon_playground_demo.Types.{Ustr, NormalizedSide, NormalizedOrderType}
use babylon_playground_demo.Timeframe.{Timeframe}
use babylon_playground_demo.SmartId.{HandleOrderKind}
use babylon_playground_demo.Trigger.{TriggerError}
use babylon_playground_demo.Instruction.{
  OrderId, HandleId, ManagedInstruction, InstructionExecutionResult, InstructionError,
}
use babylon_playground_demo.Order.Error.{OrderError}
use babylon_playground_demo.Trade.Closer.{CloserError}
use babylon_playground_demo.Trade.State.{TradeState, TradeStatus, TradeType}

pub data TradeError (W : Type 0) : Type 0 where
  leveraged_trade_not_repaid : Ustr → HandleId → TradeError W
  non_leveraged_trade_repaid : Ustr → HandleId → TradeError W
  trade_not_found : Ustr → HandleId → TradeError W
  trade_id_already_exists : HandleId → TradeError W
  cannot_create_from_non_zero_trade_id : Ustr → OrderId → HandleId → TradeError W
  trade_is_locked : Ustr → HandleId → TradeError W
  trade_is_already_closed : Ustr → HandleId → TradeError W
  order_not_finalized : OrderId → TradeError W
  failed_to_process_finalized_order : OrderId → TradeError W
  trade_not_ready_for_closing : Ustr → HandleId → String → TradeError W
  pending_instruction_not_found : Ustr → ℕ → TradeError W
  cannot_be_closed : Ustr → HandleId → TradeError W
  already_locked : Ustr → HandleId → TradeError W
  cannot_lock_with_pending_orders : Ustr → HandleId → ℕ → TradeError W
  cannot_be_locked : Ustr → HandleId → String → TradeError W
  trade_mismatch : Ustr → HandleId → HandleId → TradeError W
  trade_id_is_zero : Ustr → TradeError W
  trade_entry_order_side_mismatch :
      Ustr → HandleId → TradeType → OrderId → NormalizedSide → TradeError W
  trade_exit_side_mismatch : Ustr → HandleId → TradeType → OrderId → NormalizedSide → TradeError W
  positio_stoploss_side_mismatch :
      Ustr → HandleId → TradeType → OrderId → NormalizedSide → TradeError W
  trade_timeframe_mismatch : Ustr → HandleId → Timeframe → Timeframe → TradeError W
  symbol_is_empty : TradeError W
  order_not_found : Ustr → HandleId → OrderId → TradeError W
  closer_is_missing : TradeError W
  stoploss_is_missing : TradeError W
  entry_order_is_missing : TradeError W
  exit_order_is_missing : TradeError W
  stoploss_order_is_missing : TradeError W
  atomic_market_price_is_missing : TradeError W
  atomic_market_price_is_zero : TradeError W
  invalid_entry_order_type : NormalizedOrderType → TradeError W
  invalid_exit_order_type : NormalizedOrderType → TradeError W
  invalid_stoploss_order_type : NormalizedOrderType → TradeError W
  missing_entry_order : TradeError W
  missing_exit_order : TradeError W
  missing_stoploss_order : TradeError W
  trade_not_ready : Ustr → HandleId → TradeState → TradeError W
  invalid_timeframe : Timeframe → TradeError W
  trade_has_no_pending_instruction : TradeError W
  exit_order_instruction_is_missing : TradeError W
  stoploss_order_instruction_is_missing : TradeError W
  entry_order_instruction_is_expected_but_missing : TradeError W
  -- symbol, trade_id, from, to
  invalid_trade_state_transition : Ustr → HandleId → TradeState → TradeState → TradeError W
  unexpected_order_kind : HandleOrderKind → TradeError W
  trade_id_missing : Ustr → OrderId → TradeError W
  cannot_exit_trade_while_entering : Ustr → HandleId → TradeError W
  exit_instruction_is_invalid : Ustr → HandleId → ManagedInstruction W → TradeError W
  stoploss_instruction_is_invalid : Ustr → HandleId → ManagedInstruction W → TradeError W
  instruction_error : InstructionError W → TradeError W
  unexpected_trade_status : TradeStatus → TradeError W
  special_instruction_is_missing : Ustr → HandleId → InstructionExecutionResult → TradeError W
  special_instruction_id_mismatch : Ustr → HandleId → ℕ → ℕ → TradeError W
  no_special_instruction_execution_outcome :
      Ustr → HandleId → InstructionExecutionResult → TradeError W
  instruction_result_local_order_id_is_missing :
      Ustr → HandleId → InstructionExecutionResult → TradeError W
  unexpected_combination_of_exit_and_stoploss_instructions :
      Ustr
      → HandleId
      → TradeStatus
      → Option (ManagedInstruction W)
      → Option (ManagedInstruction W)
      → TradeError W
  initial_quantity_mismatch : Ustr → HandleId → W → W → TradeError W
  pending_instruction_order_id_is_invalid : OrderId → TradeError W
  invalid_pending_instruction_order_type : HandleOrderKind → TradeError W
  trigger_error : TriggerError W → TradeError W
  closer_error : CloserError → TradeError W
  order_error : OrderError W → TradeError W
