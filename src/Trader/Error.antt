-- ===== src/Trader/Error.antt =====
-- src/trader.rs: the errors of the trader. The text of a message is not modelled.
use babylon_playground_demo.Common.{ℕ, String}
use babylon_playground_demo.Types.{
  Ustr, NormalizedOrderType, NormalizedExecutionType, NormalizedOrderStatus,
}
use babylon_playground_demo.SmartId.{SmartIdError}
use babylon_playground_demo.Balance.{BalanceError}
use babylon_playground_demo.Trigger.{TriggerError}
use babylon_playground_demo.Instruction.{
  OrderId, HandleId, InstructionExecutionResult, InstructionError,
}
use babylon_playground_demo.Order.State.{OrderState}
use babylon_playground_demo.Order.Error.{OrderError}
use babylon_playground_demo.Trade.Closer.{CloserError}
use babylon_playground_demo.Trade.Error.{TradeError}

pub data TraderError (W : Type 0) : Type 0 where
  symbol_not_found : Ustr → TraderError W
  symbol_context_already_exists : Ustr → TraderError W
  insufficient_funds : W → W → TraderError W
  invalid_order_type : NormalizedOrderType → TraderError W
  invalid_order_price : W → TraderError W
  invalid_order_quantity : W → TraderError W
  max_orders_per_symbol_exceeded : Ustr → ℕ → TraderError W
  max_trades_per_symbol_exceeded : Ustr → ℕ → TraderError W
  non_zero_trade_id : HandleId → TraderError W
  trade_not_found : Ustr → HandleId → TraderError W
  unsupported_instruction_execution_result : InstructionExecutionResult → TraderError W
  -- symbol, local_order_id, exchange_order_id, execution_type, status
  unhandled_order_event :
      Ustr → OrderId → ℕ → NormalizedExecutionType → NormalizedOrderStatus → TraderError W
  invalid_order_state : OrderState → OrderState → TraderError W
  invalid_stoploss_order_type : NormalizedOrderType → TraderError W
  error_description : String → TraderError W
  order_error : OrderError W → TraderError W
  closer_error : CloserError → TraderError W
  trigger_error : TriggerError W → TraderError W
  instruction_error : InstructionError W → TraderError W
  trade_error : TradeError W → TraderError W
  balance_error : BalanceError W → TraderError W
  smart_id_error : SmartIdError → TraderError W
