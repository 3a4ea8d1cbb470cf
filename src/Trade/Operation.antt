-- ===== src/Trade/Operation.antt =====
-- src/trade.rs: a call that the rest of the program makes on a trade, as a value, and a sequence of such
-- calls.
use babylon_playground_demo.Common.{ℕ, Option, List, [], ◌∷◌}
use babylon_playground_demo.Float.{OrderedFloat}
use babylon_playground_demo.Trigger.{Trigger}
use babylon_playground_demo.Instruction.{OrderId, InstructionExecutionResult}
use babylon_playground_demo.Order.Data.{OrderFill, NormalizedOrderEvent}
use babylon_playground_demo.Order.Monad.{World}
use babylon_playground_demo.Trade.Compute
use babylon_playground_demo.Trade.Confirm
use babylon_playground_demo.Trade.Monad.{M, TradeMachine}

pub data TradeOperation (W : Type 0) : Type 0 where
  compute_trade : TradeOperation W
  cancel_active_order_and_idle : TradeOperation W
  cancel_active_order_and_terminate : TradeOperation W
  confirm_instruction_execution : InstructionExecutionResult → TradeOperation W
  confirm_opened : OrderId → Option OrderId → TradeOperation W
  confirm_open_failed : OrderId → TradeOperation W
  confirm_replace_failed : OrderId → TradeOperation W
  confirm_filled : OrderId → OrderFill W → TradeOperation W
  confirm_cancelled : OrderId → TradeOperation W
  confirm_cancel_failed : OrderId → TradeOperation W
  confirm_rejected : OrderId → TradeOperation W
  confirm_expired : OrderId → TradeOperation W
  confirm_replaced : OrderId → NormalizedOrderEvent W → TradeOperation W

module _ {W T : Type 0} ⦃f : OrderedFloat W⦄ ⦃t : Trigger W T⦄ (world : World W) (depth : ℕ) where
  unfoldable pub perform : TradeOperation W → M W T (Unit {0})
  perform compute_trade = Compute.compute world depth
  perform cancel_active_order_and_idle = Compute.cancel_active_order_and_idle world depth
  perform cancel_active_order_and_terminate = Compute.cancel_active_order_and_terminate world depth
  perform (confirm_instruction_execution result) =
      Confirm.confirm_instruction_execution world depth result
  perform (confirm_opened order_id exchange_order_id) =
      Confirm.confirm_opened world depth order_id exchange_order_id
  perform (confirm_open_failed order_id) = Confirm.confirm_open_failed world depth order_id
  perform (confirm_replace_failed order_id) = Confirm.confirm_replace_failed world depth order_id
  perform (confirm_filled order_id fill) = Confirm.confirm_filled world depth order_id fill
  perform (confirm_cancelled order_id) = Confirm.confirm_cancelled world depth order_id
  perform (confirm_cancel_failed order_id) = Confirm.confirm_cancel_failed world depth order_id
  perform (confirm_rejected order_id) = Confirm.confirm_rejected world depth order_id
  perform (confirm_expired order_id) = Confirm.confirm_expired world depth order_id
  perform (confirm_replaced order_id event) = Confirm.confirm_replaced world depth order_id event

  -- One call after the other; after an error the next call begins with the trade that it left.
  unfoldable pub perform_all : List (TradeOperation W) → TradeMachine W T → TradeMachine W T
  unfolding perform
  perform_all [] m = m
  perform_all (o ∷ os) m = perform_all os (perform o m).1
