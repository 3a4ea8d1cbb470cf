-- ===== src/Trader/Operation.antt =====
-- src/trader.rs: a call that the rest of the program makes on the trader, as a value, and a sequence of such
-- calls.
use babylon_playground_demo.Common.{ℕ, Option, List, [], ◌∷◌}
use babylon_playground_demo.Float.{OrderedFloat}
use babylon_playground_demo.Trigger.{Trigger}
use babylon_playground_demo.Types.{Ustr}
use babylon_playground_demo.Position.{Decimals}
use babylon_playground_demo.Instruction.{OrderId, InstructionExecutionResult}
use babylon_playground_demo.Order.Data.{Order, OrderFill, NormalizedOrderEvent}
use babylon_playground_demo.Trade.Data.{Trade}
use babylon_playground_demo.Trader.Data.{TraderSymbolContext, Outside}
use babylon_playground_demo.Trader.Monad.{M, TraderMachine}
use babylon_playground_demo.Trader.Compute
use babylon_playground_demo.Trader.Create
use babylon_playground_demo.Trader.Confirm
use babylon_playground_demo.Trader.Placement
use babylon_playground_demo.SmartId.{HandleOrderKind}
use babylon_playground_demo.Trader.Event

-- A confirmation of an order.
pub data Confirmation (W : Type 0) : Type 0 where
  open_failed cancelled rejected expired replace_failed cancel_failed : Confirmation W
  opened : Option OrderId → Confirmation W
  filled : OrderFill W → Confirmation W
  replaced : OrderId → NormalizedOrderEvent W → Confirmation W

-- An order that the trader makes itself.
pub data PlacedOrder (W : Type 0) : Type 0 where
  market_buy market_buy_quote_quantity market_sell : Ustr → W → HandleOrderKind → PlacedOrder W
  limit_buy limit_sell : Ustr → W → W → W → HandleOrderKind → PlacedOrder W
  stoploss_limit_buy stoploss_limit_sell : Ustr → W → W → W → W → HandleOrderKind → PlacedOrder W
  stoploss_market_buy stoploss_market_sell : Ustr → W → W → W → HandleOrderKind → PlacedOrder W

pub data TraderOperation (W D T : Type 0) : Type 0 where
  compute_all pause resume : TraderOperation W D T
  create_context : TraderSymbolContext W D T → TraderOperation W D T
  remove_context : Ustr → TraderOperation W D T
  create_order : Order W T → TraderOperation W D T
  create_trade : Trade W T → TraderOperation W D T
  place_order : PlacedOrder W → TraderOperation W D T
  handle_order_event : NormalizedOrderEvent W → TraderOperation W D T
  confirm_instruction_execution : InstructionExecutionResult → TraderOperation W D T
  confirm_order : Ustr → OrderId → Confirmation W → TraderOperation W D T

module _ {W D T : Type 0} ⦃f : OrderedFloat W⦄ ⦃t : Trigger W T⦄ (outside : Outside W D T)
    (depth : ℕ) where
  unfoldable pub confirm : Ustr → OrderId → Confirmation W → M W D T (Unit {0})
  confirm symbol id open_failed = Confirm.confirm_order_open_failed outside depth symbol id
  confirm symbol id cancelled = Confirm.confirm_order_cancelled outside depth symbol id
  confirm symbol id rejected = Confirm.confirm_order_rejected outside depth symbol id
  confirm symbol id expired = Confirm.confirm_order_expired outside depth symbol id
  confirm symbol id replace_failed = Confirm.confirm_order_replace_failed outside depth symbol id
  confirm symbol id cancel_failed = Confirm.confirm_order_cancel_failed outside depth symbol id
  confirm symbol id (opened exchange_id) =
      Confirm.confirm_order_opened outside depth symbol id exchange_id
  confirm symbol id (filled fill) = Confirm.confirm_order_filled outside depth symbol id fill
  confirm symbol id (replaced original_id event) =
      Confirm.confirm_order_replaced outside depth symbol original_id id event

  unfoldable pub place : PlacedOrder W → M W D T (Unit {0})
  place (market_buy symbol quantity kind) = Placement.market_buy outside depth symbol quantity kind
  place (market_buy_quote_quantity symbol quantity kind) =
      Placement.market_buy_quote_quantity outside depth symbol quantity kind
  place (market_sell symbol quantity kind) =
      Placement.market_sell outside depth symbol quantity kind
  place (limit_buy symbol price limit_price quantity kind) =
      Placement.limit_buy outside depth symbol price limit_price quantity kind
  place (limit_sell symbol price limit_price quantity kind) =
      Placement.limit_sell outside depth symbol price limit_price quantity kind
  place (stoploss_limit_buy symbol price stop_price limit_price quantity kind) =
      Placement.stoploss_limit_buy outside depth symbol price stop_price limit_price quantity kind
  place (stoploss_limit_sell symbol price stop_price limit_price quantity kind) =
      Placement.stoploss_limit_sell outside depth symbol price stop_price limit_price quantity kind
  place (stoploss_market_buy symbol price stop_price quantity kind) =
      Placement.stoploss_market_buy outside depth symbol price stop_price quantity kind
  place (stoploss_market_sell symbol price stop_price quantity kind) =
      Placement.stoploss_market_sell outside depth symbol price stop_price quantity kind

module _ {W D T : Type 0} ⦃f : OrderedFloat W⦄ ⦃t : Trigger W T⦄ ⦃d : Decimals D⦄
    (outside : Outside W D T) (depth : ℕ) where
  unfoldable pub perform : TraderOperation W D T → M W D T (Unit {0})
  unfolding confirm place
  perform compute_all = Compute.compute outside depth
  perform pause = Create.pause
  perform resume = Create.resume
  perform (create_context new_context) = Create.create_context new_context
  perform (remove_context symbol) = Create.remove_context symbol
  perform (create_order order) = Create.create_order outside depth order
  perform (create_trade trade) = Create.create_trade outside depth trade
  perform (place_order order) = place outside depth order
  perform (handle_order_event event) = Event.handle_order_event outside depth event
  perform (confirm_instruction_execution result) =
      Confirm.confirm_instruction_execution outside depth result
  perform (confirm_order symbol id confirmation) = confirm outside depth symbol id confirmation

  -- One call after the other; after an error the next call begins with the trader that it left.
  unfoldable pub perform_all :
      List (TraderOperation W D T) → TraderMachine W D T → TraderMachine W D T
  unfolding perform
  perform_all [] m = m
  perform_all (o ∷ os) m = perform_all os (perform o m).1
