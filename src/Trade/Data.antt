-- ===== src/Trade/Data.antt =====
-- src/trade.rs: a trade and its three orders. The shared market price is a reading of the world, as for
-- an order.
use babylon_playground_demo.Common.{Option}
use babylon_playground_demo.Float.{OrderedFloat, ◌⊖◌, ◌⊗◌, ◌⊘◌}
use babylon_playground_demo.Leverage.{Leverage}
use babylon_playground_demo.Timeframe.{Timeframe}
use babylon_playground_demo.Types.{Ustr}
use babylon_playground_demo.Instruction.{OrderId, HandleId, DateTime, ManagedInstruction}
use babylon_playground_demo.Order.Data.{Order}
use babylon_playground_demo.Trade.Closer.{Closer, Opener}
use babylon_playground_demo.Trade.State.{TradeCloseReason, TradeState, TradeStatus, TradeType}

pub record TradeProfitAndLoss (W : Type 0) : Type 0 where
  pub price_delta : W
  pub price_delta_ratio : W
  pub quote_delta : W
  pub quote_delta_ratio : W

pub record Trade (W T : Type 0) : Type 0 where
  pub id : HandleId
  pub state : TradeState
  pub status : TradeStatus
  pub symbol : Ustr
  pub timeframe : Timeframe
  pub leverage : Leverage W
  pub trade_type : TradeType
  pub entry : Order W T
  pub exit : Order W T
  pub stoploss : Order W T
  pub opener : Opener
  pub closer : Closer W
  pub pnl : TradeProfitAndLoss W
  pub close_reason : Option TradeCloseReason
  pub pending_instruction_order_id : Option OrderId
  pub special_pending_instruction : Option (ManagedInstruction W)
  pub initialized_at : DateTime
  pub opened_at : Option DateTime
  pub updated_at : Option DateTime
  pub closed_at : Option DateTime

-- The profit and loss of the trade at a market price.
unfoldable pub pnl_at : {W T : Type 0} ⦃f : OrderedFloat W⦄ → W → Trade W T → TradeProfitAndLoss W
pnl_at market_price trade =
    let delta = market_price ⊖ trade.entry.price in
    let ratio = delta ⊘ trade.entry.price in
    record {
      price_delta = delta;
      price_delta_ratio = ratio;
      quote_delta = delta ⊗ trade.entry.initial_quantity;
      quote_delta_ratio = ratio ⊗ trade.entry.initial_quantity;
    }

-- One of the orders of a trade.
pub data Slot : Type 0 where
  entry_slot exit_slot stoploss_slot : Slot

abbrev pub order_at : {W T : Type 0} → Slot → Trade W T → Order W T
order_at entry_slot trade = trade.entry
order_at exit_slot trade = trade.exit
order_at stoploss_slot trade = trade.stoploss

abbrev pub put_order : {W T : Type 0} → Slot → Order W T → Trade W T → Trade W T
put_order entry_slot order trade = record trade { entry = order }
put_order exit_slot order trade = record trade { exit = order }
put_order stoploss_slot order trade = record trade { stoploss = order }
