-- ===== src/Trade/Validate.antt =====
-- src/trade.rs: `Trade::validate`, and the builder of trades.
use babylon_playground_demo.Common.{not, ◌==◌, if◌then◌else◌}
use babylon_playground_demo.Common.Result.{Result, ok, ◌>>◌, refuse_if}
use babylon_playground_demo.Float.{OrderedFloat, ◌≈◌}
use babylon_playground_demo.Timeframe.{timeframe_eq}
use babylon_playground_demo.Types.{NormalizedSide, buy, sell, side_eq}
use babylon_playground_demo.Order.Data.{Order}
use babylon_playground_demo.Trade.Error.{
  TradeError, trade_mismatch, initial_quantity_mismatch, trade_id_is_zero,
  trade_entry_order_side_mismatch, trade_exit_side_mismatch, positio_stoploss_side_mismatch,
  trade_timeframe_mismatch,
}
use babylon_playground_demo.Trade.State.{TradeType, long, short}
use babylon_playground_demo.Trade.Data.{Trade}
use babylon_playground_demo.Trade.Query.{is_new}

abbrev pub entry_side : TradeType → NormalizedSide
entry_side long = buy
entry_side short = sell

abbrev pub exit_side : TradeType → NormalizedSide
exit_side long = sell
exit_side short = buy

module _ {W T : Type 0} ⦃f : OrderedFloat W⦄ where
  -- The order belongs to the trade.
  abbrev owned : Trade W T → Order W T → Result (TradeError W) (Unit {0})
  owned t order =
      refuse_if (not (order.trade_id == t.id)) (trade_mismatch t.symbol t.id order.trade_id)

  abbrev on_timeframe : Trade W T → Order W T → Result (TradeError W) (Unit {0})
  on_timeframe t order =
      refuse_if (not (timeframe_eq order.timeframe t.timeframe))
        (trade_timeframe_mismatch t.symbol t.id t.timeframe order.timeframe)

  -- What is asked of a new trade only.
  unfoldable pub validate_new : Trade W T → Result (TradeError W) (Unit {0})
  validate_new t = do
    owned t t.entry
    owned t t.exit
    refuse_if (not (t.exit.initial_quantity ≈ t.entry.initial_quantity))
        (initial_quantity_mismatch t.symbol t.id t.entry.initial_quantity t.exit.initial_quantity)
    owned t t.stoploss

  unfoldable pub validate_any : Trade W T → Result (TradeError W) (Unit {0})
  validate_any t = do
    refuse_if (t.id == 0) (trade_id_is_zero t.symbol)
    owned t t.entry
    refuse_if (not (side_eq t.entry.side (entry_side t.trade_type))) (
        trade_entry_order_side_mismatch t.symbol t.id t.trade_type t.entry.local_order_id
          t.entry.side)
    on_timeframe t t.entry
    owned t t.exit
    refuse_if (not (side_eq t.exit.side (exit_side t.trade_type)))
        (trade_exit_side_mismatch t.symbol t.id t.trade_type t.exit.local_order_id t.exit.side)
    on_timeframe t t.exit
    owned t t.stoploss
    refuse_if (not (side_eq t.stoploss.side (exit_side t.trade_type))) (
        positio_stoploss_side_mismatch t.symbol t.id t.trade_type t.stoploss.local_order_id
          t.stoploss.side)
    on_timeframe t t.stoploss

  unfoldable pub validate : Trade W T → Result (TradeError W) (Unit {0})
  unfolding validate_new validate_any
  validate t = (if is_new t then validate_new t else ok tt) >> validate_any t
