-- ===== src/Trader/TradeTemplate.antt =====
-- src/trader.rs: `trade_template`, which makes the three orders of a trade and builds it. The market price of the
-- configuration is that of its symbol.
use babylon_playground_demo.Common.{Bool, false, Option, none, some, if◌then◌else◌}
use babylon_playground_demo.Common.Result.{Result, ok, err}
use babylon_playground_demo.Float.{OrderedFloat, ◌⊕◌, ◌⊖◌, ◌⊗◌}
use babylon_playground_demo.Timeframe.{Timeframe, na, timeframe_eq}
use babylon_playground_demo.SmartId.{entry_order, exit_order, stoploss_order, new_handle_id}
use babylon_playground_demo.Types.{
  Ustr, NormalizedSide, buy, sell, opposite, NormalizedOrderType, stop_loss_limit,
}
use babylon_playground_demo.Instruction.{HandleId}
use babylon_playground_demo.Order.Data.{Order, StoplossMetadata}
use babylon_playground_demo.Trade.Error.{invalid_timeframe}
use babylon_playground_demo.Trade.Data.{Trade}
use babylon_playground_demo.Trade.Validate.{entry_side}
use babylon_playground_demo.Trade.Closer.{
  CloserKind, CloserMetadata, no_closer, take_profit, trend_following, missing_exit_price,
  default_metadata, take_profit_metadata, trend_following_metadata, into_closer,
}
use babylon_playground_demo.Trade.Builder.{
  TradeBuilderConfig, new_builder, with_entry, with_exit, with_stoploss, with_closer, build,
}
use babylon_playground_demo.Trader.Error.{
  TraderError, symbol_not_found, invalid_stoploss_order_type, closer_error, trade_error,
}
use babylon_playground_demo.Trader.Data.{Outside}
use babylon_playground_demo.Trader.Query.{context_of}
use babylon_playground_demo.Trader.Template.{order_template, stoploss_template}
use babylon_playground_demo.Trader.Placement.{fresh_order_id}
use babylon_playground_demo.Trader.Monad.{M, pure, read, gets, lift, or_fail, ◌>>=◌}

module _ {W : Type 0} ⦃f : OrderedFloat W⦄ where
  -- The limit price of the stoploss, where its side is that of the entry.
  unfoldable pub stoploss_limit_price :
      NormalizedSide → NormalizedOrderType → W → W → Result (TraderError W) W
  stoploss_limit_price buy stop_loss_limit stop offset = ok (stop ⊗ (f.one ⊖ offset))
  stoploss_limit_price sell stop_loss_limit stop offset = ok (stop ⊗ (f.one ⊕ offset))
  stoploss_limit_price side order_type stop offset = err (invalid_stoploss_order_type order_type)

  unfoldable pub closer_metadata :
      CloserKind → Timeframe → W → W → Result (TraderError W) (CloserMetadata W)
  unfolding default_metadata take_profit_metadata trend_following_metadata
  closer_metadata no_closer timeframe entry_price exit_price = ok default_metadata
  closer_metadata take_profit timeframe entry_price exit_price =
      if f.is_zero exit_price
      then err (closer_error missing_exit_price)
      else ok (take_profit_metadata entry_price false exit_price)
  closer_metadata trend_following timeframe entry_price exit_price =
      if timeframe_eq timeframe na
      then err (trade_error (invalid_timeframe timeframe))
      else ok (trend_following_metadata entry_price timeframe)

  abbrev price_or_nought : Option W → W
  price_or_nought none = f.nought
  price_or_nought (some price) = price

module _ {W D T : Type 0} ⦃f : OrderedFloat W⦄ (outside : Outside W D T) (is_normal : W → Bool)
    (is_empty : Ustr → Bool) where
  -- The given id, or else a fresh one.
  unfoldable pub trade_id_or : Option HandleId → M W D T HandleId
  unfolding new_handle_id
  trade_id_or (some id) = pure id
  trade_id_or none = do
    micros ← read outside.micros
    counter ← read outside.handle_counter
    pure (new_handle_id micros counter)

  -- The builder with its parts, and the trade that it builds.
  unfoldable pub built :
      TradeBuilderConfig W
      → Order W T
      → Order W T
      → Order W T
      → CloserMetadata W
      → HandleId
      → M W D T (Trade W T)
  unfolding new_builder with_entry with_exit with_stoploss with_closer into_closer build
  built config entry exit stoploss metadata trade_id = do
    price ← read (outside.worlds config.symbol).market_price
    now ← read (outside.worlds config.symbol).now
    lift trade_error (
        build is_normal is_empty price trade_id now (
          with_closer (into_closer metadata)
            (with_stoploss stoploss (with_exit exit (with_entry entry (new_builder config))))))

  unfoldable pub trade_template :
      TradeBuilderConfig W → W → Option W → StoplossMetadata W → M W D T (Trade W T)
  unfolding trade_id_or fresh_order_id order_template stoploss_template stoploss_limit_price
      closer_metadata built
  trade_template given entry_price exit_price stoploss_metadata = do
    let symbol = given.symbol
    found ← gets (context_of symbol)
    cx ← or_fail (symbol_not_found symbol) found
    trade_id ← trade_id_or given.specific_trade_id
    entry_order_id ← fresh_order_id outside trade_id entry_order
    exit_order_id ← fresh_order_id outside trade_id exit_order
    stoploss_order_id ← fresh_order_id outside trade_id stoploss_order
    let config = (record given { specific_trade_id = some trade_id })
    let side = entry_side config.trade_type
    entry_made ←
        order_template outside symbol entry_order_id side config.entry_order_type config.quantity
          entry_price none false
    let entry = (record entry_made {
      timeframe = config.timeframe;
      time_in_force = config.entry_time_in_force;
      initial_quantity = config.quantity;
    })
    exit_made ←
        order_template outside symbol exit_order_id (opposite side) config.exit_order_type
          config.quantity (price_or_nought exit_price) none false
    let exit = (record exit_made {
      timeframe = config.timeframe;
      time_in_force = config.exit_time_in_force;
    })
    limit_price ←
        lift (λ e. e)
          (stoploss_limit_price (opposite exit.side) config.stoploss_order_type
            stoploss_metadata.initial_stop_price cx.stop_limit_offset_ratio)
    stoploss_made ←
        stoploss_template outside symbol stoploss_order_id exit.side config.stoploss_order_type
          config.quantity entry.price stoploss_metadata.initial_stop_price (some limit_price)
          stoploss_metadata.is_trailing_enabled stoploss_metadata.trailing_step_ratio
    let stoploss = (record stoploss_made { timeframe = config.timeframe })
    metadata ←
        lift (λ e. e) (closer_metadata config.closer_kind config.timeframe entry_price exit.price)
    built config entry exit stoploss metadata trade_id
