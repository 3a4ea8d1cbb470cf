-- ===== src/Trade/Builder.antt =====
-- src/trade.rs: the builder of trades. The test `f64::is_normal` of a price and the test for an empty
-- symbol are those of the libraries; the market price, the fresh id and the time are what the builder
-- reads.
use babylon_playground_demo.Common.{Bool, true, not, ◌&&◌, Option, none, some, is_some}
use babylon_playground_demo.Common.Result.{Result, ok, err, ok_or, ◌>>=◌, ◌>>◌, refuse_if}
use babylon_playground_demo.Float.{OrderedFloat}
use babylon_playground_demo.Timeframe.{Timeframe, timeframe_eq}
use babylon_playground_demo.Leverage.{no_leverage}
use babylon_playground_demo.Types.{
  Ustr, side_eq, NormalizedOrderType, limit, limit_maker, stop_loss_limit, NormalizedTimeInForce,
  gtc,
}
use babylon_playground_demo.Trigger.{TriggerMetadata, TriggerError, none_metadata, instant_metadata}
use babylon_playground_demo.Trigger.Reached.{new_proximity, proximity_metadata_of}
use babylon_playground_demo.Instruction.{HandleId, DateTime}
use babylon_playground_demo.Order.Data.{Order, StoplossMetadata}
use babylon_playground_demo.Order.Query.{stoploss_type}
use babylon_playground_demo.Trade.Closer.{Closer, CloserKind, take_profit, never_opens}
use babylon_playground_demo.Trade.Error.{
  TradeError, trade_entry_order_side_mismatch, trade_exit_side_mismatch,
  positio_stoploss_side_mismatch, trade_timeframe_mismatch, symbol_is_empty,
  atomic_market_price_is_zero, entry_order_is_missing, exit_order_is_missing, stoploss_is_missing,
  closer_is_missing, invalid_entry_order_type, invalid_exit_order_type, invalid_stoploss_order_type,
  trigger_error,
}
use babylon_playground_demo.Trade.State.{TradeType, long, new, idle}
use babylon_playground_demo.Trade.Data.{Trade}
use babylon_playground_demo.Trade.Validate.{entry_side, exit_side}
use babylon_playground_demo.Trade.Validate

pub record TradeBuilderConfig (W : Type 0) : Type 0 where
  pub specific_trade_id : Option HandleId
  pub symbol : Ustr
  pub timeframe : Timeframe
  pub fee_ratio : Option W
  pub trade_type : TradeType
  pub quantity : W
  pub entry_order_type : NormalizedOrderType
  pub entry_activator : TriggerMetadata W
  pub entry_deactivator : TriggerMetadata W
  pub entry_time_in_force : NormalizedTimeInForce
  pub exit_order_type : NormalizedOrderType
  pub exit_activator : TriggerMetadata W
  pub exit_deactivator : TriggerMetadata W
  pub exit_time_in_force : NormalizedTimeInForce
  pub stoploss_order_type : NormalizedOrderType
  pub stoploss_activator : TriggerMetadata W
  pub closer_kind : CloserKind
  pub is_closer_required : Bool
  pub is_stoploss_required : Bool

pub record TradeBuilder (W T : Type 0) : Type 0 where
  pub config : TradeBuilderConfig W
  pub entry : Option (Order W T)
  pub exit : Option (Order W T)
  pub stoploss : Option (Order W T)
  pub stoploss_metadata : Option (StoplossMetadata W)
  pub closer : Option (Closer W)

abbrev pub id_or : Option HandleId → HandleId → HandleId
id_or none fresh = fresh
id_or (some id) fresh = id

abbrev or_trigger_error : {W A : Type 0} → Result (TriggerError W) A → Result (TradeError W) A
or_trigger_error (ok a) = ok a
or_trigger_error (err e) = err (trigger_error e)

module _ {W : Type 0} ⦃f : OrderedFloat W⦄ (tenth four_fifths : W) where
  abbrev proximity_of : W → W → W → Result (TradeError W) (TriggerMetadata W)
  proximity_of anchor target ratio = do
    trigger ← or_trigger_error (new_proximity anchor target ratio)
    ok (proximity_metadata_of trigger)

  -- With the constants 0.10 and 0.80.
  unfoldable pub long_with_exit_and_stop :
      Ustr → Timeframe → W → W → W → Result (TradeError W) (TradeBuilderConfig W)
  unfolding none_metadata instant_metadata
  long_with_exit_and_stop symbol timeframe quantity entry_price exit_price = do
    entry_activator ← proximity_of entry_price exit_price tenth
    entry_deactivator ← proximity_of entry_price exit_price four_fifths
    exit_activator ← proximity_of exit_price entry_price tenth
    ok (record {
      specific_trade_id = none;
      symbol = symbol;
      timeframe = timeframe;
      fee_ratio = some f.milli;
      trade_type = long;
      quantity = quantity;
      entry_order_type = limit_maker;
      entry_activator = entry_activator;
      entry_deactivator = entry_deactivator;
      entry_time_in_force = gtc;
      exit_order_type = limit;
      exit_activator = exit_activator;
      exit_deactivator = none_metadata;
      exit_time_in_force = gtc;
      stoploss_order_type = stop_loss_limit;
      stoploss_activator = instant_metadata;
      closer_kind = take_profit;
      is_closer_required = true;
      is_stoploss_required = true;
    })

module _ {W T : Type 0} where
  unfoldable pub new_builder : TradeBuilderConfig W → TradeBuilder W T
  new_builder config = record {
    config = config;
    entry = none;
    exit = none;
    stoploss = none;
    stoploss_metadata = none;
    closer = none;
  }

  unfoldable pub with_entry : Order W T → TradeBuilder W T → TradeBuilder W T
  with_entry entry b = record b { entry = some entry }

  unfoldable pub with_exit : Order W T → TradeBuilder W T → TradeBuilder W T
  with_exit exit b = record b { exit = some exit }

  unfoldable pub with_stoploss : Order W T → TradeBuilder W T → TradeBuilder W T
  with_stoploss stoploss b = record b { stoploss = some stoploss }

  unfoldable pub with_closer : Closer W → TradeBuilder W T → TradeBuilder W T
  with_closer closer b = record b { closer = some closer }

module _ {W T : Type 0} ⦃f : OrderedFloat W⦄ (is_normal : W → Bool) (is_empty : Ustr → Bool) where
  abbrev on_timeframe : TradeBuilderConfig W → Order W T → Result (TradeError W) (Unit {0})
  on_timeframe c o =
      refuse_if (not (timeframe_eq o.timeframe c.timeframe))
        (trade_timeframe_mismatch c.symbol 0 c.timeframe o.timeframe)

  unfoldable pub validate_entry :
      TradeBuilderConfig W → Option (Order W T) → Result (TradeError W) (Unit {0})
  validate_entry c none = ok tt
  validate_entry c (some o) = do
    refuse_if (stoploss_type o.order_type) (invalid_entry_order_type o.order_type)
    refuse_if (not (side_eq o.side (entry_side c.trade_type)))
        (trade_entry_order_side_mismatch c.symbol 0 c.trade_type o.local_order_id o.side)
    on_timeframe c o

  unfoldable pub validate_exit :
      TradeBuilderConfig W → Option (Order W T) → Result (TradeError W) (Unit {0})
  validate_exit c none = ok tt
  validate_exit c (some o) = do
    refuse_if (stoploss_type o.order_type) (invalid_exit_order_type o.order_type)
    refuse_if (not (side_eq o.side (exit_side c.trade_type)))
        (trade_exit_side_mismatch c.symbol 0 c.trade_type o.local_order_id o.side)
    on_timeframe c o

  unfoldable pub validate_stoploss :
      TradeBuilderConfig W → Option (Order W T) → Result (TradeError W) (Unit {0})
  validate_stoploss c none = ok tt
  validate_stoploss c (some o) = do
    refuse_if (not (stoploss_type o.order_type)) (invalid_stoploss_order_type o.order_type)
    refuse_if (not (side_eq o.side (exit_side c.trade_type)))
        (positio_stoploss_side_mismatch c.symbol 0 c.trade_type o.local_order_id o.side)

  -- `TradeBuilder::validate`, at the market price.
  unfoldable pub validate : W → TradeBuilder W T → Result (TradeError W) (Unit {0})
  unfolding validate_entry validate_exit validate_stoploss
  validate market_price b = do
    refuse_if (is_empty b.config.symbol) symbol_is_empty
    refuse_if (not (is_normal market_price)) atomic_market_price_is_zero
    refuse_if (not (is_some b.entry)) entry_order_is_missing
    refuse_if (not (is_some b.stoploss) && b.config.is_stoploss_required) stoploss_is_missing
    refuse_if (not (is_some b.closer) && b.config.is_closer_required) closer_is_missing
    validate_entry b.config b.entry
    validate_exit b.config b.exit
    validate_stoploss b.config b.stoploss

  -- The trade that is put together of the parts.
  unfoldable pub assemble :
      HandleId
      → DateTime
      → TradeBuilderConfig W
      → Order W T
      → Order W T
      → Order W T
      → Closer W
      → Trade W T
  unfolding no_leverage
  assemble id now c entry exit stoploss closer = record {
    id = id;
    state = new;
    status = idle;
    symbol = c.symbol;
    timeframe = c.timeframe;
    leverage = no_leverage;
    trade_type = c.trade_type;
    entry = record entry { trade_id = id };
    exit = exit;
    stoploss = stoploss;
    opener = never_opens;
    closer = closer;
    pnl = record {
      price_delta = f.nought;
      price_delta_ratio = f.nought;
      quote_delta = f.nought;
      quote_delta_ratio = f.nought;
    };
    close_reason = none;
    pending_instruction_order_id = none;
    special_pending_instruction = none;
    initialized_at = now;
    opened_at = none;
    updated_at = none;
    closed_at = none;
  }

  unfoldable pub build :
      W → HandleId → DateTime → TradeBuilder W T → Result (TradeError W) (Trade W T)
  unfolding validate assemble
  build market_price fresh now b = do
    validate market_price b
    entry ← ok_or b.entry entry_order_is_missing
    exit ← ok_or b.exit exit_order_is_missing
    stoploss ← ok_or b.stoploss stoploss_is_missing
    closer ← ok_or b.closer closer_is_missing
    let trade =
        assemble (id_or b.config.specific_trade_id fresh) now b.config entry exit stoploss closer
    Validate.validate trade
    ok trade
