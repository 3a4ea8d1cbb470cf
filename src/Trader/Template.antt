-- ===== src/Trader/Template.antt =====
-- src/trader.rs: `order_template` and its like, which make an order from the context of its symbol. The nested
-- locks for reading that they take are not modelled.
use babylon_playground_demo.Common.{◌^◌, ◌%◌, Bool, false, Option, none, some, []}
use babylon_playground_demo.Float.{OrderedFloat}
use babylon_playground_demo.Timeframe.{na}
use babylon_playground_demo.Leverage.{no_leverage}
use babylon_playground_demo.Countdown
use babylon_playground_demo.Cooldown
use babylon_playground_demo.SmartId.{decode}
use babylon_playground_demo.Types.{
  Ustr, NormalizedSide, buy, sell, NormalizedOrderType, market, gtc, local, OrderLifecycle,
}
use babylon_playground_demo.Instruction.{OrderId, DateTime}
use babylon_playground_demo.Order.State.{idle}
use babylon_playground_demo.Order.Data.{Order, OrderMetadata, normal}
use babylon_playground_demo.Order.Validate
use babylon_playground_demo.Trader.Error.{symbol_not_found, order_error}
use babylon_playground_demo.Trader.Data.{TraderSymbolContext, Outside}
use babylon_playground_demo.Trader.Query.{context_of}
use babylon_playground_demo.Trader.Monad.{M, pure, read, gets, lift, or_fail, ◌>>=◌, ◌>>◌}

abbrev default_lifecycle : OrderLifecycle
default_lifecycle = record {
  on_activation = none;
  on_deactivation = none;
  on_open = none;
  on_close = none;
  on_partial_fill = none;
  on_fill = none;
  on_cancel = none;
  on_reject = none;
  on_timeout = none;
}

module _ {W : Type 0} ⦃f : OrderedFloat W⦄ where
  abbrev buy_metadata : OrderMetadata W
  buy_metadata = record {
    origin = local;
    is_virtual = false;
    limit_price_offset_ratio = f.nought;
    stoploss = none;
  }

  -- `OrderMetadata::default`.
  abbrev default_metadata : OrderMetadata W
  default_metadata = record {
    origin = local;
    is_virtual = false;
    limit_price_offset_ratio = f.milli;
    stoploss = none;
  }

  abbrev stoploss_metadata : W → W → W → Bool → W → OrderMetadata W
  stoploss_metadata offset reference_price stop_price is_trailing_enabled trailing_step_ratio =
      record {
        origin = local;
        is_virtual = false;
        limit_price_offset_ratio = offset;
        stoploss = some (record {
          is_trailing_enabled = is_trailing_enabled;
          reference_price = reference_price;
          initial_stop_price = stop_price;
          trailing_step_ratio = trailing_step_ratio;
        });
      }

module _ {W D T : Type 0} ⦃f : OrderedFloat W⦄ (outside : Outside W D T) where
  -- The fields that the three templates share, and those that they are given: the side, the type, the
  -- price, the limit price, the quantity, whether it is an entry, and the metadata.
  unfoldable pub template :
      TraderSymbolContext W D T
      → OrderId
      → NormalizedSide
      → NormalizedOrderType
      → W
      → Option W
      → W
      → Bool
      → OrderMetadata W
      → W
      → DateTime
      → DateTime
      → Order W T
  unfolding no_leverage Countdown.new Cooldown.new
  template cx id side order_type price limit_price quantity is_entry_order metadata current since
        now =
      record {
        local_order_id = id;
        raw_order_id = none;
        local_stop_order_id = none;
        local_orig_order_id = none;
        local_list_order_id = none;
        exchange_order_id = none;
        trade_id = (decode id).handle_id;
        mode = normal;
        pending_mode = none;
        symbol = cx.symbol;
        appraiser = cx.appraiser;
        timeframe = na;
        time_in_force = gtc;
        side = side;
        order_type = order_type;
        contingency_order_type = some market;
        activator = outside.instant;
        deactivator = outside.instant;
        market_price_at_initialization = some current;
        market_price_at_opening = none;
        price = price;
        limit_price = limit_price;
        initial_quantity = quantity;
        accumulated_filled_quantity = f.nought;
        accumulated_filled_quote = f.nought;
        fee_ratio = some f.milli;
        retry_counter = Countdown.new (cx.max_retry_attempts % 2 ^ 8);
        retry_cooldown = Cooldown.new 300_000_000 1 since;
        lifecycle = default_lifecycle;
        leverage = no_leverage;
        state = idle;
        termination_flag = false;
        cancel_and_idle_flag = false;
        cancel_and_replace_flag = false;
        fills = [];
        num_updates = 0;
        is_entry_order = is_entry_order;
        is_created_on_exchange = false;
        is_finished_by_cancel = false;
        pending_instruction = none;
        special_pending_instruction = none;
        metadata = metadata;
        initialized_at = now;
        opened_at = none;
        updated_at = none;
        trailing_activated_at = none;
        trailing_updated_at = none;
        closed_at = none;
        cancelled_at = none;
        finalized_at = none;
      }

  -- The order is made at the current price and times, and validated.
  unfoldable pub validated : Ustr → (W → DateTime → DateTime → Order W T) → M W D T (Order W T)
  validated symbol make = do
    current ← read (outside.worlds symbol).market_price
    since ← read (outside.worlds symbol).now
    now ← read (outside.worlds symbol).now
    lift order_error (Validate.validate (make current since now))
    pure (make current since now)

  unfoldable pub stoploss_template :
      Ustr
      → OrderId
      → NormalizedSide
      → NormalizedOrderType
      → W
      → W
      → W
      → Option W
      → Bool
      → W
      → M W D T (Order W T)
  unfolding template validated
  stoploss_template symbol id side order_type quantity reference_price stop_price limit_price
        trailing step =
      do
        found ← gets (context_of symbol)
        cx ← or_fail (symbol_not_found symbol) found
        validated symbol (
            template cx id sell order_type stop_price limit_price quantity false (
              stoploss_metadata cx.stop_limit_offset_ratio reference_price stop_price trailing
                step))

  unfoldable pub buy_order_template :
      Ustr → OrderId → NormalizedOrderType → W → W → Option W → Bool → M W D T (Order W T)
  unfolding template validated
  buy_order_template symbol id order_type quantity price limit_price is_entry_order = do
    found ← gets (context_of symbol)
    cx ← or_fail (symbol_not_found symbol) found
    validated symbol
        (template cx id buy order_type price limit_price quantity is_entry_order buy_metadata)

  unfoldable pub sell_order_template :
      Ustr → OrderId → NormalizedOrderType → W → W → Option W → Bool → M W D T (Order W T)
  unfolding template validated
  sell_order_template symbol id order_type quantity price limit_price is_entry_order = do
    found ← gets (context_of symbol)
    cx ← or_fail (symbol_not_found symbol) found
    validated symbol
        (template cx id sell order_type price limit_price quantity is_entry_order default_metadata)

  unfoldable pub template_of_side :
      NormalizedSide
      → Ustr
      → OrderId
      → NormalizedOrderType
      → W
      → W
      → Option W
      → Bool
      → M W D T (Order W T)
  unfolding buy_order_template sell_order_template
  template_of_side buy = buy_order_template
  template_of_side sell = sell_order_template

  unfoldable pub order_template :
      Ustr
      → OrderId
      → NormalizedSide
      → NormalizedOrderType
      → W
      → W
      → Option W
      → Bool
      → M W D T (Order W T)
  unfolding template_of_side
  order_template symbol id side order_type quantity price limit_price is_entry_order = do
    found ← gets (context_of symbol)
    cx ← or_fail (symbol_not_found symbol) found
    template_of_side side symbol id order_type quantity price limit_price is_entry_order
