-- ===== src/Trade/Samples.antt =====
-- A long trade at concrete prices, for the tests. Prices and quantities are thousandths.
use babylon_playground_demo.Common.{ℕ, false, true, none, some}
use babylon_playground_demo.Float.Units.{thousandths}
use babylon_playground_demo.Timeframe.{m1}
use babylon_playground_demo.Types.{sell, limit, limit_maker, stop_loss_limit, gtc}
use babylon_playground_demo.Trigger.Clock.{Clock}
use babylon_playground_demo.Trigger.Dispatch.{DynTrigger}
use babylon_playground_demo.Trigger.{TriggerMetadata, instant}
use babylon_playground_demo.Order.Data.{Order}
use babylon_playground_demo.Order.Samples.{bid}
use babylon_playground_demo.Trade.State.{long, new, idle}
use babylon_playground_demo.Trade.Closer.{never_opens, never, take_profit}
use babylon_playground_demo.Trade.Data.{Trade}
use babylon_playground_demo.Trade.Monad.{TradeMachine}
use babylon_playground_demo.Trade.Builder.{TradeBuilder, TradeBuilderConfig}

-- The ids of trade 1 for an entry, an exit and a stoploss.
abbrev pub entry_id : ℕ
entry_id = 282574488338439

abbrev pub exit_id : ℕ
exit_id = 283673999966216

abbrev pub stoploss_id : ℕ
stoploss_id = 284773511593993

abbrev pub take_off : Order ℕ (DynTrigger ℕ Clock)
take_off = record bid {
  local_order_id = exit_id;
  side = sell;
  price = 110_000;
  is_entry_order = false;
}

abbrev pub stop : Order ℕ (DynTrigger ℕ Clock)
stop = record bid {
  local_order_id = stoploss_id;
  side = sell;
  order_type = stop_loss_limit;
  price = 95_000;
  limit_price = some 94_000;
  is_entry_order = false;
}

abbrev pub trade : Trade ℕ (DynTrigger ℕ Clock)
trade = record {
  id = 1;
  state = new;
  status = idle;
  symbol = "BTCUSDT";
  timeframe = m1;
  leverage = record { leverage_data = none; repaid = false };
  trade_type = long;
  entry = record bid { local_order_id = entry_id };
  exit = take_off;
  stoploss = stop;
  opener = never_opens;
  closer = never;
  pnl = record { price_delta = 0; price_delta_ratio = 0; quote_delta = 0; quote_delta_ratio = 0 };
  close_reason = none;
  pending_instruction_order_id = none;
  special_pending_instruction = none;
  initialized_at = 0;
  opened_at = none;
  updated_at = none;
  closed_at = none;
}

abbrev pub begun : TradeMachine ℕ (DynTrigger ℕ Clock)
begun = record { trade = trade; reads = 0 }

abbrev at_once : TriggerMetadata ℕ
at_once = record {
  kind = instant;
  delay = none;
  target_price = none;
  threshold_price = none;
  reset_timer_on_reentry = none;
  anchor_price = none;
  distance_ratio = none;
  proximity = none;
}

abbrev pub config : TradeBuilderConfig ℕ
config = record {
  specific_trade_id = some 1;
  symbol = "BTCUSDT";
  timeframe = m1;
  fee_ratio = some 1;
  trade_type = long;
  quantity = 2_000;
  entry_order_type = limit_maker;
  entry_activator = at_once;
  entry_deactivator = at_once;
  entry_time_in_force = gtc;
  exit_order_type = limit;
  exit_activator = at_once;
  exit_deactivator = at_once;
  exit_time_in_force = gtc;
  stoploss_order_type = stop_loss_limit;
  stoploss_activator = at_once;
  closer_kind = take_profit;
  is_closer_required = true;
  is_stoploss_required = true;
}

abbrev pub builder : TradeBuilder ℕ (DynTrigger ℕ Clock)
builder = record {
  config = config;
  entry = some trade.entry;
  exit = some take_off;
  stoploss = some stop;
  stoploss_metadata = none;
  closer = some never;
}
