-- ===== src/Order/Samples.antt =====
-- An order at concrete prices, for the tests. Prices and quantities are thousandths.
use babylon_playground_demo.Common.{ℕ, ◌+◌, false, true, none, []}
use babylon_playground_demo.Float.Units.{thousandths}
use babylon_playground_demo.Appraiser.{Appraiser}
use babylon_playground_demo.Timeframe.{m1}
use babylon_playground_demo.Types.{buy, limit, gtc, local, OrderLifecycle}
use babylon_playground_demo.Trigger.Clock.{Clock}
use babylon_playground_demo.Trigger.Dispatch.{DynTrigger, instant_trigger, no_trigger}
use babylon_playground_demo.Order.State.{idle}
use babylon_playground_demo.Order.Data.{Order}
use babylon_playground_demo.Order.Data
use babylon_playground_demo.Order.Monad.{World}

abbrev pub world : World ℕ
world = record { now = λ n. 1_000_000 + n; market_price = λ n. 100_000; random_id = λ n. n }

abbrev pub no_action : OrderLifecycle
no_action = record {
  on_activation = none;
  on_deactivation = none;
  on_open = none;
  on_close = none;
  on_partial_fill = none;
  on_fill = none;
  on_cancel = none;
  on_reject = none;
  on_timeout = none;
}

abbrev pub steps : Appraiser ℕ
steps = record {
  price_filter = record { min_price = 0; max_price = 0; tick_size = 10 };
  lot_size = record { min_qty = 10; max_qty = 0; step_size = 10 };
  true_base_precision = 2;
  true_quote_precision = 2;
}

abbrev pub bid : Order ℕ (DynTrigger ℕ Clock)
bid = record {
  local_order_id = 7;
  raw_order_id = none;
  local_stop_order_id = none;
  local_orig_order_id = none;
  local_list_order_id = none;
  exchange_order_id = none;
  trade_id = 1;
  mode = Data.normal;
  pending_mode = none;
  symbol = "BTCUSDT";
  appraiser = steps;
  timeframe = m1;
  time_in_force = gtc;
  side = buy;
  order_type = limit;
  contingency_order_type = none;
  activator = instant_trigger;
  deactivator = no_trigger;
  market_price_at_initialization = none;
  market_price_at_opening = none;
  price = 99_000;
  limit_price = none;
  initial_quantity = 2_000;
  accumulated_filled_quantity = 0;
  accumulated_filled_quote = 0;
  fee_ratio = none;
  retry_counter = record { value = 3; initial_value = 3 };
  retry_cooldown = record {
    duration = 1000;
    uses_left = 3;
    total_uses = 3;
    last_used = 0;
    in_cooldown = false;
  };
  lifecycle = no_action;
  leverage = record { leverage_data = none; repaid = false };
  state = idle;
  termination_flag = false;
  cancel_and_idle_flag = false;
  cancel_and_replace_flag = false;
  fills = [];
  num_updates = 0;
  is_entry_order = true;
  is_created_on_exchange = false;
  is_finished_by_cancel = false;
  pending_instruction = none;
  special_pending_instruction = none;
  metadata = record {
    origin = local;
    is_virtual = false;
    limit_price_offset_ratio = 0;
    stoploss = none;
  };
  initialized_at = 0;
  opened_at = none;
  updated_at = none;
  trailing_activated_at = none;
  trailing_updated_at = none;
  closed_at = none;
  cancelled_at = none;
  finalized_at = none;
}
