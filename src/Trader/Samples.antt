-- ===== src/Trader/Samples.antt =====
-- A trader of one symbol at concrete prices, for the tests. Decimals are natural numbers.
use babylon_playground_demo.Common.{
  ℕ, ◌+◌, ◌-◌, ◌*◌, ◌/◌, ◌==◌, leb, false, true, none, some, [], ◌∷◌,
}
use babylon_playground_demo.Float.Units.{thousandths}
use babylon_playground_demo.Cooldown.{Cooldown}
use babylon_playground_demo.Trigger.Clock.{Clock}
use babylon_playground_demo.Trigger.Dispatch.{DynTrigger, instant_trigger}
use babylon_playground_demo.Balance.{BalanceSheet}
use babylon_playground_demo.Position
use babylon_playground_demo.Position.{Decimals}
use babylon_playground_demo.Position.Accumulator.{no_accumulator}
use babylon_playground_demo.Order.Samples.{world, steps}
use babylon_playground_demo.Trader.Data.{TraderStats, TraderSymbolContext, Outside}

instance abbrev pub counts : Decimals ℕ
counts = record {
  nil = 0;
  hundred = 100;
  add = λ a b. some (a + b);
  sub = λ a b. some (a - b);
  mul = λ a b. some (a * b);
  div = λ a b. some (a / b);
  is_nil = λ a. a == 0;
  le = λ a b. leb a b;
}

abbrev rested : Cooldown
rested = record {
  duration = 1000;
  uses_left = 3;
  total_uses = 3;
  last_used = 0;
  in_cooldown = false;
}

abbrev untouched : Position.Position ℕ ℕ
untouched = record {
  symbol = "BTCUSDT";
  balance = [];
  allocated_capital = 0;
  invested_capital = 0;
  reserved_capital = 0;
  revenue = 0;
  risk_tolerance_ratio = 0;
  quantity_held = 0;
  average_price = 0;
  realized_profit = 0;
  realized_profit_ratio = 0;
  unrealized_profit = 0;
  unrealized_profit_ratio = 0;
  pending_order_confirmations = [];
  accumulator = record {
    kind = no_accumulator;
    base_price = 0;
    increment_size = 0;
    volume_threshold = 0;
  };
}

abbrev nothing_counted : TraderStats
nothing_counted = record {
  orders_failed_to_open = 0;
  orders_opened = 0;
  orders_rejected = 0;
  orders_expired = 0;
  orders_cancelled = 0;
  orders_closed = 0;
  orders_failed_to_cancel = 0;
  orders_failed_to_replace = 0;
  orders_replaced = 0;
}

abbrev pub empty_context : TraderSymbolContext ℕ ℕ (DynTrigger ℕ Clock)
empty_context = record {
  symbol = "BTCUSDT";
  quote_asset = "USDT";
  base_asset = "BTC";
  entry_cooldown = rested;
  exit_cooldown = rested;
  appraiser = steps;
  commission = record { maker = some 1; taker = some 1; buyer = none; seller = none };
  max_quote_allocated = 1_000_000;
  min_quote_per_grid = 10_000;
  max_quote_per_grid = 100_000;
  max_orders = 2;
  max_orders_per_trade = 3;
  min_order_spacing_ratio = 1;
  max_orders_per_cooldown = 3;
  max_retry_attempts = 3;
  retry_delay = 100;
  entry_grid_orders = 1;
  exit_grid_orders = 1;
  initial_stop_ratio = 1;
  stop_limit_offset_ratio = 1;
  initial_trailing_step_ratio = 1;
  trailing_step_ratio = 1;
  baseline_risk_ratio = 1;
  position = untouched;
  orders = [];
  trades = [];
  is_paused = false;
  is_zero_maker_fee = false;
  is_zero_taker_fee = false;
  is_iceberg_allowed_by_exchange = false;
  is_iceberg_trading_enabled = false;
  is_spot_trading_allowed_by_exchange = true;
  is_margin_trading_allowed_by_exchange = false;
  is_long_trading_enabled = true;
  is_short_trading_enabled = false;
  stats = nothing_counted;
}

abbrev pub outside : Outside ℕ ℕ (DynTrigger ℕ Clock)
outside = record {
  worlds = λ symbol. world;
  decimal = λ w. some w;
  instant = instant_trigger;
  micros = λ n. 1_000_000 + n;
  order_counter = λ n. n;
  handle_counter = λ n. n;
}

abbrev pub funds : BalanceSheet ℕ
funds = ("USDT", record { asset = "USDT"; free = 1_000_000; locked = 0 }) ∷ []
