-- ===== src/Trader/Data.antt =====
-- src/trader.rs: the state of the trader. The lock around it is not modelled: a call is one step here.
-- In the source a method may take the lock more than once, as `create_order` does, which lets go of it
-- between the test whether there is room and the insertion; what other threads do in between is not
-- modelled. The rate limiter, which no method of the trader asks,
-- and the sender of data points are left out. The channel to the exchange client is open and keeps what
-- is sent; a send that fails would be logged.
use babylon_playground_demo.Common.{ℕ, Bool, false, Option, List, []}
use babylon_playground_demo.Common.Table.{Table}
use babylon_playground_demo.Appraiser.{Appraiser}
use babylon_playground_demo.Balance.{BalanceSheet}
use babylon_playground_demo.Cooldown.{Cooldown}
use babylon_playground_demo.Position.{Position}
use babylon_playground_demo.Types.{Ustr, Priority}
use babylon_playground_demo.Instruction.{
  OrderId, HandleId, InstructionMetadata, Instruction, ManagedInstruction,
}
use babylon_playground_demo.Order.Data.{Order}
use babylon_playground_demo.Order.Monad.{World}
use babylon_playground_demo.Trade.Data.{Trade}

-- Counts of 64 bits.
pub record TraderStats : Type 0 where
  pub orders_failed_to_open : ℕ
  pub orders_opened : ℕ
  pub orders_rejected : ℕ
  pub orders_expired : ℕ
  pub orders_cancelled : ℕ
  pub orders_closed : ℕ
  pub orders_failed_to_cancel : ℕ
  pub orders_failed_to_replace : ℕ
  pub orders_replaced : ℕ

unfoldable pub no_stats : TraderStats
no_stats = record {
  orders_failed_to_open = 0;
  orders_opened = 0;
  orders_rejected = 0;
  orders_expired = 0;
  orders_cancelled = 0;
  orders_closed = 0;
  orders_failed_to_cancel = 0;
  orders_failed_to_replace = 0;
  orders_replaced = 0;
}

-- Of src/types.rs.
pub record NormalizedCommission (W : Type 0) : Type 0 where
  pub maker : Option W
  pub taker : Option W
  pub buyer : Option W
  pub seller : Option W

-- The shared market price is a reading of the symbol's world.
pub record TraderSymbolContext (W D T : Type 0) : Type 0 where
  pub symbol : Ustr
  pub quote_asset : Ustr
  pub base_asset : Ustr
  pub entry_cooldown : Cooldown
  pub exit_cooldown : Cooldown
  pub appraiser : Appraiser W
  pub commission : NormalizedCommission W
  pub max_quote_allocated : W
  pub min_quote_per_grid : W
  pub max_quote_per_grid : W
  pub max_orders : ℕ
  pub max_orders_per_trade : ℕ
  pub min_order_spacing_ratio : W
  pub max_orders_per_cooldown : ℕ
  pub max_retry_attempts : ℕ
  pub retry_delay : ℕ
  pub entry_grid_orders : ℕ
  pub exit_grid_orders : ℕ
  pub initial_stop_ratio : W
  pub stop_limit_offset_ratio : W
  pub initial_trailing_step_ratio : W
  pub trailing_step_ratio : W
  pub baseline_risk_ratio : W
  pub position : Position W D
  pub orders : Table OrderId (Order W T)
  pub trades : Table HandleId (Trade W T)
  pub is_paused : Bool
  pub is_zero_maker_fee : Bool
  pub is_zero_taker_fee : Bool
  pub is_iceberg_allowed_by_exchange : Bool
  pub is_iceberg_trading_enabled : Bool
  pub is_spot_trading_allowed_by_exchange : Bool
  pub is_margin_trading_allowed_by_exchange : Bool
  pub is_long_trading_enabled : Bool
  pub is_short_trading_enabled : Bool
  pub stats : TraderStats

-- `ExchangeClientMessage::Instruction`.
pub record Job (W : Type 0) : Type 0 where
  pub id : ℕ
  pub metadata : InstructionMetadata
  pub instruction : Instruction W
  pub priority : Priority

abbrev pub job_of : {W : Type 0} → ManagedInstruction W → Job W
job_of i = record {
  id = i.id;
  metadata = i.metadata;
  instruction = i.instruction;
  priority = i.priority;
}

pub record Trader (W D T : Type 0) : Type 0 where
  pub balance : BalanceSheet W
  pub trader_symbol_contexts : Table Ustr (TraderSymbolContext W D T)
  -- What was sent to the exchange client, the first message first.
  pub sent : List (Job W)
  pub is_paused : Bool
  pub stats : TraderStats

unfoldable pub new : {W D T : Type 0} → BalanceSheet W → Trader W D T
unfolding no_stats
new balance = record {
  balance = balance;
  trader_symbol_contexts = [];
  sent = [];
  is_paused = false;
  stats = no_stats;
}

-- What the trader finds outside of itself: for each symbol the world of its orders, whose clock and
-- random numbers are the same for all symbols; the decimal of a float, by the macro `d!`, which panics
-- where there is none; `InstantTrigger::new`; and for
-- ids the time in microseconds and the two counters, each by the number of readings.
pub record Outside (W D T : Type 0) : Type 0 where
  pub worlds : Ustr → World W
  pub decimal : W → Option D
  pub instant : T
  pub micros : ℕ → ℕ
  pub order_counter : ℕ → ℕ
  pub handle_counter : ℕ → ℕ
