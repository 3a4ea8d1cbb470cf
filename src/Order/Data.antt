-- ===== src/Order/Data.antt =====
-- src/order.rs and src/types.rs: an order, its fills, its metadata and the events about it. The
-- shared atomic market price is not a field: it belongs to the world of Order/Monad.antt. `T` is the
-- type of the boxed triggers.
use babylon_playground_demo.Common.{ℕ, String, Bool, Option, List}
use babylon_playground_demo.Float.{OrderedFloat, ◌⊗◌}
use babylon_playground_demo.Appraiser.{Appraiser}
use babylon_playground_demo.Cooldown.{Cooldown}
use babylon_playground_demo.Countdown.{Countdown}
use babylon_playground_demo.Leverage.{Leverage}
use babylon_playground_demo.Timeframe.{Timeframe}
use babylon_playground_demo.Types.{
  Ustr, NormalizedSide, NormalizedOrderType, NormalizedTimeInForce, NormalizedExecutionType,
  NormalizedOrderStatus, OrderLifecycle, Origin,
}
use babylon_playground_demo.Instruction.{OrderId, HandleId, DateTime, ManagedInstruction}
use babylon_playground_demo.Order.State.{OrderState}

pub data OrderFillStatus : Type 0 where
  partially_filled filled : OrderFillStatus

pub record OrderFillMetadata (W : Type 0) : Type 0 where
  pub price : W
  pub quantity : W
  pub quote_equivalent : W
  pub accumulated_filled_quantity : W
  pub accumulated_filled_quote : W
  pub timestamp : DateTime

pub record OrderFill (W : Type 0) : Type 0 where
  pub status : OrderFillStatus
  pub metadata : OrderFillMetadata W

-- `OrderFill::new`.
unfoldable pub new_fill :
    {W : Type 0} ⦃f : OrderedFloat W⦄ → OrderFillStatus → W → W → W → W → DateTime → OrderFill W
new_fill status price quantity filled_quantity filled_quote timestamp = record {
  status = status;
  metadata = record {
    price = price;
    quantity = quantity;
    quote_equivalent = price ⊗ quantity;
    accumulated_filled_quantity = filled_quantity;
    accumulated_filled_quote = filled_quote;
    timestamp = timestamp;
  };
}

pub record StoplossMetadata (W : Type 0) : Type 0 where
  pub is_trailing_enabled : Bool
  pub reference_price : W
  pub initial_stop_price : W
  pub trailing_step_ratio : W

pub record OrderMetadata (W : Type 0) : Type 0 where
  pub origin : Origin
  pub is_virtual : Bool
  pub limit_price_offset_ratio : W
  pub stoploss : Option (StoplossMetadata W)

pub data OrderMode : Type 0 where
  normal paused : OrderMode

pub record Order (W T : Type 0) : Type 0 where
  pub local_order_id : OrderId
  pub raw_order_id : Option String
  pub local_stop_order_id : Option OrderId
  pub local_orig_order_id : Option OrderId
  pub local_list_order_id : Option OrderId
  pub exchange_order_id : Option OrderId
  pub trade_id : HandleId
  pub mode : OrderMode
  pub pending_mode : Option OrderMode
  pub symbol : Ustr
  pub appraiser : Appraiser W
  pub timeframe : Timeframe
  pub time_in_force : NormalizedTimeInForce
  pub side : NormalizedSide
  pub order_type : NormalizedOrderType
  pub contingency_order_type : Option NormalizedOrderType
  pub activator : T
  pub deactivator : T
  pub market_price_at_initialization : Option W
  pub market_price_at_opening : Option W
  pub price : W
  pub limit_price : Option W
  pub initial_quantity : W
  pub accumulated_filled_quantity : W
  pub accumulated_filled_quote : W
  pub fee_ratio : Option W
  pub retry_counter : Countdown
  pub retry_cooldown : Cooldown
  pub lifecycle : OrderLifecycle
  pub leverage : Leverage W
  pub state : OrderState
  pub termination_flag : Bool
  pub cancel_and_idle_flag : Bool
  pub cancel_and_replace_flag : Bool
  pub fills : List (OrderFill W)
  pub num_updates : ℕ
  pub is_entry_order : Bool
  pub is_created_on_exchange : Bool
  pub is_finished_by_cancel : Bool
  pub pending_instruction : Option (ManagedInstruction W)
  pub special_pending_instruction : Option (ManagedInstruction W)
  pub metadata : OrderMetadata W
  pub initialized_at : DateTime
  pub opened_at : Option DateTime
  pub updated_at : Option DateTime
  pub trailing_activated_at : Option DateTime
  pub trailing_updated_at : Option DateTime
  pub closed_at : Option DateTime
  pub cancelled_at : Option DateTime
  pub finalized_at : Option DateTime

pub data NormalizedOrderEventSource : Type 0 where
  user_trade_event transaction : NormalizedOrderEventSource

pub record NormalizedOrderEvent (W : Type 0) : Type 0 where
  pub symbol : Ustr
  pub exchange_order_id : ℕ
  pub local_order_id : OrderId
  -- An i64, which is only copied.
  pub trade_id : ℕ
  pub time_in_force : NormalizedTimeInForce
  pub side : NormalizedSide
  pub order_type : NormalizedOrderType
  pub current_execution_type : NormalizedExecutionType
  pub current_order_status : NormalizedOrderStatus
  pub order_price : W
  pub quantity : W
  pub avg_filled_price : W
  pub last_filled_price : W
  pub last_executed_quantity : W
  pub last_quote_asset_transacted_quantity : W
  pub cumulative_filled_quantity : W
  pub cumulative_quote_asset_transacted_quantity : W
  pub quote_order_quantity : W
  pub commission : W
  pub commission_asset : Option Ustr
  pub latest_fill : Option (OrderFill W)
  pub is_trade_the_maker_side : Bool
  pub order_reject_reason : String
  pub source : NormalizedOrderEventSource
  pub transaction_time : DateTime
  pub event_time : DateTime
