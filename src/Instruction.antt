-- ===== src/Instruction.antt =====
-- src/instruction.rs: what the order machinery asks of the exchange, and the life of such a
-- request. Prices and quantities are values of the type `W`; times are nanoseconds since the epoch
-- and spans are nanoseconds.
pub mod Generic
pub mod Lifecycle
mod Tests
use babylon_playground_demo.Common.{
  ℕ, String, ◌+◌, ◌-◌, ◌%◌, ◌^◌, Bool, true, false, Option, none, some, ◌==◌, ◌||◌, if◌then◌else◌,
}
use babylon_playground_demo.Common.Result.{Result, ok, err}
use babylon_playground_demo.Countdown
use babylon_playground_demo.Countdown.{Countdown}
use babylon_playground_demo.Types.{
  Ustr, NormalizedSide, buy, sell, NormalizedOrderType, limit, market, NormalizedTimeInForce,
  Status, Priority,
}

-- `OrderId` is a u64 and `HandleId` a u16 (src/id.rs).
abbrev pub OrderId : Type 0
OrderId = ℕ

abbrev pub HandleId : Type 0
HandleId = ℕ

abbrev pub DateTime : Type 0
DateTime = ℕ

pub data ExecutionOutcome : Type 0 where
  success : ExecutionOutcome
  failure : String → ExecutionOutcome

pub data InstructionKind : Type 0 where
  noop create_order create_oco_order cancel_replace_order cancel_order : InstructionKind
  cancel_all_orders : InstructionKind

abbrev kind_discriminant : InstructionKind → ℕ
kind_discriminant noop = 0
kind_discriminant create_order = 1
kind_discriminant create_oco_order = 2
kind_discriminant cancel_replace_order = 3
kind_discriminant cancel_order = 4
kind_discriminant cancel_all_orders = 5

-- The derived `==`.
abbrev pub kind_eq : InstructionKind → InstructionKind → Bool
kind_eq a b = kind_discriminant a == kind_discriminant b

pub record InstructionMetadata : Type 0 where
  pub is_special : Bool
  pub kind : InstructionKind
  pub trade_id : Option HandleId
  pub local_order_id : Option OrderId
  pub local_stop_order_id : Option OrderId
  pub process_id : Option ℕ

pub record InstructionExecutionResult : Type 0 where
  pub instruction_id : ℕ
  pub symbol : Option Ustr
  pub metadata : InstructionMetadata
  pub outcome : Option ExecutionOutcome
  pub executed_at : Option DateTime
  pub execution_time : Option ℕ

pub data InstructionState : Type 0 where
  new running failed executed : InstructionState

-- The fields of each variant stand in the order of the source.
pub data Instruction (W : Type 0) : Type 0 where
  noop : Instruction W
  -- symbol, local_order_id, order_type, quantity, price, is_post_only
  limit_buy : Ustr → OrderId → NormalizedOrderType → W → W → Bool → Instruction W
  -- symbol, local_order_id, quantity
  market_buy : Ustr → OrderId → W → Instruction W
  market_buy_quote_quantity : Ustr → OrderId → W → Instruction W
  limit_sell : Ustr → OrderId → NormalizedOrderType → W → W → Bool → Instruction W
  market_sell : Ustr → OrderId → W → Instruction W
  -- symbol, client_order_id, side, order_type, quantity, quantity_quote, quantity_iceberg, price,
  -- time_in_force, stop_price
  create_order :
      Ustr
      → Option OrderId
      → NormalizedSide
      → NormalizedOrderType
      → W
      → Option W
      → Option W
      → Option W
      → Option NormalizedTimeInForce
      → Option W
      → Instruction W
  -- symbol, order_type, side, local_order_id, local_stop_order_id, price, stop_price, quantity
  create_stop :
      Ustr
      → NormalizedOrderType
      → NormalizedSide
      → OrderId
      → Option OrderId
      → Option W
      → W
      → W
      → Instruction W
  -- symbol, list_client_order_id, stop_client_order_id, limit_client_order_id, side, quantity,
  -- price, stop_price, stop_limit_price, stop_limit_time_in_force
  create_oco_order :
      Ustr
      → Option OrderId
      → OrderId
      → OrderId
      → NormalizedSide
      → W
      → W
      → W
      → Option W
      → NormalizedTimeInForce
      → Instruction W
  -- symbol, local_original_order_id, exchange_order_id, cancel_order_id, new_client_order_id,
  -- new_order_type, new_time_in_force, new_quantity, new_price, new_limit_price
  cancel_replace_order :
      Ustr
      → OrderId
      → Option OrderId
      → Option OrderId
      → OrderId
      → NormalizedOrderType
      → NormalizedTimeInForce
      → W
      → W
      → Option W
      → Instruction W
  cancel_order : Ustr → OrderId → Instruction W
  cancel_all : Ustr → Instruction W
  finalize_order : Ustr → OrderId → Status → Instruction W
  cancel_stop : Ustr → OrderId → Instruction W
  close_trade : Ustr → HandleId → Instruction W

pub record ManagedInstruction (W : Type 0) : Type 0 where
  pub id : ℕ
  pub symbol : Ustr
  pub metadata : InstructionMetadata
  pub instruction : Instruction W
  pub contingency_instruction : Option (Instruction W)
  pub priority : Priority
  pub retries : Countdown
  pub retry_cooldown : Option ℕ
  pub state : InstructionState
  pub initialized_at : DateTime
  pub execute_after : Option DateTime
  pub executed_at : Option DateTime
  pub execution_time : Option ℕ

pub data InstructionError (W : Type 0) : Type 0 where
  -- instruction_id, from, to
  invalid_state_transition : ℕ → InstructionState → InstructionState → InstructionError W
  instruction_cannot_be_cancelled : ManagedInstruction W → InstructionError W

abbrev is_new_state : InstructionState → Bool
is_new_state new = true
is_new_state _ = false

abbrev is_executed_state : InstructionState → Bool
is_executed_state executed = true
is_executed_state _ = false

-- A nonnegative or negative span of nanoseconds, cast to u64.
span_as_u64 : DateTime → DateTime → ℕ
span_as_u64 from to = (to + 2 ^ 64 - from) % 2 ^ 64

module _ {W : Type 0} where
  -- `ManagedInstruction::new`, with the random id and the time that it draws as arguments.
  unfoldable pub new_instruction :
      ℕ
      → DateTime
      → Ustr
      → Priority
      → InstructionMetadata
      → Instruction W
      → Option (Instruction W)
      → Option DateTime
      → ManagedInstruction W
  unfolding Countdown.new
  new_instruction new_id now symbol priority metadata instruction contingency execute_after =
      record {
        id = new_id;
        symbol = symbol;
        metadata = metadata;
        instruction = instruction;
        contingency_instruction = contingency;
        priority = priority;
        retries = Countdown.new 0;
        retry_cooldown = some 300_000_000;
        state = InstructionState.new;
        initialized_at = now;
        execute_after = execute_after;
        executed_at = none;
        execution_time = none;
      }

  abbrev pub is_cancellation : ManagedInstruction W → Bool
  is_cancellation i = kind_eq i.metadata.kind InstructionKind.cancel_order

  abbrev pub is_executed : ManagedInstruction W → Bool
  is_executed i = is_executed_state i.state

  unfoldable pub is_new : ManagedInstruction W → Bool
  is_new i = is_new_state i.state

  -- The state has changed to `executed`, or to another one.
  reach_executed : DateTime → ManagedInstruction W → ManagedInstruction W
  unfolding span_as_u64
  reach_executed now i = record i {
    state = executed;
    executed_at = some now;
    execution_time = some (span_as_u64 i.initialized_at now);
  }

  reach_other : InstructionState → ManagedInstruction W → ManagedInstruction W
  reach_other s i = record i { state = s; executed_at = none; execution_time = none }

  -- `set_state`, by the old and the new state. An error leaves the instruction as it was.
  change_state :
      DateTime
      → InstructionState
      → InstructionState
      → ManagedInstruction W
      → Result (InstructionError W) (ManagedInstruction W)
  unfolding reach_executed reach_other
  change_state now new running i = ok (reach_other running i)
  change_state now new failed i = ok (reach_other failed i)
  change_state now running failed i = ok (reach_other failed i)
  change_state now running executed i = ok (reach_executed now i)
  change_state now new new i = ok i
  change_state now running running i = ok i
  change_state now failed failed i = ok i
  change_state now executed executed i = ok i
  change_state now from to i = err (invalid_state_transition i.id from to)

  unfoldable pub set_state :
      DateTime
      → InstructionState
      → ManagedInstruction W
      → Result (InstructionError W) (ManagedInstruction W)
  unfolding change_state
  set_state now new_state i = change_state now i.state new_state i

  unfoldable pub order_type : Instruction W → Option NormalizedOrderType
  order_type (limit_buy _ _ t _ _ _) = some t
  order_type (limit_sell _ _ t _ _ _) = some t
  order_type (market_buy _ _ _) = some market
  order_type (market_sell _ _ _) = some market
  order_type (create_stop _ t _ _ _ _ _ _) = some t
  order_type (create_order _ _ _ t _ _ _ _ _ _) = some t
  order_type (create_oco_order _ _ _ _ _ _ _ _ (some _) _) = some limit
  order_type (create_oco_order _ _ _ _ _ _ _ _ none _) = some market
  order_type (cancel_replace_order _ _ _ _ _ t _ _ _ _) = some t
  order_type _ = none

  unfoldable pub to_generic : Instruction W → Option (Instruction W)
  to_generic noop = some noop
  to_generic (limit_buy symbol local_order_id order_kind quantity price is_post_only) = some (
      create_order symbol (some local_order_id) buy order_kind quantity none none (some price) none
        none)
  to_generic (market_buy symbol local_order_id quantity) =
      some (create_order symbol (some local_order_id) buy market quantity none none none none none)
  to_generic (limit_sell symbol local_order_id order_kind quantity price is_post_only) = some (
      create_order symbol (some local_order_id) sell order_kind quantity none none (some price) none
        none)
  to_generic (market_sell symbol local_order_id quantity) =
      some (create_order symbol (some local_order_id) sell market quantity none none none none none)
  to_generic (create_order s c d t q qq qi p f sp) = some (create_order s c d t q qq qi p f sp)
  to_generic (create_oco_order s l st li d q p sp sl f) =
      some (create_oco_order s l st li d q p sp sl f)
  to_generic (cancel_replace_order s o e c n t f q p l) =
      some (cancel_replace_order s o e c n t f q p l)
  to_generic _ = none
