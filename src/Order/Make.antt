-- ===== src/Order/Make.antt =====
-- src/order.rs: the instructions that an order makes for itself.
use babylon_playground_demo.Common.{ℕ, if◌then◌else◌, true, false, Option, none, some}
use babylon_playground_demo.Common.Result.{Result, ok, err}
use babylon_playground_demo.Float.{OrderedFloat}
use babylon_playground_demo.SmartId.{SmartIdError, new_incremented_id}
use babylon_playground_demo.Appraiser.{round_normalized_base, round_normalized_quote, round_quote}
use babylon_playground_demo.Types.{
  NormalizedSide, buy, sell, NormalizedOrderType, limit, limit_maker, market, stop_loss,
  stop_loss_limit, Priority, normal, high, immediate,
}
use babylon_playground_demo.Instruction.{
  OrderId, Instruction, limit_buy, limit_sell, market_buy, market_sell, create_stop,
  InstructionKind, InstructionMetadata, ManagedInstruction, new_instruction,
}
use babylon_playground_demo.Order.Error.{id_error}
use babylon_playground_demo.Order.Data.{Order}
use babylon_playground_demo.Order.Query.{is_stoploss, untraded_quantity_remainder}
use babylon_playground_demo.Order.Monad.{World, M, pure, fail, panic, read, gets, ◌>>=◌}

abbrev map_option : {A B : Type 0} → (A → B) → Option A → Option B
map_option g none = none
map_option g (some a) = some (g a)

-- The metadata of an instruction of this kind for the order; whether it names the stop order too is
-- the caller's choice.
abbrev metadata_for :
    {W T : Type 0} → InstructionKind → Order W T → Option OrderId → InstructionMetadata
metadata_for kind o local_stop_order_id = record {
  is_special = false;
  kind = kind;
  trade_id = some o.trade_id;
  local_order_id = some o.local_order_id;
  local_stop_order_id = local_stop_order_id;
  process_id = none;
}

module _ {W T : Type 0} ⦃f : OrderedFloat W⦄ where
  -- The `match` of `instruction_open` on the side and the order type; `none` is its panic.
  unfoldable pub opening : NormalizedSide → NormalizedOrderType → Order W T → Option (Instruction W)
  opening buy limit o = some (
      limit_buy o.symbol o.local_order_id o.order_type
        (round_normalized_base o.appraiser o.initial_quantity)
        (round_normalized_quote o.appraiser o.price) false)
  opening buy limit_maker o = some (
      limit_buy o.symbol o.local_order_id o.order_type
        (round_normalized_base o.appraiser o.initial_quantity)
        (round_normalized_quote o.appraiser o.price) true)
  opening buy market o =
      some (
        market_buy o.symbol o.local_order_id (round_normalized_base o.appraiser o.initial_quantity))
  opening sell limit o = some (
      limit_sell o.symbol o.local_order_id o.order_type
        (round_normalized_base o.appraiser o.initial_quantity)
        (round_normalized_quote o.appraiser o.price) false)
  opening sell limit_maker o = some (
      limit_sell o.symbol o.local_order_id o.order_type
        (round_normalized_base o.appraiser o.initial_quantity)
        (round_normalized_quote o.appraiser o.price) true)
  opening sell market o =
      some (
        market_sell o.symbol o.local_order_id
          (round_normalized_base o.appraiser o.initial_quantity))
  opening _ _ o = none

  -- The `match` of `instruction_stoploss`, whose four arms are alike; `none` is its panic.
  unfoldable pub opening_stop : NormalizedOrderType → Order W T → Option (Instruction W)
  opening_stop stop_loss o = some (
      create_stop o.symbol o.order_type o.side o.local_order_id o.local_stop_order_id
        (map_option (round_quote o.appraiser) o.limit_price)
        (round_normalized_quote o.appraiser o.price)
        (round_normalized_base o.appraiser o.initial_quantity))
  opening_stop stop_loss_limit o = some (
      create_stop o.symbol o.order_type o.side o.local_order_id o.local_stop_order_id
        (map_option (round_quote o.appraiser) o.limit_price)
        (round_normalized_quote o.appraiser o.price)
        (round_normalized_base o.appraiser o.initial_quantity))
  opening_stop _ o = none

  module _ (world : World W) where
    -- `ManagedInstruction::new` with the symbol of the order.
    unfoldable pub managed :
        Priority → InstructionMetadata → Instruction W → M W T (ManagedInstruction W)
    managed priority metadata instruction = do
      id ← read world.random_id
      now ← read world.now
      symbol ← gets (λ o. o.symbol)
      pure (new_instruction id now symbol priority metadata instruction none none)

    unfoldable pub managed_or_panic :
        Priority → InstructionMetadata → Option (Instruction W) → M W T (ManagedInstruction W)
    unfolding managed
    managed_or_panic priority metadata none = panic
    managed_or_panic priority metadata (some i) = managed priority metadata i

    unfoldable pub instruction_stoploss : M W T (ManagedInstruction W)
    unfolding managed_or_panic
    instruction_stoploss = do
      o ← gets (λ o. o)
      managed_or_panic high (metadata_for InstructionKind.create_order o o.local_stop_order_id)
          (opening_stop o.order_type o)

    unfoldable pub instruction_regular : M W T (ManagedInstruction W)
    unfolding managed_or_panic
    instruction_regular = do
      o ← gets (λ o. o)
      managed_or_panic normal (metadata_for InstructionKind.create_order o none)
          (opening o.side o.order_type o)

    unfoldable pub instruction_open : M W T (ManagedInstruction W)
    unfolding instruction_stoploss instruction_regular
    instruction_open = do
      stoploss ← gets is_stoploss
      if stoploss then instruction_stoploss else instruction_regular

    unfoldable pub instruction_cancel : M W T (ManagedInstruction W)
    instruction_cancel = do
      o ← gets (λ o. o)
      managed immediate (metadata_for InstructionKind.cancel_order o o.local_stop_order_id)
          (Instruction.cancel_order o.symbol o.local_order_id)

    unfoldable pub replacement :
        W → Option W → Order W T → Result SmartIdError ℕ → M W T (ManagedInstruction W)
    unfolding managed
    replacement new_stop_price new_limit_price o (err e) = fail (id_error e)
    replacement new_stop_price new_limit_price o (ok new_id) =
        managed immediate
          (metadata_for InstructionKind.cancel_replace_order o o.local_stop_order_id)
          (Instruction.cancel_replace_order o.symbol o.local_order_id none none new_id o.order_type
            o.time_in_force (untraded_quantity_remainder o)
            (round_normalized_quote o.appraiser new_stop_price)
            (map_option (round_normalized_quote o.appraiser) new_limit_price))

    unfoldable pub instruction_cancel_replace_stoploss : W → Option W → M W T (ManagedInstruction W)
    unfolding replacement
    instruction_cancel_replace_stoploss new_stop_price new_limit_price = do
      o ← gets (λ o. o)
      replacement new_stop_price new_limit_price o (new_incremented_id o.local_order_id)
