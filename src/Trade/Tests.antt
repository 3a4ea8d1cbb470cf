-- ===== src/Trade/Tests.antt =====
-- A trade at concrete prices and times.
use babylon_playground_demo.Common.{
  not, Bool, ◌==◌, ℕ, ◌≡◌, refl, true, false, none, some, [], ◌∷◌, List,
}
use babylon_playground_demo.Common.Result.{ok, refuse_if}
use babylon_playground_demo.Float.Units.{thousandths}
use babylon_playground_demo.Trigger.Clock.{Clock, clock}
use babylon_playground_demo.Trigger.Dispatch.{DynTrigger, dyn_trigger, check}
use babylon_playground_demo.SmartId.{order_kind, entry_order, decode}
use babylon_playground_demo.Instruction.{
  is_new, InstructionExecutionResult, InstructionKind, success, new_instruction,
}
use babylon_playground_demo.Order.State.{idle, opened, pending_open, filled, finished}
use babylon_playground_demo.Order.Data.{OrderFill, OrderFillStatus, new_fill}
use babylon_playground_demo.Order.Monad.{failed, done}
use babylon_playground_demo.Order.Diagram.{◌⟶*◌}
use babylon_playground_demo.Order.Query.{is_failed, is_active}
use babylon_playground_demo.Order.Follows.{terms}
use babylon_playground_demo.Order.Confirm.{validate_fill}
use babylon_playground_demo.Order.Confirm
use babylon_playground_demo.Order.Compute
use babylon_playground_demo.Order.Make.{opening_stop, opening}
use babylon_playground_demo.Order.Samples.{world}
use babylon_playground_demo.Trade.State.{TradeCloseReason, entering, exiting, closed, transition}
use babylon_playground_demo.Trade.Diagram.{◌⇒*◌}
use babylon_playground_demo.Trade.Monad.{TradeMachine, ◌>>=◌}
use babylon_playground_demo.Trade.Closer.{never}
use babylon_playground_demo.Trade.Compute.{choose, compute}
use babylon_playground_demo.Trade.Confirm.{confirm_filled, confirm_instruction_execution}
use babylon_playground_demo.Trade.Operation.{
  TradeOperation, perform, perform_all, compute_trade, confirm_opened, confirm_rejected,
}
use babylon_playground_demo.Trade.Operation
use babylon_playground_demo.Trade.Journey.{perform_all-⇒*, perform_all-is_final}
use babylon_playground_demo.Trade.Exclusive.{Offers, choose-Offers}
use babylon_playground_demo.Trade.Terms.{compute-orders}
use babylon_playground_demo.Trade.Fill.{confirm_filled-quantity, entry_of}
use babylon_playground_demo.Timeframe.{timeframe_eq}
use babylon_playground_demo.Trade.Validate.{validate}
use babylon_playground_demo.Trade.Builder.{build, assemble}
use babylon_playground_demo.Trade.Built.{IsBuilt, build-IsBuilt}
use babylon_playground_demo.Trade.Samples.{config, trade, begun, entry_id, stoploss_id, builder}

fill : OrderFill ℕ
fill = new_fill OrderFillStatus.filled 99_000 2_000 2_000 198_000 1_000_050

-- The instruction of the entry was sent off.
abbrev sent : InstructionExecutionResult
sent = record {
  instruction_id = 3;
  symbol = some "BTCUSDT";
  metadata = record {
    is_special = false;
    kind = InstructionKind.create_order;
    trade_id = some 1;
    local_order_id = some entry_id;
    local_stop_order_id = none;
    process_id = none;
  };
  outcome = some success;
  executed_at = none;
  execution_time = none;
}

life : List (TradeOperation ℕ)
life =
    compute_trade
    ∷ confirm_opened entry_id (some 4711)
    ∷ Operation.confirm_filled entry_id fill
    ∷ compute_trade
    ∷ []

life_state : (perform_all world 20 life begun).trade.state ≡ exiting
unfolding life fill perform_all compute ◌>>=◌ check opening new_instruction new_fill transition
    is_failed is_active order_kind confirm_filled
    babylon_playground_demo.Trade.Confirm.confirm_opened
    babylon_playground_demo.Order.Operation.perform babylon_playground_demo.Order.Monad.◌>>=◌
    babylon_playground_demo.Order.State.transition babylon_playground_demo.Order.Compute.compute
    babylon_playground_demo.Order.Confirm.confirm_opened
    babylon_playground_demo.Order.Confirm.confirm_filled
    babylon_playground_demo.Order.Confirm.cancel_pending_instruction
    babylon_playground_demo.Order.Confirm.cancel_and_idle opening_stop is_new
life_state = refl

perform_all-⇒*_example :
    (trade.state ⇒* (perform_all world 20 life begun).trade.state)
    × ((trade.entry.state ⟶* (perform_all world 20 life begun).trade.entry.state)
        × ((trade.exit.state ⟶* (perform_all world 20 life begun).trade.exit.state)
            × (trade.stoploss.state ⟶* (perform_all world 20 life begun).trade.stoploss.state)))
perform_all-⇒*_example = perform_all-⇒* world 20 life begun

abbrev ended : TradeMachine ℕ (DynTrigger ℕ Clock)
ended = record begun {
  trade = record trade { state = closed; close_reason = some TradeCloseReason.normal };
}

perform_all-is_final_example : (perform_all world 20 life ended).trade.state ≡ closed
perform_all-is_final_example = perform_all-is_final world 20 life ended refl

-- The stoploss is on the exchange.
abbrev guarded : TradeMachine ℕ (DynTrigger ℕ Clock)
guarded = record begun {
  trade = record trade { state = exiting; stoploss = record trade.stoploss { state = opened } };
}

stoploss-active : is_active guarded.trade.stoploss ≡ true
unfolding is_active
stoploss-active = refl

choose-Offers_example :
    Offers stoploss_id
      (choose world 20 guarded.trade guarded.trade.exit.pending_instruction
        guarded.trade.stoploss.pending_instruction guarded).1.trade
choose-Offers_example = choose-Offers world 20 guarded (rw stoploss-active refl) refl

compute-orders_example :
    (terms (compute world 20 begun).1.trade.entry ≡ terms trade.entry)
    × ((terms (compute world 20 begun).1.trade.exit ≡ terms trade.exit)
        × (terms (compute world 20 begun).1.trade.stoploss ≡ terms trade.stoploss))
compute-orders_example = compute-orders world 20 begun

abbrev trading : TradeMachine ℕ (DynTrigger ℕ Clock)
trading = record begun {
  trade = record trade {
    state = entering;
    entry = record trade.entry { state = opened; is_created_on_exchange = true };
  };
}

entry_kind : order_kind entry_id ≡ entry_order
unfolding order_kind decode
entry_kind = refl

fill_valid : validate_fill fill ≡ ok tt
unfolding validate_fill fill new_fill
fill_valid = refl

fill_confirmed :
    (babylon_playground_demo.Order.Confirm.confirm_filled world 20 fill
      (entry_of world 20 trading)).0
    ≡ done tt
unfolding fill new_fill babylon_playground_demo.Order.Confirm.confirm_filled
    babylon_playground_demo.Order.Compute.compute babylon_playground_demo.Order.Monad.◌>>=◌ check
    babylon_playground_demo.Order.State.transition
fill_confirmed = refl

confirm_filled-quantity_example :
    ((confirm_filled world 20 entry_id fill trading).1.trade.entry.accumulated_filled_quantity
      ≡ fill.metadata.accumulated_filled_quantity)
    × (((confirm_filled world 20 entry_id fill trading).1.trade.exit.initial_quantity
          ≡ fill.metadata.accumulated_filled_quantity)
        × ((confirm_filled world 20 entry_id fill trading).1.trade.stoploss.initial_quantity
            ≡ fill.metadata.accumulated_filled_quantity))
confirm_filled-quantity_example =
    confirm_filled-quantity world 20 trading entry_id fill refl entry_kind refl fill_valid
      fill_confirmed

-- A price is normal where it is not zero, and no symbol is empty.
abbrev is_normal : ℕ → Bool
is_normal price = not (price == 0)

builder_builds :
    build is_normal (λ symbol. false) 100_000 77 5 builder
    ≡ ok (
        assemble is_normal (λ symbol. false) 1 5 config trade.entry trade.exit trade.stoploss never)
unfolding build refuse_if timeframe_eq validate
builder_builds = refl

build-IsBuilt_example :
    IsBuilt 1
      (assemble is_normal (λ symbol. false) 1 5 config trade.entry trade.exit trade.stoploss never)
build-IsBuilt_example =
    build-IsBuilt is_normal (λ symbol. false) 100_000 77 5 builder _ builder_builds
