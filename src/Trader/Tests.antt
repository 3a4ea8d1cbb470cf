-- ===== src/Trader/Tests.antt =====
-- A trader of one symbol at concrete prices and times.
use babylon_playground_demo.Common.{
  Bool, arith, ℕ, ◌≡◌, ◌≤◌, refl, true, false, none, some, [], ◌∷◌, List,
}
use babylon_playground_demo.Common.Result.{Result, ok, err}
use babylon_playground_demo.Common.Table.{find, put, text_key, number_key}
use babylon_playground_demo.Common.Table.Every.{Every}
use babylon_playground_demo.Float.Units.{thousandths}
use babylon_playground_demo.Trigger.Clock.{Clock, clock}
use babylon_playground_demo.Trigger.Dispatch.{DynTrigger, dyn_trigger, check}
use babylon_playground_demo.Types.{normal}
use babylon_playground_demo.SmartId.{decode}
use babylon_playground_demo.Instruction.{
  InstructionKind, market_buy, ManagedInstruction, new_instruction, running,
}
use babylon_playground_demo.Order.Data.{OrderFill, OrderFillStatus, new_fill}
use babylon_playground_demo.Order.Monad.{panicked}
use babylon_playground_demo.Order.Samples.{bid}
use babylon_playground_demo.Order.Monad as OrderMonad
use babylon_playground_demo.Order.Compute as OrderCompute
use babylon_playground_demo.Order.Validate as OrderValidate
use babylon_playground_demo.Trade.Data.{Trade}
use babylon_playground_demo.Trade.Compute as TradeCompute
use babylon_playground_demo.Trade.Monad as TradeMonad
use babylon_playground_demo.Trade.Operation as TradeOperation
use babylon_playground_demo.Trade.Validate as TradeValidate
use babylon_playground_demo.Trade.State
use babylon_playground_demo.Trade.Diagram.{here, onward, begin_entry, cancel_entry}
use babylon_playground_demo.Common.Table.Distinct.{Distinct}
use babylon_playground_demo.Trade.Samples.{trade}
use babylon_playground_demo.Trader.Data.{Trader, TraderSymbolContext, new}
use babylon_playground_demo.Trader.Error.{TraderError, symbol_not_found}
use babylon_playground_demo.Trader.Query.{get_trade, get_context, size}
use babylon_playground_demo.Trader.Compute
use babylon_playground_demo.Trader.Compute.{Handed, hand_over, instruct}
use babylon_playground_demo.Trader.Create
use babylon_playground_demo.Trader.Operation.{
  TraderOperation, perform, perform_all, create_context, create_order, create_trade, filled,
  confirm,
}
use babylon_playground_demo.Trader.Monad.{TraderMachine, ◌>>=◌}
use babylon_playground_demo.Trader.Carried.Calls.{AllAdmissible}
use babylon_playground_demo.Trader.Registry.{TradeKept}
use babylon_playground_demo.Trader.Registry.Calls.{perform_all-TradeKept}
use babylon_playground_demo.Trader.Room.{perform_all-Roomy}
use babylon_playground_demo.Trader.Standalone.{confirm-panicked}
use babylon_playground_demo.Trader.Orderly.{compute-removes}
use babylon_playground_demo.Trader.Handed.{hand_over-once}
use babylon_playground_demo.Trader.Samples.{counts, empty_context, outside, funds}

abbrev begun : TraderMachine ℕ ℕ (DynTrigger ℕ Clock)
begun = record { trader = new funds; reads = 0 }

abbrev calls : List (TraderOperation ℕ ℕ (DynTrigger ℕ Clock))
calls = create_context empty_context ∷ create_trade trade ∷ []

abbrev ended : Trader ℕ ℕ (DynTrigger ℕ Clock)
ended = (perform_all outside 12 calls begun).trader

abbrev found_or : {A : Type 0} → A → Result (TraderError ℕ) A → A
found_or a (ok b) = b
found_or a (err e) = a

abbrev is_ok : {A : Type 0} → Result (TraderError ℕ) A → Bool
is_ok (ok a) = true
is_ok (err e) = false

found : {A : Type 0} (a : A) (r : Result (TraderError ℕ) A) → is_ok r ≡ true → r ≡ ok (found_or a r)
found a (ok b) h = refl
found a (err e) h = cc

abbrev entering : Trade ℕ (DynTrigger ℕ Clock)
entering = found_or trade (get_trade "BTCUSDT" 1 ended)

perform_all-TradeKept_example : TradeKept "BTCUSDT" 1 entering
unfolding get_trade perform_all perform Compute.compute Create.create_context Create.create_trade
    ◌>>=◌ TradeCompute.compute TradeMonad.◌>>=◌ OrderCompute.compute OrderMonad.◌>>=◌
    TradeValidate.validate AllAdmissible Every new find check TradeOperation.perform
    babylon_playground_demo.Common.Result.refuse_if babylon_playground_demo.Timeframe.timeframe_eq
    babylon_playground_demo.Common.Table.put babylon_playground_demo.Common.Table.text_key
    babylon_playground_demo.Order.Query.is_failed babylon_playground_demo.Order.Operation.perform
    babylon_playground_demo.Order.State.transition babylon_playground_demo.Order.Make.opening
    new_instruction babylon_playground_demo.Trade.State.transition
    babylon_playground_demo.SmartId.order_kind babylon_playground_demo.Common.Table.erase_all
    babylon_playground_demo.Common.Table.number_key
perform_all-TradeKept_example =
    perform_all-TradeKept outside 12 calls funds 0 "BTCUSDT" 1 entering (tt, (tt, tt))
      (found trade (get_trade "BTCUSDT" 1 ended) refl)

abbrev orders : List (TraderOperation ℕ ℕ (DynTrigger ℕ Clock))
orders =
    create_context empty_context
    ∷ create_order bid
    ∷ create_order (record bid { local_order_id = 8 })
    ∷ []

abbrev filled_up : TraderSymbolContext ℕ ℕ (DynTrigger ℕ Clock)
filled_up =
    found_or empty_context (get_context "BTCUSDT" (perform_all outside 12 orders begun).trader)

perform_all-Roomy_example : size filled_up.orders ≤ filled_up.max_orders
unfolding get_context perform_all perform Compute.compute Create.create_context Create.create_order
    ◌>>=◌ OrderCompute.compute OrderMonad.◌>>=◌ OrderValidate.validate AllAdmissible new find check
    babylon_playground_demo.Common.Result.refuse_if babylon_playground_demo.Common.Table.put
    babylon_playground_demo.Common.Table.text_key babylon_playground_demo.Cooldown.is_available
    babylon_playground_demo.Balance.check babylon_playground_demo.Appraiser.normalize_quote
    babylon_playground_demo.Appraiser.round_quote babylon_playground_demo.Float.round_to_precision
    babylon_playground_demo.Cooldown.use_cooldown babylon_playground_demo.Order.State.transition
    babylon_playground_demo.Order.Make.opening new_instruction
    babylon_playground_demo.Common.Table.number_key babylon_playground_demo.Common.Table.erase_all
perform_all-Roomy_example =
    perform_all-Roomy outside 12 orders funds 0 "BTCUSDT" filled_up (omega arith, (tt, (tt, tt)))
      (found empty_context (get_context "BTCUSDT" (perform_all outside 12 orders begun).trader)
        refl)

abbrev alone : TraderMachine ℕ ℕ (DynTrigger ℕ Clock)
alone = record {
  trader = record (new funds) {
    trader_symbol_contexts = ("BTCUSDT", record empty_context { orders = (7, bid) ∷ [] }) ∷ [];
  };
  reads = 0;
}

fill : OrderFill ℕ
fill = new_fill OrderFillStatus.filled 99_000 2_000 2_000 198_000 1_000_050

-- Order 7 is there.
confirm-panicked_example : confirm outside 12 "BTCUSDT" 7 (filled fill) alone ≡ (panicked, alone)
unfolding Every decode new
confirm-panicked_example = confirm-panicked outside 12 "BTCUSDT" 7 (filled fill) alone refl (tt, tt)

abbrev waiting : ManagedInstruction ℕ
waiting =
    new_instruction 1 5 "BTCUSDT" normal
      (record {
        is_special = false;
        kind = InstructionKind.create_order;
        trade_id = none;
        local_order_id = some 7;
        local_stop_order_id = none;
        process_id = none;
      })
      (market_buy "BTCUSDT" 7 2_000) none none

abbrev handed : Handed ℕ
handed = record {
  special = none;
  regular = some (record waiting { state = running });
  picked = instruct (record waiting { state = running }) ∷ [];
}

hand_over-once_example : hand_over 9 none handed.regular ≡ ok (record handed { picked = [] })
unfolding hand_over new_instruction
hand_over-once_example = hand_over-once 6 9 none (some waiting) handed refl

-- The trade was closed by a cancelled entry.
abbrev ended_trade : Trade ℕ (DynTrigger ℕ Clock)
ended_trade = record trade { state = State.closed; close_reason = some State.cancelled }

abbrev with_ended : List (TraderOperation ℕ ℕ (DynTrigger ℕ Clock))
with_ended = create_context (record empty_context { trades = (1, ended_trade) ∷ [] }) ∷ []

abbrev holding : TraderMachine ℕ ℕ (DynTrigger ℕ Clock)
holding = perform_all outside 12 with_ended begun

compute-removes_example :
    get_trade "BTCUSDT" 1 (Compute.compute outside 12 holding).1.trader
    ≡ err (symbol_not_found "BTCUSDT")
unfolding get_trade perform_all Compute.compute ◌>>=◌ AllAdmissible Every Distinct new find
    Create.create_context put text_key number_key
compute-removes_example =
    compute-removes outside 12 with_ended funds 0 holding "BTCUSDT" 1 ended_trade
      (
        (
          (((refl, refl), (refl, (onward (onward here begin_entry) cancel_entry, refl))), tt),
          (refl, tt),
        ),
        tt,
      )
      refl refl refl refl
