-- ===== src/Order/Tests.antt =====
-- An order at concrete prices and times. Prices and quantities are thousandths.
use babylon_playground_demo.Common.{ℕ, ◌≡◌, refl, true, false, none, some, [], ◌∷◌, List}
use babylon_playground_demo.Float.Units.{thousandths}
use babylon_playground_demo.Types.{normal, limit}
use babylon_playground_demo.Trigger.Clock.{Clock, clock}
use babylon_playground_demo.Trigger.Dispatch.{DynTrigger, dyn_trigger, check}
use babylon_playground_demo.Instruction.{
  new_instruction, ManagedInstruction, InstructionMetadata, InstructionExecutionResult, success,
  InstructionKind, running, limit_buy,
}
use babylon_playground_demo.Order.State.{
  filled, pending_open, opened, idle, finished, transition, rejected, expired, cancel_failed,
}
use babylon_playground_demo.Order.Samples.{world, bid}
use babylon_playground_demo.Order.Data.{OrderFillStatus, OrderFill, new_fill}
use babylon_playground_demo.Order.Confirm
use babylon_playground_demo.Order.Compute.{compute}
use babylon_playground_demo.Order.Follows.{terms}
use babylon_playground_demo.Order.Error.{invalid_order_state_transition}
use babylon_playground_demo.Order.Make.{opening}
use babylon_playground_demo.Order.Diagram.{◌⟶*◌, is_unreached}
use babylon_playground_demo.Order.Monad.{Machine, failed, ◌>>=◌}
use babylon_playground_demo.Order.Operation.{
  terminate, pause, confirm_instruction_execution, Operation, perform_all, compute_order,
  confirm_opened, confirm_filled,
}
use babylon_playground_demo.Order.Pending.{any_confirms, compute-running, perform_all-running}
use babylon_playground_demo.Order.Filled.{confirm_filled-terms, filled_terms}
use babylon_playground_demo.Common.Result.{ok}
use babylon_playground_demo.Order.Confirm.{validate_fill}
use babylon_playground_demo.Order.Ends.{Ends, Within}
use babylon_playground_demo.Order.Finish.{compute-filled}
use babylon_playground_demo.Order.Waiting.{compute-waiting}
use babylon_playground_demo.Order.Journey.{
  perform_all-⟶*, perform_all-is_unreached, compute-terms, confirm_rejected-failed,
}

abbrev begun : Machine ℕ (DynTrigger ℕ Clock)
begun = record { order = bid; reads = 0 }

life : List (Operation ℕ (DynTrigger ℕ Clock))
life =
    compute_order
    ∷ confirm_opened (some 4711)
    ∷ confirm_filled (new_fill OrderFillStatus.filled 99_000 2_000 2_000 198_000 1_000_050)
    ∷ compute_order
    ∷ []

whole_life : (perform_all world 20 life begun).order.state ≡ finished
unfolding perform_all life compute ◌>>=◌ Confirm.confirm_filled Confirm.confirm_opened check
    transition opening new_instruction new_fill
whole_life = refl

perform_all-⟶*_example : idle ⟶* (perform_all world 20 life begun).order.state
perform_all-⟶*_example = perform_all-⟶* world 20 life begun

abbrev ended : Machine ℕ (DynTrigger ℕ Clock)
ended = record begun { order = record bid { state = finished } }

perform_all-is_unreached_example :
    is_unreached (perform_all world 20 life begun).order.state ≡ false
perform_all-is_unreached_example = perform_all-is_unreached world 20 life begun refl

compute-terms_example :
    (idle ⟶* (compute world 20 begun).1.order.state)
    × (terms (compute world 20 begun).1.order ≡ terms bid)
compute-terms_example = compute-terms world 20 begun

confirm_rejected-failed_example :
    (Confirm.confirm_rejected world 20 begun
      ≡ (failed (invalid_order_state_transition idle rejected), begun))
    × (Confirm.confirm_expired world 20 begun
        ≡ (failed (invalid_order_state_transition idle expired), begun))
    × (Confirm.confirm_cancel_failed world 20 begun
        ≡ (failed (invalid_order_state_transition idle cancel_failed), begun))
confirm_rejected-failed_example = confirm_rejected-failed world 20 begun refl

abbrev create_metadata : InstructionMetadata
create_metadata = record {
  is_special = false;
  kind = InstructionKind.create_order;
  trade_id = some 1;
  local_order_id = some 7;
  local_stop_order_id = none;
  process_id = none;
}

-- The order has been sent off, and its instruction is being executed.
sent : ManagedInstruction ℕ
sent =
    record (new_instruction 9 1_000_000 "BTCUSDT" normal create_metadata
      (limit_buy "BTCUSDT" 7 limit 2_000 99_000 false) none none) { state = running }

sent_running : sent.state ≡ running
unfolding sent
sent_running = refl

abbrev sending : Machine ℕ (DynTrigger ℕ Clock)
sending = record begun {
  order = record bid { state = pending_open; pending_instruction = some sent };
}

compute-running_example : (compute world 20 sending).1.order.pending_instruction ≡ some sent
compute-running_example = compute-running world 20 sending sent refl sent_running

-- The result of another instruction.
abbrev other_result : InstructionExecutionResult
other_result = record {
  instruction_id = 8;
  symbol = some "BTCUSDT";
  metadata = create_metadata;
  outcome = some success;
  executed_at = none;
  execution_time = none;
}

abbrev interfering : List (Operation ℕ (DynTrigger ℕ Clock))
interfering = terminate ∷ pause ∷ compute_order ∷ confirm_instruction_execution other_result ∷ []

none_of_it : any_confirms sent.id interfering ≡ false
unfolding sent new_instruction
none_of_it = refl

perform_all-running_example :
    (perform_all world 20 interfering sending).order.pending_instruction ≡ some sent
perform_all-running_example =
    perform_all-running world 20 interfering sending sent none_of_it refl sent_running

half_fill : OrderFill ℕ
half_fill = new_fill OrderFillStatus.partially_filled 99_000 1_000 1_000 99_000 1_000_050

abbrev trading : Machine ℕ (DynTrigger ℕ Clock)
trading = record begun { order = record bid { state = opened; is_created_on_exchange = true } }

half_fill-valid : validate_fill half_fill ≡ ok tt
unfolding validate_fill half_fill new_fill
half_fill-valid = refl

confirm_filled-terms_example :
    terms (Confirm.confirm_filled world 20 half_fill trading).1.order
    ≡ filled_terms half_fill (terms trading.order)
confirm_filled-terms_example = confirm_filled-terms world 20 trading half_fill refl half_fill-valid

compute-waiting_example : Ends (compute world 2) sending (Within pending_open)
compute-waiting_example = compute-waiting world 0 sending pending_open refl refl

abbrev done_trading : Machine ℕ (DynTrigger ℕ Clock)
done_trading = record trading { order = record trading.order { state = filled } }

compute-filled_example : Ends (compute world 6) done_trading (Within finished)
compute-filled_example = compute-filled world 0 done_trading refl refl
