-- ===== src/Order/Operation.antt =====
-- src/order.rs: a call that the rest of the program makes on an order, as a value, and a sequence of such
-- calls.
use babylon_playground_demo.Common.{ℕ, Option, List, [], ◌∷◌}
use babylon_playground_demo.Float.{OrderedFloat}
use babylon_playground_demo.Trigger.{Trigger}
use babylon_playground_demo.Instruction.{OrderId, InstructionExecutionResult}
use babylon_playground_demo.Order.Data.{OrderMode, OrderFill, NormalizedOrderEvent}
use babylon_playground_demo.Order.Monad.{World, M, Machine}
use babylon_playground_demo.Order.Compute.{compute}
use babylon_playground_demo.Order.Confirm

pub data Operation (W T : Type 0) : Type 0 where
  compute_order : Operation W T
  pause : Operation W T
  resume : Operation W T
  set_pending_mode : Option OrderMode → Operation W T
  terminate : Operation W T
  cancel_and_idle : Operation W T
  cancel_pending_instruction : Operation W T
  set_initial_quantity : W → Operation W T
  set_activator : T → Operation W T
  set_deactivator : T → Operation W T
  confirm_instruction_execution : InstructionExecutionResult → Operation W T
  confirm_opened : Option OrderId → Operation W T
  confirm_open_failed : Operation W T
  confirm_replace_failed : Operation W T
  confirm_filled : OrderFill W → Operation W T
  confirm_cancelled : Operation W T
  confirm_cancel_failed : Operation W T
  confirm_rejected : Operation W T
  confirm_expired : Operation W T
  confirm_replaced : NormalizedOrderEvent W → Operation W T

module _ {W T : Type 0} ⦃f : OrderedFloat W⦄ ⦃t : Trigger W T⦄ (world : World W) (depth : ℕ) where
  unfoldable pub perform : Operation W T → M W T (Unit {0})
  perform compute_order = compute world depth
  perform pause = Confirm.pause world depth
  perform resume = Confirm.resume world depth
  perform (set_pending_mode new_mode) = Confirm.set_pending_mode world depth new_mode
  perform terminate = Confirm.terminate world depth
  perform cancel_and_idle = Confirm.cancel_and_idle world depth
  perform cancel_pending_instruction = Confirm.cancel_pending_instruction world depth
  perform (set_initial_quantity quantity) = Confirm.set_initial_quantity world depth quantity
  perform (set_activator activator) = Confirm.set_activator world depth activator
  perform (set_deactivator deactivator) = Confirm.set_deactivator world depth deactivator
  perform (confirm_instruction_execution result) =
      Confirm.confirm_instruction_execution world depth result
  perform (confirm_opened id) = Confirm.confirm_opened world depth id
  perform confirm_open_failed = Confirm.confirm_open_failed world depth
  perform confirm_replace_failed = Confirm.confirm_replace_failed world depth
  perform (confirm_filled fill) = Confirm.confirm_filled world depth fill
  perform confirm_cancelled = Confirm.confirm_cancelled world depth
  perform confirm_cancel_failed = Confirm.confirm_cancel_failed world depth
  perform confirm_rejected = Confirm.confirm_rejected world depth
  perform confirm_expired = Confirm.confirm_expired world depth
  perform (confirm_replaced event) = Confirm.confirm_replaced world depth event

  -- One call after the other. A call that returns an error leaves what it had changed, and the next
  -- call begins there.
  unfoldable pub perform_all : List (Operation W T) → Machine W T → Machine W T
  unfolding perform
  perform_all [] m = m
  perform_all (o ∷ os) m = perform_all os (perform o m).1
