-- ===== src/Order/Follows/Operations.antt =====
-- Every call that the rest of the program makes on an order keeps to the diagram.
use babylon_playground_demo.Common.{
  ◌≡◌, refl, ℕ, List, ◌∷◌, [], Option, none, some, Bool, true, false,
}
use babylon_playground_demo.Float.{OrderedFloat}
use babylon_playground_demo.Trigger.{Trigger}
use babylon_playground_demo.Instruction.{
  ManagedInstruction, InstructionExecutionResult, DateTime, ExecutionOutcome, success, failure,
}
use babylon_playground_demo.Order.State.{OrderState}
use babylon_playground_demo.Order.Data.{OrderMode}
use babylon_playground_demo.Order.Diagram.{◌⟶*◌, onward}
use babylon_playground_demo.Order.Monad.{World, M, Machine, modify}
use babylon_playground_demo.Order.Keeps.{Keeps, Keeps-modify, keeps_rules}
use babylon_playground_demo.Order.Query.{clear_pending_instruction}
use babylon_playground_demo.Order.Follows.{
  Aspect, Stable, Follows, touch-Follows, set_state_with-Follows,
}
use babylon_playground_demo.Order.Follows.Compute.{
  compute-Follows, compute_next_instruction-Follows, cancel_pending_instruction_with-Follows,
}
use babylon_playground_demo.Order.Confirm
use babylon_playground_demo.Order.Operation.{
  Operation, pause, resume, set_pending_mode, cancel_pending_instruction,
  confirm_instruction_execution, confirm_cancelled, perform, perform_all,
}

-- An aspect that does not look at the terms, which the calls may change.
abbrev pub Free : {W : Type 0} → (OrderState → Option (ManagedInstruction W) → Type 0) → Aspect W
Free R s v i = R s i

-- The state is reached from `start` along the diagram.
abbrev pub Reached : {W : Type 0} → OrderState → OrderState → Option (ManagedInstruction W) → Type 0
Reached start s i = start ⟶* s

pub Reached-Stable : {W : Type 0} (start : OrderState) → Stable {W = W} (Free (Reached start))
Reached-Stable start = record {
  move = λ s u v i e h. onward h e;
  pend = λ s v i j may h. h;
  clear = λ s v i idle h. h;
}

module _ {W T : Type 0} ⦃f : OrderedFloat W⦄ ⦃t : Trigger W T⦄ (world : World W) (depth : ℕ)
    (R : OrderState → Option (ManagedInstruction W) → Type 0) (stable : Stable (Free R)) where
  abbrev K : {A : Type 0} → M W T A → Type 0
  K p = Keeps (Follows (Free R)) p

  ruleset basic = (keeps_rules, touch-Follows, compute-Follows)

  change_state-Follows : (s : OrderState) → K (Confirm.change_state world depth s)
  unfolding Confirm.change_state
  change_state-Follows s = search (basic, set_state_with-Follows, compute_next_instruction-Follows)

  ruleset moving = (basic, change_state-Follows)

  cancel_pending_instruction-Follows : K (Confirm.cancel_pending_instruction world depth)
  unfolding Confirm.cancel_pending_instruction
  cancel_pending_instruction-Follows =
      search (basic, cancel_pending_instruction_with-Follows, compute_next_instruction-Follows)

  set_pending_mode-Follows :
      (mode : Option OrderMode) → K (Confirm.set_pending_mode world depth mode)
  unfolding Confirm.set_pending_mode
  set_pending_mode-Follows mode = search basic

  cancel_by_flags-Follows : (a b : Bool) → K (Confirm.cancel_by_flags world depth a b)
  unfolding Confirm.cancel_by_flags Confirm.pause
  cancel_by_flags-Follows true b = search moving depth 16
  cancel_by_flags-Follows false true = search (moving, set_pending_mode-Follows) depth 16
  cancel_by_flags-Follows false false = search moving

  pub perform-Follows :
      (o : Operation W T)
      → ((result : InstructionExecutionResult)
          → o ≡ confirm_instruction_execution result
          → K (Confirm.confirm_instruction_execution world depth result))
      → K (perform world depth o)
  unfolding perform Confirm.pause Confirm.resume Confirm.terminate Confirm.cancel_and_idle
      Confirm.set_initial_quantity Confirm.set_activator Confirm.set_deactivator Confirm.unless_in
      Confirm.confirm_opened Confirm.confirm_open_failed Confirm.confirm_replace_failed
      Confirm.confirm_filled Confirm.confirm_cancelled Confirm.confirm_cancel_failed
      Confirm.confirm_rejected Confirm.confirm_expired Confirm.confirm_replaced
  perform-Follows pause confirms = search set_pending_mode-Follows
  perform-Follows resume confirms = search set_pending_mode-Follows
  perform-Follows (set_pending_mode mode) confirms = search set_pending_mode-Follows
  perform-Follows cancel_pending_instruction confirms = cancel_pending_instruction-Follows
  perform-Follows (confirm_instruction_execution result) confirms = confirms result refl
  perform-Follows confirm_cancelled confirms = search (basic, cancel_by_flags-Follows) depth 16
  perform-Follows _ confirms = search moving depth 30

module _ {W T : Type 0} ⦃f : OrderedFloat W⦄ ⦃t : Trigger W T⦄ (world : World W) (depth : ℕ)
    (start : OrderState) where
  abbrev L : {A : Type 0} → M W T A → Type 0
  L p = Keeps (Follows (Free (Reached start))) p

  clear_pending_instruction-Reached : L (modify clear_pending_instruction)
  unfolding clear_pending_instruction
  clear_pending_instruction-Reached = Keeps-modify clear_pending_instruction (λ o h. h)

  ruleset reaching = (
    Reached-Stable, keeps_rules, touch-Follows, compute-Follows, clear_pending_instruction-Reached,
  )

  confirm_outcome-Reached :
      (i : ManagedInstruction W) (at : Option DateTime) (outcome : Option ExecutionOutcome)
      → L (Confirm.confirm_outcome world depth i at outcome)
  unfolding Confirm.confirm_outcome
  confirm_outcome-Reached i at none = search reaching
  confirm_outcome-Reached i at (some success) = search reaching depth 20
  confirm_outcome-Reached i at (some (failure reason)) = search reaching depth 20

  confirm_result-Reached :
      (i : Option (ManagedInstruction W)) (result : InstructionExecutionResult)
      → L (Confirm.confirm_result world depth i result)
  unfolding Confirm.confirm_result
  confirm_result-Reached none result = search reaching
  confirm_result-Reached (some i) result = search (reaching, confirm_outcome-Reached)

  confirm_instruction_execution-Reached :
      (result : InstructionExecutionResult)
      → L (Confirm.confirm_instruction_execution world depth result)
  unfolding Confirm.confirm_instruction_execution
  confirm_instruction_execution-Reached result = search (reaching, confirm_result-Reached)

  pub perform_all-Reached :
      (os : List (Operation W T)) (m : Machine W T)
      → start ⟶* m.order.state
      → start ⟶* (perform_all world depth os m).order.state
  unfolding perform_all
  perform_all-Reached [] m h = h
  perform_all-Reached (o ∷ os) m h = perform_all-Reached os (perform world depth o m).1 (
      (perform-Follows world depth (Reached start) (Reached-Stable start) o
          (λ result e. confirm_instruction_execution-Reached result)).at
        m h)
