-- ===== src/Order/Compute.antt =====
-- src/order.rs: `compute` and `compute_next_instruction`. In the first section the two recursive methods
-- are parameters; at the end they are tied together by recursion on the depth of the nested calls.
use babylon_playground_demo.Common.{
  ℕ, zero, suc, false, not, ◌&&◌, Option, none, some, if◌then◌else◌,
}
use babylon_playground_demo.Float.{OrderedFloat}
use babylon_playground_demo.Trigger.{Trigger}
use babylon_playground_demo.Types.{priority_lt}
use babylon_playground_demo.Instruction.{ManagedInstruction, is_new, kind_eq}
use babylon_playground_demo.Order.State.{idle, pending_open, opened, pending_cancel, state_eq}
use babylon_playground_demo.Order.Error.{cannot_cancel_active_pending_instruction}
use babylon_playground_demo.Order.Data.{Order}
use babylon_playground_demo.Order.Query.{
  is_pending_cancel_only, set_pending_instruction, clear_pending_instruction,
}
use babylon_playground_demo.Order.Trail.{return, clear_settled, is_held_back}
use babylon_playground_demo.Order.Handlers.{set_state_with, next_with}
use babylon_playground_demo.Order.Monad.{World, M, fail, diverge, gets, modify, ◌>>=◌, ◌>>◌}

module _ {W T : Type 0} ⦃f : OrderedFloat W⦄ ⦃t : Trigger W T⦄ (world : World W) where
  module _ (compute : M W T (Unit {0}))
      (compute_next_instruction : M W T (Option (ManagedInstruction W))) where
    -- `cancel_pending_instruction` past its early returns, by the state and the flags.
    unfoldable pub revert_state : Order W T → M W T (Unit {0})
    unfolding set_state_with
    revert_state o =
        if state_eq o.state pending_open
        then set_state_with world compute compute_next_instruction idle
        else if is_pending_cancel_only o
        then set_state_with world compute compute_next_instruction opened
        else if state_eq o.state pending_cancel && o.cancel_and_replace_flag
        then (do
          set_state_with world compute compute_next_instruction opened
          modify (λ p. record p { cancel_and_replace_flag = false }))
        else if state_eq o.state pending_cancel && o.cancel_and_idle_flag
        then (do
          set_state_with world compute compute_next_instruction opened
          modify (λ p. record p { cancel_and_idle_flag = false }))
        else return

    unfoldable pub cancel_instruction : Option (ManagedInstruction W) → M W T (Unit {0})
    unfolding revert_state clear_pending_instruction
    cancel_instruction none = return
    cancel_instruction (some pending) = do
      o ← gets (λ o. o)
      if not (is_new pending)
          then fail (cannot_cancel_active_pending_instruction o.trade_id o.local_order_id pending)
          else do modify clear_pending_instruction; revert_state o; compute

    unfoldable pub cancel_pending_instruction_with : M W T (Unit {0})
    unfolding cancel_instruction
    cancel_pending_instruction_with = do
      o ← gets (λ o. o)
      if o.termination_flag then return else cancel_instruction o.pending_instruction

    -- The `match` of `compute` on the pending and the next instruction.
    unfoldable pub reconcile :
        Option (ManagedInstruction W) → Option (ManagedInstruction W) → M W T (Unit {0})
    unfolding cancel_pending_instruction_with set_pending_instruction
    reconcile none none = return
    reconcile (some existing) none = return
    reconcile none (some new_instruction) = do
      modify (set_pending_instruction new_instruction)
      compute
    reconcile (some existing) (some new_instruction) =
        if not (is_new existing)
        then return
        else if kind_eq existing.metadata.kind new_instruction.metadata.kind
        then (do modify (set_pending_instruction new_instruction); compute)
        else if priority_lt existing.priority new_instruction.priority
        then (do
          cancel_pending_instruction_with
          modify (set_pending_instruction new_instruction)
          compute)
        else return

    unfoldable pub compute_with : M W T (Unit {0})
    unfolding is_held_back clear_settled reconcile
    compute_with = do
      created ← gets (λ o. o.is_created_on_exchange)
      held ← is_held_back world created
      if held then return else do
        modify clear_settled
        next ← compute_next_instruction
        existing ← gets (λ o. o.pending_instruction)
        reconcile existing next

  unfoldable mutual
    unfolding compute_with next_with

    pub compute : ℕ → M W T (Unit {0})
    compute zero = diverge
    compute (suc depth) = compute_with (compute depth) (compute_next_instruction depth)

    pub compute_next_instruction : ℕ → M W T (Option (ManagedInstruction W))
    compute_next_instruction zero = diverge
    compute_next_instruction (suc depth) =
        next_with world (compute depth) (compute_next_instruction depth)
