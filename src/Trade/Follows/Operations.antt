-- ===== src/Trade/Follows/Operations.antt =====
-- Every call that the rest of the program makes on a trade keeps to the diagrams.
use babylon_playground_demo.Common.{
  ◌≡◌, inl, ℕ, true, false, Option, none, some, List, [], ◌∷◌, arith,
}
use babylon_playground_demo.Float.{OrderedFloat}
use babylon_playground_demo.Trigger.{Trigger}
use babylon_playground_demo.SmartId.{HandleOrderKind}
use babylon_playground_demo.Instruction.{
  HandleId, OrderId, ManagedInstruction, InstructionExecutionResult, ExecutionOutcome, success,
  failure,
}
use babylon_playground_demo.Types.{Ustr}
use babylon_playground_demo.Order.Monad.{World}
use babylon_playground_demo.Order.Operation.{Operation}
use babylon_playground_demo.Trade.State.{
  TradeState, TradeStatus, entering, entry_failed, exit_failed, state_eq,
}
use babylon_playground_demo.Trade.Data.{Trade, Slot}
use babylon_playground_demo.Trade.Query.{is_entering}
use babylon_playground_demo.Trade.Compute.{set_state}
use babylon_playground_demo.Trade.Compute
use babylon_playground_demo.Trade.Confirm
use babylon_playground_demo.Trade.Operation.{
  TradeOperation, perform, perform_all, compute_trade, cancel_active_order_and_idle,
  cancel_active_order_and_terminate, confirm_instruction_execution, confirm_open_failed,
}
use babylon_playground_demo.Trade.Monad.{M, TradeMachine}
use babylon_playground_demo.Trade.Keeps.{Keeps, Keeps-bind, Keeps-guard, keeps_rules}
use babylon_playground_demo.Trade.Follows.{
  Family, Stable, Follows, call-Follows, set_state-Follows, asks, asks-entry_failed,
}
use babylon_playground_demo.Trade.Follows.Compute.{compute-Follows, compute_lifecycle-Follows}

asks-exit_failed : (s : TradeState) → state_eq s entering ≡ false → asks s exit_failed ≡ true
asks-exit_failed s h = ground arith

module _ {W T : Type 0} ⦃f : OrderedFloat W⦄ ⦃t : Trigger W T⦄ (world : World W) (depth : ℕ)
    (Q : Family) (stable : (i : HandleId) (s : Ustr) → Stable (Q i s)) where
  abbrev K : {A : Type 0} → M W T A → Type 0
  K p = Keeps (Follows Q) p

  ruleset basic = (keeps_rules, call-Follows, compute-Follows)

  on_active-Follows :
      (o : Operation W T) (slot : Option Slot) → K (Compute.on_active world depth o slot)
  on_active-Follows o none = search keeps_rules
  on_active-Follows o (some slot) = search basic

  confirm_in-Follows :
      (id : OrderId) (o : Operation W T) (slot : Option Slot)
      → K (Confirm.confirm_in world depth id o slot)
  unfolding Confirm.confirm_in
  confirm_in-Follows id o none = search keeps_rules
  confirm_in-Follows id o (some slot) = search basic

  confirm-Follows : (id : OrderId) (o : Operation W T) → K (Confirm.confirm world depth id o)
  unfolding Confirm.confirm
  confirm-Follows id o = search (keeps_rules, confirm_in-Follows)

  become-Follows :
      (kind : HandleOrderKind) (status : Option TradeStatus)
      → K (Confirm.become {T = T} world depth kind status)
  unfolding Confirm.become
  become-Follows kind none = search keeps_rules
  become-Follows kind (some status) = search keeps_rules

  confirm_special_outcome-Follows :
      (i : ManagedInstruction W) (result : InstructionExecutionResult)
      (outcome : Option ExecutionOutcome)
      → K (Confirm.confirm_special_outcome {T = T} world depth i result outcome)
  unfolding Confirm.confirm_special_outcome Confirm.store_special
  confirm_special_outcome-Follows i result none = search keeps_rules
  confirm_special_outcome-Follows i result (some success) = search keeps_rules depth 16
  confirm_special_outcome-Follows i result (some (failure reason)) = search keeps_rules depth 16

  confirm_special-Follows :
      (trade : Trade W T) (result : InstructionExecutionResult) (i : Option (ManagedInstruction W))
      → K (Confirm.confirm_special world depth trade result i)
  unfolding Confirm.confirm_special
  confirm_special-Follows trade result none = search keeps_rules
  confirm_special-Follows trade result (some i) =
      search (keeps_rules, confirm_special_outcome-Follows) depth 16

  confirm_regular-Follows :
      (kind : HandleOrderKind) (result : InstructionExecutionResult) (slot : Option Slot)
      → K (Confirm.confirm_regular {T = T} world depth kind result slot)
  unfolding Confirm.confirm_regular
  confirm_regular-Follows kind result none = search keeps_rules
  confirm_regular-Follows kind result (some slot) = search basic

  confirm_of_order-Follows :
      (trade : Trade W T) (result : InstructionExecutionResult) (id : Option OrderId)
      → K (Confirm.confirm_of_order world depth trade result id)
  unfolding Confirm.confirm_of_order
  confirm_of_order-Follows trade result none = search keeps_rules
  confirm_of_order-Follows trade result (some id) =
      search (keeps_rules, confirm_special-Follows, confirm_regular-Follows) depth 16

  confirm_open_failed-Follows : (id : OrderId) → K (Confirm.confirm_open_failed world depth id)
  unfolding Confirm.confirm_open_failed Confirm.rest
  confirm_open_failed-Follows id = Keeps-bind _ _ (confirm-Follows id _) λ _.
      Keeps-bind _ _ (search keeps_rules) λ _.
        Keeps-guard is_entering (set_state world depth entry_failed)
          (set_state world depth exit_failed) (Compute.compute world depth)
          (λ m h e.
            set_state-Follows world depth Q stable entry_failed m (asks-entry_failed m.trade.state)
              (inl (λ e. cc)) h)
          (λ m h e.
            set_state-Follows world depth Q stable exit_failed m (asks-exit_failed m.trade.state e)
              (inl (λ e. cc)) h)
          (compute-Follows world depth Q stable)

  pub perform-Follows : (o : TradeOperation W) → K (perform world depth o)
  unfolding perform Confirm.confirm_opened Confirm.confirm_replace_failed Confirm.confirm_filled
      Confirm.confirm_cancelled Confirm.confirm_cancel_failed Confirm.confirm_rejected
      Confirm.confirm_expired Confirm.confirm_replaced Confirm.confirm_instruction_execution
      Confirm.become_status_of Confirm.rest Compute.cancel_active_order_and_idle
      Compute.cancel_active_order_and_terminate
  perform-Follows cancel_active_order_and_idle = search (keeps_rules, on_active-Follows)
  perform-Follows cancel_active_order_and_terminate = search (keeps_rules, on_active-Follows)
  perform-Follows (confirm_instruction_execution result) =
      search (basic, confirm_of_order-Follows, compute_lifecycle-Follows) depth 16
  perform-Follows (confirm_open_failed id) = confirm_open_failed-Follows id
  perform-Follows compute_trade = compute-Follows world depth Q stable
  perform-Follows _ = search (basic, confirm-Follows, become-Follows) depth 20

  pub perform_all-Follows :
      (os : List (TradeOperation W)) (m : TradeMachine W T)
      → Follows Q m.trade
      → Follows Q (perform_all world depth os m).trade
  unfolding perform_all
  perform_all-Follows [] m h = h
  perform_all-Follows (o ∷ os) m h =
      perform_all-Follows os (perform world depth o m).1 ((perform-Follows o).at m h)
