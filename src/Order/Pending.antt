-- ===== src/Order/Pending.antt =====
-- The pending instruction: what is being executed is left alone.
use babylon_playground_demo.Common.{
  refl, Bool, ◌||◌, ◌==◌, subst, List, [], ◌∷◌, ℕ, ◌≢◌, ◌≡◌, false, true, some, Option, arith,
}
use babylon_playground_demo.Float.{OrderedFloat}
use babylon_playground_demo.Trigger.{Trigger}
use babylon_playground_demo.Instruction.{
  InstructionExecutionResult, ManagedInstruction, is_new, running,
}
use babylon_playground_demo.Order.Query.{may_override}
use babylon_playground_demo.Order.Monad.{World, Machine, ◌>>=◌}
use babylon_playground_demo.Order.Follows.{Stable, is_running}
use babylon_playground_demo.Order.Follows.Compute.{compute-Follows}
use babylon_playground_demo.Order.Operation.{
  Operation, confirm_instruction_execution, perform, perform_all,
}
use babylon_playground_demo.Order.State.{OrderState}
use babylon_playground_demo.Order.Follows.Operations.{Free, perform-Follows}
use babylon_playground_demo.Order.Compute.{compute}
use babylon_playground_demo.Order.Confirm

-- The pending instruction is this one.
abbrev Underway :
    {W : Type 0} → ManagedInstruction W → OrderState → Option (ManagedInstruction W) → Type 0
Underway i s j = j ≡ some i

module _ {W : Type 0} (i : ManagedInstruction W) (runs : i.state ≡ running) where
  not_overridden :
      (j : Option (ManagedInstruction W)) (n : ManagedInstruction W)
      → j ≡ some i
      → may_override j n ≢ true
  unfolding is_new
  not_overridden j n h may = ground arith

  not_idle : (j : Option (ManagedInstruction W)) → j ≡ some i → is_running j ≢ false
  not_idle j h idle = ground arith

  Underway-Stable : Stable (Free (Underway i))
  Underway-Stable = record {
    move = λ s u v j e h. h;
    pend = λ s v j n may h. absurd (not_overridden j n h may);
    clear = λ s v j idle h. absurd (not_idle j h idle);
  }

-- Whether the call confirms the execution of the instruction with this id, and whether any of the calls does.
abbrev pub confirms : {W T : Type 0} → ℕ → Operation W T → Bool
confirms id (confirm_instruction_execution result) = id == result.instruction_id
confirms id _ = false

abbrev pub any_confirms : {W T : Type 0} → ℕ → List (Operation W T) → Bool
any_confirms id [] = false
any_confirms id (o ∷ os) = confirms id o || any_confirms id os

neither : (a b : Bool) → (a || b) ≡ false → (a ≡ false) × (b ≡ false)
neither a b h = ground arith

module _ {W T : Type 0} ⦃f : OrderedFloat W⦄ ⦃t : Trigger W T⦄ (world : World W) (depth : ℕ) where
  -- However `compute` ends, and whatever it computes, a pending instruction that is running stays the
  -- pending instruction, unchanged.
  pub compute-running :
      (m : Machine W T) (i : ManagedInstruction W)
      → m.order.pending_instruction ≡ some i
      → i.state ≡ running
      → (compute world depth m).1.order.pending_instruction ≡ some i
  compute-running m i pending runs =
      (compute-Follows world (Free (Underway i)) (Underway-Stable i runs) depth).at m pending

  -- The result of the execution of another instruction is refused.
  confirm_result-other :
      (m : Machine W T) (i : ManagedInstruction W) (result : InstructionExecutionResult)
      → (i.id == result.instruction_id) ≡ false
      → m.order.pending_instruction ≡ some i
      → (Confirm.confirm_instruction_execution world depth result m).1.order.pending_instruction
        ≡ some i
  unfolding Confirm.confirm_instruction_execution Confirm.confirm_result ◌>>=◌
  confirm_result-other m i result other pending = rw (pending, other) refl

  perform-running :
      (o : Operation W T) (m : Machine W T) (i : ManagedInstruction W)
      → confirms i.id o ≡ false
      → m.order.pending_instruction ≡ some i
      → i.state ≡ running
      → (perform world depth o m).1.order.pending_instruction ≡ some i
  perform-running o m i other pending runs =
      (perform-Follows world depth (Underway i) (Underway-Stable i runs) o (λ result e. record {
        at =
            λ m h. confirm_result-other m i result (subst (λ o. confirms i.id o ≡ false) e other) h;
      })).at
        m pending

  -- None of the calls on an order changes a running pending instruction or puts another in its place,
  -- but the confirmation of the execution of this instruction: whatever else is called, the results of
  -- other instructions included, and in whatever order.
  pub perform_all-running :
      (os : List (Operation W T)) (m : Machine W T) (i : ManagedInstruction W)
      → any_confirms i.id os ≡ false
      → m.order.pending_instruction ≡ some i
      → i.state ≡ running
      → (perform_all world depth os m).order.pending_instruction ≡ some i
  unfolding perform_all
  perform_all-running [] m i others pending runs = pending
  perform_all-running (o ∷ os) m i others pending runs =
      let (here, later) = neither (confirms i.id o) (any_confirms i.id os) others in
      perform_all-running os (perform world depth o m).1 i later
        (perform-running o m i here pending runs) runs
