-- ===== src/Order/Follows/Compute.antt =====
-- The handlers of `compute` and `compute` itself keep to the diagram and to the terms.
use babylon_playground_demo.Common.{
  ◌≡◌, refl, arith, not, if◌then◌else◌, ℕ, zero, suc, Option, none, some, Bool, true, false,
}
use babylon_playground_demo.Float.{OrderedFloat}
use babylon_playground_demo.Trigger.{Trigger}
use babylon_playground_demo.Instruction.{ManagedInstruction, is_new}
use babylon_playground_demo.Order.State.{
  OrderState, idle, pending_open, open_failed, opened, partially_filled,
}
use babylon_playground_demo.Order.Data.{Order, OrderMode, StoplossMetadata}
use babylon_playground_demo.Order.Monad.{modify, fail, World, M, Machine, ◌>>=◌, ◌>>◌}
use babylon_playground_demo.Order.Keeps.{Keeps, Keeps-modify, Keeps-if-at, keeps_rules}
use babylon_playground_demo.Order.Query.{
  set_pending_instruction, clear_pending_instruction, may_override,
}
use babylon_playground_demo.Order.Trail.{return, settled, clear_settled}
use babylon_playground_demo.Order.Keeps.Make.{
  instruction_open-Keeps, instruction_cancel-Keeps, instruction_cancel_replace_stoploss-Keeps,
}
use babylon_playground_demo.Order.Follows.{
  terms, Aspect, Stable, is_running, Follows, Kept, check_activator-Follows, is_held_back-Follows,
  set_state_with-Follows,
}
use babylon_playground_demo.Order.Error.{OrderError}
use babylon_playground_demo.Order.Handlers
use babylon_playground_demo.Order.Compute

module _ {W T : Type 0} ⦃f : OrderedFloat W⦄ ⦃t : Trigger W T⦄ (world : World W) (Q : Aspect W)
    (stable : Stable Q) (c : M W T (Unit {0})) (n : M W T (Option (ManagedInstruction W)))
    (kc : Kept {T = T} world Q stable c) (kn : Kept {T = T} world Q stable n) where
  abbrev K : {A : Type 0} → M W T A → Type 0
  K p = Keeps (Follows Q) p

  set_pending-Follows :
      (b : Bool) (i : ManagedInstruction W) (o : Order W T)
      → may_override o.pending_instruction i ≡ b
      → Follows Q o
      → Follows Q (if b then record o { pending_instruction = some i } else o)
  set_pending-Follows true i o may h = stable.pend o.state (terms o) o.pending_instruction i may h
  set_pending-Follows false i o may h = h

  set_pending_instruction-Follows :
      (i : ManagedInstruction W) → K (modify (set_pending_instruction i))
  unfolding set_pending_instruction
  set_pending_instruction-Follows i =
      Keeps-modify (set_pending_instruction i)
        (λ o. set_pending-Follows (may_override o.pending_instruction i) i o refl)

  settled-is_running : (i : Option (ManagedInstruction W)) → settled i ≡ true → is_running i ≡ false
  settled-is_running i h = ground arith

  clear_if-Follows :
      (b : Bool) (o : Order W T)
      → settled o.pending_instruction ≡ b
      → Follows Q o
      → Follows Q (if b then record o { pending_instruction = none } else o)
  clear_if-Follows true o e h =
      stable.clear o.state (terms o) o.pending_instruction
        (settled-is_running o.pending_instruction e) h
  clear_if-Follows false o e h = h

  clear_settled-Follows : K (modify clear_settled)
  unfolding clear_settled clear_pending_instruction
  clear_settled-Follows =
      Keeps-modify clear_settled (λ o. clear_if-Follows (settled o.pending_instruction) o refl)

  ruleset basic = (
    keeps_rules, set_state_with-Follows, check_activator-Follows, instruction_open-Keeps,
    instruction_cancel-Keeps, instruction_cancel_replace_stoploss-Keeps,
    set_pending_instruction-Follows, clear_settled-Follows,
  )

  open_idle-Follows : K (Handlers.open_idle world c n)
  unfolding Handlers.open_idle
  open_idle-Follows = search basic depth 16

  switch_mode-Follows :
      (mode : OrderMode) (pending : Option OrderMode)
      → K (Handlers.switch_mode world c n mode pending)
  unfolding Handlers.switch_mode
  switch_mode-Follows mode none = open_idle-Follows
  switch_mode-Follows mode (some pending) = search (keeps_rules, open_idle-Follows) depth 16

  handle_idle-Follows : K (Handlers.handle_idle world c n)
  unfolding Handlers.handle_idle
  handle_idle-Follows = search (keeps_rules, switch_mode-Follows) depth 16

  terminate_with-Follows : K (Handlers.terminate_with world c n)
  unfolding Handlers.terminate_with
  terminate_with-Follows = search keeps_rules depth 16

  retry_open-Follows : (b : Bool) → K (Handlers.retry_open world c n b)
  unfolding Handlers.retry_open
  retry_open-Follows true = search (keeps_rules, terminate_with-Follows) depth 16
  retry_open-Follows false = search basic depth 16

  handle_open_failed-Follows : K (Handlers.handle_open_failed world c n)
  unfolding Handlers.handle_open_failed
  handle_open_failed-Follows =
      search (keeps_rules, retry_open-Follows, terminate_with-Follows) depth 16

  cancel-Follows : K (Handlers.cancel world c n)
  unfolding Handlers.cancel
  cancel-Follows = search basic depth 16

  replace_stop-Follows : (r : Option (W × Option W)) → K (Handlers.replace_stop world c n r)
  unfolding Handlers.replace_stop
  replace_stop-Follows none = search keeps_rules depth 16
  replace_stop-Follows (some (stop, limit)) = search basic depth 16

  stoploss_of-Follows :
      (price : W) (s : Option (StoplossMetadata W)) → K (Handlers.stoploss_of world c n price s)
  unfolding Handlers.stoploss_of
  stoploss_of-Follows price none = search keeps_rules depth 16
  stoploss_of-Follows price (some s) = search (basic, replace_stop-Follows) depth 16

  compute_stoploss_with-Follows : (price : W) → K (Handlers.compute_stoploss_with world c n price)
  unfolding Handlers.compute_stoploss_with
  compute_stoploss_with-Follows price = search (keeps_rules, stoploss_of-Follows) depth 16

  handle_opened_and_partially_filled-Follows :
      K (Handlers.handle_opened_and_partially_filled world c n)
  unfolding Handlers.handle_opened_and_partially_filled
  handle_opened_and_partially_filled-Follows =
      search (keeps_rules, cancel-Follows, compute_stoploss_with-Follows) depth 16

  next_of-Follows : (s : OrderState) → K (Handlers.next_of world c n s)
  unfolding Handlers.next_of Handlers.handle_instruction_failed Handlers.handle_cancelled
      Handlers.handle_filled Handlers.handle_replaced Handlers.handle_closed
  next_of-Follows idle = handle_idle-Follows
  next_of-Follows pending_open = search keeps_rules depth 16
  next_of-Follows open_failed = handle_open_failed-Follows
  next_of-Follows opened = handle_opened_and_partially_filled-Follows
  next_of-Follows partially_filled = handle_opened_and_partially_filled-Follows
  next_of-Follows _ = search basic depth 16

  next_with-Follows : K (Handlers.next_with world c n)
  unfolding Handlers.next_with
  next_with-Follows = search (keeps_rules, next_of-Follows) depth 16

  revert_state-Follows : (o : Order W T) → K (Compute.revert_state world c n o)
  unfolding Compute.revert_state
  revert_state-Follows o = search basic depth 16

  new-is_running : (i : ManagedInstruction W) → is_new i ≡ true → is_running (some i) ≡ false
  unfolding is_new
  new-is_running i h = ground arith

  -- What `cancel_pending_instruction` does once the pending instruction is known to be new.
  withdraw : Order W T → M W T (Unit {0})
  withdraw o = Compute.revert_state world c n o >> c

  withdraw-Follows : (o : Order W T) → K (withdraw o)
  unfolding withdraw
  withdraw-Follows o = search (basic, revert_state-Follows) depth 16

  cancel_if-Follows :
      (b : Bool) (i : ManagedInstruction W) (problem : OrderError W) (m : Machine W T)
      → is_new i ≡ b
      → m.order.pending_instruction ≡ some i
      → Follows Q m.order
      → Follows Q
          ((if not b then fail problem else (modify clear_pending_instruction >> withdraw m.order))
            m).1.order
  unfolding clear_pending_instruction ◌>>=◌
  cancel_if-Follows true i problem m fresh e h =
      (withdraw-Follows m.order).at (record m { order = clear_pending_instruction m.order })
        (stable.clear m.order.state (terms m.order) m.order.pending_instruction
          (rw e (new-is_running i fresh)) h)
  cancel_if-Follows false i problem m fresh e h = h

  cancel_instruction-Follows :
      (i : Option (ManagedInstruction W)) (m : Machine W T)
      → m.order.pending_instruction ≡ i
      → Follows Q m.order
      → Follows Q (Compute.cancel_instruction world c n i m).1.order
  unfolding Compute.cancel_instruction withdraw ◌>>=◌
  cancel_instruction-Follows none m e h = h
  cancel_instruction-Follows (some i) m e h = cancel_if-Follows (is_new i) i _ m refl e h

  pub cancel_pending_instruction_with-Follows :
      K (Compute.cancel_pending_instruction_with world c n)
  unfolding Compute.cancel_pending_instruction_with ◌>>=◌
  cancel_pending_instruction_with-Follows = record {
    at = λ m h.
        Keeps-if-at (Follows Q) m.order.termination_flag return
          (Compute.cancel_instruction world c n m.order.pending_instruction) m h
          (cancel_instruction-Follows m.order.pending_instruction m refl h);
  }

  reconcile-Follows : (i j : Option (ManagedInstruction W)) → K (Compute.reconcile world c n i j)
  unfolding Compute.reconcile
  reconcile-Follows none none = search basic depth 16
  reconcile-Follows (some i) none = search basic depth 16
  reconcile-Follows none (some j) = search basic depth 16
  reconcile-Follows (some i) (some j) =
      search (basic, cancel_pending_instruction_with-Follows) depth 16

  compute_with-Follows : K (Compute.compute_with world c n)
  unfolding Compute.compute_with
  compute_with-Follows = search (basic, is_held_back-Follows, reconcile-Follows) depth 16

module _ {W T : Type 0} ⦃f : OrderedFloat W⦄ ⦃t : Trigger W T⦄ (world : World W) (Q : Aspect W)
    (stable : Stable Q) where
  mutual
    unfolding Compute.compute Compute.compute_next_instruction

    pub compute-Follows : (depth : ℕ) → Kept world Q stable (Compute.compute {T = T} world depth)
    compute-Follows zero = search keeps_rules
    compute-Follows (suc depth) =
        compute_with-Follows world Q stable (Compute.compute world depth)
          (Compute.compute_next_instruction world depth) (compute-Follows depth)
          (compute_next_instruction-Follows depth)

    pub compute_next_instruction-Follows :
        (depth : ℕ) → Kept world Q stable (Compute.compute_next_instruction {T = T} world depth)
    compute_next_instruction-Follows zero = search keeps_rules
    compute_next_instruction-Follows (suc depth) =
        next_with-Follows world Q stable (Compute.compute world depth)
          (Compute.compute_next_instruction world depth) (compute-Follows depth)
          (compute_next_instruction-Follows depth)
