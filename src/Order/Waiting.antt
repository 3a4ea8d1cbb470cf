-- ===== src/Order/Waiting.antt =====
-- src/order.rs: `compute` of an order that waits. A depth is given that suffices for the nested calls.
use babylon_playground_demo.Common.{
  ◌∙◌, ℕ, suc, ◌≡◌, refl, Bool, false, true, none, some, Option, arith,
}
use babylon_playground_demo.Float.{OrderedFloat}
use babylon_playground_demo.Trigger.{Trigger}
use babylon_playground_demo.Instruction.{ManagedInstruction}
use babylon_playground_demo.Order.State.{
  OrderState, pending_open, pending_cancel, cancel_failed, cancelled_and_pending_replace,
  replace_failed, rejected, finished,
}
use babylon_playground_demo.Order.Data.{Order}
use babylon_playground_demo.Order.Monad.{gets, modify, World, Machine, M, done, ◌>>=◌, ◌>>◌}
use babylon_playground_demo.Order.Query.{clear_pending_instruction}
use babylon_playground_demo.Order.Trail
use babylon_playground_demo.Order.Handlers
use babylon_playground_demo.Order.Compute
use babylon_playground_demo.Order.Ends.{
  Ends, Within, Silent, Ends-bind, Ends-pure, Ends-gets, Ends-if,
}

-- The states in which an order waits for the exchange, or for nothing any more.
abbrev pub is_waiting : OrderState → Bool
is_waiting pending_open = true
is_waiting pending_cancel = true
is_waiting cancel_failed = true
is_waiting cancelled_and_pending_replace = true
is_waiting replace_failed = true
is_waiting rejected = true
is_waiting finished = true
is_waiting _ = false

module _ {W T : Type 0} ⦃f : OrderedFloat W⦄ ⦃t : Trigger W T⦄ (world : World W) where
  held-Ends :
      (b : Bool) (m : Machine W T) (s : OrderState)
      → m.order.state ≡ s
      → Ends (Trail.is_held_back world b) m (Within s)
  unfolding Trail.is_held_back Trail.check_activator ◌>>=◌
  held-Ends true m s h = Ends-pure false m (Within s) h
  held-Ends false m s h = record { value = _; after = _; returns = refl; holds = h }

  pub clear_settled_same :
      (o : Order W T)
      → ((Trail.clear_settled o).state ≡ o.state)
        × ((Trail.clear_settled o).is_created_on_exchange ≡ o.is_created_on_exchange)
  unfolding Trail.clear_settled clear_pending_instruction
  clear_settled_same o = ground arith

  pub next_waiting :
      (depth : ℕ) (m : Machine W T) (s : OrderState)
      → is_waiting s ≡ true
      → m.order.state ≡ s
      → Compute.compute_next_instruction world (suc depth) m ≡ (done none, m)
  unfolding Compute.compute_next_instruction Handlers.next_with Handlers.next_of
      Handlers.handle_instruction_failed Handlers.set_state_with ◌>>=◌
  next_waiting depth m s w h = ground arith

  -- `compute` past the activator.
  unfoldable pub past_activator :
      (c : M W T (Unit {0})) (n : M W T (Option (ManagedInstruction W))) → M W T (Unit {0})
  past_activator c n = do
    modify Trail.clear_settled
    next ← n
    existing ← gets (λ o. o.pending_instruction)
    Compute.reconcile world c n existing next

  reconcile-Ends :
      (c : M W T (Unit {0})) (n : M W T (Option (ManagedInstruction W)))
      (i j : Option (ManagedInstruction W)) (m : Machine W T) (s : OrderState)
      → j ≡ none
      → m.order.state ≡ s
      → Ends (Compute.reconcile world c n i j) m (Within s)
  unfolding Compute.reconcile
  reconcile-Ends c n none none m s e h = Ends-pure tt m (Within s) h
  reconcile-Ends c n (some i) none m s e h = Ends-pure tt m (Within s) h
  reconcile-Ends c n i (some j) m s e h = cc

  -- Where the next instruction is none, nothing more happens.
  pub past_activator-Ends :
      (c : M W T (Unit {0})) (n : M W T (Option (ManagedInstruction W))) (m : Machine W T)
      (s : OrderState)
      → Ends n (record m { order = Trail.clear_settled m.order }) (Silent s)
      → Ends (past_activator c n) m (Within s)
  unfolding past_activator ◌>>=◌
  past_activator-Ends c n m s e =
      let r =
        reconcile-Ends c n e.after.order.pending_instruction e.value e.after s e.holds.0
          e.holds.1 in
      record { value = r.value; after = r.after; returns = rw e.returns r.returns; holds = r.holds }

  -- To compute an order that waits changes nothing of its state: with two nested calls or more the
  -- computation returns, whatever the triggers, the flags and the pending instruction are.
  pub compute-waiting :
      (depth : ℕ) (m : Machine W T) (s : OrderState)
      → is_waiting s ≡ true
      → m.order.state ≡ s
      → Ends (Compute.compute world (suc (suc depth))) m (Within s)
  unfolding Compute.compute Compute.compute_with past_activator
  compute-waiting depth m s w h =
      Ends-bind (gets (λ o. o.is_created_on_exchange)) _ m (Within s) (Within s)
        (Ends-gets (λ o. o.is_created_on_exchange) m (Within s) h)
        λ created k hk.
          Ends-bind (Trail.is_held_back world created) _ k (Within s) (Within s)
            (held-Ends created k s hk)
            λ held l hl.
              let cleared = record l { order = Trail.clear_settled l.order } in
              let same : cleared.order.state ≡ s = (clear_settled_same l.order).0 ∙ hl in
              Ends-if held _ _ l (Within s) (Ends-pure tt l (Within s) hl) (
                past_activator-Ends _ _ l s (record {
                  value = none;
                  after = cleared;
                  returns = next_waiting depth cleared s w same;
                  holds = (refl, same);
                }))
