-- ===== src/Order/Finish.antt =====
-- src/order.rs: how `compute` brings a filled order to its end. A depth is given that suffices for the
-- nested calls.
use babylon_playground_demo.Common.{
  ap, ◌∙◌, ℕ, suc, ◌≡◌, refl, Bool, false, true, none, some, Option, arith, if◌then◌else◌,
}
use babylon_playground_demo.Float.{OrderedFloat}
use babylon_playground_demo.Trigger.{Trigger}
use babylon_playground_demo.Instruction.{ManagedInstruction}
use babylon_playground_demo.Order.State.{filled, closed, state_eq, transition, OrderState, finished}
use babylon_playground_demo.Order.Data.{Order}
use babylon_playground_demo.Order.Monad.{World, Machine, M, ◌>>=◌}
use babylon_playground_demo.Order.Trail
use babylon_playground_demo.Order.Handlers
use babylon_playground_demo.Order.Compute
use babylon_playground_demo.Order.Ends.{Ends, Within, Silent, Ends-bind, Ends-modify}
use babylon_playground_demo.Order.Waiting.{
  clear_settled_same, next_waiting, past_activator, past_activator-Ends, compute-waiting,
}

-- The table has an arm from the one state to the other, a different one, and takes it.
abbrev May : OrderState → OrderState → Type 0
May s u = (state_eq s u ≡ false) × (state_eq u s ≡ false) × (transition s u ≡ some u)

closed-May : (s : OrderState) → s ≡ closed → May s finished
unfolding transition
closed-May s h = ground arith

filled-May : (s : OrderState) → s ≡ filled → May s closed
unfolding transition
filled-May s h = ground arith

module _ {W T : Type 0} ⦃f : OrderedFloat W⦄ ⦃t : Trigger W T⦄ (world : World W) where
  abbrev moved : OrderState → Machine W T → Machine W T
  moved u k = record {
    order = record k.order { state = u; updated_at = some (world.now k.reads) };
    reads = suc k.reads;
  }

  -- A change of state along the table ends as the computation that follows it.
  set_state-Ends :
      (c : M W T (Unit {0})) (n : M W T (Option (ManagedInstruction W))) (k : Machine W T)
      (u : OrderState) (P : Unit {0} → Order W T → Type 0)
      → May k.order.state u
      → Ends c (moved u k) P
      → Ends (Handlers.set_state_with world c n u) k P
  unfolding Handlers.set_state_with Handlers.move_to Trail.touch ◌>>=◌
  set_state-Ends c n k u P (apart, apart', there) e = record {
    value = e.value;
    after = e.after;
    returns = rw (apart, there, apart') e.returns;
    holds = e.holds;
  }

  next_with-Ends :
      (c : M W T (Unit {0})) (n : M W T (Option (ManagedInstruction W))) (m : Machine W T)
      (s : OrderState) (P : Option (ManagedInstruction W) → Order W T → Type 0)
      → m.order.state ≡ s
      → Ends (Handlers.next_of world c n s) m P
      → Ends (Handlers.next_with world c n) m P
  unfolding Handlers.next_with ◌>>=◌
  next_with-Ends c n m s P h e = record {
    value = e.value;
    after = e.after;
    returns = ap (λ u. Handlers.next_of world c n u m) h ∙ e.returns;
    holds = e.holds;
  }

  -- The activator is not asked about an order that is on the exchange.
  compute-created :
      (depth : ℕ) (m : Machine W T) (P : Unit {0} → Order W T → Type 0)
      → m.order.is_created_on_exchange ≡ true
      → Ends
          (past_activator world
            (Compute.compute world depth)
            (Compute.compute_next_instruction world depth))
          m
          P
      → Ends (Compute.compute world (suc depth)) m P
  unfolding Compute.compute Compute.compute_with Trail.is_held_back past_activator ◌>>=◌
  compute-created depth m P h e =
      let c = Compute.compute world depth in
      let n = Compute.compute_next_instruction world depth in
      let rest : Bool → M W T (Unit {0}) = λ created. Trail.is_held_back world created >>= λ held.
      if held then Trail.return else past_activator world c n in
      record {
        value = e.value;
        after = e.after;
        returns = ap (λ created. rest created m) h ∙ e.returns;
        holds = e.holds;
      }

  next-Silent :
      (depth : ℕ) (m : Machine W T)
      → m.order.state ≡ finished
      → Ends (Compute.compute_next_instruction world (suc depth)) m (Silent finished)
  next-Silent depth m h = record {
    value = none;
    after = m;
    returns = next_waiting world depth m finished refl h;
    holds = (refl, h);
  }

  handle_closed-Ends :
      (depth : ℕ) (m : Machine W T)
      → m.order.state ≡ closed
      → Ends
          (Handlers.handle_closed world
            (Compute.compute world (suc (suc depth)))
            (Compute.compute_next_instruction world (suc (suc depth))))
          m
          (Silent finished)
  unfolding Handlers.handle_closed
  handle_closed-Ends depth m h =
      let left = record m { order = record m.order { is_created_on_exchange = false } } in
      Ends-bind _ _ m (λ u o. o ≡ left.order) (Silent finished) (Ends-modify _ m _ refl)
        λ u k hk.
          Ends-bind _ _ k (Within finished) (Silent finished)
            (set_state-Ends (Compute.compute world (suc (suc depth)))
              (Compute.compute_next_instruction world (suc (suc depth))) k finished
              (Within finished) (closed-May k.order.state (ap (λ o. o.state) hk ∙ h))
              (compute-waiting world depth (moved finished k) finished refl refl))
            λ v l hl. next-Silent (suc depth) l hl

  compute-closed :
      (depth : ℕ) (m : Machine W T)
      → m.order.state ≡ closed
      → m.order.is_created_on_exchange ≡ true
      → Ends (Compute.compute world (suc (suc (suc (suc depth))))) m (Within finished)
  unfolding Compute.compute_next_instruction Handlers.next_of
  compute-closed depth m h created =
      compute-created (suc (suc (suc depth))) m (Within finished) created (
        past_activator-Ends world _ _ m finished (
          next_with-Ends _ _ (record m { order = Trail.clear_settled m.order }) closed
            (Silent finished) ((clear_settled_same world m.order).0 ∙ h)
            (handle_closed-Ends depth (record m { order = Trail.clear_settled m.order })
              ((clear_settled_same world m.order).0 ∙ h))))

  -- The order of a filled trade is closed, which finishes it; then it is computed once more.
  handle_filled-Ends :
      (depth : ℕ) (m : Machine W T)
      → m.order.state ≡ filled
      → m.order.is_created_on_exchange ≡ true
      → Ends
          (Handlers.handle_filled world
            (Compute.compute world (suc (suc (suc (suc depth)))))
            (Compute.compute_next_instruction world (suc (suc (suc (suc depth))))))
          m
          (Silent finished)
  unfolding Handlers.handle_filled
  handle_filled-Ends depth m h created =
      Ends-bind _ _ m (Within finished) (Silent finished)
        (set_state-Ends (Compute.compute world (suc (suc (suc (suc depth)))))
          (Compute.compute_next_instruction world (suc (suc (suc (suc depth))))) m closed
          (Within finished) (filled-May m.order.state h)
          (compute-closed depth (moved closed m) refl created))
        λ u k hk.
          Ends-bind _ _ k (Within finished) (Silent finished)
            (compute-waiting world (suc (suc depth)) k finished refl hk)
            λ v l hl. next-Silent (suc (suc (suc depth))) l hl

  -- To compute a filled order that is on the exchange finishes it: with six nested calls or more the
  -- computation returns, and the order is then finished, whatever the market price, the triggers and
  -- the pending instruction are.
  pub compute-filled :
      (depth : ℕ) (m : Machine W T)
      → m.order.state ≡ filled
      → m.order.is_created_on_exchange ≡ true
      → Ends (Compute.compute world (suc (suc (suc (suc (suc (suc depth))))))) m (Within finished)
  unfolding Compute.compute_next_instruction Handlers.next_of
  compute-filled depth m h created =
      compute-created (suc (suc (suc (suc (suc depth))))) m (Within finished) created (
        past_activator-Ends world _ _ m finished (
          next_with-Ends _ _ (record m { order = Trail.clear_settled m.order }) filled
            (Silent finished) ((clear_settled_same world m.order).0 ∙ h)
            (handle_filled-Ends depth (record m { order = Trail.clear_settled m.order })
              ((clear_settled_same world m.order).0 ∙ h)
              ((clear_settled_same world m.order).1 ∙ created))))
