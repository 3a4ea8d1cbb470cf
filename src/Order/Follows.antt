-- ===== src/Order/Follows.antt =====
-- `compute` and what it calls move an order along the diagram, and change nothing of what it trades.
use babylon_playground_demo.Common.{
  String, Option, none, some, List, ◌≡◌, Bool, true, false, refl, if◌then◌else◌,
}
use babylon_playground_demo.Float.{OrderedFloat}
use babylon_playground_demo.Trigger.{Trigger}
use babylon_playground_demo.Types.{Ustr, NormalizedSide, NormalizedOrderType}
use babylon_playground_demo.Instruction.{
  OrderId, HandleId, ManagedInstruction, InstructionState, running,
}
use babylon_playground_demo.Order.State.{OrderState, state_eq, transition}
use babylon_playground_demo.Order.Data.{Order, OrderFill}
use babylon_playground_demo.Order.Diagram.{◌⟶◌, transition-⟶}
use babylon_playground_demo.Order.Query.{may_override}
use babylon_playground_demo.Order.Monad.{Machine, World, M, ◌>>=◌}
use babylon_playground_demo.Order.Keeps.{Keeps-bind, Keeps-if-at, Keeps, keeps_rules}
use babylon_playground_demo.Order.Trail.{
  return, touch, set_current_state, check_activator, is_held_back,
}
use babylon_playground_demo.Order.Handlers
pub mod Compute
pub mod Operations

-- What an order trades, under which ids, and what was filled of it.
pub record Terms (W : Type 0) : Type 0 where
  pub local_order_id : OrderId
  pub raw_order_id : Option String
  pub local_stop_order_id : Option OrderId
  pub local_orig_order_id : Option OrderId
  pub local_list_order_id : Option OrderId
  pub exchange_order_id : Option OrderId
  pub trade_id : HandleId
  pub symbol : Ustr
  pub side : NormalizedSide
  pub order_type : NormalizedOrderType
  pub price : W
  pub limit_price : Option W
  pub initial_quantity : W
  pub accumulated_filled_quantity : W
  pub accumulated_filled_quote : W
  pub fills : List (OrderFill W)

abbrev pub terms : {W T : Type 0} → Order W T → Terms W
terms o = record {
  local_order_id = o.local_order_id;
  raw_order_id = o.raw_order_id;
  local_stop_order_id = o.local_stop_order_id;
  local_orig_order_id = o.local_orig_order_id;
  local_list_order_id = o.local_list_order_id;
  exchange_order_id = o.exchange_order_id;
  trade_id = o.trade_id;
  symbol = o.symbol;
  side = o.side;
  order_type = o.order_type;
  price = o.price;
  limit_price = o.limit_price;
  initial_quantity = o.initial_quantity;
  accumulated_filled_quantity = o.accumulated_filled_quantity;
  accumulated_filled_quote = o.accumulated_filled_quote;
  fills = o.fills;
}

-- A property of an order that looks at nothing but the state, the terms and the pending instruction.
abbrev pub Aspect : Type 0 → Type 1
Aspect W = OrderState → Terms W → Option (ManagedInstruction W) → Type 0

abbrev pub Follows : {W T : Type 0} → Aspect W → Order W T → Type 0
Follows Q o = Q o.state (terms o) o.pending_instruction

abbrev running_state : InstructionState → Bool
running_state running = true
running_state _ = false

abbrev pub is_running : {W : Type 0} → Option (ManagedInstruction W) → Bool
is_running none = false
is_running (some i) = running_state i.state

-- What an aspect must withstand to hold on through `compute`: the edges of the diagram, a new pending
-- instruction that may override the old one, and that a pending instruction is cleared that does not
-- run.
pub record Stable {W : Type 0} (Q : Aspect W) : Type 0 where
  pub move :
      (s u : OrderState) (v : Terms W) (i : Option (ManagedInstruction W))
      → s ⟶ u
      → Q s v i
      → Q u v i
  pub pend :
      (s : OrderState) (v : Terms W) (i : Option (ManagedInstruction W)) (j : ManagedInstruction W)
      → may_override i j ≡ true
      → Q s v i
      → Q s v (some j)
  pub clear :
      (s : OrderState) (v : Terms W) (i : Option (ManagedInstruction W))
      → is_running i ≡ false
      → Q s v i
      → Q s v none

module _ {W T : Type 0} ⦃f : OrderedFloat W⦄ ⦃t : Trigger W T⦄ (world : World W) (Q : Aspect W)
    (stable : Stable Q) where
  abbrev pub Kept : {A : Type 0} → M W T A → Type 0
  Kept p = Keeps (Follows Q) p

  pub touch-Follows : Kept (touch world)
  unfolding touch
  touch-Follows = search keeps_rules

  pub check_activator-Follows : (price : W) → Kept (check_activator {T = T} world price)
  unfolding check_activator
  check_activator-Follows price = search keeps_rules

  pub is_held_back-Follows : (b : Bool) → Kept (is_held_back {T = T} world b)
  unfolding is_held_back
  is_held_back-Follows true = search keeps_rules
  is_held_back-Follows false = search (keeps_rules, check_activator-Follows)

  module _ (c : M W T (Unit {0})) (n : M W T (Option (ManagedInstruction W))) (kc : Kept c)
      (kn : Kept n) where
    step_to : (old s : OrderState) → Kept (if state_eq s old then return else touch world)
    step_to old s = search (keeps_rules, touch-Follows)

    move_to-Follows :
        (old s : OrderState) (r : Option OrderState) (m : Machine W T)
        → transition old s ≡ r
        → m.order.state ≡ old
        → Follows Q m.order
        → Follows Q (Handlers.move_to world c n old s r m).1.order
    unfolding Handlers.move_to ◌>>=◌
    move_to-Follows old s none m e same h = h
    move_to-Follows old s (some u) m e same h =
        (Keeps-bind (if state_eq u old then return else touch world) (λ _. c) (step_to old u)
            (λ _. kc)).at
          (record m { order = set_current_state u m.order })
          (stable.move m.order.state u (terms m.order) m.order.pending_instruction
            (rw same (transition-⟶ old s u e)) h)

    pub set_state_with-Follows : (s : OrderState) → Kept (Handlers.set_state_with world c n s)
    unfolding Handlers.set_state_with ◌>>=◌
    set_state_with-Follows s = record {
      at = λ m h.
          Keeps-if-at (Follows Q) (state_eq m.order.state s) return
            (Handlers.move_to world c n m.order.state s (transition m.order.state s)) m h
            (move_to-Follows m.order.state s (transition m.order.state s) m refl refl h);
    }
