-- ===== src/Order/Journey.antt =====
-- What the diagram says of a whole life of an order, and of what `compute` may touch.
use babylon_playground_demo.Common.{arith, none, ℕ, List, ◌≡◌, false, refl}
use babylon_playground_demo.Float.{OrderedFloat}
use babylon_playground_demo.Trigger.{Trigger}
use babylon_playground_demo.Order.State.{
  OrderState, finished, rejected, expired, cancel_failed, state_eq, transition,
}
use babylon_playground_demo.Order.Error.{invalid_order_state_transition}
use babylon_playground_demo.Order.Diagram.{
  onward, ◌⟶*◌, here, is_unreached, ⟶*-finished, ⟶*-unreached,
}
use babylon_playground_demo.Order.Monad.{World, Machine, failed, ◌>>=◌}
use babylon_playground_demo.Order.Follows.{Stable, Aspect, Terms, terms}
use babylon_playground_demo.Order.Follows.Compute.{compute-Follows}
use babylon_playground_demo.Order.Follows.Operations.{perform_all-Reached}
use babylon_playground_demo.Order.Compute.{compute}
use babylon_playground_demo.Order.Confirm
use babylon_playground_demo.Order.Handlers.{set_state_with, move_to}
use babylon_playground_demo.Order.Operation.{Operation, perform_all}

-- The state is reached along the diagram, and the terms are as agreed.
abbrev Agreed : {W : Type 0} → OrderState → Terms W → Aspect W
Agreed start agreed s v i = (start ⟶* s) × (v ≡ agreed)

Agreed-Stable : {W : Type 0} (start : OrderState) (agreed : Terms W) → Stable (Agreed start agreed)
Agreed-Stable start agreed = record {
  move = λ s u v i e h. (onward h.0 e, h.1);
  pend = λ s v i j may h. h;
  clear = λ s v i idle h. h;
}

-- No arm of the table leads to the three states.
no_transition :
    (s : OrderState)
    → is_unreached s ≡ false
    → ((state_eq s rejected ≡ false) × (transition s rejected ≡ none))
      × (((state_eq s expired ≡ false) × (transition s expired ≡ none))
          × ((state_eq s cancel_failed ≡ false) × (transition s cancel_failed ≡ none)))
unfolding transition
no_transition s h = ground arith

module _ {W T : Type 0} ⦃f : OrderedFloat W⦄ ⦃t : Trigger W T⦄ (world : World W) (depth : ℕ) where
  -- Whatever calls are made on an order, with whatever results, market prices and times, its state
  -- afterwards is reached from its state before along the edges of the diagram.
  pub perform_all-⟶* :
      (os : List (Operation W T)) (m : Machine W T)
      → m.order.state ⟶* (perform_all world depth os m).order.state
  perform_all-⟶* os m = perform_all-Reached world depth m.order.state os m here

  -- A finished order stays finished, whatever calls are made on it.
  pub perform_all-finished :
      (os : List (Operation W T)) (m : Machine W T)
      → m.order.state ≡ finished
      → (perform_all world depth os m).order.state ≡ finished
  perform_all-finished os m h = ⟶*-finished (perform_all-⟶* os m) h

  -- No calls bring an order that is not rejected, expired or failed to cancel into one of these
  -- three states.
  pub perform_all-is_unreached :
      (os : List (Operation W T)) (m : Machine W T)
      → is_unreached m.order.state ≡ false
      → is_unreached (perform_all world depth os m).order.state ≡ false
  perform_all-is_unreached os m h = ⟶*-unreached (perform_all-⟶* os m) h

  -- However `compute` ends, the ids, the symbol, the side, the type, the prices, the quantities and the
  -- fills of the order are what they were, and its state is reached along the diagram.
  pub compute-terms :
      (m : Machine W T)
      → (m.order.state ⟶* (compute world depth m).1.order.state)
        × (terms (compute world depth m).1.order ≡ terms m.order)
  compute-terms m =
      (compute-Follows world (Agreed m.order.state (terms m.order))
          (Agreed-Stable m.order.state (terms m.order)) depth).at
        m (here, refl)

  change_state-failed :
      (s : OrderState) (m : Machine W T)
      → state_eq m.order.state s ≡ false
      → transition m.order.state s ≡ none
      → Confirm.unless_in world depth s (Confirm.change_state world depth s) m
        ≡ (failed (invalid_order_state_transition m.order.state s), m)
  unfolding Confirm.unless_in Confirm.change_state set_state_with move_to ◌>>=◌
  change_state-failed s m apart none_there = rw (apart, none_there, apart) refl

  -- An order that is not yet rejected, expired or failed to cancel cannot be confirmed to be: each
  -- confirmation is the error of an invalid transition and changes nothing.
  pub confirm_rejected-failed :
      (m : Machine W T)
      → is_unreached m.order.state ≡ false
      → (Confirm.confirm_rejected world depth m
          ≡ (failed (invalid_order_state_transition m.order.state rejected), m))
        × (Confirm.confirm_expired world depth m
            ≡ (failed (invalid_order_state_transition m.order.state expired), m))
        × (Confirm.confirm_cancel_failed world depth m
            ≡ (failed (invalid_order_state_transition m.order.state cancel_failed), m))
  unfolding Confirm.confirm_rejected Confirm.confirm_expired Confirm.confirm_cancel_failed
  confirm_rejected-failed m h =
      let e = no_transition m.order.state h in
      (
        change_state-failed rejected m e.0.0 e.0.1,
        change_state-failed expired m e.1.0.0 e.1.0.1,
        change_state-failed cancel_failed m e.1.1.0 e.1.1.1,
      )
