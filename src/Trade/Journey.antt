-- ===== src/Trade/Journey.antt =====
-- What the diagrams say of a whole life of a trade.
use babylon_playground_demo.Common.{
  ◌≡◌, ℕ, Bool, true, not, ◌||◌, Option, some, is_some, List, arith,
}
use babylon_playground_demo.Float.{OrderedFloat}
use babylon_playground_demo.Trigger.{Trigger}
use babylon_playground_demo.Order.State.{OrderState}
use babylon_playground_demo.Order.Monad.{World}
use babylon_playground_demo.Order.Diagram.{◌⟶*◌, here, ⟶*-trans}
use babylon_playground_demo.Trade.State.{TradeState, TradeCloseReason, closed, state_eq}
use babylon_playground_demo.Trade.Diagram.{◌⇒*◌, onward, is_final, ⇒*-is_final}
use babylon_playground_demo.Trade.Diagram
use babylon_playground_demo.Trade.Data.{Trade}
use babylon_playground_demo.Trade.Monad.{TradeMachine}
use babylon_playground_demo.Trade.Operation.{TradeOperation, perform_all}
use babylon_playground_demo.Trade.Follows.{Aspect, Stable, MayEnter}
use babylon_playground_demo.Trade.Follows.Operations.{perform_all-Follows}

-- The trade and its three orders are reached along their diagrams.
abbrev Reached : TradeState → OrderState → OrderState → OrderState → Aspect
Reached s a b c u r x y z = (s ⇒* u) × ((a ⟶* x) × ((b ⟶* y) × (c ⟶* z)))

Reached-Stable : (s : TradeState) (a b c : OrderState) → Stable (Reached s a b c)
Reached-Stable s a b c = record {
  move = λ t u r x y z e may h. (onward h.0 e, h.1);
  explain = λ t r q x y z h. h;
  enter = λ t r x y z w p h. (h.0, (⟶*-trans h.1.0 p, h.1.1));
  exit = λ t r x y z w p h. (h.0, (h.1.0, (⟶*-trans h.1.1.0 p, h.1.1.1)));
  stop = λ t r x y z w p h. (h.0, (h.1.0, (h.1.1.0, ⟶*-trans h.1.1.1 p)));
}

-- Whether the trade, if it is closed, has a reason.
abbrev pub explained : TradeState → Option TradeCloseReason → Bool
explained s r = not (state_eq s closed) || is_some r

abbrev pub is_explained : {W T : Type 0} → Trade W T → Bool
is_explained t = explained t.state t.close_reason

abbrev Explained : Aspect
Explained s r x y z = explained s r ≡ true

pub explained_of :
    (u : TradeState) (r : Option TradeCloseReason) → MayEnter u r → explained u r ≡ true
explained_of u r h = ground arith

pub explained-some : (s : TradeState) (r : TradeCloseReason) → explained s (some r) ≡ true
explained-some s r = ground arith

module _ {W T : Type 0} ⦃f : OrderedFloat W⦄ ⦃t : Trigger W T⦄ (world : World W) (depth : ℕ) where
  -- Whatever calls are made on a trade, with whatever results, market prices and times: its state
  -- afterwards is reached from its state before along the edges of the trade's diagram, and the states
  -- of its entry, its exit and its stoploss are reached along those of the order's diagram.
  pub perform_all-⇒* :
      (os : List (TradeOperation W)) (m : TradeMachine W T)
      → (m.trade.state ⇒* (perform_all world depth os m).trade.state)
        × ((m.trade.entry.state ⟶* (perform_all world depth os m).trade.entry.state)
            × ((m.trade.exit.state ⟶* (perform_all world depth os m).trade.exit.state)
                × (m.trade.stoploss.state ⟶* (perform_all world depth os m).trade.stoploss.state)))
  perform_all-⇒* os m =
      perform_all-Follows world depth
        (λ i s. Reached m.trade.state m.trade.entry.state m.trade.exit.state m.trade.stoploss.state)
        (λ i s.
          Reached-Stable m.trade.state m.trade.entry.state m.trade.exit.state
            m.trade.stoploss.state)
        os m (Diagram.here, (here, (here, here)))

  -- A trade that is closed, failed, not ready, or whose entry or exit failed, stays in that state,
  -- whatever calls are made on it.
  pub perform_all-is_final :
      (os : List (TradeOperation W)) (m : TradeMachine W T)
      → is_final m.trade.state ≡ true
      → (perform_all world depth os m).trade.state ≡ m.trade.state
  perform_all-is_final os m h = ⇒*-is_final (perform_all-⇒* os m).0 h
