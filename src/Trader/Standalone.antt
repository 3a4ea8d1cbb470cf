-- ===== src/Trader/Standalone.antt =====
-- src/trader.rs: orders without a trade, and what is confirmed of them.
use babylon_playground_demo.Common.{List, ℕ, true, ◌≡◌, refl, Option, none, some, ◌==◌}
use babylon_playground_demo.Common.Table.{find, text_key, number_key}
use babylon_playground_demo.Common.Table.Every.{Every, find-Every}
use babylon_playground_demo.Float.{OrderedFloat}
use babylon_playground_demo.Trigger.{Trigger}
use babylon_playground_demo.Types.{Ustr}
use babylon_playground_demo.Instruction.{HandleId, OrderId}
use babylon_playground_demo.SmartId.{decode}
use babylon_playground_demo.Order.Operation.{Operation}
use babylon_playground_demo.Order.Monad.{panicked}
use babylon_playground_demo.Trade.Data.{Trade}
use babylon_playground_demo.Trade.Operation.{TradeOperation}
use babylon_playground_demo.Trader.Data.{Outside}
use babylon_playground_demo.Trader.Query.{context_of}
use babylon_playground_demo.Trader.Confirm.{on_order, route}
use babylon_playground_demo.Trader.Confirm
use babylon_playground_demo.Trader.Operation.{Confirmation, open_failed, confirm}
use babylon_playground_demo.Trader.Monad.{TraderMachine, M, unwrap, ◌>>=◌, ◌>>◌}
use babylon_playground_demo.Trader.Registry.{TradeKept, ContextKept, Kept}
use babylon_playground_demo.Trader.Carried.Confirmed.{held}

module _ {W T : Type 0} where
  kept_zero :
      {A : Type 0} (s : Ustr) (i : HandleId) (trade : Trade W T) (d : List (HandleId × Trade W T))
      (x y : A)
      → (i == 0) ≡ true
      → Every (TradeKept s) d
      → find i d ≡ some trade
      → x ≡ y
  kept_zero s i trade d x y zero h found =
      let (key, (nonzero, life)) = find-Every (TradeKept s) i trade d h found in cc

module _ {W D T : Type 0} where
  unwrap-panicked :
      {A B : Type 0} (o : Option A) (k : A → M W D T B) (m : TraderMachine W D T)
      → ((a : A) → o ≡ some a → k a m ≡ (panicked, m))
      → (unwrap o >>= k) m ≡ (panicked, m)
  unfolding ◌>>=◌
  unwrap-panicked none k m h = refl
  unwrap-panicked (some a) k m h = h a refl

module _ {W D T : Type 0} ⦃f : OrderedFloat W⦄ ⦃t : Trigger W T⦄ (outside : Outside W D T)
    (depth : ℕ) where
  on_order-panicked :
      (s : Ustr) (id : OrderId) (o : Operation W T) (m : TraderMachine W D T)
      → ((decode id).handle_id == 0) ≡ true
      → Kept m.trader
      → on_order outside depth s id o m ≡ (panicked, m)
  unfolding on_order ◌>>=◌
  on_order-panicked s id o m e h = unwrap-panicked (context_of s m.trader) _ m λ cx there.
      unwrap-panicked (find (decode id).handle_id cx.trades) _ m λ trade found.
        kept_zero s (decode id).handle_id trade cx.trades _ _ e
          (held ContextKept s cx m.trader h there) found

  route-panicked :
      (s : Ustr) (id : OrderId) (o : Operation W T) (u : TradeOperation W) (k : M W D T (Unit {0}))
      (m : TraderMachine W D T)
      → ((decode id).handle_id == 0) ≡ true
      → Kept m.trader
      → (route outside depth s id o u >> k) m ≡ (panicked, m)
  unfolding route ◌>>=◌
  route-panicked s id o u k m e h = rw (e, on_order-panicked s id o m e h) refl

  -- Where a trader holds only trades that it may hold, whatever is confirmed of an order whose id names no
  -- trade panics, and changes nothing: the order is looked up in trade 0, and that lookup is unwrapped.
  pub confirm-panicked :
      (s : Ustr) (id : OrderId) (c : Confirmation W) (m : TraderMachine W D T)
      → ((decode id).handle_id == 0) ≡ true
      → Kept m.trader
      → confirm outside depth s id c m ≡ (panicked, m)
  unfolding confirm Confirm.confirm_order_open_failed Confirm.confirm_order_opened
      Confirm.confirm_order_filled Confirm.confirm_order_replace_failed
      Confirm.confirm_order_replaced Confirm.confirm_order_cancel_failed
      Confirm.confirm_order_cancelled Confirm.confirm_order_rejected Confirm.confirm_order_expired
  confirm-panicked s id open_failed m e h = route-panicked s id _ _ _ m e h
  confirm-panicked s id _ m e h = route-panicked s id _ _ _ m e h
