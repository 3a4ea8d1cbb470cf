-- ===== src/Trader/Carried/Calls.antt =====
-- Every call on a trader, and any sequence of calls.
use babylon_playground_demo.Common.{ℕ, some, List, [], ◌∷◌}
use babylon_playground_demo.Common.Result.{Result, ok, err}
use babylon_playground_demo.Common.Table.{text_key, number_key}
use babylon_playground_demo.Float.{OrderedFloat}
use babylon_playground_demo.Trigger.{Trigger}
use babylon_playground_demo.Types.{Ustr, trade}
use babylon_playground_demo.Types.{
  NormalizedExecutionType, NormalizedOrderStatus, partially_filled, filled,
}
use babylon_playground_demo.Position.{Decimals, Panic, Position}
use babylon_playground_demo.SmartId.{Decoded, decode}
use babylon_playground_demo.Order.Data.{NormalizedOrderEvent}
use babylon_playground_demo.Trader.Error.{symbol_not_found}
use babylon_playground_demo.Trader.Data.{TraderSymbolContext, Outside}
use babylon_playground_demo.Trader.Query.{context_of}
use babylon_playground_demo.Trader.Create
use babylon_playground_demo.Trader.Confirm
use babylon_playground_demo.Trader.Event
use babylon_playground_demo.Trader.Event.{missing_fill, store_position}
use babylon_playground_demo.Trader.Operation.{
  place_order, TraderOperation, perform, perform_all, confirm, opened, filled as Filled,
  compute_all, pause, resume, remove_context, create_context, create_order, create_trade,
  handle_order_event, confirm_instruction_execution, confirm_order, replaced,
}
use babylon_playground_demo.Trader.Operation
use babylon_playground_demo.Trader.Monad.{TraderMachine, ◌>>=◌}
use babylon_playground_demo.Trader.Keeps.{
  Keeps, Keeps-bind, Keeps-panic, or_fail-known, keeps_rules,
}
use babylon_playground_demo.Trader.Carried.{Property, Everywhere, Carried, compute-Everywhere}
use babylon_playground_demo.Trader.Carried.Confirmed.{
  held, confirm-Everywhere, confirm_instruction_execution-Everywhere,
}
use babylon_playground_demo.Trader.Carried.Placed.{place-Everywhere}
use babylon_playground_demo.Trader.Carried.Entered.{
  store-Everywhere, create_context-Everywhere, remove_context-Everywhere, create_order-Everywhere,
  create_trade-Everywhere,
}

-- The property holds of a context that is created.
abbrev pub Admissible : {W D T : Type 0} → Property W D T → TraderOperation W D T → Type 0
Admissible P (create_context cx) = P cx.symbol cx
Admissible P _ = Unit {0}

unfoldable pub AllAdmissible :
    {W D T : Type 0} → Property W D T → List (TraderOperation W D T) → Type 0
AllAdmissible P [] = Unit {0}
AllAdmissible P (o ∷ os) = Admissible P o × AllAdmissible P os

module _ {W D T : Type 0} ⦃f : OrderedFloat W⦄ ⦃t : Trigger W T⦄ ⦃d : Decimals D⦄
    (outside : Outside W D T) (depth : ℕ) (P : Property W D T)
    (carried : Carried outside depth P) where
  store_position-Everywhere :
      (s : Ustr) (cx : TraderSymbolContext W D T) (r : Result Panic (Position W D))
      → P s cx
      → Keeps (Everywhere P) (store_position s cx r)
  unfolding store_position
  store_position-Everywhere s cx (ok position) h =
      store-Everywhere P s _ (carried.positioned s position cx h)
  store_position-Everywhere s cx (err e) h = Keeps-panic

  register_fill-Everywhere :
      (e : NormalizedOrderEvent W) → Keeps (Everywhere P) (Event.register_fill outside depth e)
  unfolding Event.register_fill ◌>>=◌
  register_fill-Everywhere e = record {
    at = λ m h. or_fail-known (Everywhere P) _ m (missing_fill e) e.latest_fill h λ fill given.
        or_fail-known (Everywhere P) _ m (symbol_not_found e.symbol) (context_of e.symbol m.trader)
          h
          λ cx there.
            (store_position-Everywhere e.symbol cx _ (held P e.symbol cx m.trader h there)).at m h;
  }

  update_position-Everywhere :
      (e : NormalizedOrderEvent W) → Keeps (Everywhere P) (Event.update_position outside depth e)
  unfolding Event.update_position
  update_position-Everywhere e = search (keeps_rules, register_fill-Everywhere)

  handle_replaced-Everywhere :
      (e : NormalizedOrderEvent W) → Keeps (Everywhere P) (Event.handle_replaced outside depth e)
  unfolding Event.handle_replaced confirm
  handle_replaced-Everywhere e = Keeps-bind _ _ (search keeps_rules) λ parent.
      confirm-Everywhere outside depth P carried e.symbol e.local_order_id (replaced parent e)

  opened-Everywhere :
      (e : NormalizedOrderEvent W)
      → Keeps (Everywhere P) (
          Confirm.confirm_order_opened outside depth e.symbol e.local_order_id
            (some e.exchange_order_id))
  unfolding confirm
  opened-Everywhere e =
      confirm-Everywhere outside depth P carried e.symbol e.local_order_id
        (opened (some e.exchange_order_id))

  handle_new-Everywhere :
      (e : NormalizedOrderEvent W) (id : Decoded)
      → Keeps (Everywhere P) (Event.handle_new outside depth e id)
  unfolding Event.handle_new
  handle_new-Everywhere e id = search (keeps_rules, opened-Everywhere, handle_replaced-Everywhere)

  handle_fill-Everywhere :
      (e : NormalizedOrderEvent W) → Keeps (Everywhere P) (Event.handle_fill outside depth e)
  unfolding Event.handle_fill confirm
  handle_fill-Everywhere e =
      Keeps-bind _ _ (search keeps_rules)
        λ fill. confirm-Everywhere outside depth P carried e.symbol e.local_order_id (Filled fill)

  handle_by-Everywhere :
      (x : NormalizedExecutionType) (s : NormalizedOrderStatus) (e : NormalizedOrderEvent W)
      → Keeps (Everywhere P) (Event.handle_by outside depth x s e)
  unfolding Event.handle_by confirm
  handle_by-Everywhere NormalizedExecutionType.new NormalizedOrderStatus.new e =
      handle_new-Everywhere e (decode e.local_order_id)
  handle_by-Everywhere trade partially_filled e = handle_fill-Everywhere e
  handle_by-Everywhere trade filled e = handle_fill-Everywhere e
  handle_by-Everywhere NormalizedExecutionType.cancelled NormalizedOrderStatus.cancelled e =
      confirm-Everywhere outside depth P carried e.symbol e.local_order_id Operation.cancelled
  handle_by-Everywhere NormalizedExecutionType.new NormalizedOrderStatus.rejected e =
      confirm-Everywhere outside depth P carried e.symbol e.local_order_id Operation.rejected
  handle_by-Everywhere NormalizedExecutionType.expired NormalizedOrderStatus.expired e =
      confirm-Everywhere outside depth P carried e.symbol e.local_order_id Operation.expired
  handle_by-Everywhere NormalizedExecutionType.cancelled NormalizedOrderStatus.partially_filled e =
      confirm-Everywhere outside depth P carried e.symbol e.local_order_id Operation.cancelled
  handle_by-Everywhere x s e = search keeps_rules

  handle_order_event-Everywhere :
      (e : NormalizedOrderEvent W) → Keeps (Everywhere P) (Event.handle_order_event outside depth e)
  unfolding Event.handle_order_event
  handle_order_event-Everywhere e =
      search (keeps_rules, update_position-Everywhere, handle_by-Everywhere, compute-Everywhere)
        depth 20

  perform-Everywhere :
      (o : TraderOperation W D T) → Admissible P o → Keeps (Everywhere P) (perform outside depth o)
  unfolding perform Create.pause Create.resume
  perform-Everywhere compute_all h = compute-Everywhere outside depth P carried
  perform-Everywhere pause h = search keeps_rules
  perform-Everywhere resume h = search keeps_rules
  perform-Everywhere (create_context cx) h = create_context-Everywhere P cx h
  perform-Everywhere (remove_context s) h = remove_context-Everywhere P s
  perform-Everywhere (create_order order) h = create_order-Everywhere outside depth P carried order
  perform-Everywhere (create_trade t) h = create_trade-Everywhere outside depth P carried t
  perform-Everywhere (place_order o) h = place-Everywhere outside depth P carried o
  perform-Everywhere (handle_order_event e) h = handle_order_event-Everywhere e
  perform-Everywhere (confirm_instruction_execution r) h =
      confirm_instruction_execution-Everywhere outside depth P carried r
  perform-Everywhere (confirm_order s id c) h = confirm-Everywhere outside depth P carried s id c

  pub perform_all-Everywhere :
      (os : List (TraderOperation W D T)) (m : TraderMachine W D T)
      → AllAdmissible P os
      → Everywhere P m.trader
      → Everywhere P (perform_all outside depth os m).trader
  unfolding perform_all AllAdmissible
  perform_all-Everywhere [] m h k = k
  perform_all-Everywhere (o ∷ os) m (h, hs) k =
      perform_all-Everywhere os (perform outside depth o m).1 hs ((perform-Everywhere o h).at m k)
