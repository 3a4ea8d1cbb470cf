-- ===== src/Trader/Room.antt =====
-- How many orders a trader holds for a symbol.
use babylon_playground_demo.Common.{
  ℕ, suc, ◌≤◌, false, ◌≡◌, refl, ap, subst, sym, List, [], ◌∷◌, leb, arith,
}
use babylon_playground_demo.Common.Result.{ok}
use babylon_playground_demo.Common.Table.{Key, Table, put, text_key, number_key}
use babylon_playground_demo.Common.Table.Every.{Every}
use babylon_playground_demo.Float.{OrderedFloat}
use babylon_playground_demo.Trigger.{Trigger}
use babylon_playground_demo.Types.{Ustr}
use babylon_playground_demo.Balance.{BalanceSheet}
use babylon_playground_demo.Position.{Decimals}
use babylon_playground_demo.Instruction.{HandleId, ManagedInstruction}
use babylon_playground_demo.Order.Data.{Order}
use babylon_playground_demo.Order.Monad.{Outcome, done, failed, panicked, out_of_fuel}
use babylon_playground_demo.Trade.Data.{Trade}
use babylon_playground_demo.Trader.Error.{TraderError}
use babylon_playground_demo.Trader.Data.{TraderSymbolContext, Outside, new}
use babylon_playground_demo.Trader.Query.{size, get_context}
use babylon_playground_demo.Trader.Walk.{Step, walk, walked}
use babylon_playground_demo.Trader.Compute.{
  Found, served_trades, serve_order, serve_trade, serve_context,
}
use babylon_playground_demo.Trader.Create.{insert_order, insert_trade}
use babylon_playground_demo.Trader.Operation.{TraderOperation, perform_all}
use babylon_playground_demo.Trader.Carried.{Carried, served_orders-holds}
use babylon_playground_demo.Trader.Carried.Confirmed.{get_context-held}
use babylon_playground_demo.Trader.Carried.Calls.{AllAdmissible, perform_all-Everywhere}

put-size :
    {K V : Type 0} ⦃key : Key K⦄ (k : K) (v : V) (d : Table K V) → size (put k v d) ≤ suc (size d)
unfolding put
put-size k v [] = omega arith
put-size k v ((j, w) ∷ d) = ground (arith, put-size k v d)

module _ {E A K V : Type 0} where
  walked-size :
      (k : K) (v : V) (r : Outcome E (List A) × (V × ℕ)) (d : Table K V)
      (rest : Outcome E (List A) × (Table K V × ℕ))
      → size rest.1.0 ≡ size d
      → size (walked k r d rest).1.0 ≡ suc (size d)
  walked-size k v (done xs, (w, n)) d rest h = ap suc h
  walked-size k v (failed e, (w, n)) d rest h = refl
  walked-size k v (panicked, (w, n)) d rest h = refl
  walked-size k v (out_of_fuel, (w, n)) d rest h = refl

  walk-size : (step : Step E A K V) (d : Table K V) (n : ℕ) → size (walk step d n).1.0 ≡ size d
  unfolding walk
  walk-size step [] n = refl
  walk-size step ((k, v) ∷ d) n =
      let r = step k v n in walked-size k v r d (walk step d r.1.1) (walk-size step d r.1.1)

-- There are no more orders than the context allows.
abbrev pub Roomy : {W D T : Type 0} → Ustr → TraderSymbolContext W D T → Type 0
Roomy s cx = size cx.orders ≤ cx.max_orders

module _ {W D T : Type 0} where
  served_trades-Roomy :
      (s : Ustr) (r : Outcome (TraderError W) (List (Found W)) × (List (HandleId × Trade W T) × ℕ))
      (cx : TraderSymbolContext W D T) (picked : List (ManagedInstruction W))
      → Roomy s cx
      → Roomy s (served_trades r cx picked).1.0
  served_trades-Roomy s (done found, (trades, n)) cx picked h = h
  served_trades-Roomy s (failed e, (trades, n)) cx picked h = h
  served_trades-Roomy s (panicked, (trades, n)) cx picked h = h
  served_trades-Roomy s (out_of_fuel, (trades, n)) cx picked h = h

  insert_order-Roomy :
      (order : Order W T) (now : ℕ) (cx : TraderSymbolContext W D T)
      → leb cx.max_orders (size cx.orders) ≡ false
      → Roomy order.symbol (insert_order order now cx)
  unfolding insert_order
  insert_order-Roomy order now cx h =
      let more = put-size order.local_order_id order cx.orders in ground arith

module _ {W D T : Type 0} ⦃f : OrderedFloat W⦄ ⦃t : Trigger W T⦄ (outside : Outside W D T)
    (depth : ℕ) where
  serve_context-Roomy :
      (s : Ustr) (cx : TraderSymbolContext W D T) (n : ℕ)
      → Roomy s cx
      → Roomy s (serve_context outside depth s cx n).1.0
  unfolding serve_context
  serve_context-Roomy s cx n h =
      let os = walk (serve_order outside depth s) cx.orders (suc n) in
      let g =
        subst (λ k. k ≤ cx.max_orders)
          (sym (walk-size (serve_order outside depth s) cx.orders (suc n))) h in
      served_orders-holds (Roomy s) os (record cx { orders = os.1.0 }) _ g
        λ picked.
          served_trades-Roomy s (walk (serve_trade outside depth s) cx.trades os.1.1)
            (record cx { orders = os.1.0 }) picked g

  Roomy-Carried : Carried {D = D} outside depth Roomy
  unfolding insert_trade
  Roomy-Carried = record {
    served = serve_context-Roomy;
    called = λ s i o cx trade n found h. h;
    ordered = λ s i slot o cx trade found h. h;
    positioned = λ s p cx h. h;
    with_order = λ order now cx room h. insert_order-Roomy order now cx room;
    with_trade = λ trade cx valid fresh h. h;
  }

module _ {W D T : Type 0} ⦃f : OrderedFloat W⦄ ⦃t : Trigger W T⦄ ⦃d : Decimals D⦄
    (outside : Outside W D T) (depth : ℕ) where
  -- After whatever calls on a new trader, with whatever results, market prices and times, where no context
  -- is created with more orders than its own limit: no context holds more orders than its limit.
  pub perform_all-Roomy :
      (os : List (TraderOperation W D T)) (balance : BalanceSheet W) (n : ℕ) (s : Ustr)
      (cx : TraderSymbolContext W D T)
      → AllAdmissible Roomy os
      → get_context s
          (perform_all outside depth os (record { trader = new balance; reads = n })).trader
        ≡ ok cx
      → size cx.orders ≤ cx.max_orders
  unfolding new Every
  perform_all-Roomy os balance n s cx h e =
      get_context-held Roomy s cx _
        (perform_all-Everywhere outside depth Roomy (Roomy-Carried outside depth) os
          (record { trader = new balance; reads = n }) h tt)
        e
