-- ===== src/Trader/Orderly.antt =====
-- What a trader holds after any series of calls is in order, and `compute` removes the closed trades of it.
use babylon_playground_demo.Common.{ℕ, suc, ◌≡◌, refl, sym, ap, ◌∙◌, subst, true, none, some, List}
use babylon_playground_demo.Common.Result.{ok, err, bind-passed, ok_or-some}
use babylon_playground_demo.Common.Table.{find, text_key, number_key}
use babylon_playground_demo.Common.Table.Every.{Every, find-Every}
use babylon_playground_demo.Common.Table.Distinct.{Distinct, put-Distinct, erase_all-Distinct}
use babylon_playground_demo.Float.{OrderedFloat}
use babylon_playground_demo.Trigger.{Trigger}
use babylon_playground_demo.Types.{Ustr}
use babylon_playground_demo.Balance.{BalanceSheet}
use babylon_playground_demo.Position.{Decimals}
use babylon_playground_demo.Instruction.{HandleId, ManagedInstruction}
use babylon_playground_demo.Order.Data.{Order}
use babylon_playground_demo.Order.Monad.{Outcome, done, failed, panicked, out_of_fuel}
use babylon_playground_demo.Trade.Data.{Trade}
use babylon_playground_demo.Trade.Query.{is_closed}
use babylon_playground_demo.Trader.Error.{TraderError, symbol_not_found}
use babylon_playground_demo.Trader.Data.{Trader, TraderSymbolContext, Outside, new}
use babylon_playground_demo.Trader.Query.{context_of, get_context, get_trade}
use babylon_playground_demo.Trader.Walk.{walk, walk-Distinct}
use babylon_playground_demo.Trader.Compute.{
  Found, closed_of, served_trades, send_off, serve_order, serve_trade, serve_context, compute,
}
use babylon_playground_demo.Trader.Create.{insert_order, insert_trade}
use babylon_playground_demo.Trader.Operation.{TraderOperation, perform_all}
use babylon_playground_demo.Trader.Monad.{TraderMachine}
use babylon_playground_demo.Trader.Registry.{TradeKept, ContextKept}
use babylon_playground_demo.Trader.Registry.Entered.{Kept-Carried, insert_order-trades}
use babylon_playground_demo.Trader.Carried.{Everywhere, Carried, served_orders-holds}
use babylon_playground_demo.Trader.Carried.Confirmed.{held}
use babylon_playground_demo.Trader.Carried.Calls.{AllAdmissible, perform_all-Everywhere}
use babylon_playground_demo.Trader.Removed.{walk-Stepped, serve_context-removes}

-- The trades are those that the trader may hold, and there is one of each id.
abbrev pub Orderly : {W D T : Type 0} → Ustr → TraderSymbolContext W D T → Type 0
Orderly s cx = ContextKept s cx × Distinct cx.trades

module _ {W D T : Type 0} where
  served_trades-Distinct :
      (r : Outcome (TraderError W) (List (Found W)) × (List (HandleId × Trade W T) × ℕ))
      (cx : TraderSymbolContext W D T) (picked : List (ManagedInstruction W))
      → Distinct r.1.0
      → Distinct (served_trades r cx picked).1.0.trades
  served_trades-Distinct (done found, (trades, n)) cx picked h =
      erase_all-Distinct (closed_of found) trades h
  served_trades-Distinct (failed e, (trades, n)) cx picked h = h
  served_trades-Distinct (panicked, (trades, n)) cx picked h = h
  served_trades-Distinct (out_of_fuel, (trades, n)) cx picked h = h

  insert_order-Distinct :
      (order : Order W T) (now : ℕ) (cx : TraderSymbolContext W D T)
      → Distinct cx.trades
      → Distinct (insert_order order now cx).trades
  insert_order-Distinct order now cx h = subst Distinct (sym (insert_order-trades order now cx)) h

module _ {W D T : Type 0} ⦃f : OrderedFloat W⦄ ⦃t : Trigger W T⦄ (outside : Outside W D T)
    (depth : ℕ) where
  serve_context-Distinct :
      (s : Ustr) (cx : TraderSymbolContext W D T) (n : ℕ)
      → Distinct cx.trades
      → Distinct (serve_context outside depth s cx n).1.0.trades
  unfolding serve_context
  serve_context-Distinct s cx n h =
      let os = walk (serve_order outside depth s) cx.orders (suc n) in
      served_orders-holds (λ c. Distinct c.trades) os (record cx { orders = os.1.0 }) _ h
        λ picked.
          served_trades-Distinct (walk (serve_trade outside depth s) cx.trades os.1.1)
            (record cx { orders = os.1.0 }) picked
            (walk-Distinct (serve_trade outside depth s) cx.trades os.1.1 h)

  pub Orderly-Carried : Carried {D = D} outside depth Orderly
  unfolding insert_trade
  Orderly-Carried =
      let kept = Kept-Carried {D = D} outside depth in
      record {
        served = λ s cx n h. (kept.served s cx n h.0, serve_context-Distinct s cx n h.1);
        called = λ s i o cx trade n found h.
            (kept.called s i o cx trade n found h.0, put-Distinct i _ cx.trades h.1);
        ordered = λ s i slot o cx trade found h.
            (kept.ordered s i slot o cx trade found h.0, put-Distinct i _ cx.trades h.1);
        positioned = λ s p cx h. h;
        with_order = λ order now cx room h.
            (kept.with_order order now cx room h.0, insert_order-Distinct order now cx h.1);
        with_trade = λ trade cx valid fresh h.
            (kept.with_trade trade cx valid fresh h.0, put-Distinct trade.id trade cx.trades h.1);
      }

send_off-done :
    {W D T : Type 0}
    (r : Outcome (TraderError W) (List (ManagedInstruction W))
      × (List (Ustr × TraderSymbolContext W D T) × ℕ))
    (tr : Trader W D T)
    → (send_off r tr).0 ≡ done tt
    → (zs : List (ManagedInstruction W)) × ((r.0 ≡ done zs)
        × ((send_off r tr).1.trader.trader_symbol_contexts ≡ r.1.0))
send_off-done (done picked, (contexts, n)) tr h = (picked, (refl, refl))
send_off-done (failed e, (contexts, n)) tr h = cc
send_off-done (panicked, (contexts, n)) tr h = cc
send_off-done (out_of_fuel, (contexts, n)) tr h = cc

get_trade-missing :
    {W D T : Type 0} (s : Ustr) (i : HandleId) (tr : Trader W D T) (cx : TraderSymbolContext W D T)
    → context_of s tr ≡ some cx
    → find i cx.trades ≡ none
    → get_trade s i tr ≡ err (symbol_not_found s)
unfolding get_trade get_context
get_trade-missing s i tr cx there gone = rw (there, gone) refl

module _ {W D T : Type 0} ⦃f : OrderedFloat W⦄ ⦃t : Trigger W T⦄ (outside : Outside W D T)
    (depth : ℕ) where
  compute-removed :
      (m : TraderMachine W D T) (s : Ustr) (i : HandleId) (trade : Trade W T)
      → Everywhere Orderly m.trader
      → get_trade s i m.trader ≡ ok trade
      → is_closed trade ≡ true
      → (compute outside depth m).0 ≡ done tt
      → get_trade s i (compute outside depth m).1.trader ≡ err (symbol_not_found s)
  unfolding compute get_trade get_context
  compute-removed m s i trade h there shut end =
      let (cx, (held_there, found)) = bind-passed (context_of s m.trader) _ _ trade there in
      let orderly = held Orderly s cx m.trader h held_there in
      let in_trades = ok_or-some (find i cx.trades) _ trade found in
      let r = walk (serve_context outside depth) m.trader.trader_symbol_contexts m.reads in
      let (zs, (back, same)) = send_off-done r m.trader end in
      let at =
        walk-Stepped (serve_context outside depth) s cx m.trader.trader_symbol_contexts m.reads zs
          held_there back in
      let gone =
        serve_context-removes outside depth s cx at.reads at.found i trade orderly.1 in_trades shut
          (find-Every (TradeKept s) i trade cx.trades orderly.0 in_trades).0.0 at.returned in
      get_trade-missing s i (send_off r m.trader).1.trader
        (serve_context outside depth s cx at.reads).1.0 (ap (find s) same ∙ at.stored) gone

module _ {W D T : Type 0} ⦃f : OrderedFloat W⦄ ⦃t : Trigger W T⦄ ⦃d : Decimals D⦄
    (outside : Outside W D T) (depth : ℕ) where
  -- After whatever calls on a new trader, where every context that is created holds only trades that the
  -- trader may hold, with one of each id: if `compute` is called and returns without an error, then a trade that was
  -- closed when it was called is no longer there.
  pub compute-removes :
      (os : List (TraderOperation W D T)) (balance : BalanceSheet W) (n : ℕ)
      (m : TraderMachine W D T) (s : Ustr) (i : HandleId) (trade : Trade W T)
      → AllAdmissible Orderly os
      → m ≡ perform_all outside depth os (record { trader = new balance; reads = n })
      → get_trade s i m.trader ≡ ok trade
      → is_closed trade ≡ true
      → (compute outside depth m).0 ≡ done tt
      → get_trade s i (compute outside depth m).1.trader ≡ err (symbol_not_found s)
  unfolding new Every
  compute-removes os balance n m s i trade h e there shut end =
      compute-removed outside depth m s i trade
        (subst (λ m. Everywhere Orderly m.trader) (sym e)
          (perform_all-Everywhere outside depth Orderly (Orderly-Carried outside depth) os
            (record { trader = new balance; reads = n }) h tt))
        there shut end
