-- ===== src/Trader/Registry/Calls.antt =====
-- The trades that a trader holds after any sequence of calls on it.
use babylon_playground_demo.Common.{ℕ, ◌≡◌, List}
use babylon_playground_demo.Common.Result.{ok, bind-passed, ok_or-some}
use babylon_playground_demo.Common.Table.{text_key, number_key}
use babylon_playground_demo.Common.Table.Every.{Every, find-Every}
use babylon_playground_demo.Float.{OrderedFloat}
use babylon_playground_demo.Trigger.{Trigger}
use babylon_playground_demo.Types.{Ustr}
use babylon_playground_demo.Balance.{BalanceSheet}
use babylon_playground_demo.Position.{Decimals}
use babylon_playground_demo.Instruction.{HandleId}
use babylon_playground_demo.Trade.Data.{Trade}
use babylon_playground_demo.Trader.Data.{Trader, Outside, new}
use babylon_playground_demo.Trader.Query.{get_context, context_of, get_trade}
use babylon_playground_demo.Trader.Operation.{TraderOperation, perform_all}
use babylon_playground_demo.Trader.Registry.{TradeKept, ContextKept, Kept}
use babylon_playground_demo.Trader.Registry.Entered.{Kept-Carried}
use babylon_playground_demo.Trader.Carried.Confirmed.{held}
use babylon_playground_demo.Trader.Carried.Calls.{AllAdmissible, perform_all-Everywhere}

get_trade-TradeKept :
    {W D T : Type 0} (s : Ustr) (i : HandleId) (tr : Trader W D T) (t : Trade W T)
    → Kept tr
    → get_trade s i tr ≡ ok t
    → TradeKept s i t
unfolding get_trade get_context
get_trade-TradeKept s i tr t h e =
    let (cx, (there, found)) = bind-passed (context_of s tr) _ _ t e in
    find-Every (TradeKept s) i t cx.trades (held ContextKept s cx tr h there)
      (ok_or-some _ _ t found)

module _ {W D T : Type 0} ⦃f : OrderedFloat W⦄ ⦃t : Trigger W T⦄ ⦃d : Decimals D⦄
    (outside : Outside W D T) (depth : ℕ) where
  -- After whatever calls on a new trader, with whatever results, market prices and times, where every
  -- context that is created holds only such trades (as one without trades does): a trade that is asked for
  -- by a symbol and an id has this id, which is not zero, and this symbol, its state is reached from `new`
  -- along the diagram of trades, and if it is closed it has a reason.
  pub perform_all-TradeKept :
      (os : List (TraderOperation W D T)) (balance : BalanceSheet W) (n : ℕ) (s : Ustr)
      (i : HandleId) (u : Trade W T)
      → AllAdmissible ContextKept os
      → get_trade s i
          (perform_all outside depth os (record { trader = new balance; reads = n })).trader
        ≡ ok u
      → TradeKept s i u
  unfolding new Every
  perform_all-TradeKept os balance n s i u h e =
      get_trade-TradeKept s i _ u
        (perform_all-Everywhere outside depth ContextKept (Kept-Carried outside depth) os
          (record { trader = new balance; reads = n }) h tt)
        e
