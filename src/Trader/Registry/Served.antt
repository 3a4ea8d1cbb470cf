-- ===== src/Trader/Registry/Served.antt =====
-- What `compute` of the trader keeps of the trades that it holds.
use babylon_playground_demo.Common.{ℕ, suc, List}
use babylon_playground_demo.Common.Table.{text_key, number_key}
use babylon_playground_demo.Common.Table.Every.{if-holds}
use babylon_playground_demo.Float.{OrderedFloat}
use babylon_playground_demo.Trigger.{Trigger}
use babylon_playground_demo.Types.{Ustr}
use babylon_playground_demo.Instruction.{HandleId}
use babylon_playground_demo.Order.Monad.{Outcome}
use babylon_playground_demo.Trade.Data.{Trade}
use babylon_playground_demo.Trade.Query.{is_closed, pending_of}
use babylon_playground_demo.Trade.Operation.{perform, compute_trade}
use babylon_playground_demo.Trade.Follows.Operations.{perform-Follows}
use babylon_playground_demo.Trader.Error.{TraderError}
use babylon_playground_demo.Trader.Data.{TraderSymbolContext, Outside}
use babylon_playground_demo.Trader.Walk.{walk, walk-Every}
use babylon_playground_demo.Trader.Compute.{
  Found, hand_over, serve_order, serve_trade, serve_context,
}
use babylon_playground_demo.Trader.Carried.{served_orders-holds}
use babylon_playground_demo.Trader.Registry.{
  TradeKept, Life, Life-Stable, ContextKept, handed_trade-Kept, logged-holds, served_trades-Kept,
}

module _ {W D T : Type 0} ⦃f : OrderedFloat W⦄ ⦃t : Trigger W T⦄ (outside : Outside W D T)
    (depth : ℕ) where
  serve_trade-Kept :
      (s : Ustr) (i : HandleId) (trade : Trade W T) (n : ℕ)
      → TradeKept s i trade
      → TradeKept s i (serve_trade outside depth s i trade n).1.0
  unfolding serve_trade
  serve_trade-Kept s i trade n h =
      let r =
        perform (outside.worlds s) depth compute_trade (record { trade = trade; reads = n }) in
      let u = r.1.trade in
      let kept =
        (perform-Follows (outside.worlds s) depth (Life s i) (Life-Stable s i) compute_trade).at
          (record { trade = trade; reads = n }) h in
      if-holds
        (λ (r : Outcome (TraderError W) (List (Found W)) × (Trade W T × ℕ)). TradeKept s i r.1.0)
        (is_closed trade) _ _ (λ _. h)
        λ _.
          logged-holds (TradeKept s i) r.0 (u, r.1.reads) _ kept
            (handed_trade-Kept s i
              (hand_over ((outside.worlds s).now r.1.reads) u.special_pending_instruction
                (pending_of u.pending_instruction_order_id u))
              u (suc r.1.reads) kept)

  pub serve_context-Kept :
      (s : Ustr) (cx : TraderSymbolContext W D T) (n : ℕ)
      → ContextKept s cx
      → ContextKept s (serve_context outside depth s cx n).1.0
  unfolding serve_context
  serve_context-Kept s cx n h =
      let os = walk (serve_order outside depth s) cx.orders (suc n) in
      served_orders-holds (ContextKept s) os (record cx { orders = os.1.0 }) _ h
        λ picked.
          served_trades-Kept s (walk (serve_trade outside depth s) cx.trades os.1.1)
            (record cx { orders = os.1.0 }) picked
            (walk-Every (TradeKept s) (serve_trade outside depth s) (serve_trade-Kept s) cx.trades
              os.1.1 h)
