-- ===== src/Trader/Carried.antt =====
-- What holds of every context of a trader and of its symbol, and what it must withstand to hold on through
-- every call on the trader.
pub mod Confirmed
pub mod Entered
pub mod Placed
pub mod Calls
use babylon_playground_demo.Common.{true, false, ◌≡◌, ℕ, suc, List}
use babylon_playground_demo.Common.Table.{text_key, number_key}
use babylon_playground_demo.Common.Table.Every.{Every, if-holds}
use babylon_playground_demo.Float.{OrderedFloat}
use babylon_playground_demo.Trigger.{Trigger}
use babylon_playground_demo.Types.{Ustr}
use babylon_playground_demo.Instruction.{HandleId, OrderId, ManagedInstruction}
use babylon_playground_demo.Order.Data.{Order}
use babylon_playground_demo.Order.Monad.{Outcome, done, failed, panicked, out_of_fuel}
use babylon_playground_demo.Trade.Data.{Trade}
use babylon_playground_demo.Trade.Query.{is_closed, pending_of}
use babylon_playground_demo.Trade.Operation.{perform, compute_trade}
use babylon_playground_demo.Trade.Follows.Operations.{perform-Follows}
use babylon_playground_demo.Trader.Error.{TraderError}
use babylon_playground_demo.Trader.Data.{Trader, TraderSymbolContext, Outside}
use babylon_playground_demo.Trader.Walk.{walk, walk-Every}
use babylon_playground_demo.Trader.Compute.{
  Found, served_orders, instructions_of, Found, instructions_of, hand_over, served_orders, send_off,
  serve_order, serve_trade, serve_context, compute,
}
use babylon_playground_demo.Trader.Keeps.{Keeps}
use babylon_playground_demo.Common.{Option, some, leb}
use babylon_playground_demo.Common.Table.{find, put}
use babylon_playground_demo.Common.Result.{ok}
use babylon_playground_demo.Position.{Position}
use babylon_playground_demo.Order.Monad.{World}
use babylon_playground_demo.Trade.Data.{Slot, put_order}
use babylon_playground_demo.Trade.Operation.{TradeOperation}
use babylon_playground_demo.Trade.Query.{is_new}
use babylon_playground_demo.Trade.Validate.{validate}
use babylon_playground_demo.Trader.Query.{size}
use babylon_playground_demo.Trader.Create.{insert_order, insert_trade}

abbrev pub Property : Type 0 → Type 0 → Type 0 → Type 1
Property W D T = Ustr → TraderSymbolContext W D T → Type 0

abbrev pub Everywhere : {W D T : Type 0} → Property W D T → Trader W D T → Type 0
Everywhere P tr = Every P tr.trader_symbol_contexts

module _ {W D T : Type 0} ⦃f : OrderedFloat W⦄ ⦃t : Trigger W T⦄ (outside : Outside W D T)
    (depth : ℕ) where
  pub record Carried (P : Property W D T) : Type 0 where
    pub served :
        (s : Ustr) (cx : TraderSymbolContext W D T) (n : ℕ)
        → P s cx
        → P s (serve_context outside depth s cx n).1.0
    -- A method of a trade that is held.
    pub called :
        (s : Ustr) (i : HandleId) (o : TradeOperation W) (cx : TraderSymbolContext W D T)
        (trade : Trade W T) (n : ℕ)
        → find i cx.trades ≡ some trade
        → P s cx
        → P s (record cx {
          trades =
              put i
                (perform (outside.worlds s) depth o (record { trade = trade; reads = n })).1.trade
                cx.trades;
        })
    -- A method of an order of a trade that is held.
    pub ordered :
        (s : Ustr) (i : HandleId) (slot : Slot) (o : Order W T) (cx : TraderSymbolContext W D T)
        (trade : Trade W T)
        → find i cx.trades ≡ some trade
        → P s cx
        → P s (record cx { trades = put i (put_order slot o trade) cx.trades })
    pub positioned :
        (s : Ustr) (p : Position W D) (cx : TraderSymbolContext W D T)
        → P s cx
        → P s (record cx { position = p })
    -- An order that there is room for.
    pub with_order :
        (order : Order W T) (now : ℕ) (cx : TraderSymbolContext W D T)
        → leb cx.max_orders (size cx.orders) ≡ false
        → P order.symbol cx
        → P order.symbol (insert_order order now cx)
    -- A trade that is valid and new.
    pub with_trade :
        (trade : Trade W T) (cx : TraderSymbolContext W D T)
        → validate trade ≡ ok tt
        → is_new trade ≡ true
        → P trade.symbol cx
        → P trade.symbol (insert_trade trade cx)

module _ {W D T : Type 0} (P : TraderSymbolContext W D T → Type 0) where
  pub served_orders-holds :
      (r : Outcome (TraderError W) (List (Found W)) × (List (OrderId × Order W T) × ℕ))
      (cx : TraderSymbolContext W D T)
      (next : List (ManagedInstruction W)
        → Outcome (TraderError W) (List (ManagedInstruction W)) × (TraderSymbolContext W D T × ℕ))
      → P cx
      → ((picked : List (ManagedInstruction W)) → P (next picked).1.0)
      → P (served_orders r cx next).1.0
  served_orders-holds (done found, (orders, n)) cx next h g = g (instructions_of found)
  served_orders-holds (failed e, (orders, n)) cx next h g = h
  served_orders-holds (panicked, (orders, n)) cx next h g = h
  served_orders-holds (out_of_fuel, (orders, n)) cx next h g = h

module _ {W D T : Type 0} (P : Property W D T) where
  send_off-Everywhere :
      (r : Outcome (TraderError W) (List (ManagedInstruction W))
        × (List (Ustr × TraderSymbolContext W D T) × ℕ))
      (tr : Trader W D T)
      → Every P r.1.0
      → Everywhere P (send_off r tr).1.trader
  send_off-Everywhere (done picked, (contexts, n)) tr h = h
  send_off-Everywhere (failed e, (contexts, n)) tr h = h
  send_off-Everywhere (panicked, (contexts, n)) tr h = h
  send_off-Everywhere (out_of_fuel, (contexts, n)) tr h = h

module _ {W D T : Type 0} ⦃f : OrderedFloat W⦄ ⦃t : Trigger W T⦄ (outside : Outside W D T)
    (depth : ℕ) (P : Property W D T) (carried : Carried outside depth P) where
  pub compute-Everywhere : Keeps (Everywhere P) (compute outside depth)
  unfolding compute
  compute-Everywhere = record {
    at = λ m h.
        send_off-Everywhere P
          (walk (serve_context outside depth) m.trader.trader_symbol_contexts m.reads) m.trader
          (walk-Every P (serve_context outside depth) carried.served m.trader.trader_symbol_contexts
            m.reads h);
  }
