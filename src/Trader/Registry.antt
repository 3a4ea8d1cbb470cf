-- ===== src/Trader/Registry.antt =====
-- Which trades a trader may hold: those of the key under which they are stored, with a life that began at
-- the creation of the trade.
pub mod Served
pub mod Entered
pub mod Calls
use babylon_playground_demo.Common.{ℕ, true, false, ◌≡◌, ◌==◌, Option, none, some, List}
use babylon_playground_demo.Common.Result.{Result, ok, err}
use babylon_playground_demo.Common.Table.{text_key, number_key}
use babylon_playground_demo.Common.Table.Every.{Every, erase_all-Every}
use babylon_playground_demo.Types.{Ustr}
use babylon_playground_demo.Instruction.{HandleId, ManagedInstruction, InstructionError}
use babylon_playground_demo.Order.Monad.{Outcome, done, failed, panicked, out_of_fuel}
use babylon_playground_demo.Trade.State.{new}
use babylon_playground_demo.Trade.Data.{Trade, Slot, entry_slot, exit_slot, stoploss_slot}
use babylon_playground_demo.Trade.Diagram.{◌⇒*◌, onward}
use babylon_playground_demo.Trade.Journey.{explained, explained_of, explained-some, is_explained}
use babylon_playground_demo.Trade.Follows.{Family, Stable}
use babylon_playground_demo.Trader.Data.{Trader, TraderSymbolContext}
use babylon_playground_demo.Trader.Error.{TraderError}
use babylon_playground_demo.Trader.Carried.{Everywhere}
use babylon_playground_demo.Trader.Compute.{
  Found, Handed, store_pending, handed_trade, logged, chosen_slot, served_trades, closed_of,
}

-- The trade that is stored for a symbol under an id: it has this id, which is not zero, and this symbol,
-- its state is reached from `new` along the diagram of trades, and if it is closed it has a reason.
abbrev pub TradeKept : {W T : Type 0} → Ustr → HandleId → Trade W T → Type 0
TradeKept s i t =
    ((t.id ≡ i) × (t.symbol ≡ s))
    × (((i == 0) ≡ false) × ((new ⇒* t.state) × (is_explained t ≡ true)))

abbrev pub Life : Ustr → HandleId → Family
Life s i id symbol = λ state reason a b c.
    ((id ≡ i) × (symbol ≡ s))
    × (((i == 0) ≡ false) × ((new ⇒* state) × (explained state reason ≡ true)))

pub Life-Stable : (s : Ustr) (i id : HandleId) (symbol : Ustr) → Stable (Life s i id symbol)
Life-Stable s i id symbol = record {
  move = λ t u r x y z e may h. (h.0, (h.1.0, (onward h.1.1.0 e, explained_of u r may)));
  explain = λ t r q x y z h. (h.0, (h.1.0, (h.1.1.0, explained-some t q)));
  enter = λ t r x y z w p h. h;
  exit = λ t r x y z w p h. h;
  stop = λ t r x y z w p h. h;
}

abbrev pub ContextKept : {W D T : Type 0} → Ustr → TraderSymbolContext W D T → Type 0
ContextKept s cx = Every (TradeKept s) cx.trades

abbrev pub Kept : {W D T : Type 0} → Trader W D T → Type 0
Kept tr = Everywhere ContextKept tr

module _ {W T : Type 0} where
  store_pending-Kept :
      (s : Ustr) (i : HandleId) (slot : Option Slot) (p : Option (ManagedInstruction W))
      (t : Trade W T)
      → TradeKept s i t
      → TradeKept s i (store_pending slot p t)
  store_pending-Kept s i none p t h = h
  store_pending-Kept s i (some entry_slot) p t h = h
  store_pending-Kept s i (some exit_slot) p t h = h
  store_pending-Kept s i (some stoploss_slot) p t h = h

  pub handed_trade-Kept :
      (s : Ustr) (i : HandleId) (r : Result (InstructionError W) (Handed W)) (t : Trade W T) (n : ℕ)
      → TradeKept s i t
      → TradeKept s i (handed_trade r t n).1.0
  handed_trade-Kept s i (ok h) t n kept =
      store_pending-Kept s i (chosen_slot t.pending_instruction_order_id) h.regular t kept
  handed_trade-Kept s i (err e) t n kept = kept

pub logged-holds :
    {W E A V : Type 0} (P : V → Type 0) (r : Outcome E (Unit {0})) (s : V × ℕ)
    (next : Outcome (TraderError W) (List A) × (V × ℕ))
    → P s.0
    → P next.1.0
    → P (logged r s next).1.0
logged-holds P (done u) s next h g = g
logged-holds P (failed e) s next h g = g
logged-holds P panicked s next h g = h
logged-holds P out_of_fuel s next h g = h

module _ {W D T : Type 0} where
  pub served_trades-Kept :
      (s : Ustr) (r : Outcome (TraderError W) (List (Found W)) × (List (HandleId × Trade W T) × ℕ))
      (cx : TraderSymbolContext W D T) (picked : List (ManagedInstruction W))
      → Every (TradeKept s) r.1.0
      → ContextKept s (served_trades r cx picked).1.0
  served_trades-Kept s (done found, (trades, n)) cx picked h =
      erase_all-Every (TradeKept s) (closed_of found) trades h
  served_trades-Kept s (failed e, (trades, n)) cx picked h = h
  served_trades-Kept s (panicked, (trades, n)) cx picked h = h
  served_trades-Kept s (out_of_fuel, (trades, n)) cx picked h = h
