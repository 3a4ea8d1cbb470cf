-- ===== src/Trader/Compute.antt =====
-- src/trader.rs: `compute`, which computes the orders and the trades of all symbols, sends off their new
-- instructions, and removes the trades that are closed. The map of contexts is gone through in the order
-- of the table. `closed_orders` is collected and never read.
use babylon_playground_demo.Common.{
  ℕ, suc, Option, none, some, List, [], ◌∷◌, ◌++◌, map, if◌then◌else◌,
}
use babylon_playground_demo.Common.Result.{Result, ok, err, ◌>>=◌}
use babylon_playground_demo.Common.Table.{number_key, erase_all}
use babylon_playground_demo.Float.{OrderedFloat}
use babylon_playground_demo.Trigger.{Trigger}
use babylon_playground_demo.SmartId.{order_kind}
use babylon_playground_demo.Types.{Ustr}
use babylon_playground_demo.Instruction.{
  OrderId, HandleId, DateTime, ManagedInstruction, InstructionError, running, is_new, set_state,
}
use babylon_playground_demo.Order.Data.{Order}
use babylon_playground_demo.Order.Query.{is_closed as is_order_closed}
use babylon_playground_demo.Order.Compute
use babylon_playground_demo.Order.Monad.{Outcome, done, failed, panicked, out_of_fuel}
use babylon_playground_demo.Trade.Data.{Trade, Slot, order_at, put_order}
use babylon_playground_demo.Trade.Query.{is_closed, slot_of_kind, pending_of}
use babylon_playground_demo.Trade.Operation.{perform, compute_trade}
use babylon_playground_demo.Trader.Error.{TraderError, instruction_error}
use babylon_playground_demo.Trader.Data.{Trader, TraderSymbolContext, Outside, job_of}
use babylon_playground_demo.Trader.Monad.{M, TraderMachine}
use babylon_playground_demo.Trader.Walk.{Step, walk}

-- What the loop over the trades finds: an instruction to be sent, or a closed trade.
pub data Found (W : Type 0) : Type 0 where
  instruct : ManagedInstruction W → Found W
  closed_trade : HandleId → Found W

abbrev pub instructions_of : {W : Type 0} → List (Found W) → List (ManagedInstruction W)
instructions_of [] = []
instructions_of (instruct i ∷ rest) = i ∷ instructions_of rest
instructions_of (closed_trade id ∷ rest) = instructions_of rest

abbrev pub closed_of : {W : Type 0} → List (Found W) → List HandleId
closed_of [] = []
closed_of (instruct i ∷ rest) = closed_of rest
closed_of (closed_trade id ∷ rest) = id ∷ closed_of rest

-- The special and the regular pending instruction of an order or a trade after new ones were picked up.
pub record Handed (W : Type 0) : Type 0 where
  pub special : Option (ManagedInstruction W)
  pub regular : Option (ManagedInstruction W)
  pub picked : List (Found W)

module _ {W : Type 0} where
  -- A new instruction is set to running and picked up.
  unfoldable pub start :
      DateTime
      → ManagedInstruction W
      → Result (InstructionError W) (ManagedInstruction W × List (Found W))
  unfolding is_new set_state
  start now i =
      if is_new i
      then (do started ← set_state now running i; ok (started, instruct started ∷ []))
      else ok (i, [])

  -- A special instruction keeps the regular one waiting.
  unfoldable pub hand_over :
      DateTime
      → Option (ManagedInstruction W)
      → Option (ManagedInstruction W)
      → Result (InstructionError W) (Handed W)
  unfolding start
  hand_over now (some special) regular = do
    s ← start now special
    ok (record { special = some s.0; regular = regular; picked = s.1 })
  hand_over now none (some regular) = do
    s ← start now regular
    ok (record { special = none; regular = some s.0; picked = s.1 })
  hand_over now none none = ok (record { special = none; regular = none; picked = [] })

-- Where the pending instruction that the trade chose is kept.
abbrev pub chosen_slot : Option OrderId → Option Slot
chosen_slot none = none
chosen_slot (some id) = slot_of_kind (order_kind id)

module _ {W : Type 0} where
  -- Whether the body goes on after a computation whose error is only logged.
  abbrev pub logged :
      {E A V : Type 0}
      → Outcome E (Unit {0})
      → V × ℕ
      → Outcome (TraderError W) (List A) × (V × ℕ)
      → Outcome (TraderError W) (List A) × (V × ℕ)
  logged (done u) s next = next
  logged (failed e) s next = next
  logged panicked s next = (panicked, s)
  logged out_of_fuel s next = (out_of_fuel, s)

module _ {W T : Type 0} where
  abbrev pub store_in_order : Handed W → Order W T → Order W T
  store_in_order h o = record o {
    special_pending_instruction = h.special;
    pending_instruction = h.regular;
  }

  abbrev pub handed_order :
      Result (InstructionError W) (Handed W)
      → Order W T
      → ℕ
      → Outcome (TraderError W) (List (Found W)) × (Order W T × ℕ)
  handed_order (ok h) o n = (done h.picked, (store_in_order h o, n))
  handed_order (err e) o n = (failed (instruction_error e), (o, n))

  abbrev pub store_pending : Option Slot → Option (ManagedInstruction W) → Trade W T → Trade W T
  store_pending none i t = t
  store_pending (some slot) i t =
      put_order slot (record (order_at slot t) { pending_instruction = i }) t

  abbrev pub store_in_trade : Handed W → Trade W T → Trade W T
  store_in_trade h t =
      record (store_pending (chosen_slot t.pending_instruction_order_id) h.regular t) {
        special_pending_instruction = h.special;
      }

  abbrev pub handed_trade :
      Result (InstructionError W) (Handed W)
      → Trade W T
      → ℕ
      → Outcome (TraderError W) (List (Found W)) × (Trade W T × ℕ)
  handed_trade (ok h) t n = (done h.picked, (store_in_trade h t, n))
  handed_trade (err e) t n = (failed (instruction_error e), (t, n))

module _ {W D T : Type 0} where
  abbrev pub served_trades :
      Outcome (TraderError W) (List (Found W)) × (List (HandleId × Trade W T) × ℕ)
      → TraderSymbolContext W D T
      → List (ManagedInstruction W)
      → Outcome (TraderError W) (List (ManagedInstruction W)) × (TraderSymbolContext W D T × ℕ)
  served_trades (done found, (trades, n)) cx picked = (
    done (picked ++ instructions_of found),
    (record cx { trades = erase_all (closed_of found) trades }, n),
  )
  served_trades (failed e, (trades, n)) cx picked = (failed e, (record cx { trades = trades }, n))
  served_trades (panicked, (trades, n)) cx picked = (panicked, (record cx { trades = trades }, n))
  served_trades (out_of_fuel, (trades, n)) cx picked =
      (out_of_fuel, (record cx { trades = trades }, n))

  abbrev pub served_orders :
      Outcome (TraderError W) (List (Found W)) × (List (OrderId × Order W T) × ℕ)
      → TraderSymbolContext W D T
      → (List (ManagedInstruction W)
          → Outcome (TraderError W) (List (ManagedInstruction W)) × (TraderSymbolContext W D T × ℕ))
      → Outcome (TraderError W) (List (ManagedInstruction W)) × (TraderSymbolContext W D T × ℕ)
  served_orders (done found, (orders, n)) cx next = next (instructions_of found)
  served_orders (failed e, (orders, n)) cx next = (failed e, (cx, n))
  served_orders (panicked, (orders, n)) cx next = (panicked, (cx, n))
  served_orders (out_of_fuel, (orders, n)) cx next = (out_of_fuel, (cx, n))

  -- What was picked up is sent when all symbols were served.
  abbrev pub send_off :
      Outcome (TraderError W) (List (ManagedInstruction W))
        × (List (Ustr × TraderSymbolContext W D T) × ℕ)
      → Trader W D T
      → Outcome (TraderError W) (Unit {0}) × TraderMachine W D T
  send_off (done picked, (contexts, n)) tr = (
    done tt,
    record {
      trader = record tr { trader_symbol_contexts = contexts; sent = tr.sent ++ map job_of picked };
      reads = n;
    },
  )
  send_off (failed e, (contexts, n)) tr =
      (failed e, record { trader = record tr { trader_symbol_contexts = contexts }; reads = n })
  send_off (panicked, (contexts, n)) tr =
      (panicked, record { trader = record tr { trader_symbol_contexts = contexts }; reads = n })
  send_off (out_of_fuel, (contexts, n)) tr =
      (out_of_fuel, record { trader = record tr { trader_symbol_contexts = contexts }; reads = n })

module _ {W D T : Type 0} ⦃f : OrderedFloat W⦄ ⦃t : Trigger W T⦄ (outside : Outside W D T)
    (depth : ℕ) where
  unfoldable pub serve_order : Ustr → Step (TraderError W) (Found W) OrderId (Order W T)
  unfolding hand_over
  serve_order symbol id order n =
      let r = Compute.compute (outside.worlds symbol) depth (record { order = order; reads = n }) in
      let o = r.1.order in
      let now = (outside.worlds symbol).now r.1.reads in
      if is_order_closed order
      then (done [], (order, n))
      else logged r.0 (o, r.1.reads)
          (handed_order (hand_over now o.special_pending_instruction o.pending_instruction) o
            (suc r.1.reads))

  unfoldable pub serve_trade : Ustr → Step (TraderError W) (Found W) HandleId (Trade W T)
  unfolding hand_over
  serve_trade symbol id trade n =
      let r =
        perform (outside.worlds symbol) depth compute_trade (record { trade = trade; reads = n }) in
      let u = r.1.trade in
      let now = (outside.worlds symbol).now r.1.reads in
      if is_closed trade
      then (done (closed_trade trade.id ∷ []), (trade, n))
      else logged r.0 (u, r.1.reads)
          (handed_trade
            (hand_over now u.special_pending_instruction
              (pending_of u.pending_instruction_order_id u))
            u (suc r.1.reads))

  -- The body of the loop over the symbols, which first reads the market price.
  unfoldable pub serve_context :
      Step (TraderError W) (ManagedInstruction W) Ustr (TraderSymbolContext W D T)
  unfolding serve_order serve_trade walk
  serve_context symbol cx n =
      let os = walk (serve_order symbol) cx.orders (suc n) in
      let with_orders = (record cx { orders = os.1.0 }) in
      let ts = walk (serve_trade symbol) cx.trades os.1.1 in
      served_orders os with_orders (served_trades ts with_orders)

  unfoldable pub compute : M W D T (Unit {0})
  unfolding serve_context walk
  compute m = send_off (walk serve_context m.trader.trader_symbol_contexts m.reads) m.trader
