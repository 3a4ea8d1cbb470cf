-- ===== src/Trader/Carried/Confirmed.antt =====
-- The confirmations of orders.
use babylon_playground_demo.Common.{ℕ, ◌≡◌, some}
use babylon_playground_demo.Common.Result.{ok, ok_or-some}
use babylon_playground_demo.Common.Table.{find, text_key, number_key}
use babylon_playground_demo.Common.Table.Every.{find-Every, put-Every}
use babylon_playground_demo.Float.{OrderedFloat}
use babylon_playground_demo.Trigger.{Trigger}
use babylon_playground_demo.Types.{Ustr}
use babylon_playground_demo.Instruction.{HandleId, OrderId, InstructionExecutionResult}
use babylon_playground_demo.SmartId.{decode, order_kind}
use babylon_playground_demo.Order.Operation.{Operation}
use babylon_playground_demo.Trade.Data.{Trade, Slot}
use babylon_playground_demo.Trade.Query.{slot_of_kind}
use babylon_playground_demo.Trade.Operation.{TradeOperation}
use babylon_playground_demo.Trader.Data.{Trader, TraderStats, TraderSymbolContext, Outside}
use babylon_playground_demo.Trader.Error.{symbol_not_found}
use babylon_playground_demo.Trader.Query.{context_of, get_context}
use babylon_playground_demo.Trader.Confirm.{
  put_trade, count, call_trade, on_trade, call_order, on_order, route, confirm_result,
  confirm_instruction_execution, is_ignored,
}
use babylon_playground_demo.Trader.Confirm
use babylon_playground_demo.Trader.Operation.{Confirmation, open_failed, confirm}
use babylon_playground_demo.Trader.Monad.{TraderMachine, ◌>>=◌}
use babylon_playground_demo.Trader.Keeps.{
  Keeps, Keeps-bind, or_fail-known, unwrap-known, keeps_rules,
}
use babylon_playground_demo.Trader.Carried.{Property, Everywhere, Carried, compute-Everywhere}

module _ {W D T : Type 0} (P : Property W D T) where
  pub held :
      (s : Ustr) (cx : TraderSymbolContext W D T) (tr : Trader W D T)
      → Everywhere P tr
      → context_of s tr ≡ some cx
      → P s cx
  held s cx tr h e = find-Every P s cx tr.trader_symbol_contexts h e

  pub get_context-held :
      (s : Ustr) (cx : TraderSymbolContext W D T) (tr : Trader W D T)
      → Everywhere P tr
      → get_context s tr ≡ ok cx
      → P s cx
  unfolding get_context
  get_context-held s cx tr h e = held s cx tr h (ok_or-some (context_of s tr) _ cx e)

  count-Everywhere :
      (g : TraderStats → TraderStats) → Keeps (Everywhere P) (count {W = W} {D = D} {T = T} g)
  count-Everywhere g = search keeps_rules

module _ {W D T : Type 0} ⦃f : OrderedFloat W⦄ ⦃t : Trigger W T⦄ (outside : Outside W D T)
    (depth : ℕ) (P : Property W D T) (carried : Carried outside depth P) where
  call_trade-Everywhere :
      (s : Ustr) (i : HandleId) (o : TradeOperation W) (cx : TraderSymbolContext W D T)
      (trade : Trade W T) (m : TraderMachine W D T)
      → find i cx.trades ≡ some trade
      → P s cx
      → Everywhere P m.trader
      → Everywhere P (call_trade outside depth s i o cx trade m).1.trader
  unfolding call_trade
  call_trade-Everywhere s i o cx trade m found h k =
      put-Every P s _ m.trader.trader_symbol_contexts
        (carried.called s i o cx trade m.reads found h) k

  on_trade-Everywhere :
      (s : Ustr) (i : HandleId) (o : TradeOperation W)
      → Keeps (Everywhere P) (on_trade outside depth s i o)
  unfolding on_trade ◌>>=◌
  on_trade-Everywhere s i o = record {
    at = λ m h.
        or_fail-known (Everywhere P) _ m (symbol_not_found s) (context_of s m.trader) h λ cx there.
          or_fail-known (Everywhere P) _ m (symbol_not_found s) (find i cx.trades) h λ trade found.
            call_trade-Everywhere s i o cx trade m found (held P s cx m.trader h there) h;
  }

  call_order-Everywhere :
      (s : Ustr) (i : HandleId) (slot : Slot) (o : Operation W T) (cx : TraderSymbolContext W D T)
      (trade : Trade W T) (m : TraderMachine W D T)
      → find i cx.trades ≡ some trade
      → P s cx
      → Everywhere P m.trader
      → Everywhere P (call_order outside depth s i slot o cx trade m).1.trader
  unfolding call_order
  call_order-Everywhere s i slot o cx trade m found h k =
      put-Every P s _ m.trader.trader_symbol_contexts (carried.ordered s i slot _ cx trade found h)
        k

  on_order-Everywhere :
      (s : Ustr) (id : OrderId) (o : Operation W T)
      → Keeps (Everywhere P) (on_order outside depth s id o)
  unfolding on_order ◌>>=◌
  on_order-Everywhere s id o = record {
    at = λ m h. unwrap-known (Everywhere P) _ m (context_of s m.trader) h λ cx there.
        unwrap-known (Everywhere P) _ m (find (decode id).handle_id cx.trades) h λ trade found.
          or_fail-known (Everywhere P) _ m (symbol_not_found s) (slot_of_kind (order_kind id)) h
            λ slot named.
              call_order-Everywhere s (decode id).handle_id slot o cx trade m found
                (held P s cx m.trader h there) h;
  }

  route-Everywhere :
      (s : Ustr) (id : OrderId) (o : Operation W T) (u : TradeOperation W)
      → Keeps (Everywhere P) (route outside depth s id o u)
  unfolding route
  route-Everywhere s id o u = search (keeps_rules, on_order-Everywhere, on_trade-Everywhere)

  pub confirm-Everywhere :
      (s : Ustr) (id : OrderId) (c : Confirmation W)
      → Keeps (Everywhere P) (confirm outside depth s id c)
  unfolding confirm Confirm.confirm_order_open_failed Confirm.confirm_order_opened
      Confirm.confirm_order_filled Confirm.confirm_order_replace_failed
      Confirm.confirm_order_replaced Confirm.confirm_order_cancel_failed
      Confirm.confirm_order_cancelled Confirm.confirm_order_rejected Confirm.confirm_order_expired
  confirm-Everywhere s id open_failed = Keeps-bind _ _ (route-Everywhere s id _ _) λ _.
      Keeps-bind _ _ (on_trade-Everywhere s (decode id).handle_id _)
        λ _. Keeps-bind _ _ (count-Everywhere P _) λ _. compute-Everywhere outside depth P carried
  confirm-Everywhere s id _ =
      Keeps-bind _ _ (route-Everywhere s id _ _)
        λ _. Keeps-bind _ _ (count-Everywhere P _) λ _. compute-Everywhere outside depth P carried

  confirm_result-Everywhere :
      (s : Ustr) (id : OrderId) (result : InstructionExecutionResult)
      → Keeps (Everywhere P) (confirm_result outside depth s id result)
  unfolding confirm_result ◌>>=◌
  confirm_result-Everywhere s id result = record {
    at = λ m h. or_fail-known (Everywhere P) _ m _ result.metadata.trade_id h λ i named.
        or_fail-known (Everywhere P) _ m _ (context_of s m.trader) h λ cx there.
          or_fail-known (Everywhere P) _ m _ (find i cx.trades) h λ trade found.
            call_trade-Everywhere s i _ cx trade m found (held P s cx m.trader h there) h;
  }

  pub confirm_instruction_execution-Everywhere :
      (result : InstructionExecutionResult)
      → Keeps (Everywhere P) (confirm_instruction_execution outside depth result)
  unfolding confirm_instruction_execution
  confirm_instruction_execution-Everywhere result =
      search (keeps_rules, confirm_result-Everywhere, compute-Everywhere) depth 20
