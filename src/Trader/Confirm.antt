-- ===== src/Trader/Confirm.antt =====
-- src/trader.rs: the methods that pass on to a trade, or to an order without one, what the exchange confirmed.
use babylon_playground_demo.Common.{false, true, ℕ, suc, Bool, Option, ◌==◌, if◌then◌else◌}
use babylon_playground_demo.Common.Table.{find, put, text_key, number_key}
use babylon_playground_demo.Float.{OrderedFloat}
use babylon_playground_demo.Trigger.{Trigger}
use babylon_playground_demo.Types.{Ustr}
use babylon_playground_demo.Instruction.{OrderId, HandleId, InstructionExecutionResult}
use babylon_playground_demo.SmartId.{HandleOrderKind, no_kind, unexpected_order, decode, order_kind}
use babylon_playground_demo.Order.Data.{OrderFill, NormalizedOrderEvent}
use babylon_playground_demo.Order.Operation as OrderOperation
use babylon_playground_demo.Order.Operation.{Operation}
use babylon_playground_demo.Trade.Data.{Trade, Slot, order_at, put_order}
use babylon_playground_demo.Trade.Error.{trade_id_missing, trade_not_found}
use babylon_playground_demo.Trade.Query.{slot_of_kind}
use babylon_playground_demo.Trade.Operation as TradeOperation
use babylon_playground_demo.Trade.Operation.{TradeOperation}
use babylon_playground_demo.Trader.Error.{
  symbol_not_found, unsupported_instruction_execution_result, order_error, trade_error,
}
use babylon_playground_demo.Trader.Data.{Trader, TraderStats, TraderSymbolContext, Outside}
use babylon_playground_demo.Trader.Query.{context_of}
use babylon_playground_demo.Trader.Create.{put_context}
use babylon_playground_demo.Trader.Compute.{compute}
use babylon_playground_demo.Trader.Monad.{
  M, wrap_by, pure, gets, unwrap, or_fail, modify, ◌>>=◌, ◌>>◌,
}

-- What is not confirmed by any means.
abbrev pub is_ignored : HandleOrderKind → Bool
is_ignored no_kind = true
is_ignored unexpected_order = true
is_ignored _ = false

module _ {W D T : Type 0} where
  abbrev pub put_trade :
      Ustr → HandleId → Trade W T → TraderSymbolContext W D T → Trader W D T → Trader W D T
  put_trade symbol id trade cx tr =
      put_context symbol (record cx { trades = put id trade cx.trades }) tr

  -- One of the statistics goes up by one.
  abbrev pub count : (TraderStats → TraderStats) → M W D T (Unit {0})
  count g = modify (λ tr. record tr { stats = g tr.stats })

module _ {W D T : Type 0} ⦃f : OrderedFloat W⦄ ⦃t : Trigger W T⦄ (outside : Outside W D T)
    (depth : ℕ) where
  -- A call of a method of a trade that was found.
  unfoldable pub call_trade :
      Ustr
      → HandleId
      → TradeOperation W
      → TraderSymbolContext W D T
      → Trade W T
      → M W D T (Unit {0})
  call_trade symbol id operation cx trade m =
      let r =
        TradeOperation.perform (outside.worlds symbol) depth operation
          (record { trade = trade; reads = m.reads }) in
      (
        wrap_by trade_error r.0,
        record { trader = put_trade symbol id r.1.trade cx m.trader; reads = r.1.reads },
      )

  -- `get_trade_mut`, and the call.
  unfoldable pub on_trade : Ustr → HandleId → TradeOperation W → M W D T (Unit {0})
  unfolding call_trade
  on_trade symbol id operation = do
    found ← gets (context_of symbol)
    cx ← or_fail (symbol_not_found symbol) found
    trade ← or_fail (symbol_not_found symbol) (find id cx.trades)
    call_trade symbol id operation cx trade

  -- A call of a method of one of the orders of a trade, past the trade.
  unfoldable pub call_order :
      Ustr
      → HandleId
      → Slot
      → Operation W T
      → TraderSymbolContext W D T
      → Trade W T
      → M W D T (Unit {0})
  call_order symbol id slot operation cx trade m =
      let r =
        OrderOperation.perform (outside.worlds symbol) depth operation
          (record { order = order_at slot trade; reads = m.reads }) in
      (
        wrap_by order_error r.0,
        record {
          trader = put_trade symbol id (put_order slot r.1.order trade) cx m.trader;
          reads = r.1.reads;
        },
      )

  -- `get_order_mut`, and the call.
  unfoldable pub on_order : Ustr → OrderId → Operation W T → M W D T (Unit {0})
  unfolding call_order
  on_order symbol local_order_id operation = do
    let id = (decode local_order_id).handle_id
    found ← gets (context_of symbol)
    cx ← unwrap found
    trade ← unwrap (find id cx.trades)
    slot ← or_fail (symbol_not_found symbol) (slot_of_kind (order_kind local_order_id))
    call_order symbol id slot operation cx trade

  -- What is confirmed of an order whose id names a trade goes through that trade.
  unfoldable pub route : Ustr → OrderId → Operation W T → TradeOperation W → M W D T (Unit {0})
  unfolding on_order on_trade
  route symbol local_order_id operation trade_operation =
      if (decode local_order_id).handle_id == 0
      then on_order symbol local_order_id operation
      else on_trade symbol (decode local_order_id).handle_id trade_operation

  unfoldable pub confirm_order_open_failed : Ustr → OrderId → M W D T (Unit {0})
  unfolding route on_trade
  confirm_order_open_failed symbol id = do
    route symbol id Operation.confirm_open_failed (TradeOperation.confirm_open_failed id)
    on_trade symbol (decode id).handle_id (TradeOperation.confirm_open_failed id)
    count (λ s. record s { orders_failed_to_open = suc s.orders_failed_to_open })
    compute outside depth

  unfoldable pub confirm_order_opened : Ustr → OrderId → Option OrderId → M W D T (Unit {0})
  unfolding route
  confirm_order_opened symbol id exchange_id = do
    route symbol id (Operation.confirm_opened exchange_id)
        (TradeOperation.confirm_opened id exchange_id)
    count (λ s. record s { orders_opened = suc s.orders_opened })
    compute outside depth

  unfoldable pub confirm_order_filled : Ustr → OrderId → OrderFill W → M W D T (Unit {0})
  unfolding route
  confirm_order_filled symbol id last_fill = do
    route symbol id (Operation.confirm_filled last_fill)
        (TradeOperation.confirm_filled id last_fill)
    count (λ s. record s { orders_closed = suc s.orders_closed })
    compute outside depth

  unfoldable pub confirm_order_replace_failed : Ustr → OrderId → M W D T (Unit {0})
  unfolding route
  confirm_order_replace_failed symbol id = do
    route symbol id Operation.confirm_replace_failed (TradeOperation.confirm_replace_failed id)
    count (λ s. record s { orders_failed_to_replace = suc s.orders_failed_to_replace })
    compute outside depth

  -- The trade looks for the order by the id that it had before.
  unfoldable pub confirm_order_replaced :
      Ustr → OrderId → OrderId → NormalizedOrderEvent W → M W D T (Unit {0})
  unfolding route
  confirm_order_replaced symbol original_id id event = do
    route symbol id (Operation.confirm_replaced event)
        (TradeOperation.confirm_replaced original_id event)
    count (λ s. record s { orders_replaced = suc s.orders_replaced })
    compute outside depth

  unfoldable pub confirm_order_cancel_failed : Ustr → OrderId → M W D T (Unit {0})
  unfolding route
  confirm_order_cancel_failed symbol id = do
    route symbol id Operation.confirm_cancel_failed (TradeOperation.confirm_cancel_failed id)
    count (λ s. record s { orders_failed_to_cancel = suc s.orders_failed_to_cancel })
    compute outside depth

  unfoldable pub confirm_order_cancelled : Ustr → OrderId → M W D T (Unit {0})
  unfolding route
  confirm_order_cancelled symbol id = do
    route symbol id Operation.confirm_cancelled (TradeOperation.confirm_cancelled id)
    count (λ s. record s { orders_cancelled = suc s.orders_cancelled })
    compute outside depth

  unfoldable pub confirm_order_rejected : Ustr → OrderId → M W D T (Unit {0})
  unfolding route
  confirm_order_rejected symbol id = do
    route symbol id Operation.confirm_rejected (TradeOperation.confirm_rejected id)
    count (λ s. record s { orders_rejected = suc s.orders_rejected })
    compute outside depth

  unfoldable pub confirm_order_expired : Ustr → OrderId → M W D T (Unit {0})
  unfolding route
  confirm_order_expired symbol id = do
    route symbol id Operation.confirm_expired (TradeOperation.confirm_expired id)
    count (λ s. record s { orders_expired = suc s.orders_expired })
    compute outside depth

  -- The trade that the metadata of the result names, where it is not ignored.
  unfoldable pub confirm_result : Ustr → OrderId → InstructionExecutionResult → M W D T (Unit {0})
  unfolding call_trade
  confirm_result symbol local_order_id result = do
    id ← or_fail (trade_error (trade_id_missing symbol local_order_id)) result.metadata.trade_id
    found ← gets (context_of symbol)
    cx ← or_fail (symbol_not_found symbol) found
    trade ← or_fail (trade_error (trade_not_found symbol id)) (find id cx.trades)
    call_trade symbol id (TradeOperation.confirm_instruction_execution result) cx trade

  -- `SmartId(result.metadata.local_order_id.unwrap())` comes first.
  unfoldable pub confirm_instruction_execution : InstructionExecutionResult → M W D T (Unit {0})
  unfolding confirm_result
  confirm_instruction_execution result = do
    local_order_id ← unwrap result.metadata.local_order_id
    symbol ← or_fail (unsupported_instruction_execution_result result) result.symbol
    found ← gets (context_of symbol)
    cx ← or_fail (symbol_not_found symbol) found
    let kind = (decode local_order_id).order_kind
    let ignored = is_ignored kind
    if ignored then pure tt else confirm_result symbol local_order_id result
    compute outside depth
