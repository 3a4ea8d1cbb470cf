-- ===== src/Trader/Event.antt =====
-- src/trader.rs: `handle_order_event` and `update_position`.
use babylon_playground_demo.Common.{ℕ, Bool, true, false, ◌&&◌, ◌==◌, some, if◌then◌else◌}
use babylon_playground_demo.Common.Result.{Result, ok, err}
use babylon_playground_demo.Float.{OrderedFloat}
use babylon_playground_demo.Trigger.{Trigger}
use babylon_playground_demo.Types.{
  Ustr, NormalizedExecutionType, trade, NormalizedOrderStatus, partially_filled, filled,
}
use babylon_playground_demo.SmartId.{
  HandleOrderKind, no_kind, unexpected_order, Decoded, decode, decremented_id,
}
use babylon_playground_demo.Position.{Decimals, Position, Panic, register_trade}
use babylon_playground_demo.Order.Data.{NormalizedOrderEvent}
use babylon_playground_demo.Order.Error.{order_missing_latest_fill}
use babylon_playground_demo.Trader.Error.{
  TraderError, symbol_not_found, order_error, smart_id_error, unhandled_order_event,
}
use babylon_playground_demo.Trader.Data.{TraderSymbolContext, Outside}
use babylon_playground_demo.Trader.Query.{context_of}
use babylon_playground_demo.Trader.Create.{put_context}
use babylon_playground_demo.Trader.Compute.{compute}
use babylon_playground_demo.Trader.Confirm.{
  confirm_order_opened, confirm_order_filled, confirm_order_replaced, confirm_order_cancelled,
  confirm_order_rejected, confirm_order_expired,
}
use babylon_playground_demo.Trader.Monad.{
  M, pure, fail, panic, gets, lift, or_fail, modify, ◌>>=◌, ◌>>◌,
}

abbrev is_none_kind : HandleOrderKind → Bool
is_none_kind no_kind = true
is_none_kind _ = false

abbrev pub is_unexpected : HandleOrderKind → Bool
is_unexpected unexpected_order = true
is_unexpected _ = false

abbrev is_fill : NormalizedOrderStatus → NormalizedExecutionType → Bool
is_fill partially_filled trade = true
is_fill filled trade = true
is_fill _ _ = false

abbrev pub missing_fill : {W : Type 0} → NormalizedOrderEvent W → TraderError W
missing_fill e =
    order_error (order_missing_latest_fill e.symbol e.local_order_id e.exchange_order_id)

module _ {W D T : Type 0} where
  -- A position is stored; where its computation panicked, the trader is left as it was.
  unfoldable pub store_position :
      Ustr → TraderSymbolContext W D T → Result Panic (Position W D) → M W D T (Unit {0})
  store_position symbol cx (ok position) =
      modify (put_context symbol (record cx { position = position }))
  store_position symbol cx (err e) = panic

module _ {W D T : Type 0} ⦃f : OrderedFloat W⦄ ⦃t : Trigger W T⦄ ⦃d : Decimals D⦄
    (outside : Outside W D T) (depth : ℕ) where
  unfoldable pub register_fill : NormalizedOrderEvent W → M W D T (Unit {0})
  unfolding store_position register_trade
  register_fill e = do
    fill ← or_fail (missing_fill e) e.latest_fill
    found ← gets (context_of e.symbol)
    cx ← or_fail (symbol_not_found e.symbol) found
    let amount = fill.metadata.quantity
    let price = fill.metadata.price
    store_position e.symbol cx (register_trade outside.decimal e.side amount price cx.position)

  unfoldable pub update_position : NormalizedOrderEvent W → M W D T (Unit {0})
  unfolding register_fill
  update_position e =
      if is_fill e.current_order_status e.current_execution_type then register_fill e else pure tt

  -- An id with a sequence number is that of a replacement of the order with the number before.
  unfoldable pub handle_replaced : NormalizedOrderEvent W → M W D T (Unit {0})
  unfolding confirm_order_replaced decremented_id
  handle_replaced e = do
    parent ← lift smart_id_error (decremented_id e.local_order_id)
    confirm_order_replaced outside depth e.symbol parent e.local_order_id e

  unfoldable pub handle_new : NormalizedOrderEvent W → Decoded → M W D T (Unit {0})
  unfolding handle_replaced confirm_order_opened
  handle_new e id =
      if id.handle_id == 0 && is_none_kind id.order_kind && id.sequence_number == 0
      then pure tt
      else if id.sequence_number == 0
      then confirm_order_opened outside depth e.symbol e.local_order_id (some e.exchange_order_id)
      else handle_replaced e

  unfoldable pub handle_fill : NormalizedOrderEvent W → M W D T (Unit {0})
  unfolding confirm_order_filled
  handle_fill e = do
    fill ← or_fail (missing_fill e) e.latest_fill
    confirm_order_filled outside depth e.symbol e.local_order_id fill

  unfoldable pub handle_by :
      NormalizedExecutionType → NormalizedOrderStatus → NormalizedOrderEvent W → M W D T (Unit {0})
  unfolding handle_new handle_fill confirm_order_cancelled confirm_order_rejected
      confirm_order_expired decode
  handle_by NormalizedExecutionType.new NormalizedOrderStatus.new e =
      handle_new e (decode e.local_order_id)
  handle_by NormalizedExecutionType.trade NormalizedOrderStatus.partially_filled e = handle_fill e
  handle_by NormalizedExecutionType.trade NormalizedOrderStatus.filled e = handle_fill e
  handle_by NormalizedExecutionType.cancelled NormalizedOrderStatus.cancelled e =
      confirm_order_cancelled outside depth e.symbol e.local_order_id
  handle_by NormalizedExecutionType.new NormalizedOrderStatus.rejected e =
      confirm_order_rejected outside depth e.symbol e.local_order_id
  handle_by NormalizedExecutionType.expired NormalizedOrderStatus.expired e =
      confirm_order_expired outside depth e.symbol e.local_order_id
  handle_by NormalizedExecutionType.cancelled NormalizedOrderStatus.partially_filled e =
      confirm_order_cancelled outside depth e.symbol e.local_order_id
  handle_by execution_type order_status e = fail (
      unhandled_order_event e.symbol e.local_order_id e.exchange_order_id execution_type
        order_status)

  unfoldable pub handle_order_event : NormalizedOrderEvent W → M W D T (Unit {0})
  unfolding update_position handle_by compute
  handle_order_event e = do
    update_position e
    let unexpected = is_unexpected (decode e.local_order_id).order_kind
    let handled =
        (handle_by e.current_execution_type e.current_order_status e >> compute outside depth)
    if unexpected then pure tt else handled
