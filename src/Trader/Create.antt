-- ===== src/Trader/Create.antt =====
-- src/trader.rs: the creation of contexts, orders and trades. The entry of a key in a map is looked up
-- and then filled while the lock is held. Whether there is room for an order is asked before, under a lock
-- for reading that is let go of: the model has no other thread between the two.
use babylon_playground_demo.Common.{ℕ, true, false, not, is_some, if◌then◌else◌}
use babylon_playground_demo.Common.Table.{find, put, erase, text_key, number_key}
use babylon_playground_demo.Float.{OrderedFloat}
use babylon_playground_demo.Trigger.{Trigger}
use babylon_playground_demo.Cooldown.{use_cooldown}
use babylon_playground_demo.Types.{Ustr}
use babylon_playground_demo.Order.Data.{Order}
use babylon_playground_demo.Order.Error.{order_local_id_already_exists}
use babylon_playground_demo.Order.Validate
use babylon_playground_demo.Trade.Data.{Trade}
use babylon_playground_demo.Trade.Error.{trade_not_ready, trade_id_already_exists}
use babylon_playground_demo.Trade.Validate as TradeValidate
use babylon_playground_demo.Trade.Query.{is_new}
use babylon_playground_demo.Trader.Error.{
  symbol_not_found, symbol_context_already_exists, order_error, trade_error,
}
use babylon_playground_demo.Trader.Data.{Trader, TraderSymbolContext, Outside}
use babylon_playground_demo.Trader.Query.{context_of, can_create_order}
use babylon_playground_demo.Trader.Compute.{compute}
use babylon_playground_demo.Trader.Monad.{
  M, pure, fail, read, gets, lift, or_fail, modify, ◌>>=◌, ◌>>◌,
}

module _ {W D T : Type 0} where
  abbrev pub put_context : Ustr → TraderSymbolContext W D T → Trader W D T → Trader W D T
  put_context symbol cx tr = record tr {
    trader_symbol_contexts = put symbol cx tr.trader_symbol_contexts;
  }

  unfoldable pub create_context : TraderSymbolContext W D T → M W D T (Unit {0})
  create_context new_context = do
    there ← gets (λ tr. is_some (context_of new_context.symbol tr))
    (if there
        then fail (symbol_context_already_exists new_context.symbol)
        else modify (put_context new_context.symbol new_context))

  unfoldable pub remove_context : Ustr → M W D T (Unit {0})
  remove_context symbol = do
    there ← gets (λ tr. is_some (context_of symbol tr))
    (if not there
        then fail (symbol_not_found symbol)
        else modify
            (λ tr. record tr { trader_symbol_contexts = erase symbol tr.trader_symbol_contexts }))

  unfoldable pub pause : M W D T (Unit {0})
  pause = modify (λ tr. record tr { is_paused = true })

  unfoldable pub resume : M W D T (Unit {0})
  resume = modify (λ tr. record tr { is_paused = false })

  -- The context after the cooldown of an entry, or of another order, was asked; the order is added if the
  -- cooldown grants it.
  unfoldable pub insert_order :
      Order W T → ℕ → TraderSymbolContext W D T → TraderSymbolContext W D T
  insert_order order now cx =
      let entry = use_cooldown cx.entry_cooldown now in
      let exit = use_cooldown cx.exit_cooldown now in
      let added = put order.local_order_id order cx.orders in
      if order.is_entry_order
      then record cx { entry_cooldown = entry.1; orders = if entry.0 then added else cx.orders }
      else record cx { exit_cooldown = exit.1; orders = if exit.0 then added else cx.orders }

  unfoldable pub insert_trade : Trade W T → TraderSymbolContext W D T → TraderSymbolContext W D T
  insert_trade trade cx = record cx { trades = put trade.id trade cx.trades }

  unfoldable pub add_order : Order W T → ℕ → TraderSymbolContext W D T → M W D T (Unit {0})
  unfolding insert_order
  add_order order now cx =
      if is_some (find order.local_order_id cx.orders)
      then fail (order_error (order_local_id_already_exists order.local_order_id))
      else modify (put_context order.symbol (insert_order order now cx))

  unfoldable pub add_trade : Trade W T → TraderSymbolContext W D T → M W D T (Unit {0})
  unfolding insert_trade
  add_trade trade cx =
      if is_some (find trade.id cx.trades)
      then fail (trade_error (trade_id_already_exists trade.id))
      else modify (put_context trade.symbol (insert_trade trade cx))

module _ {W D T : Type 0} ⦃f : OrderedFloat W⦄ ⦃t : Trigger W T⦄ (outside : Outside W D T)
    (depth : ℕ) where
  -- The order is taken into the trader.
  unfoldable pub enter_order : Order W T → M W D T (Unit {0})
  unfolding add_order
  enter_order order = do
    tr ← gets (λ tr. tr)
    cx ← or_fail (symbol_not_found order.symbol) (context_of order.symbol tr)
    now ← read (outside.worlds order.symbol).now
    add_order order now cx
    compute outside depth

  unfoldable pub create_order : Order W T → M W D T (Unit {0})
  unfolding enter_order can_create_order
  create_order order = do
    lift order_error (Validate.validate order)
    tr ← gets (λ tr. tr)
    now ← read (outside.worlds order.symbol).now
    allowed ← lift (λ e. e) (can_create_order order now tr)
    if not allowed then pure tt else enter_order order

  unfoldable pub create_trade : Trade W T → M W D T (Unit {0})
  unfolding add_trade
  create_trade trade = do
    lift trade_error (TradeValidate.validate trade)
    (if is_new trade
        then pure tt
        else fail (trade_error (trade_not_ready trade.symbol trade.id trade.state)))
    tr ← gets (λ tr. tr)
    cx ← or_fail (symbol_not_found trade.symbol) (context_of trade.symbol tr)
    add_trade trade cx
    compute outside depth
