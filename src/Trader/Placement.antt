-- ===== src/Trader/Placement.antt =====
-- src/trader.rs: the methods that place an order which they make themselves. Its id names no trade.
use babylon_playground_demo.Common.{ℕ, false, Option, none, some}
use babylon_playground_demo.Float.{OrderedFloat, ◌⊘◌}
use babylon_playground_demo.Trigger.{Trigger}
use babylon_playground_demo.Appraiser
use babylon_playground_demo.SmartId.{HandleOrderKind, new_order_id}
use babylon_playground_demo.Types.{
  Ustr, NormalizedSide, buy, sell, NormalizedOrderType, market, limit, stop_loss, stop_loss_limit,
}
use babylon_playground_demo.Instruction.{OrderId, HandleId}
use babylon_playground_demo.Trader.Error.{symbol_not_found}
use babylon_playground_demo.Trader.Data.{Outside}
use babylon_playground_demo.Trader.Query.{context_of}
use babylon_playground_demo.Trader.Create.{create_order}
use babylon_playground_demo.Trader.Template.{order_template}
use babylon_playground_demo.Trader.Monad.{M, pure, read, gets, or_fail, ◌>>=◌}

module _ {W D T : Type 0} (outside : Outside W D T) where
  -- `SmartId::new_order_id`.
  unfoldable pub fresh_order_id : HandleId → HandleOrderKind → M W D T OrderId
  unfolding new_order_id
  fresh_order_id trade_id kind = do
    micros ← read outside.micros
    counter ← read outside.order_counter
    pure (new_order_id trade_id kind micros counter)

module _ {W D T : Type 0} ⦃f : OrderedFloat W⦄ ⦃t : Trigger W T⦄ (outside : Outside W D T)
    (depth : ℕ) where
  -- The order is made from the template, and created.
  unfoldable pub place :
      Ustr
      → HandleOrderKind
      → NormalizedSide
      → NormalizedOrderType
      → W
      → W
      → Option W
      → M W D T (Unit {0})
  unfolding fresh_order_id order_template create_order
  place symbol kind side order_type quantity price limit_price = do
    found ← gets (context_of symbol)
    cx ← or_fail (symbol_not_found symbol) found
    id ← fresh_order_id outside 0 kind
    order ← order_template outside symbol id side order_type quantity price limit_price false
    create_order outside depth order

  unfoldable pub market_buy : Ustr → W → HandleOrderKind → M W D T (Unit {0})
  unfolding place
  market_buy symbol quantity kind = place symbol kind buy market quantity f.nought none

  unfoldable pub market_buy_quote_quantity : Ustr → W → HandleOrderKind → M W D T (Unit {0})
  unfolding fresh_order_id order_template create_order
  market_buy_quote_quantity symbol quote_quantity kind = do
    found ← gets (context_of symbol)
    cx ← or_fail (symbol_not_found symbol) found
    id ← fresh_order_id outside 0 kind
    price ← read (outside.worlds symbol).market_price
    let quantity = Appraiser.round_normalized_base cx.appraiser (quote_quantity ⊘ price)
    order ← order_template outside symbol id buy market quantity f.nought none false
    create_order outside depth order

  unfoldable pub market_sell : Ustr → W → HandleOrderKind → M W D T (Unit {0})
  unfolding place
  market_sell symbol quantity kind = place symbol kind sell market quantity f.nought none

  unfoldable pub limit_buy : Ustr → W → W → W → HandleOrderKind → M W D T (Unit {0})
  unfolding place
  limit_buy symbol price limit_price quantity kind =
      place symbol kind buy limit quantity price (some limit_price)

  unfoldable pub limit_sell : Ustr → W → W → W → HandleOrderKind → M W D T (Unit {0})
  unfolding place
  limit_sell symbol price limit_price quantity kind =
      place symbol kind sell limit quantity price (some limit_price)

  -- The stop price is not used.
  unfoldable pub stoploss_limit_buy : Ustr → W → W → W → W → HandleOrderKind → M W D T (Unit {0})
  unfolding place
  stoploss_limit_buy symbol price stop_price limit_price quantity kind =
      place symbol kind buy stop_loss_limit quantity price (some limit_price)

  unfoldable pub stoploss_limit_sell : Ustr → W → W → W → W → HandleOrderKind → M W D T (Unit {0})
  unfolding place
  stoploss_limit_sell symbol price stop_price limit_price quantity kind =
      place symbol kind sell stop_loss_limit quantity price (some limit_price)

  unfoldable pub stoploss_market_buy : Ustr → W → W → W → HandleOrderKind → M W D T (Unit {0})
  unfolding place
  stoploss_market_buy symbol price stop_price quantity kind =
      place symbol kind buy stop_loss quantity price none

  unfoldable pub stoploss_market_sell : Ustr → W → W → W → HandleOrderKind → M W D T (Unit {0})
  unfolding place
  stoploss_market_sell symbol price stop_price quantity kind =
      place symbol kind sell stop_loss quantity price none
