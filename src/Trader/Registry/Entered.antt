-- ===== src/Trader/Registry/Entered.antt =====
-- What is put in the place of a trade that is held, and what is taken in.
use babylon_playground_demo.Common.{ℕ, true, false, ◌≡◌, refl, subst, sym, ◌==◌, arith}
use babylon_playground_demo.Common.Result.{ok, refuse-passed, then-ok}
use babylon_playground_demo.Common.Table.{put, text_key, number_key}
use babylon_playground_demo.Common.Table.Every.{Every, put-Every}
use babylon_playground_demo.Float.{OrderedFloat}
use babylon_playground_demo.Trigger.{Trigger}
use babylon_playground_demo.Types.{Ustr}
use babylon_playground_demo.Order.Data.{Order}
use babylon_playground_demo.Trade.Data.{Trade}
use babylon_playground_demo.Trade.State
use babylon_playground_demo.Trade.Query.{is_new}
use babylon_playground_demo.Trade.Validate as TradeValidate
use babylon_playground_demo.Trade.Diagram.{here, ◌⇒*◌}
use babylon_playground_demo.Trade.Journey.{is_explained}
use babylon_playground_demo.Trader.Data.{TraderSymbolContext, Outside}
use babylon_playground_demo.Trader.Create.{insert_trade, insert_order}
use babylon_playground_demo.Common.{ℕ, ◌≡◌, some}
use babylon_playground_demo.Common.Table.{find, text_key, number_key}
use babylon_playground_demo.Common.Table.Every.{find-Every, put-Every}
use babylon_playground_demo.Float.{OrderedFloat}
use babylon_playground_demo.Trigger.{Trigger}
use babylon_playground_demo.Types.{Ustr}
use babylon_playground_demo.Instruction.{HandleId}
use babylon_playground_demo.Order.Data.{Order}
use babylon_playground_demo.Trade.Data.{
  Trade, Slot, entry_slot, exit_slot, stoploss_slot, put_order,
}
use babylon_playground_demo.Trade.Follows.Operations.{perform-Follows}
use babylon_playground_demo.Trader.Data.{TraderSymbolContext, Outside}
use babylon_playground_demo.Trader.Registry.{TradeKept, Life, Life-Stable, ContextKept}
use babylon_playground_demo.Trader.Registry.Served.{serve_context-Kept}
use babylon_playground_demo.Trader.Carried.{Carried}

module _ {W T : Type 0} where
  put_order-Kept :
      (s : Ustr) (i : HandleId) (slot : Slot) (o : Order W T) (t : Trade W T)
      → TradeKept s i t
      → TradeKept s i (put_order slot o t)
  put_order-Kept s i entry_slot o t h = h
  put_order-Kept s i exit_slot o t h = h
  put_order-Kept s i stoploss_slot o t h = h

new_of : {W T : Type 0} (t : Trade W T) → is_new t ≡ true → t.state ≡ State.new
new_of t h = ground arith

explained_new : {W T : Type 0} (t : Trade W T) → is_new t ≡ true → is_explained t ≡ true
explained_new t h = ground arith

module _ {W T : Type 0} ⦃f : OrderedFloat W⦄ where
  -- A trade that passes its validation has an id.
  validate-id : (t : Trade W T) → TradeValidate.validate t ≡ ok tt → (t.id == 0) ≡ false
  unfolding TradeValidate.validate TradeValidate.validate_any
  validate-id t h = (refuse-passed _ _ _ tt (then-ok _ _ tt h).1).0

  new-TradeKept :
      (t : Trade W T)
      → TradeValidate.validate t ≡ ok tt
      → is_new t ≡ true
      → TradeKept t.symbol t.id t
  new-TradeKept t h e = (
    (refl, refl),
    (validate-id t h, (subst (λ s. State.new ⇒* s) (sym (new_of t e)) here, explained_new t e)),
  )

module _ {W D T : Type 0} where
  put-Kept :
      (s : Ustr) (i : HandleId) (t : Trade W T) (cx : TraderSymbolContext W D T)
      → TradeKept s i t
      → ContextKept s cx
      → Every (TradeKept s) (put i t cx.trades)
  put-Kept s i t cx h g = put-Every (TradeKept s) i t cx.trades h g

  pub found-Kept :
      (s : Ustr) (i : HandleId) (t : Trade W T) (cx : TraderSymbolContext W D T)
      → ContextKept s cx
      → find i cx.trades ≡ some t
      → TradeKept s i t
  found-Kept s i t cx h e = find-Every (TradeKept s) i t cx.trades h e

  pub insert_order-trades :
      (order : Order W T) (now : ℕ) (cx : TraderSymbolContext W D T)
      → (insert_order order now cx).trades ≡ cx.trades
  unfolding insert_order
  insert_order-trades order now cx = ground arith

  insert_order-Kept :
      (order : Order W T) (now : ℕ) (s : Ustr) (cx : TraderSymbolContext W D T)
      → ContextKept s cx
      → ContextKept s (insert_order order now cx)
  insert_order-Kept order now s cx h =
      subst (λ d. Every (TradeKept s) d) (sym (insert_order-trades order now cx)) h

  insert_trade-Kept :
      (t : Trade W T) (cx : TraderSymbolContext W D T)
      → TradeKept t.symbol t.id t
      → ContextKept t.symbol cx
      → ContextKept t.symbol (insert_trade t cx)
  unfolding insert_trade
  insert_trade-Kept t cx p h = put-Every (TradeKept t.symbol) t.id t cx.trades p h

module _ {W D T : Type 0} ⦃f : OrderedFloat W⦄ ⦃t : Trigger W T⦄ (outside : Outside W D T)
    (depth : ℕ) where
  pub Kept-Carried : Carried {D = D} outside depth ContextKept
  Kept-Carried = record {
    served = serve_context-Kept outside depth;
    called = λ s i o cx trade n found h.
        put-Kept s i _ cx
          ((perform-Follows (outside.worlds s) depth (Life s i) (Life-Stable s i) o).at
            (record { trade = trade; reads = n }) (found-Kept s i trade cx h found))
          h;
    ordered = λ s i slot o cx trade found h.
        put-Kept s i _ cx (put_order-Kept s i slot o trade (found-Kept s i trade cx h found)) h;
    positioned = λ s p cx h. h;
    with_order = λ order now cx room h. insert_order-Kept order now order.symbol cx h;
    with_trade =
        λ trade cx valid fresh h. insert_trade-Kept trade cx (new-TradeKept trade valid fresh) h;
  }
