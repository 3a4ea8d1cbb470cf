-- ===== src/Trader/Carried/Entered.antt =====
-- What a trader takes in.
use babylon_playground_demo.Common.{
  Option, ap, ◌∙◌, suc, some, ℕ, Bool, true, false, ◌≡◌, refl, subst, arith, if◌then◌else◌,
}
use babylon_playground_demo.Common.Result.{ok}
use babylon_playground_demo.Common.Table.{erase, text_key, number_key}
use babylon_playground_demo.Common.Table.Every.{Every, put-Every, erase-Every}
use babylon_playground_demo.Float.{OrderedFloat}
use babylon_playground_demo.Trigger.{Trigger}
use babylon_playground_demo.Types.{Ustr}
use babylon_playground_demo.Order.Data.{Order}
use babylon_playground_demo.Trade.Data.{Trade}
use babylon_playground_demo.Trade.Query.{is_new}
use babylon_playground_demo.Trade.Validate as TradeValidate
use babylon_playground_demo.Trader.Error.{symbol_not_found, trade_error, TraderError}
use babylon_playground_demo.Trader.Data.{Trader, TraderSymbolContext, Outside}
use babylon_playground_demo.Trader.Query.{context_of}
use babylon_playground_demo.Trader.Compute
use babylon_playground_demo.Trader.Create
use babylon_playground_demo.Trader.Create.{
  put_context, insert_trade, insert_order, add_order, add_trade,
}
use babylon_playground_demo.Trader.Monad.{M, pure, fail, gets, modify, or_fail, ◌>>=◌, ◌>>◌}
use babylon_playground_demo.Trader.Keeps.{
  Keeps-modify, Keeps-read, Keeps, Keeps-bind, Keeps-pure, or_fail-known, lift-known, keeps_rules,
}
use babylon_playground_demo.Common.{leb, not, Bool, ℕ}
use babylon_playground_demo.Common.Result.{Result, bind-passed}
use babylon_playground_demo.Order.Validate
use babylon_playground_demo.Trader.Query.{size, can_create_order, get_context, has_room}
use babylon_playground_demo.Trader.Error.{order_error}
use babylon_playground_demo.Trader.Monad.{TraderMachine}
use babylon_playground_demo.Trader.Carried.{Property, Everywhere, Carried, compute-Everywhere}
use babylon_playground_demo.Trader.Carried.Confirmed.{held}

module _ {W D T : Type 0} (P : Property W D T) where
  pub store-Everywhere :
      (s : Ustr) (cx : TraderSymbolContext W D T)
      → P s cx
      → Keeps (Everywhere P) (modify (put_context s cx))
  store-Everywhere s cx h = Keeps-modify _ λ tr k. put-Every P s cx tr.trader_symbol_contexts h k

  add_order-Everywhere :
      (order : Order W T) (now : ℕ) (cx : TraderSymbolContext W D T)
      → P order.symbol (insert_order order now cx)
      → Keeps (Everywhere P) (add_order order now cx)
  unfolding add_order
  add_order-Everywhere order now cx h = search (keeps_rules, store-Everywhere)

  add_trade-Everywhere :
      (t : Trade W T) (cx : TraderSymbolContext W D T)
      → P t.symbol (insert_trade t cx)
      → Keeps (Everywhere P) (add_trade t cx)
  unfolding add_trade
  add_trade-Everywhere t cx h = search (keeps_rules, store-Everywhere)

  pub create_context-Everywhere :
      (cx : TraderSymbolContext W D T)
      → P cx.symbol cx
      → Keeps (Everywhere P) (Create.create_context cx)
  unfolding Create.create_context
  create_context-Everywhere cx h = search (keeps_rules, store-Everywhere)

  erase-Everywhere :
      (s : Ustr) (tr : Trader W D T) → Everywhere P tr → Every P (erase s tr.trader_symbol_contexts)
  erase-Everywhere s tr k = erase-Every P s tr.trader_symbol_contexts k

  pub remove_context-Everywhere : (s : Ustr) → Keeps (Everywhere P) (Create.remove_context s)
  unfolding Create.remove_context
  remove_context-Everywhere s = search (keeps_rules, erase-Everywhere)

module _ {W D T : Type 0} where
  same_context :
      (a b : TraderSymbolContext W D T) (o : Option (TraderSymbolContext W D T))
      → o ≡ some a
      → o ≡ some b
      → a ≡ b
  same_context a b o h e = cc

module _ {W D T : Type 0} ⦃f : OrderedFloat W⦄ where
  room_of :
      (order : Order W T) (now : ℕ) (cx : TraderSymbolContext W D T)
      (r : Result (TraderError W) Bool)
      → (if has_room cx order now then r else ok false) ≡ ok true
      → leb cx.max_orders (size cx.orders) ≡ false
  room_of order now cx r h = ground arith

  -- An order may be created only where its context has room for it.
  can_create_order-room :
      (order : Order W T) (now : ℕ) (tr : Trader W D T) (cx : TraderSymbolContext W D T)
      → can_create_order order now tr ≡ ok true
      → context_of order.symbol tr ≡ some cx
      → leb cx.max_orders (size cx.orders) ≡ false
  unfolding can_create_order get_context
  can_create_order-room order now tr cx h e =
      let (c, (there, allowed)) = bind-passed (context_of order.symbol tr) _ _ true h in
      subst (λ x. leb x.max_orders (size x.orders) ≡ false)
        (same_context c cx (context_of order.symbol tr) there e) (room_of order now c _ allowed)

module _ {W D T : Type 0} ⦃f : OrderedFloat W⦄ ⦃t : Trigger W T⦄ (outside : Outside W D T)
    (depth : ℕ) (P : Property W D T) (carried : Carried outside depth P) where
  enter_order-Everywhere :
      (order : Order W T) (m : TraderMachine W D T)
      → ((cx : TraderSymbolContext W D T)
          → context_of order.symbol m.trader ≡ some cx
          → leb cx.max_orders (size cx.orders) ≡ false)
      → Everywhere P m.trader
      → Everywhere P (Create.enter_order outside depth order m).1.trader
  unfolding Create.enter_order ◌>>=◌
  enter_order-Everywhere order m room h =
      or_fail-known (Everywhere P) _ m _ (context_of order.symbol m.trader) h λ cx there.
        (Keeps-bind _ _ (Keeps-read (outside.worlds order.symbol).now) λ now.
            Keeps-bind _ _
              (add_order-Everywhere P order now cx (
                carried.with_order order now cx (room cx there)
                  (held P order.symbol cx m.trader h there)))
              λ _. compute-Everywhere outside depth P carried).at
          m h

  entered_if :
      (b : Bool) (order : Order W T) (m : TraderMachine W D T)
      → Everywhere P m.trader
      → (b ≡ true → Everywhere P (Create.enter_order outside depth order m).1.trader)
      → Everywhere P
          ((if not b then pure tt else Create.enter_order outside depth order) m).1.trader
  unfolding pure
  entered_if true order m h k = k refl
  entered_if false order m h k = h

  pub create_order-Everywhere :
      (order : Order W T) → Keeps (Everywhere P) (Create.create_order outside depth order)
  unfolding Create.create_order ◌>>=◌
  create_order-Everywhere order = record {
    at = λ m h. lift-known (Everywhere P) _ m order_error (Validate.validate order) h λ _ valid.
        lift-known (Everywhere P) _ (record m { reads = suc m.reads }) (λ e. e)
          (can_create_order order ((outside.worlds order.symbol).now m.reads) m.trader) h
          λ allowed e.
            entered_if allowed order (record m { reads = suc m.reads }) h
              λ yes.
                enter_order-Everywhere order (record m { reads = suc m.reads })
                  (λ cx there.
                    can_create_order-room order ((outside.worlds order.symbol).now m.reads) m.trader
                      cx (e ∙ ap (λ b. ok b) yes) there)
                  h;
  }

  add_checked-Everywhere :
      (t : Trade W T)
      → ((cx : TraderSymbolContext W D T) → P t.symbol cx → P t.symbol (insert_trade t cx))
      → Keeps (Everywhere P) (do
        tr ← gets (λ tr. tr)
        cx ← or_fail (symbol_not_found t.symbol) (context_of t.symbol tr)
        add_trade t cx
        Compute.compute outside depth)
  unfolding ◌>>=◌
  add_checked-Everywhere t h = record {
    at = λ m k. or_fail-known (Everywhere P) _ m _ (context_of t.symbol m.trader) k λ cx there.
        (Keeps-bind _ _ (add_trade-Everywhere P t cx (h cx (held P t.symbol cx m.trader k there)))
            λ _. compute-Everywhere outside depth P carried).at
          m k;
  }

  create_new-Everywhere :
      (b : Bool) (e : TraderError W) (rest : M W D T (Unit {0}))
      → (b ≡ true → Keeps (Everywhere P) rest)
      → Keeps (Everywhere P) ((if b then pure tt else fail e) >> rest)
  unfolding ◌>>=◌
  create_new-Everywhere true e rest h = Keeps-bind _ _ (Keeps-pure tt) λ _. h refl
  create_new-Everywhere false e rest h = record { at = λ m k. k }

  pub create_trade-Everywhere :
      (t : Trade W T) → Keeps (Everywhere P) (Create.create_trade outside depth t)
  unfolding Create.create_trade
  create_trade-Everywhere t = record {
    at = λ m h. lift-known (Everywhere P) _ m trade_error (TradeValidate.validate t) h λ _ valid.
        (create_new-Everywhere (is_new t) _ _
            λ fresh. add_checked-Everywhere t λ cx g. carried.with_trade t cx valid fresh g).at
          m h;
  }
