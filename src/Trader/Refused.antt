-- ===== src/Trader/Refused.antt =====
-- src/trader.rs: the stoplosses that are placed without a trade.
use babylon_playground_demo.Common.{
  ℕ, Bool, true, false, ◌≡◌, ◌≢◌, refl, ap, ◌∙◌, suc, Option, none, some,
}
use babylon_playground_demo.Common.Result.{Result, ok, err}
use babylon_playground_demo.Float.{OrderedFloat}
use babylon_playground_demo.Trigger.{Trigger}
use babylon_playground_demo.SmartId.{HandleOrderKind}
use babylon_playground_demo.Types.{
  Ustr, NormalizedSide, buy, sell, NormalizedOrderType, stop_loss, stop_loss_limit,
}
use babylon_playground_demo.Instruction.{OrderId, HandleId, DateTime}
use babylon_playground_demo.Order.Monad.{Outcome, done, failed, panicked, out_of_fuel}
use babylon_playground_demo.Order.Data.{Order}
use babylon_playground_demo.Order.Query.{stoploss_type}
use babylon_playground_demo.Order.Validate.Sane.{validate-no_metadata}
use babylon_playground_demo.Trader.Error.{TraderError}
use babylon_playground_demo.Trader.Data.{Trader, Outside}
use babylon_playground_demo.Trader.Template.{template, validated, order_template, template_of_side}
use babylon_playground_demo.Trader.Placement.{fresh_order_id, place}
use babylon_playground_demo.Trader.Placement
use babylon_playground_demo.Trader.Monad.{
  TraderMachine, M, read, gets, lift, or_fail, proceed, ◌>>=◌,
}

abbrev pub is_refused : {E A : Type 0} → Outcome E A → Bool
is_refused (failed e) = true
is_refused _ = false

-- The call ends with an error and changes nothing of the trader.
pub record Refuses {W D T A : Type 0} (p : M W D T A) : Type 0 where
  pub with_error : (m : TraderMachine W D T) → is_refused (p m).0 ≡ true
  pub unchanged : (m : TraderMachine W D T) → (p m).1.trader ≡ m.trader

module _ {W D T A B : Type 0} where
  proceed-refused :
      (r : Outcome (TraderError W) A) (m : TraderMachine W D T) (k : A → M W D T B)
      → is_refused r ≡ true
      → (is_refused (proceed r m k).0 ≡ true) × ((proceed r m k).1 ≡ m)
  proceed-refused (failed e) m k h = (refl, refl)
  proceed-refused (done a) m k h = cc
  proceed-refused panicked m k h = cc
  proceed-refused out_of_fuel m k h = cc

  Refuses-bind : (p : M W D T A) (k : A → M W D T B) → Refuses p → Refuses (p >>= k)
  unfolding ◌>>=◌
  Refuses-bind p k h = record {
    with_error = λ m. (proceed-refused (p m).0 (p m).1 k (h.with_error m)).0;
    unchanged = λ m.
        ap (λ n. n.trader) (proceed-refused (p m).0 (p m).1 k (h.with_error m)).1 ∙ h.unchanged m;
  }

  Refuses-gets :
      (g : Trader W D T → A) (k : A → M W D T B)
      → ((a : A) → Refuses (k a))
      → Refuses (gets g >>= k)
  unfolding ◌>>=◌
  Refuses-gets g k h = record {
    with_error = λ m. (h (g m.trader)).with_error m;
    unchanged = λ m. (h (g m.trader)).unchanged m;
  }

  Refuses-read :
      (g : ℕ → A) (k : A → M W D T B) → ((a : A) → Refuses (k a)) → Refuses (read g >>= k)
  unfolding ◌>>=◌
  Refuses-read g k h = record {
    with_error = λ m. (h (g m.reads)).with_error (record m { reads = suc m.reads });
    unchanged = λ m. (h (g m.reads)).unchanged (record m { reads = suc m.reads });
  }

  Refuses-or_fail :
      (e : TraderError W) (o : Option A) (k : A → M W D T B)
      → ((a : A) → Refuses (k a))
      → Refuses (or_fail e o >>= k)
  unfolding ◌>>=◌
  Refuses-or_fail e none k h = record { with_error = λ m. refl; unchanged = λ m. refl }
  Refuses-or_fail e (some a) k h = h a

  Refuses-lift :
      {E : Type 0} (g : E → TraderError W) (r : Result E A) (k : A → M W D T B)
      → ((a : A) → r ≢ ok a)
      → Refuses (lift g r >>= k)
  unfolding ◌>>=◌
  Refuses-lift g (err e) k h = record { with_error = λ m. refl; unchanged = λ m. refl }
  Refuses-lift g (ok a) k h = absurd (h a refl)

ruleset refuses_rules = (Refuses-gets, Refuses-read, Refuses-or_fail)

module _ {W D T : Type 0} ⦃f : OrderedFloat W⦄ (outside : Outside W D T) where
  validated-Refuses :
      (s : Ustr) (make : W → DateTime → DateTime → Order W T)
      → ((a : W) (b c : DateTime) → stoploss_type (make a b c).order_type ≡ true)
      → ((a : W) (b c : DateTime) → (make a b c).metadata.stoploss ≡ none)
      → Refuses (validated outside s make)
  unfolding validated
  validated-Refuses s make h g = Refuses-read _ _ λ a. Refuses-read _ _ λ b.
      Refuses-read _ _
        λ c. Refuses-lift _ _ _ λ u e. validate-no_metadata (make a b c) (h a b c) (g a b c) e

  template_of_side-Refuses :
      (side : NormalizedSide) (s : Ustr) (id : OrderId) (u : NormalizedOrderType) (q p : W)
      (l : Option W) (entry : Bool)
      → stoploss_type u ≡ true
      → Refuses (template_of_side outside side s id u q p l entry)
  unfolding template_of_side template
  template_of_side-Refuses buy s id u q p l entry h =
      Refuses-gets _ _
        λ o. Refuses-or_fail _ o _ λ cx. validated-Refuses s _ (λ a b c. h) (λ a b c. refl)
  template_of_side-Refuses sell s id u q p l entry h =
      Refuses-gets _ _
        λ o. Refuses-or_fail _ o _ λ cx. validated-Refuses s _ (λ a b c. h) (λ a b c. refl)

module _ {W D T : Type 0} ⦃f : OrderedFloat W⦄ ⦃t : Trigger W T⦄ (outside : Outside W D T)
    (depth : ℕ) where
  Refuses-fresh :
      {B : Type 0} (s : Ustr) (i : HandleId) (kind : HandleOrderKind) (k : OrderId → M W D T B)
      → ((id : OrderId) → Refuses (k id))
      → Refuses (fresh_order_id outside i kind >>= k)
  unfolding fresh_order_id ◌>>=◌
  Refuses-fresh s i kind k h = record {
    with_error = λ m. (h _).with_error (record m { reads = suc (suc m.reads) });
    unchanged = λ m. (h _).unchanged (record m { reads = suc (suc m.reads) });
  }

  place-Refuses :
      (s : Ustr) (kind : HandleOrderKind) (side : NormalizedSide) (u : NormalizedOrderType)
      (q p : W) (l : Option W)
      → stoploss_type u ≡ true
      → Refuses (place outside depth s kind side u q p l)
  unfolding place order_template
  place-Refuses s kind side u q p l h = Refuses-gets _ _ λ o. Refuses-or_fail _ o _ λ cx.
      Refuses-fresh s 0 kind _ λ id. Refuses-bind _ _ (
        Refuses-gets _ _ λ o.
          Refuses-or_fail _ o _ λ cx. template_of_side-Refuses outside side s id u q p l false h)

  -- The four calls that place a stoploss end with an error and change nothing of the trader, for whatever
  -- symbol, prices, quantity and kind of order: the order that they make has no stoploss metadata.
  pub place_stop-Refuses :
      (s : Ustr) (price stop_price limit_price quantity : W) (kind : HandleOrderKind)
      → Refuses
          (Placement.stoploss_limit_buy outside depth s price stop_price limit_price quantity kind)
        × (Refuses (
              Placement.stoploss_limit_sell outside depth s price stop_price limit_price quantity
                kind)
            × (Refuses
                  (Placement.stoploss_market_buy outside depth s price stop_price quantity kind)
                × Refuses (
                    Placement.stoploss_market_sell outside depth s price stop_price quantity kind)))
  unfolding Placement.stoploss_limit_buy Placement.stoploss_limit_sell Placement.stoploss_market_buy
      Placement.stoploss_market_sell
  place_stop-Refuses s price stop_price limit_price quantity kind = (
    place-Refuses s kind buy stop_loss_limit quantity price (some limit_price) refl,
    (
      place-Refuses s kind sell stop_loss_limit quantity price (some limit_price) refl,
      (
        place-Refuses s kind buy stop_loss quantity price none refl,
        place-Refuses s kind sell stop_loss quantity price none refl,
      ),
    ),
  )
