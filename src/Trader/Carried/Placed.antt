-- ===== src/Trader/Carried/Placed.antt =====
-- The orders that the trader makes itself.
use babylon_playground_demo.Common.{ℕ, Bool, Option, none, some}
use babylon_playground_demo.Float.{OrderedFloat}
use babylon_playground_demo.Trigger.{Trigger}
use babylon_playground_demo.Types.{
  Ustr, NormalizedSide, buy, sell, NormalizedOrderType, market, limit, stop_loss, stop_loss_limit,
}
use babylon_playground_demo.Instruction.{OrderId, HandleId, DateTime}
use babylon_playground_demo.SmartId.{HandleOrderKind}
use babylon_playground_demo.Order.Data.{Order}
use babylon_playground_demo.Trader.Data.{Trader, Outside}
use babylon_playground_demo.Trader.Template.{validated, template_of_side, order_template}
use babylon_playground_demo.Trader.Placement
use babylon_playground_demo.Trader.Operation.{PlacedOrder, place}
use babylon_playground_demo.Trader.Operation
use babylon_playground_demo.Trader.Keeps.{Keeps, keeps_rules}
use babylon_playground_demo.Trader.Carried.{Property, Everywhere, Carried}
use babylon_playground_demo.Trader.Carried.Entered.{create_order-Everywhere}

-- A template only reads.
module _ {W D T : Type 0} ⦃f : OrderedFloat W⦄ {P : Trader W D T → Type 0}
    (outside : Outside W D T) where
  fresh_order_id-Keeps :
      (i : HandleId) (kind : HandleOrderKind) → Keeps P (Placement.fresh_order_id outside i kind)
  unfolding Placement.fresh_order_id
  fresh_order_id-Keeps i kind = search keeps_rules

  validated-Keeps :
      (s : Ustr) (make : W → DateTime → DateTime → Order W T) → Keeps P (validated outside s make)
  unfolding validated
  validated-Keeps s make = search keeps_rules depth 16

  template_of_side-Keeps :
      (side : NormalizedSide) (s : Ustr) (id : OrderId) (u : NormalizedOrderType) (q p : W)
      (l : Option W) (entry : Bool)
      → Keeps P (template_of_side outside side s id u q p l entry)
  unfolding template_of_side
  template_of_side-Keeps buy s id u q p l entry = search (keeps_rules, validated-Keeps) depth 16
  template_of_side-Keeps sell s id u q p l entry = search (keeps_rules, validated-Keeps) depth 16

  order_template-Keeps :
      (s : Ustr) (id : OrderId) (side : NormalizedSide) (u : NormalizedOrderType) (q p : W)
      (l : Option W) (entry : Bool)
      → Keeps P (order_template outside s id side u q p l entry)
  unfolding order_template
  order_template-Keeps s id side u q p l entry = search (keeps_rules, template_of_side-Keeps)

module _ {W D T : Type 0} ⦃f : OrderedFloat W⦄ ⦃t : Trigger W T⦄ (outside : Outside W D T)
    (depth : ℕ) (P : Property W D T) (carried : Carried outside depth P) where
  ruleset placing =
      (keeps_rules, fresh_order_id-Keeps, order_template-Keeps, create_order-Everywhere)

  place-Keeps :
      (s : Ustr) (kind : HandleOrderKind) (side : NormalizedSide) (u : NormalizedOrderType)
      (q p : W) (l : Option W)
      → Keeps (Everywhere P) (Placement.place outside depth s kind side u q p l)
  unfolding Placement.place
  place-Keeps s kind side u q p l = search placing depth 20

  pub place-Everywhere : (o : PlacedOrder W) → Keeps (Everywhere P) (place outside depth o)
  unfolding place Placement.market_buy Placement.market_buy_quote_quantity Placement.market_sell
      Placement.limit_buy Placement.limit_sell Placement.stoploss_limit_buy
      Placement.stoploss_limit_sell Placement.stoploss_market_buy Placement.stoploss_market_sell
  place-Everywhere (Operation.market_buy s q kind) = place-Keeps s kind buy market q f.nought none
  place-Everywhere (Operation.market_buy_quote_quantity s q kind) = search placing depth 20
  place-Everywhere (Operation.market_sell s q kind) = place-Keeps s kind sell market q f.nought none
  place-Everywhere (Operation.limit_buy s p l q kind) = place-Keeps s kind buy limit q p (some l)
  place-Everywhere (Operation.limit_sell s p l q kind) = place-Keeps s kind sell limit q p (some l)
  place-Everywhere (Operation.stoploss_limit_buy s p x l q kind) =
      place-Keeps s kind buy stop_loss_limit q p (some l)
  place-Everywhere (Operation.stoploss_limit_sell s p x l q kind) =
      place-Keeps s kind sell stop_loss_limit q p (some l)
  place-Everywhere (Operation.stoploss_market_buy s p x q kind) =
      place-Keeps s kind buy stop_loss q p none
  place-Everywhere (Operation.stoploss_market_sell s p x q kind) =
      place-Keeps s kind sell stop_loss q p none
