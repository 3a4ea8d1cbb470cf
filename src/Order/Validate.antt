-- ===== src/Order/Validate.antt =====
-- src/order.rs: what is asked of an order before the trader takes it.
pub mod Sane
mod Tests
use babylon_playground_demo.Common.{
  Bool, true, false, not, ◌&&◌, ◌||◌, Option, none, some, ◌==◌, if◌then◌else◌,
}
use babylon_playground_demo.Common.Result.{Result, ok, err, ok_or, ◌>>=◌, ◌>>◌, refuse_if}
use babylon_playground_demo.Float.{OrderedFloat, ◌≼◌, ◌≺◌, ◌≽◌, ◌≻◌}
use babylon_playground_demo.Types.{
  NormalizedSide, buy, sell, NormalizedOrderType, market, order_type_eq,
}
use babylon_playground_demo.Order.Error.{
  OrderError, zero_price, zero_quantity, local_order_id_is_zero, invalid_limit_price_offset_ratio,
  stoploss_missing_metadata, invalid_reference_price, invalid_initial_stop_price,
  invalid_trailing_step_ratio, invalid_buy_stop_price, invalid_buy_limit_price,
  invalid_sell_stop_price, invalid_sell_limit_price,
}
use babylon_playground_demo.Order.Data.{Order, StoplossMetadata, OrderFillMetadata}
use babylon_playground_demo.Order.Query.{is_stoploss}

module _ {W : Type 0} ⦃f : OrderedFloat W⦄ where
  abbrev pub out_of_unit : W → Bool
  out_of_unit x = x ≺ f.nought || x ≻ f.one

  unfoldable pub validate_buy_limit : Option W → W → Result (OrderError W) (Unit {0})
  validate_buy_limit none price = ok tt
  validate_buy_limit (some limit_price) price =
      refuse_if (limit_price ≼ price) (invalid_buy_limit_price price limit_price)

  unfoldable pub validate_sell_limit : Option W → W → Result (OrderError W) (Unit {0})
  validate_sell_limit none price = ok tt
  validate_sell_limit (some limit_price) price =
      refuse_if (limit_price ≽ price) (invalid_sell_limit_price price limit_price)

  -- The stop price and the limit price of a stoploss, by its side.
  unfoldable pub validate_prices :
      NormalizedSide → W → W → Option W → Result (OrderError W) (Unit {0})
  unfolding validate_buy_limit validate_sell_limit
  validate_prices buy reference price limit_price = do
    refuse_if (price ≼ reference) (invalid_buy_stop_price reference price)
    validate_buy_limit limit_price price
  validate_prices sell reference price limit_price = do
    refuse_if (price ≽ reference) (invalid_sell_stop_price reference price)
    validate_sell_limit limit_price price

  unfoldable pub validate_metadata : StoplossMetadata W → Result (OrderError W) (Unit {0})
  validate_metadata m = do
    refuse_if (m.reference_price ≼ f.nought) (invalid_reference_price m.reference_price)
    refuse_if (m.initial_stop_price ≼ f.nought) (invalid_initial_stop_price m.initial_stop_price)
    refuse_if (out_of_unit m.trailing_step_ratio)
        (invalid_trailing_step_ratio m.trailing_step_ratio)

module _ {W T : Type 0} ⦃f : OrderedFloat W⦄ where
  -- The part of `validate` that is for stoplosses only.
  unfoldable pub validate_stop : Order W T → Result (OrderError W) (Unit {0})
  unfolding validate_metadata validate_prices
  validate_stop o = do
    m ← ok_or o.metadata.stoploss stoploss_missing_metadata
    validate_metadata m
    validate_prices o.side m.reference_price o.price o.limit_price

  unfoldable pub validate : Order W T → Result (OrderError W) (Unit {0})
  unfolding validate_stop
  validate o = do
    refuse_if (f.is_zero o.price && not (order_type_eq o.order_type market)) zero_price
    refuse_if (f.is_zero o.initial_quantity) zero_quantity
    refuse_if (o.local_order_id == 0) local_order_id_is_zero
    refuse_if (out_of_unit o.metadata.limit_price_offset_ratio)
        (invalid_limit_price_offset_ratio o.metadata.limit_price_offset_ratio)
    let stop = validate_stop o
    if is_stoploss o then stop else ok tt
