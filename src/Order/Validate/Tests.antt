-- ===== src/Order/Validate/Tests.antt =====
-- A stoploss under a long trade.
use babylon_playground_demo.Common.{ℕ, true, false, ◌≡◌, refl, some, ◌==◌}
use babylon_playground_demo.Common.Result.{ok, err, refuse_if}
use babylon_playground_demo.Float.{◌≺◌}
use babylon_playground_demo.Float.Units.{thousandths}
use babylon_playground_demo.Types.{sell, stop_loss_limit}
use babylon_playground_demo.Trigger.Clock.{Clock}
use babylon_playground_demo.Trigger.Dispatch.{DynTrigger}
use babylon_playground_demo.Order.Data.{Order, StoplossMetadata}
use babylon_playground_demo.Order.Error.{invalid_sell_stop_price}
use babylon_playground_demo.Order.Samples.{bid}
use babylon_playground_demo.Order.Validate.{
  validate, validate_stop, validate_metadata, validate_prices, validate_sell_limit,
}
use babylon_playground_demo.Order.Validate.Sane.{is_in_order, validate-stoploss}

abbrev guard : Order ℕ (DynTrigger ℕ Clock)
guard = record bid {
  side = sell;
  order_type = stop_loss_limit;
  price = 95_000;
  limit_price = some 94_000;
  metadata = record bid.metadata {
    stoploss = some (record {
      is_trailing_enabled = false;
      reference_price = 99_000;
      initial_stop_price = 95_000;
      trailing_step_ratio = 5;
    });
  };
}

accepted : validate guard ≡ ok tt
unfolding validate validate_stop validate_metadata validate_prices validate_sell_limit refuse_if
accepted = refl

too_high :
    validate (record guard { price = 100_000 }) ≡ err (invalid_sell_stop_price 99_000 100_000)
unfolding validate validate_stop validate_metadata validate_prices validate_sell_limit refuse_if
too_high = refl

validate-stoploss_example :
    ((thousandths.is_zero guard.initial_quantity ≡ false) × ((guard.local_order_id == 0) ≡ false))
    × ((m : StoplossMetadata ℕ) × ((guard.metadata.stoploss ≡ some m)
          × (((0 ≺ m.reference_price) ≡ true)
              × (is_in_order guard.side m.reference_price guard.price guard.limit_price ≡ true))))
validate-stoploss_example = validate-stoploss guard refl accepted
