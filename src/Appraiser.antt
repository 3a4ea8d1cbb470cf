-- ===== src/Appraiser.antt =====
-- src/appraiser.rs, over the filters of src/model.rs: prices and quantities are cut down to the
-- exchange's steps. `Appraiser::new` panics without a price filter and a lot size, so an appraiser
-- holds the two rules themselves; the other rules are not used here.
use babylon_playground_demo.Common.{ℕ, Bool, true, ◌&&◌, Option, none, some, if◌then◌else◌}
use babylon_playground_demo.Float.{
  OrderedFloat, round_to_precision, ◌≼◌, ◌≺◌, ◌≽◌, ◌⊕◌, ◌⊖◌, ◌⊗◌, ◌⊘◌,
}

pub record PriceFilterRule (W : Type 0) : Type 0 where
  pub min_price : W
  pub max_price : W
  pub tick_size : W

pub record LotSizeRule (W : Type 0) : Type 0 where
  pub min_qty : W
  pub max_qty : W
  pub step_size : W

pub record Appraiser (W : Type 0) : Type 0 where
  pub price_filter : PriceFilterRule W
  pub lot_size : LotSizeRule W
  pub true_base_precision : ℕ
  pub true_quote_precision : ℕ

pub record Lot (W : Type 0) : Type 0 where
  pub quantity : W
  pub price : W
  pub trigger_price : Option W

module _ {W : Type 0} ⦃f : OrderedFloat W⦄ where
  unfoldable pub is_valid_price : Appraiser W → W → Bool
  is_valid_price a price =
      let r = a.price_filter in
      (if f.is_zero r.min_price then true else price ≽ r.min_price)
      && (if f.is_zero r.max_price then true else price ≼ r.max_price)
      && (if f.is_zero r.tick_size
          then true
          else f.is_zero (f.modulo (price ⊖ r.min_price) r.tick_size))

  unfoldable pub is_valid_quantity : Appraiser W → W → Bool
  is_valid_quantity a quantity =
      let r = a.lot_size in
      (if f.is_zero r.min_qty then true else quantity ≽ r.min_qty)
      && (if f.is_zero r.max_qty then true else quantity ≼ r.max_qty)
      && (if f.is_zero r.step_size
          then true
          else f.is_zero (f.modulo (quantity ⊖ r.min_qty) r.step_size))

  unfoldable pub is_dust_quantity : Appraiser W → W → Bool
  is_dust_quantity a quantity = quantity ≺ a.lot_size.min_qty

  unfoldable pub round_quote : Appraiser W → W → W
  round_quote a quote = round_to_precision quote a.true_quote_precision

  unfoldable pub round_base : Appraiser W → W → W
  round_base a base = round_to_precision base a.true_base_precision

  unfoldable pub normalize_quote : Appraiser W → W → W
  normalize_quote a price =
      let remainder = f.modulo price a.price_filter.tick_size in
      round_quote a (if f.is_zero remainder then price else price ⊖ remainder)

  unfoldable pub normalize_base : Appraiser W → W → W
  normalize_base a base =
      let remainder = f.modulo base a.lot_size.step_size in
      round_base a (if f.is_zero remainder then base else base ⊖ remainder)

  unfoldable pub round_normalized_quote : Appraiser W → W → W
  round_normalized_quote a quote =
      round_to_precision (normalize_quote a quote) a.true_quote_precision

  unfoldable pub round_normalized_base : Appraiser W → W → W
  round_normalized_base a base = round_to_precision (normalize_base a base) a.true_base_precision

  unfoldable pub compute_quantity : Appraiser W → W → W → W
  compute_quantity a quote price = normalize_base a (quote ⊘ normalize_quote a price)

  abbrev map_price : Appraiser W → Option W → Option W
  map_price a none = none
  map_price a (some p) = some (normalize_quote a p)

  unfoldable pub compute_bid_lot : Appraiser W → W → W → Option W → Lot W
  compute_bid_lot a quote_to_spend price trigger_price =
      let quote = normalize_quote a quote_to_spend in
      let p = normalize_quote a price in
      record {
        quantity = normalize_base a (quote ⊘ p);
        price = p;
        trigger_price = map_price a trigger_price;
      }

  unfoldable pub compute_ask_lot : Appraiser W → W → W → Option W → Lot W
  compute_ask_lot a base_to_spend price trigger_price = record {
    quantity = normalize_base a base_to_spend;
    price = normalize_quote a price;
    trigger_price = map_price a trigger_price;
  }

  unfoldable pub price_up_percent : Appraiser W → W → W → W
  price_up_percent a price percent = normalize_quote a (price ⊗ (f.one ⊕ f.abs percent))

  unfoldable pub price_down_percent : Appraiser W → W → W → W
  price_down_percent a price percent = normalize_quote a (price ⊗ (f.one ⊖ f.abs percent))

  unfoldable pub price_oneup : Appraiser W → W → W
  price_oneup a price = normalize_quote a price ⊕ a.price_filter.tick_size

  unfoldable pub price_undercut : Appraiser W → W → W
  price_undercut a price = normalize_quote a price ⊖ a.price_filter.tick_size
