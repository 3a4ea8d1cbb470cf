-- ===== src/Order/Validate/Sane.antt =====
-- src/order.rs: what is known of an order that `validate` accepts.
use babylon_playground_demo.Common.{
  ◌≢◌, Bool, true, false, not, ◌&&◌, ◌≡◌, refl, sym, ap, ◌∙◌, Option, none, some, ◌==◌,
  if◌then◌else◌,
}
use babylon_playground_demo.Common.Result.{
  Result, ok, ok_or, ◌>>=◌, ◌>>◌, refuse-passed, refuse-last, then-ok,
}
use babylon_playground_demo.Float.{OrderedFloat, ◌≺◌}
use babylon_playground_demo.Types.{NormalizedSide, buy, sell}
use babylon_playground_demo.Order.Error.{stoploss_missing_metadata}
use babylon_playground_demo.Order.Data.{Order, StoplossMetadata}
use babylon_playground_demo.Order.Query.{stoploss_type, is_stoploss}
use babylon_playground_demo.Order.Validate.{
  validate, validate_stop, validate_metadata, validate_prices, validate_buy_limit,
  validate_sell_limit,
}

module _ {W : Type 0} ⦃f : OrderedFloat W⦄ where
  -- From the reference price through the stop price to the limit price, prices rise for a buy and fall for a
  -- sell.
  unfoldable pub is_in_order : NormalizedSide → W → W → Option W → Bool
  is_in_order buy reference price none = reference ≺ price
  is_in_order buy reference price (some limit_price) = reference ≺ price && price ≺ limit_price
  is_in_order sell reference price none = price ≺ reference
  is_in_order sell reference price (some limit_price) = price ≺ reference && limit_price ≺ price

  validate_prices-in_order :
      (side : NormalizedSide) (reference price : W) (limit_price : Option W)
      → validate_prices side reference price limit_price ≡ ok tt
      → is_in_order side reference price limit_price ≡ true
  unfolding validate_prices validate_buy_limit validate_sell_limit is_in_order
  validate_prices-in_order buy reference price none h =
      let (apart, _) = refuse-passed _ _ _ tt h in ap not apart
  validate_prices-in_order buy reference price (some limit_price) h =
      let (apart, rest) = refuse-passed _ _ _ tt h in
      ap (λ t. not t && price ≺ limit_price) apart ∙ ap not (refuse-last _ _ rest)
  validate_prices-in_order sell reference price none h =
      let (apart, _) = refuse-passed _ _ _ tt h in ap not apart
  validate_prices-in_order sell reference price (some limit_price) h =
      let (apart, rest) = refuse-passed _ _ _ tt h in
      ap (λ t. not t && limit_price ≺ price) apart ∙ ap not (refuse-last _ _ rest)

  validate_metadata-positive :
      (m : StoplossMetadata W) → validate_metadata m ≡ ok tt → (f.nought ≺ m.reference_price) ≡ true
  unfolding validate_metadata
  validate_metadata-positive m h = let (above, _) = refuse-passed _ _ _ tt h in ap not above

  -- What is known of the metadata of a stoploss that was accepted.
  stop_is_known :
      (slot : Option (StoplossMetadata W)) (side : NormalizedSide) (price : W)
      (limit_price : Option W)
      → (ok_or slot stoploss_missing_metadata >>= (λ m.
          validate_metadata m >> validate_prices side m.reference_price price limit_price))
        ≡ ok tt
      → (m : StoplossMetadata W) × ((slot ≡ some m)
          × (((f.nought ≺ m.reference_price) ≡ true)
              × (is_in_order side m.reference_price price limit_price ≡ true)))
  stop_is_known none side price limit_price h = cc
  stop_is_known (some m) side price limit_price h =
      let (metadata, prices) = then-ok _ _ tt h in
      (
        m,
        (
          refl,
          (
            validate_metadata-positive m metadata,
            validate_prices-in_order side m.reference_price price limit_price prices,
          ),
        ),
      )

module _ {W T : Type 0} ⦃f : OrderedFloat W⦄ where
  -- A stoploss that `validate` accepts has a quantity and an id that are not zero, and stoploss metadata whose
  -- reference price is above zero; from the reference price through its stop price to its limit price,
  -- if it has one, prices rise for a buy and fall for a sell.
  pub validate-stoploss :
      (o : Order W T)
      → is_stoploss o ≡ true
      → validate o ≡ ok tt
      → ((f.is_zero o.initial_quantity ≡ false) × ((o.local_order_id == 0) ≡ false))
        × ((m : StoplossMetadata W) × ((o.metadata.stoploss ≡ some m)
              × (((f.nought ≺ m.reference_price) ≡ true)
                  × (is_in_order o.side m.reference_price o.price o.limit_price ≡ true))))
  unfolding validate validate_stop
  validate-stoploss o is_stop h =
      let (_, after_price) = refuse-passed _ _ _ tt h in
      let (quantity, after_quantity) = refuse-passed _ _ _ tt after_price in
      let (id, after_id) = refuse-passed _ _ _ tt after_quantity in
      let (_, stop) = refuse-passed _ _ _ tt after_id in
      (
        (quantity, id),
        stop_is_known o.metadata.stoploss o.side o.price o.limit_price
            (sym (ap (λ b. if b then validate_stop o else ok tt) is_stop) ∙ stop),
      )

no_stop :
    {E A B : Type 0} (b : Bool) (o : Option A) (e : E) (k : A → Result E B) (r : Result E B) (x : B)
    → b ≡ true
    → o ≡ none
    → (if b then (ok_or o e >>= k) else r) ≢ ok x
no_stop true none e k r x h g p = cc
no_stop true (some a) e k r x h g p = cc
no_stop false o e k r x h g p = cc

module _ {W T : Type 0} ⦃f : OrderedFloat W⦄ where
  -- A stoploss without stoploss metadata is not valid.
  pub validate-no_metadata :
      (o : Order W T)
      → stoploss_type o.order_type ≡ true
      → o.metadata.stoploss ≡ none
      → validate o ≢ ok tt
  unfolding validate validate_stop
  validate-no_metadata o h g e =
      let after_limit =
        refuse-passed _ _ _ tt
          (refuse-passed _ _ _ tt (refuse-passed _ _ _ tt (refuse-passed _ _ _ tt e).1).1).1 in
      no_stop (is_stoploss o) o.metadata.stoploss _ _ _ tt h g after_limit.1
