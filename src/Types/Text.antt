-- ===== src/Types/Text.antt =====
-- src/types.rs: sides, order types and times in force as text. A conversion that panics on an
-- unknown text is `none` there.
mod Tests
use text.Mathlib.Text.{◌==◌ as str_eq}
use babylon_playground_demo.Common.{
  String, Option, none, some, ◌≡◌, refl, ◌⊎◌, inl, inr, if◌then◌else◌,
}
use babylon_playground_demo.Types.{
  NormalizedSide, buy, sell, NormalizedOrderType, limit, limit_maker, market, take_profit,
  take_profit_limit, stop_loss, stop_loss_limit, NormalizedTimeInForce, gtc, ioc, fok, gtx,
}

unfoldable pub side_of_string : String → Option NormalizedSide
side_of_string item =
    if str_eq item "BUY" then some buy else if str_eq item "SELL" then some sell else none

unfoldable pub string_of_side : NormalizedSide → String
string_of_side buy = "BUY"
string_of_side sell = "SELL"

unfoldable pub order_type_of_string : String → Option NormalizedOrderType
order_type_of_string item =
    if str_eq item "LIMIT"
    then some limit
    else if str_eq item "LIMIT_MAKER"
    then some limit_maker
    else if str_eq item "MARKET"
    then some market
    else if str_eq item "TAKE_PROFIT"
    then some take_profit
    else if str_eq item "TAKE_PROFIT_LIMIT"
    then some take_profit_limit
    else if str_eq item "STOP_LOSS"
    then some stop_loss
    else if str_eq item "STOP_LOSS_LIMIT"
    then some stop_loss_limit
    else none

unfoldable pub string_of_order_type : NormalizedOrderType → String
string_of_order_type limit = "LIMIT"
string_of_order_type limit_maker = "LIMIT_MAKER"
string_of_order_type market = "MARKET"
string_of_order_type take_profit = "TAKE_PROFIT"
string_of_order_type take_profit_limit = "TAKE_PROFIT_LIMIT"
string_of_order_type stop_loss = "STOP_MARKET"
string_of_order_type stop_loss_limit = "STOP_LIMIT"

unfoldable pub time_in_force_of_string : String → Option NormalizedTimeInForce
time_in_force_of_string item =
    if str_eq item "GTC"
    then some gtc
    else if str_eq item "IOC"
    then some ioc
    else if str_eq item "FOK"
    then some fok
    else if str_eq item "GTX"
    then some gtx
    else none

unfoldable pub string_of_time_in_force : NormalizedTimeInForce → String
string_of_time_in_force gtc = "GTC"
string_of_time_in_force ioc = "IOC"
string_of_time_in_force fok = "FOK"
string_of_time_in_force gtx = "GTX"

pub side_of_string-string_of_side :
    (s : NormalizedSide) → side_of_string (string_of_side s) ≡ some s
unfolding side_of_string string_of_side
side_of_string-string_of_side buy = refl
side_of_string-string_of_side sell = refl

pub time_in_force_round_trip :
    (t : NormalizedTimeInForce) → time_in_force_of_string (string_of_time_in_force t) ≡ some t
unfolding time_in_force_of_string string_of_time_in_force
time_in_force_round_trip gtc = refl
time_in_force_round_trip ioc = refl
time_in_force_round_trip fok = refl
time_in_force_round_trip gtx = refl

-- Reading back the text of an order type gives the order type, but for the two stop types, on
-- whose texts the reader panics.
pub order_type_round_trip :
    (t : NormalizedOrderType)
    → (order_type_of_string (string_of_order_type t) ≡ some t)
      ⊎ ((t ≡ stop_loss) ⊎ (t ≡ stop_loss_limit))
        × (order_type_of_string (string_of_order_type t) ≡ none)
unfolding order_type_of_string string_of_order_type
order_type_round_trip limit = inl refl
order_type_round_trip limit_maker = inl refl
order_type_round_trip market = inl refl
order_type_round_trip take_profit = inl refl
order_type_round_trip take_profit_limit = inl refl
order_type_round_trip stop_loss = inr (inl refl, refl)
order_type_round_trip stop_loss_limit = inr (inr refl, refl)
