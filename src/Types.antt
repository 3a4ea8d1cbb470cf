-- ===== src/Types.antt =====
-- src/types.rs: the enumerations and small records that orders and instructions share. A derived
-- `PartialEq` or `Ord` of a fieldless enum compares the discriminants, which count the variants.
-- `Ustr`, an interned text, is a text.
pub mod Text
use babylon_playground_demo.Common.{ℕ, String, Bool, true, false, Option, ◌≡◌, refl, ltb, ◌==◌}

abbrev pub Ustr : Type 0
Ustr = String

pub data NormalizedSide : Type 0 where
  buy sell : NormalizedSide

-- The derived `==`.
abbrev pub side_eq : NormalizedSide → NormalizedSide → Bool
side_eq buy buy = true
side_eq sell sell = true
side_eq _ _ = false

unfoldable pub opposite : NormalizedSide → NormalizedSide
opposite buy = sell
opposite sell = buy

pub data NormalizedOrderType : Type 0 where
  limit limit_maker market take_profit take_profit_limit stop_loss : NormalizedOrderType
  stop_loss_limit : NormalizedOrderType

abbrev order_type_discriminant : NormalizedOrderType → ℕ
order_type_discriminant limit = 0
order_type_discriminant limit_maker = 1
order_type_discriminant market = 2
order_type_discriminant take_profit = 3
order_type_discriminant take_profit_limit = 4
order_type_discriminant stop_loss = 5
order_type_discriminant stop_loss_limit = 6

-- The derived `==`.
abbrev pub order_type_eq : NormalizedOrderType → NormalizedOrderType → Bool
order_type_eq a b = order_type_discriminant a == order_type_discriminant b

unfoldable pub is_limit : NormalizedOrderType → Bool
is_limit limit = true
is_limit limit_maker = true
is_limit _ = false

unfoldable pub is_limit_or_stop_limit : NormalizedOrderType → Bool
is_limit_or_stop_limit limit = true
is_limit_or_stop_limit limit_maker = true
is_limit_or_stop_limit stop_loss_limit = true
is_limit_or_stop_limit _ = false

unfoldable pub is_taker : NormalizedOrderType → Bool
is_taker market = true
is_taker stop_loss = true
is_taker stop_loss_limit = true
is_taker _ = false

pub data NormalizedTimeInForce : Type 0 where
  gtc ioc fok gtx : NormalizedTimeInForce

pub data NormalizedExecutionType : Type 0 where
  new cancelled replaced rejected trade expired trade_prevention unknown : NormalizedExecutionType

pub data NormalizedOrderStatus : Type 0 where
  new partially_filled filled cancelled pending_cancel expired : NormalizedOrderStatus
  rejected replaced : NormalizedOrderStatus

pub data Status : Type 0 where
  not_initialized initialized interrupted failed rejected cancelled ok not_attempted : Status
  abandoned unknown : Status

pub data Priority : Type 0 where
  relaxed normal elevated high urgent immediate : Priority

abbrev priority_discriminant : Priority → ℕ
priority_discriminant relaxed = 0
priority_discriminant normal = 1
priority_discriminant elevated = 2
priority_discriminant high = 3
priority_discriminant urgent = 4
priority_discriminant immediate = 5

-- The derived `<`.
abbrev pub priority_lt : Priority → Priority → Bool
priority_lt a b = ltb (priority_discriminant a) (priority_discriminant b)

pub data Origin : Type 0 where
  local exchange : Origin

pub data OrderLifecycleAction : Type 0 where
  cancel_and_market_exit cancel cancel_and_resume_stoploss_or_market_exit : OrderLifecycleAction

pub record OrderLifecycle : Type 0 where
  pub on_activation : Option OrderLifecycleAction
  pub on_deactivation : Option OrderLifecycleAction
  pub on_open : Option OrderLifecycleAction
  pub on_close : Option OrderLifecycleAction
  pub on_partial_fill : Option OrderLifecycleAction
  pub on_fill : Option OrderLifecycleAction
  pub on_cancel : Option OrderLifecycleAction
  pub on_reject : Option OrderLifecycleAction
  pub on_timeout : Option OrderLifecycleAction
