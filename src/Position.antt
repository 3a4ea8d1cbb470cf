-- ===== src/Position.antt =====
-- src/position.rs: the capital, the quantity and the pending orders of a position. `Decimal` is of the
-- crate rust_decimal, and what the code uses of it is an interface: a division by zero panics, an operation
-- that overflows panics, and so does the macro `d!` of src/helpers.rs on a float that no decimal stands
-- for. A call that panics leaves no position here: the source may have changed part of it. The field `clock` is never read and is left out, as is what is printed.
pub mod Accumulator
pub mod Capital
pub mod Pending
mod Sound
mod Tests
use babylon_playground_demo.Common.{
  Option, ℕ, Bool, true, false, not, ◌||◌, ◌≡◌, List, [], ◌∷◌, ◌==◌, if◌then◌else◌,
}
use babylon_playground_demo.Common.Result.{Result, ok, err, ok_or, ◌>>=◌}
use babylon_playground_demo.Types.{Ustr, NormalizedSide, buy, sell}
use babylon_playground_demo.Balance.{BalanceSheet}
use babylon_playground_demo.Position.Accumulator.{AccumulatorMetadata, no_metadata}
use babylon_playground_demo.Float.{OrderedFloat}

pub record Decimals (D : Type 0) : Type 0 where
  -- `Decimal::ZERO`, and `d!(100.0)`.
  pub nil : D
  pub hundred : D
  -- `+`, `-`, `*` and `/` where they do not overflow.
  pub add : D → D → Option D
  pub sub : D → D → Option D
  pub mul : D → D → Option D
  pub div : D → D → Option D
  pub is_nil : D → Bool
  pub le : D → D → Bool

pub data PositionError : Type 0 where
  order_id_exists insufficient_amount insufficient_capital : PositionError
  insufficient_capital_to_reserve order_id_not_found : PositionError

pub data TradeDecisionAmount (W : Type 0) : Type 0 where
  none_of_it tenth fifth quarter third half two_thirds full : TradeDecisionAmount W
  ratio_of_it exactly : W → TradeDecisionAmount W

pub data TradeDecision (W : Type 0) : Type 0 where
  hold : TradeDecision W
  buy_it sell_it : TradeDecisionAmount W → TradeDecision W

pub data Panic : Type 0 where
  division_by_zero overflow unrepresentable : Panic

pub record Position (W D : Type 0) : Type 0 where
  pub symbol : Ustr
  pub balance : BalanceSheet W
  pub allocated_capital : D
  pub invested_capital : D
  pub reserved_capital : D
  pub revenue : D
  pub risk_tolerance_ratio : D
  pub quantity_held : D
  pub average_price : D
  pub realized_profit : D
  pub realized_profit_ratio : D
  pub unrealized_profit : D
  pub unrealized_profit_ratio : D
  pub pending_order_confirmations : List ℕ
  pub accumulator : AccumulatorMetadata W

-- `HashSet::contains`, and `HashSet::remove` of a set without repetitions.
unfoldable pub contains : ℕ → List ℕ → Bool
contains id [] = false
contains id (x ∷ xs) = id == x || contains id xs

unfoldable pub remove : ℕ → List ℕ → List ℕ
remove id [] = []
remove id (x ∷ xs) = let rest = remove id xs in if id == x then xs else x ∷ rest

module _ {W D : Type 0} ⦃f : OrderedFloat W⦄ ⦃d : Decimals D⦄ where
  unfoldable pub new : Ustr → BalanceSheet W → Position W D
  new symbol balance = record {
    symbol = symbol;
    balance = balance;
    allocated_capital = d.nil;
    invested_capital = d.nil;
    reserved_capital = d.nil;
    revenue = d.nil;
    risk_tolerance_ratio = d.nil;
    quantity_held = d.nil;
    average_price = d.nil;
    realized_profit = d.nil;
    realized_profit_ratio = d.nil;
    unrealized_profit = d.nil;
    unrealized_profit_ratio = d.nil;
    pending_order_confirmations = [];
    accumulator = no_metadata;
  }

module _ {W D : Type 0} where
  -- `track_pending_order`. Of a call that ends in an error nothing is changed, here as below.
  unfoldable pub track_pending_order : ℕ → Position W D → Result PositionError (Position W D)
  track_pending_order id p =
      if contains id p.pending_order_confirmations
      then err order_id_exists
      else ok (record p { pending_order_confirmations = id ∷ p.pending_order_confirmations })

  unfoldable pub notify_order_finished : ℕ → Position W D → Result PositionError (Position W D)
  notify_order_finished id p =
      if not (contains id p.pending_order_confirmations)
      then err order_id_not_found
      else ok (record p { pending_order_confirmations = remove id p.pending_order_confirmations })

  -- What is inserted is there already, and the set stays as it is.
  unfoldable pub wait_for_pending_order_confirmation :
      ℕ → Position W D → Result PositionError (Position W D)
  wait_for_pending_order_confirmation id p =
      if not (contains id p.pending_order_confirmations) then err insufficient_amount else ok p

module _ {D : Type 0} ⦃d : Decimals D⦄ where
  -- The operators of `Decimal`.
  unfoldable pub added : D → D → Result Panic D
  added a b = ok_or (d.add a b) overflow

  unfoldable pub subtracted : D → D → Result Panic D
  subtracted a b = ok_or (d.sub a b) overflow

  unfoldable pub multiplied : D → D → Result Panic D
  multiplied a b = ok_or (d.mul a b) overflow

  unfoldable pub divided : D → D → Result Panic D
  divided a b = if d.is_nil b then err division_by_zero else ok_or (d.div a b) overflow

  unfoldable pub average_of : D → D → Result Panic D
  unfolding divided
  average_of total_cost quantity_held =
      if not (d.is_nil quantity_held) then divided total_cost quantity_held else ok d.nil

module _ {W D : Type 0} ⦃d : Decimals D⦄ where
  unfoldable pub calculate_unrealized_profit : D → Position W D → Result Panic (D × D)
  unfolding subtracted multiplied divided
  calculate_unrealized_profit current_price p =
      if d.is_nil p.quantity_held then ok (d.nil, d.nil) else do
        gain ← subtracted current_price p.average_price
        unrealized_profit ← multiplied gain p.quantity_held
        ratio ← divided unrealized_profit p.invested_capital
        percent ← multiplied ratio d.hundred
        ok (unrealized_profit, percent)

  -- The source computes the ratio twice, once for each half of the answer.
  unfoldable pub calculate_roi : Position W D → Result Panic (D × D)
  unfolding added subtracted multiplied divided calculate_unrealized_profit
  calculate_roi p = if d.is_nil p.invested_capital then ok (d.nil, d.nil) else do
    unrealized ← calculate_unrealized_profit p.average_price p
    total ← added p.revenue unrealized.0
    gain ← subtracted total p.invested_capital
    roi_ratio ← divided gain p.invested_capital
    roi ← multiplied roi_ratio d.hundred
    ok (roi, roi_ratio)

-- The macro `d!`, where `from_f64` is `Decimal::from_f64`, which has no answer for what is not a number or
-- too large.
unfoldable pub decimal : {W D : Type 0} → (W → Option D) → W → Result Panic D
decimal from_f64 x = ok_or (from_f64 x) unrepresentable

abbrev pub sold : {W D : Type 0} → D → D → D → Position W D → Position W D
sold revenue realized_profit quantity_held p = record p {
  revenue = revenue;
  realized_profit = realized_profit;
  quantity_held = quantity_held;
}

module _ {W D : Type 0} ⦃d : Decimals D⦄ (from_f64 : W → Option D) where
  unfoldable pub update_on_buy : W → W → Position W D → Result Panic (Position W D)
  unfolding decimal added multiplied average_of
  update_on_buy amount price p = do
    amount ← decimal from_f64 amount
    price ← decimal from_f64 price
    cost_before ← multiplied p.average_price p.quantity_held
    cost ← multiplied amount price
    total_cost_post_transaction ← added cost_before cost
    invested_capital ← added p.invested_capital cost
    allocated_capital ← added p.allocated_capital cost
    quantity_held ← added p.quantity_held amount
    average_price ← average_of total_cost_post_transaction quantity_held
    ok (record p {
      invested_capital = invested_capital;
      allocated_capital = allocated_capital;
      quantity_held = quantity_held;
      average_price = average_price;
    })

  -- The return on investment is computed to be printed, as a percentage.
  unfoldable pub update_on_sell : W → W → Position W D → Result Panic (Position W D)
  unfolding decimal added subtracted multiplied calculate_roi
  update_on_sell amount price p = do
    amount ← decimal from_f64 amount
    price ← decimal from_f64 price
    revenue ← multiplied amount price
    gain ← subtracted price p.average_price
    profit ← multiplied gain amount
    revenue_after ← added p.revenue revenue
    realized_profit ← added p.realized_profit profit
    quantity_held ← subtracted p.quantity_held amount
    let after = sold revenue_after realized_profit quantity_held p
    roi ← calculate_roi after
    printed ← multiplied roi.1 d.hundred
    ok after

  unfoldable pub register_trade :
      NormalizedSide → W → W → Position W D → Result Panic (Position W D)
  unfolding update_on_buy update_on_sell
  register_trade buy amount price p = update_on_buy amount price p
  register_trade sell amount price p = update_on_sell amount price p

  unfoldable pub calculate_trade_size : W → Position W D → Result Panic D
  unfolding decimal multiplied divided
  calculate_trade_size volatility_ratio p = do
    volatility ← decimal from_f64 volatility_ratio
    risk_amount ← multiplied p.allocated_capital p.risk_tolerance_ratio
    divided risk_amount volatility

  unfoldable pub purchase_cost : W → W → Result Panic D
  unfolding decimal multiplied
  purchase_cost quantity price = do
    quantity ← decimal from_f64 quantity
    price ← decimal from_f64 price
    multiplied quantity price

  unfoldable pub can_buy_within_allocation : W → W → Position W D → Result Panic Bool
  unfolding subtracted purchase_cost
  can_buy_within_allocation quantity price p = do
    cost ← purchase_cost quantity price
    remaining_capital ← subtracted p.allocated_capital p.invested_capital
    ok (d.le cost remaining_capital)

  unfoldable pub compute : W → Position W D → Result Panic (Position W D × TradeDecision W)
  unfolding decimal subtracted multiplied
  compute current_price p = do
    current_price ← decimal from_f64 current_price
    gain ← subtracted current_price p.average_price
    unrealized_profit ← multiplied gain p.quantity_held
    ok (record p { unrealized_profit = unrealized_profit }, hold)
