-- ===== src/Position/Tests.antt =====
-- A position whose decimals are natural numbers.
use babylon_playground_demo.Common.{
  ℕ, ◌-◌, ◌*◌, ◌+◌, ◌/◌, ◌%◌, ◌==◌, ◌&&◌, ltb, leb, ◌≡◌, refl, Option, none, some, List, [], ◌∷◌,
  if◌then◌else◌,
}
use babylon_playground_demo.Common.Result.{ok, err}
use babylon_playground_demo.Float.Units.{thousandths}
use babylon_playground_demo.Types.{buy, sell}
use babylon_playground_demo.Position.{
  Decimals, Position, division_by_zero, overflow, unrepresentable, new, decimal, added, subtracted,
  multiplied, divided, average_of, calculate_unrealized_profit, calculate_roi, update_on_buy,
  update_on_sell, register_trade, compute, contains, track_pending_order,
}
use babylon_playground_demo.Position.Accumulator.{no_metadata}
use babylon_playground_demo.Position.Capital.{
  Call, track, register, recompute, perform, perform_all,
}

instance abbrev counts : Decimals ℕ
counts = record {
  nil = 0;
  hundred = 100;
  add = λ a b. if ltb (a + b) 1_000_000 then some (a + b) else none;
  sub = λ a b. some (a - b);
  mul = λ a b. if ltb (a * b) 1_000_000 then some (a * b) else none;
  div = λ a b. some (a / b);
  is_nil = λ a. a == 0;
  le = λ a b. leb a b;
}

-- The floats are thousandths, of which only whole ones have a decimal, below a million.
abbrev whole : ℕ → Option ℕ
whole x = if (x % 1000 == 0) && ltb (x / 1000) 1_000_000 then some (x / 1000) else none

abbrev fresh : Position ℕ ℕ
unfolding new no_metadata
fresh = new "BTCUSDT" []

abbrev held : Position ℕ ℕ
held = record fresh {
  invested_capital = 220;
  allocated_capital = 220;
  quantity_held = 2;
  average_price = 110;
}

abbrev given : Position ℕ ℕ
given = record fresh { quantity_held = 1 }

two_buys :
    register_trade whole buy 1_000 120_000 (record held {
      invested_capital = 100;
      allocated_capital = 100;
      quantity_held = 1;
      average_price = 100;
    })
    ≡ ok held
unfolding register_trade update_on_buy decimal added multiplied average_of divided fresh new
    no_metadata
two_buys = refl

-- What was bought for nothing has no profit ratio.
for_nothing : calculate_unrealized_profit 5 given ≡ err division_by_zero
unfolding calculate_unrealized_profit subtracted multiplied divided fresh new no_metadata
for_nothing = refl

-- A price that `d!` refuses, and a cost that overflows.
half_a_unit : register_trade whole buy 1_000 500 fresh ≡ err unrepresentable
unfolding register_trade update_on_buy decimal
half_a_unit = refl

too_much : register_trade whole buy 10_000_000 900_000_000 fresh ≡ err overflow
unfolding register_trade update_on_buy decimal multiplied fresh new
too_much = refl

abbrev calls : List (Call ℕ)
calls = track 3 ∷ register buy 2_000 110_000 ∷ register sell 1_000 130_000 ∷ recompute 140_000 ∷ []

-- These calls return.
calls_return : (after : Position ℕ ℕ) × (perform_all whole calls (new "BTCUSDT" []) ≡ ok after)
unfolding perform_all perform register_trade update_on_buy update_on_sell compute decimal added
    subtracted multiplied divided average_of calculate_roi calculate_unrealized_profit new
    no_metadata track_pending_order contains
calls_return = (_, refl)
