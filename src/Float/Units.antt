-- ===== src/Float/Units.antt =====
-- Values for the tests: natural numbers of thousandths, in which differences stop at zero.
use babylon_playground_demo.Common.{ℕ, ◌+◌, ◌-◌, ◌*◌, ◌/◌, ◌%◌, ◌^◌, leb, ◌==◌}
use babylon_playground_demo.Float.{OrderedFloat}

instance abbrev pub thousandths : OrderedFloat ℕ
thousandths = record {
  nought = 0;
  one = 1000;
  milli = 1;
  plus = λ a b. a + b;
  minus = λ a b. a - b;
  times = λ a b. a * b / 1000;
  over = λ a b. a * 1000 / b;
  modulo = λ a b. a % b;
  floor = λ a. a / 1000 * 1000;
  round = λ a. (a + 500) / 1000 * 1000;
  abs = λ a. a;
  power_of_ten = λ n. 10 ^ n * 1000;
  le = λ a b. leb a b;
  is_zero = λ a. a == 0;
}
