-- ===== src/Fibonacci/Tests.antt =====
-- The search at a few numbers.
use babylon_playground_demo.Common.{ℕ, suc, ◌≤◌, ◌<◌, ◌≡◌, refl, none, some, arith, ◌^◌, ◌-◌}
use babylon_playground_demo.Fibonacci.{
  found, overflow, search, max_fib_leq, fib, max_fib_leq-Brackets,
}

below_seven : max_fib_leq 7 ≡ found (some 5)
unfolding max_fib_leq search
below_seven = refl

nothing_below_one : max_fib_leq 0 ≡ found none
unfolding max_fib_leq search
nothing_below_one = refl

too_large : search 94 0 1 (2 ^ 64 - 1) ≡ overflow
unfolding search
too_large = refl

max_fib_leq-Brackets_example :
    (k : ℕ) × ((max_fib_leq 7 ≡ found (some (fib k))) × ((fib k ≤ 7) × (7 < fib (suc k))))
max_fib_leq-Brackets_example = max_fib_leq-Brackets 7 (omega arith) (omega arith)
