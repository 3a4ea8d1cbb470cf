-- ===== src/TimeSet/Tests.antt =====
-- A time set with two numbers.
use babylon_playground_demo.Common.{ℕ, ◌≡◌, refl, ◌⊎◌, some, [], ◌∷◌, ltb, if◌then◌else◌}
use babylon_playground_demo.Common.Result.{ok, err, ok_or}
use babylon_playground_demo.Timeframe.{h1, d1, w1, timeframe_eq, timeframe_not_found}
use babylon_playground_demo.Timeframe.Text.{as_str}
use babylon_playground_demo.TimeSet.{TimeSet, new, set, get}
use babylon_playground_demo.TimeSet.Index.{index_text, index_timeframe}
use babylon_playground_demo.TimeSet.Iterate.{filter, iter, filled, entries}
use babylon_playground_demo.TimeSet.Access.{looked_up, get-set, index_timeframe-get}

abbrev two_numbers : TimeSet ℕ
unfolding new
two_numbers = record new { h1 = some 7; d1 = some 40 }

all_of_them : iter two_numbers ≡ (h1, 7) ∷ (d1, 40) ∷ []
unfolding iter filled entries two_numbers new
all_of_them = refl

small_ones : filter (λ n. ltb n 10) two_numbers ≡ (h1, 7) ∷ []
unfolding filter two_numbers new
small_ones = refl

get-set_example :
    ((set w1 5 two_numbers ≡ err (timeframe_not_found w1))
      × (get w1 two_numbers ≡ err (timeframe_not_found w1)))
    ⊎ ((after : TimeSet ℕ) × ((set w1 5 two_numbers ≡ ok after)
          × (get h1 after ≡ (if timeframe_eq w1 h1 then ok 5 else get h1 two_numbers))))
get-set_example = get-set w1 h1 5 two_numbers

index_timeframe-get_example :
    (index_text (as_str w1) two_numbers ≡ index_timeframe w1 two_numbers)
    × (get (looked_up w1) two_numbers
        ≡ ok_or (index_timeframe w1 two_numbers) (timeframe_not_found (looked_up w1)))
index_timeframe-get_example = index_timeframe-get w1 two_numbers
