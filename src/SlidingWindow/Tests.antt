-- ===== src/SlidingWindow/Tests.antt =====
-- A window of three numbers.
use babylon_playground_demo.Common.{
  ℕ, zero, suc, ◌≡◌, refl, Option, none, some, [], ◌∷◌, ◌++◌, arith,
}
use babylon_playground_demo.SlidingWindow.{
  SlidingWindow, new, push, pop, slot, newest, prev, tail, get_rev, iter,
}
use babylon_playground_demo.SlidingWindow.Contents.{IsValid, push-iter, pop-iter}
use babylon_playground_demo.SlidingWindow.Back.{get_rev_lem}

abbrev numbers : ℕ → Option ℕ
numbers zero = some 4
numbers (suc zero) = some 2
numbers (suc (suc zero)) = some 3
numbers _ = none

-- After 1, 2, 3 and 4 were pushed.
abbrev full : SlidingWindow ℕ
full = record { buffer = numbers; capacity = 3; head = 1; size = 3 }

full-IsValid : IsValid full
full-IsValid = record { room = omega arith; head_in = omega arith; fits = omega arith }

abbrev one_number : SlidingWindow ℕ
one_number = (push 1 (new 3)).1

after_four : iter (push 4 (push 3 (push 2 one_number).1).1).1 ≡ some 2 ∷ some 3 ∷ some 4 ∷ []
unfolding iter push new
after_four = refl

push-iter_example : (push 5 full).0 ∷ iter (push 5 full).1 ≡ iter full ++ some 5 ∷ []
push-iter_example = push-iter 5 full full-IsValid

pop-iter_example : iter (pop full).1 ++ (pop full).0 ∷ [] ≡ iter full
pop-iter_example = pop-iter full full-IsValid

get_rev_lem_example :
    (get_rev full 2 ≡ slot full 0)
    × (newest full ≡ get_rev full 0)
    × (prev full ≡ get_rev full 1)
    × (tail full ≡ get_rev full 2)
get_rev_lem_example = get_rev_lem full 2 full-IsValid (omega arith)
