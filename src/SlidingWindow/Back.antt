-- ===== src/SlidingWindow/Back.antt =====
-- src/sliding_window.rs: what is read from the end of the window.
use native.Mathlib.Nat.{mod-eq_of_lt, add-mod_right}
use babylon_playground_demo.Common.{ℕ, ◌+◌, ◌-◌, ◌%◌, ◌<◌, ◌≡◌, ap, ◌∙◌, arith}
use babylon_playground_demo.SlidingWindow.{SlidingWindow, slot, newest, prev, tail, get_rev}
use babylon_playground_demo.SlidingWindow.Contents.{IsValid}

module _ {A : Type 0} where
  -- How `get_rev` counts back.
  back :
      (w : SlidingWindow A) (k : ℕ)
      → k < w.size
      → w.buffer ((w.head + w.size - 1 - k + w.capacity) % w.capacity) ≡ slot w (w.size - 1 - k)
  back w k l = ap w.buffer (
      add-mod_right (w.head + w.size - 1 - k) w.capacity
      ∙ ap (λ i. i % w.capacity) {y = w.head + (w.size - 1 - k)} (omega arith))

  -- Counted from the end of a valid window, `head` is its first element, `prev` its second, and `tail`
  -- its last; each is the slot that `iter` reaches at that place.
  pub get_rev_lem :
      (w : SlidingWindow A) (r : ℕ)
      → IsValid w
      → r < w.size
      → (get_rev w r ≡ slot w (w.size - 1 - r))
        × (newest w ≡ get_rev w 0)
        × (prev w ≡ get_rev w 1)
        × (tail w ≡ get_rev w (w.size - 1))
  unfolding get_rev newest prev tail
  get_rev_lem w r v h =
      let first = add-mod_right (w.head + w.size - 1 - 0) w.capacity in
      let second : w.buffer ((w.head + w.size - 1 - 1 + w.capacity) % w.capacity)
          ≡ w.buffer ((w.head + w.size - 2) % w.capacity) =
        ap w.buffer (
          add-mod_right (w.head + w.size - 1 - 1) w.capacity
          ∙ ap (λ i. i % w.capacity) {y = w.head + w.size - 2} (omega arith)) in
      let last : w.buffer ((w.head + w.size - 1 - (w.size - 1) + w.capacity) % w.capacity)
          ≡ w.buffer w.head =
        ap w.buffer (
          add-mod_right (w.head + w.size - 1 - (w.size - 1)) w.capacity
          ∙ ap (λ i. i % w.capacity) {y = w.head} (omega arith)
          ∙ mod-eq_of_lt v.head_in) in
      (
        ground (arith, back w r h),
        ground (arith, ap w.buffer first),
        ground (arith, second),
        ground (arith, last),
      )
