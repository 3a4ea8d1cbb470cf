-- ===== src/SlidingWindow.antt =====
-- src/sliding_window.rs: a ring buffer. The boxed slice is a function on its indexes, which are below the
-- capacity; the code reaches it only at a remainder by the capacity, or at the head.
pub mod Contents
pub mod Back
mod Tests
use babylon_playground_demo.Common.{
  ℕ, zero, suc, ◌+◌, ◌-◌, ◌%◌, Bool, Option, none, some, List, [], ◌∷◌, ◌==◌, leb, ltb,
  if◌then◌else◌,
}

pub record SlidingWindow (A : Type 0) : Type 0 where
  pub buffer : ℕ → Option A
  pub capacity : ℕ
  pub head : ℕ
  pub size : ℕ

module _ {A : Type 0} where
  unfoldable pub new : ℕ → SlidingWindow A
  new capacity = record { buffer = λ idx. none; capacity = capacity; head = 0; size = 0 }

  unfoldable pub is_empty : SlidingWindow A → Bool
  is_empty w = w.size == 0

  abbrev pub write : ℕ → Option A → (ℕ → Option A) → ℕ → Option A
  write idx value buffer j = if j == idx then value else buffer j

  -- The slot of a logical index, counted from the oldest element.
  abbrev pub slot : SlidingWindow A → ℕ → Option A
  slot w index = w.buffer ((w.head + index) % w.capacity)

  -- The value that was in the slot, and the window.
  unfoldable pub push : A → SlidingWindow A → Option A × SlidingWindow A
  push item w =
      let idx = (w.head + w.size) % w.capacity in
      let buffer = write idx (some item) w.buffer in
      (
        w.buffer idx,
        if ltb w.size w.capacity
            then record w { buffer = buffer; size = w.size + 1 }
            else record w { buffer = buffer; head = (w.head + 1) % w.capacity },
      )

  unfoldable pub pop : SlidingWindow A → Option A × SlidingWindow A
  pop w =
      let idx = (w.head + w.size - 1) % w.capacity in
      if w.size == 0
      then (none, w)
      else (w.buffer idx, record w { size = w.size - 1; buffer = write idx none w.buffer })

  -- The method `head`: the newest element.
  unfoldable pub newest : SlidingWindow A → Option A
  newest w = if w.size == 0 then none else w.buffer ((w.head + w.size - 1) % w.capacity)

  unfoldable pub prev : SlidingWindow A → Option A
  prev w = if ltb w.size 2 then none else w.buffer ((w.head + w.size - 2) % w.capacity)

  unfoldable pub tail : SlidingWindow A → Option A
  tail w = if w.size == 0 then none else w.buffer w.head

  unfoldable pub get_rev : SlidingWindow A → ℕ → Option A
  get_rev w reverse_index =
      if leb w.size reverse_index
      then none
      else w.buffer ((w.head + w.size - 1 - reverse_index + w.capacity) % w.capacity)

  -- The slots that `iter` yields from a logical index on.
  unfoldable pub iter_from : SlidingWindow A → ℕ → ℕ → List (Option A)
  iter_from w index zero = []
  iter_from w index (suc left) = slot w index ∷ iter_from w (suc index) left

  unfoldable pub iter : SlidingWindow A → List (Option A)
  unfolding iter_from
  iter w = iter_from w 0 w.size
