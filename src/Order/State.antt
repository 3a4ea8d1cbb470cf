-- ===== src/Order/State.antt =====
-- src/order.rs: the states of an order and the table of `set_state`.
use babylon_playground_demo.Common.{ℕ, Bool, Option, none, some, ◌==◌}

pub data OrderState : Type 0 where
  idle pending_open open_failed opened partially_filled filled closed : OrderState
  pending_cancel cancelled cancelled_and_pending_replace cancel_failed replace_failed : OrderState
  replaced rejected expired finished : OrderState

abbrev pub discriminant : OrderState → ℕ
discriminant idle = 0
discriminant pending_open = 1
discriminant open_failed = 2
discriminant opened = 3
discriminant partially_filled = 4
discriminant filled = 5
discriminant closed = 6
discriminant pending_cancel = 7
discriminant cancelled = 8
discriminant cancelled_and_pending_replace = 9
discriminant cancel_failed = 10
discriminant replace_failed = 11
discriminant replaced = 12
discriminant rejected = 13
discriminant expired = 14
discriminant finished = 15

-- The derived `==`.
abbrev pub state_eq : OrderState → OrderState → Bool
state_eq a b = discriminant a == discriminant b

-- The `match` of `set_state` on the old and the new state; `none` is the arm that returns an error.
unfoldable pub transition : OrderState → OrderState → Option OrderState
transition idle pending_open = some pending_open
transition idle cancelled = some cancelled
transition pending_cancel idle = some idle
transition pending_open open_failed = some open_failed
transition open_failed pending_open = some pending_open
transition open_failed cancelled = some pending_open
transition pending_open opened = some opened
transition pending_open idle = some idle
transition pending_open cancelled = some cancelled
transition opened partially_filled = some partially_filled
transition opened filled = some filled
transition opened pending_cancel = some pending_cancel
transition opened cancelled = some cancelled
transition pending_cancel cancelled = some cancelled
transition pending_cancel opened = some opened
transition cancelled idle = some idle
transition cancelled finished = some finished
transition pending_cancel cancelled_and_pending_replace = some cancelled_and_pending_replace
transition cancelled cancelled_and_pending_replace = some cancelled_and_pending_replace
transition cancelled_and_pending_replace replaced = some replaced
transition cancelled replace_failed = some replace_failed
transition cancelled replaced = some replaced
transition replaced filled = some filled
transition replace_failed opened = some opened
transition replaced opened = some opened
transition partially_filled partially_filled = some partially_filled
transition partially_filled pending_cancel = some pending_cancel
transition partially_filled cancelled = some cancelled
transition partially_filled filled = some filled
transition filled closed = some closed
transition closed idle = some idle
transition closed finished = some finished
transition _ _ = none
