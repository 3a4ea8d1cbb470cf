-- ===== src/Trade/State.antt =====
-- src/trade.rs: the states of a trade and the table of `set_state`.
use babylon_playground_demo.Common.{ℕ, Bool, Option, none, some, ◌==◌}

pub data TradeCloseReason : Type 0 where
  no_reason normal liquidation cancelled : TradeCloseReason

pub data TradeState : Type 0 where
  not_ready new entering entry_failed exiting exit_failed failed closed : TradeState

pub data TradeType : Type 0 where
  long short : TradeType

-- Which order of the trade is active on the exchange.
pub data TradeStatus : Type 0 where
  idle entry exit stoploss : TradeStatus

abbrev discriminant : TradeState → ℕ
discriminant not_ready = 0
discriminant new = 1
discriminant entering = 2
discriminant entry_failed = 3
discriminant exiting = 4
discriminant exit_failed = 5
discriminant failed = 6
discriminant closed = 7

abbrev status_discriminant : TradeStatus → ℕ
status_discriminant idle = 0
status_discriminant entry = 1
status_discriminant exit = 2
status_discriminant stoploss = 3

-- The derived `==`.
abbrev pub state_eq : TradeState → TradeState → Bool
state_eq a b = discriminant a == discriminant b

abbrev pub status_eq : TradeStatus → TradeStatus → Bool
status_eq a b = status_discriminant a == status_discriminant b

-- The `match` of `set_state` on the old and the new state; `none` is the arm that returns an error.
-- `TradeState` has no variant `Cancelled`: in the patterns `(Entering, Cancelled)` and
-- `(Exiting, Cancelled)` the name is bound to the new state, whichever it is.
unfoldable pub transition : TradeState → TradeState → Option TradeState
transition new entering = some entering
transition entering entry_failed = some entry_failed
transition entering exiting = some exiting
transition entering any_state = some any_state
transition entry_failed exiting = some exiting
transition exiting closed = some closed
transition exiting exit_failed = some exit_failed
transition exiting any_state = some any_state
transition exit_failed failed = some failed
transition not_ready not_ready = some not_ready
transition new new = some new
transition entry_failed entry_failed = some entry_failed
transition exit_failed exit_failed = some exit_failed
transition failed failed = some failed
transition closed closed = some closed
transition _ _ = none
