-- ===== src/Order/Query.antt =====
-- src/order.rs: the tests on an order, and the updates that only concern its pending instruction.
use babylon_playground_demo.Common.{
  Bool, true, false, not, ◌&&◌, ◌||◌, Option, none, some, if◌then◌else◌,
}
use babylon_playground_demo.Float.{OrderedFloat, ◌⊖◌}
use babylon_playground_demo.Appraiser.{is_dust_quantity, normalize_base, normalize_quote}
use babylon_playground_demo.Types.{
  NormalizedOrderType, limit, limit_maker, take_profit_limit, stop_loss, stop_loss_limit,
  priority_lt, Status,
}
use babylon_playground_demo.Instruction.{ManagedInstruction, is_new, kind_eq}
use babylon_playground_demo.Order.State.{
  OrderState, idle, pending_open, open_failed, opened, partially_filled, closed, pending_cancel,
  cancelled, cancelled_and_pending_replace, cancel_failed, replace_failed, replaced, rejected,
  expired, finished, state_eq,
}
use babylon_playground_demo.Order.Data.{Order, OrderMode, paused, normal}

abbrev pub is_paused_mode : OrderMode → Bool
is_paused_mode paused = true
is_paused_mode normal = false

-- The derived `==` of `OrderMode`.
abbrev pub mode_eq : OrderMode → OrderMode → Bool
mode_eq paused m = is_paused_mode m
mode_eq normal m = not (is_paused_mode m)

abbrev pub is_failed_state : OrderState → Bool
is_failed_state open_failed = true
is_failed_state replace_failed = true
is_failed_state cancel_failed = true
is_failed_state _ = false

abbrev limit_type : NormalizedOrderType → Bool
limit_type limit = true
limit_type limit_maker = true
limit_type take_profit_limit = true
limit_type stop_loss_limit = true
limit_type _ = false

abbrev pub stoploss_type : NormalizedOrderType → Bool
stoploss_type stop_loss = true
stoploss_type stop_loss_limit = true
stoploss_type _ = false

abbrev state_status : OrderState → Status
state_status closed = Status.ok
state_status finished = Status.ok
state_status cancelled = Status.cancelled
state_status open_failed = Status.failed
state_status rejected = Status.failed
state_status expired = Status.failed
state_status _ = Status.unknown

-- Whether a new instruction may take the place of the pending one.
abbrev pub may_override : {W : Type 0} → Option (ManagedInstruction W) → ManagedInstruction W → Bool
may_override none new_instruction = true
may_override (some pending) new_instruction =
    is_new pending
    && (kind_eq pending.metadata.kind new_instruction.metadata.kind
        || priority_lt pending.priority new_instruction.priority)

module _ {W T : Type 0} where
  abbrev pub is_paused : Order W T → Bool
  is_paused o = is_paused_mode o.mode

  abbrev pub is_idle : Order W T → Bool
  is_idle o = state_eq o.state idle

  abbrev pub is_pending_open : Order W T → Bool
  is_pending_open o = state_eq o.state pending_open

  abbrev pub is_pending_cancel : Order W T → Bool
  is_pending_cancel o = state_eq o.state pending_cancel

  abbrev pub is_partially_filled : Order W T → Bool
  is_partially_filled o = state_eq o.state partially_filled

  abbrev pub is_finished : Order W T → Bool
  is_finished o = state_eq o.state finished

  unfoldable pub is_active : Order W T → Bool
  is_active o =
      state_eq o.state pending_open
      || state_eq o.state opened
      || state_eq o.state partially_filled
      || state_eq o.state pending_cancel
      || state_eq o.state cancelled
      || state_eq o.state cancelled_and_pending_replace
      || state_eq o.state rejected
      || state_eq o.state expired
      || state_eq o.state replace_failed
      || state_eq o.state replaced
      || state_eq o.state cancel_failed

  unfoldable pub is_pending_any : Order W T → Bool
  is_pending_any o = state_eq o.state pending_open || state_eq o.state pending_cancel

  unfoldable pub is_flagged_any : Order W T → Bool
  is_flagged_any o = o.cancel_and_replace_flag || o.cancel_and_idle_flag || o.termination_flag

  abbrev pub is_pending_cancel_only : Order W T → Bool
  is_pending_cancel_only o =
      state_eq o.state pending_cancel && not o.cancel_and_replace_flag && not o.cancel_and_idle_flag

  unfoldable pub is_finished_successfully : Order W T → Bool
  is_finished_successfully o = state_eq o.state finished && not o.is_finished_by_cancel

  unfoldable pub is_finished_by_cancel : Order W T → Bool
  is_finished_by_cancel o = state_eq o.state finished && o.is_finished_by_cancel

  unfoldable pub is_failed : Order W T → Bool
  is_failed o = is_failed_state o.state

  abbrev pub is_closed : Order W T → Bool
  is_closed o = state_eq o.state closed

  unfoldable pub is_limit_order : Order W T → Bool
  is_limit_order o = limit_type o.order_type

  abbrev pub is_stoploss : Order W T → Bool
  is_stoploss o = stoploss_type o.order_type

  unfoldable pub status : Order W T → Status
  status o = state_status o.state

  unfoldable pub set_pending_instruction : ManagedInstruction W → Order W T → Order W T
  set_pending_instruction new_instruction o =
      if may_override o.pending_instruction new_instruction
      then record o { pending_instruction = some new_instruction }
      else o

  unfoldable pub clear_pending_instruction : Order W T → Order W T
  clear_pending_instruction o = record o { pending_instruction = none }

module _ {W T : Type 0} ⦃f : OrderedFloat W⦄ where
  unfoldable pub has_filled_entry_quantity : Order W T → Bool
  has_filled_entry_quantity o =
      not (f.is_zero o.accumulated_filled_quantity)
      && not (is_dust_quantity o.appraiser o.accumulated_filled_quantity)

  unfoldable pub untraded_quantity_remainder : Order W T → W
  untraded_quantity_remainder o =
      normalize_base o.appraiser (o.initial_quantity ⊖ o.accumulated_filled_quantity)

  unfoldable pub has_untraded_quantity_remainder : Order W T → Bool
  has_untraded_quantity_remainder o =
      not (is_dust_quantity o.appraiser (untraded_quantity_remainder o))

  unfoldable pub update_filled_both_amounts : W → W → Order W T → Order W T
  update_filled_both_amounts qty quote o = record o {
    accumulated_filled_quantity = normalize_base o.appraiser qty;
    accumulated_filled_quote = normalize_quote o.appraiser quote;
  }
