-- ===== src/Trade/Query.antt =====
-- src/trade.rs: the tests on a trade, and the orders and instructions that it finds.
use babylon_playground_demo.Common.{ℕ, Bool, false, ◌||◌, ◌==◌, Option, none, some, if◌then◌else◌}
use babylon_playground_demo.SmartId.{
  HandleOrderKind, entry_order, exit_order, stoploss_order, order_kind,
}
use babylon_playground_demo.Instruction.{OrderId, ManagedInstruction}
use babylon_playground_demo.Order.Data.{Order}
use babylon_playground_demo.Order.Query.{is_active, is_finished}
use babylon_playground_demo.Trade.State.{
  TradeStatus, new, entering, exiting, closed, failed, idle, entry, exit, stoploss, state_eq,
  status_eq,
}
use babylon_playground_demo.Trade.Data.{Trade, Slot, entry_slot, exit_slot, stoploss_slot, order_at}

abbrev pub status_of_kind : HandleOrderKind → Option TradeStatus
status_of_kind entry_order = some entry
status_of_kind exit_order = some exit
status_of_kind stoploss_order = some stoploss
status_of_kind _ = none

abbrev pub slot_of_kind : HandleOrderKind → Option Slot
slot_of_kind entry_order = some entry_slot
slot_of_kind exit_order = some exit_slot
slot_of_kind stoploss_order = some stoploss_slot
slot_of_kind _ = none

-- `self.exchange_order_id == Some(id)`.
abbrev is_id : Option OrderId → ℕ → Bool
is_id none id = false
is_id (some own) id = own == id

abbrev special_or :
    {W : Type 0}
    → Option (ManagedInstruction W)
    → Option (ManagedInstruction W)
    → Option (ManagedInstruction W)
special_or (some i) j = some i
special_or none j = j

module _ {W T : Type 0} where
  abbrev pub is_new : Trade W T → Bool
  is_new t = state_eq t.state new

  abbrev pub is_idle : Trade W T → Bool
  is_idle t = status_eq t.status idle

  abbrev pub is_entering : Trade W T → Bool
  is_entering t = state_eq t.state entering

  abbrev pub is_exiting : Trade W T → Bool
  is_exiting t = state_eq t.state exiting

  abbrev pub is_closed : Trade W T → Bool
  is_closed t = state_eq t.state closed

  abbrev pub is_failed : Trade W T → Bool
  is_failed t = state_eq t.state failed

  abbrev pub has_active_orders : Trade W T → Bool
  has_active_orders t = is_active t.entry || is_active t.exit || is_active t.stoploss

  abbrev pub has_local_order : OrderId → Trade W T → Bool
  has_local_order order_id t =
      t.entry.local_order_id == order_id
      || t.exit.local_order_id == order_id
      || t.stoploss.local_order_id == order_id

  unfoldable pub has_remote_order : ℕ → Trade W T → Bool
  has_remote_order exchange_order_id t =
      is_id t.entry.exchange_order_id exchange_order_id
      || is_id t.exit.exchange_order_id exchange_order_id
      || is_id t.stoploss.exchange_order_id exchange_order_id

  -- Which order `get_active_order` returns.
  abbrev pub active_slot : Trade W T → Option Slot
  active_slot t =
      if is_active t.entry
      then some entry_slot
      else if is_active t.exit
      then some exit_slot
      else if is_active t.stoploss
      then some stoploss_slot
      else none

  -- Which order `get_local_order` and `get_local_order_mut` return.
  abbrev pub local_slot : OrderId → Trade W T → Option Slot
  local_slot order_id t =
      if t.entry.local_order_id == order_id
      then some entry_slot
      else if t.exit.local_order_id == order_id
      then some exit_slot
      else if t.stoploss.local_order_id == order_id
      then some stoploss_slot
      else none

  abbrev order_in : Option Slot → Trade W T → Option (Order W T)
  order_in none t = none
  order_in (some slot) t = some (order_at slot t)

  unfoldable pub get_active_order : Trade W T → Option (Order W T)
  get_active_order t = order_in (active_slot t) t

  unfoldable pub get_local_order : OrderId → Trade W T → Option (Order W T)
  get_local_order order_id t = order_in (local_slot order_id t) t

  abbrev pub pending_in : Option Slot → Trade W T → Option (ManagedInstruction W)
  pending_in none t = none
  pending_in (some slot) t = (order_at slot t).pending_instruction

  abbrev pub pending_of : Option OrderId → Trade W T → Option (ManagedInstruction W)
  pending_of none t = none
  pending_of (some order_id) t = pending_in (slot_of_kind (order_kind order_id)) t

  unfoldable pub get_pending_instruction : Trade W T → Option (ManagedInstruction W)
  get_pending_instruction t =
      special_or t.special_pending_instruction (pending_of t.pending_instruction_order_id t)

  unfoldable pub is_oco_finished : Trade W T → Bool
  is_oco_finished t = if is_finished t.exit then is_finished t.stoploss else false
