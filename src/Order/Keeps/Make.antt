-- ===== src/Order/Keeps/Make.antt =====
-- The instructions that an order makes for itself: making them changes nothing of the order.
use babylon_playground_demo.Common.{ℕ, Option, none, some}
use babylon_playground_demo.Common.Result.{Result, ok, err}
use babylon_playground_demo.Float.{OrderedFloat}
use babylon_playground_demo.SmartId.{SmartIdError}
use babylon_playground_demo.Types.{Priority}
use babylon_playground_demo.Instruction.{Instruction, InstructionMetadata}
use babylon_playground_demo.Order.Data.{Order}
use babylon_playground_demo.Order.Monad.{World}
use babylon_playground_demo.Order.Keeps.{Keeps, keeps_rules}
use babylon_playground_demo.Order.Make.{
  managed, managed_or_panic, instruction_stoploss, instruction_regular, instruction_open,
  instruction_cancel, replacement, instruction_cancel_replace_stoploss,
}

module _ {W T : Type 0} ⦃f : OrderedFloat W⦄ (world : World W) (P : Order W T → Type 0) where
  managed-Keeps :
      (priority : Priority) (metadata : InstructionMetadata) (i : Instruction W)
      → Keeps P (managed world priority metadata i)
  unfolding managed
  managed-Keeps priority metadata i = search keeps_rules

  managed_or_panic-Keeps :
      (priority : Priority) (metadata : InstructionMetadata) (i : Option (Instruction W))
      → Keeps P (managed_or_panic world priority metadata i)
  unfolding managed_or_panic
  managed_or_panic-Keeps priority metadata none = search keeps_rules
  managed_or_panic-Keeps priority metadata (some i) = managed-Keeps priority metadata i

  pub instruction_open-Keeps : Keeps P (instruction_open world)
  unfolding instruction_open instruction_stoploss instruction_regular
  instruction_open-Keeps = search (keeps_rules, managed_or_panic-Keeps)

  pub instruction_cancel-Keeps : Keeps P (instruction_cancel world)
  unfolding instruction_cancel
  instruction_cancel-Keeps = search (keeps_rules, managed-Keeps)

  replacement-Keeps :
      (stop : W) (limit : Option W) (o : Order W T) (r : Result SmartIdError ℕ)
      → Keeps P (replacement world stop limit o r)
  unfolding replacement
  replacement-Keeps stop limit o (ok new_id) = search managed-Keeps
  replacement-Keeps stop limit o (err e) = search keeps_rules

  pub instruction_cancel_replace_stoploss-Keeps :
      (stop : W) (limit : Option W) → Keeps P (instruction_cancel_replace_stoploss world stop limit)
  unfolding instruction_cancel_replace_stoploss
  instruction_cancel_replace_stoploss-Keeps stop limit = search (keeps_rules, replacement-Keeps)
