-- ===== src/Instruction/Tests.antt =====
-- Instructions at concrete values. Prices are natural numbers here.
use babylon_playground_demo.Common.{ℕ, ◌≡◌, refl, inl, true, false, none, some, [], ◌∷◌}
use babylon_playground_demo.Types.{limit_maker, normal}
use babylon_playground_demo.Instruction.{
  Instruction, ManagedInstruction, InstructionMetadata, InstructionKind, InstructionState,
  limit_buy, set_state, new_instruction, create_order,
}
use babylon_playground_demo.Instruction.Lifecycle.{request, request_final}
use babylon_playground_demo.Types.{buy}

abbrev purchase : Instruction ℕ
purchase = limit_buy "BTCUSDT" 7 limit_maker 3 100 true

abbrev metadata : InstructionMetadata
metadata = record {
  is_special = false;
  kind = InstructionKind.create_order;
  trade_id = some 1;
  local_order_id = some 7;
  local_stop_order_id = none;
  process_id = none;
}

managed : ManagedInstruction ℕ
managed = new_instruction 9 1000 "BTCUSDT" normal metadata purchase none none

abbrev generic_purchase : Instruction ℕ
generic_purchase = create_order "BTCUSDT" (some 7) buy limit_maker 3 none none (some 100) none none

abbrev begun : ManagedInstruction ℕ
unfolding managed new_instruction
begun = record managed { state = InstructionState.running }

abbrev gave_up : ManagedInstruction ℕ
gave_up = record managed { state = InstructionState.failed }

request_final_example : request ((5, InstructionState.running) ∷ []) gave_up ≡ gave_up
request_final_example = request_final ((5, InstructionState.running) ∷ []) gave_up (inl refl)

executed_in_500 :
    (request
      ((1100, InstructionState.running) ∷ (1500, InstructionState.executed) ∷ [])
      managed).execution_time
    ≡ some 500
unfolding request set_state managed new_instruction
executed_in_500 = refl
