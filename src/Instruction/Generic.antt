-- ===== src/Instruction/Generic.antt =====
-- src/instruction.rs: `to_generic` against `order_type`.
use babylon_playground_demo.Common.{◌≡◌, some, arith}
use babylon_playground_demo.Instruction.{Instruction, order_type, to_generic}

-- The generic form of an instruction has its order type, and is its own generic form.
pub to_generic_stable :
    {W : Type 0} (i j : Instruction W)
    → to_generic i ≡ some j
    → (order_type j ≡ order_type i) × (to_generic j ≡ some j)
unfolding to_generic order_type
to_generic_stable i j h = ground arith
