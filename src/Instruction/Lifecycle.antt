-- ===== src/Instruction/Lifecycle.antt =====
-- src/instruction.rs: the states that an instruction passes through.
use babylon_playground_demo.Common.{
  Option, ℕ, ◌+◌, ◌-◌, ◌%◌, ◌^◌, ◌≡◌, refl, ◌⊎◌, Bool, true, false, none, some, List, [], ◌∷◌,
  arith, is_some,
}
use babylon_playground_demo.Common.Result.{Result, ok, err}
use babylon_playground_demo.Types.{Ustr, Priority}
use babylon_playground_demo.Instruction.{
  Instruction, InstructionMetadata, InstructionError, ManagedInstruction, InstructionState, new,
  running, failed, executed, set_state, DateTime, new_instruction,
}

-- The diagram of an instruction's states.
infix 40 ◌⟶◌
pub data ◌⟶◌ : InstructionState → InstructionState → Type 0 where
  start : new ⟶ running
  abort : new ⟶ failed
  fail : running ⟶ failed
  finish : running ⟶ executed

ruleset edges = (start, abort, fail, finish)

abbrev pub is_ok : {W : Type 0} → Result (InstructionError W) (ManagedInstruction W) → Bool
is_ok (ok i) = true
is_ok (err e) = false

-- The loop of a caller that asks for one state after another, each at its time, and keeps the
-- instruction where it is refused.
abbrev keep :
    {W : Type 0}
    → ManagedInstruction W
    → Result (InstructionError W) (ManagedInstruction W)
    → ManagedInstruction W
keep i (ok j) = j
keep i (err e) = i

unfoldable pub request :
    {W : Type 0} → List (DateTime × InstructionState) → ManagedInstruction W → ManagedInstruction W
request [] i = i
request ((now, s) ∷ rest) i = request rest (keep i (set_state now s i))

abbrev is_executed : InstructionState → Bool
is_executed executed = true
is_executed _ = false

module _ {W : Type 0} where
  -- A successful `set_state` reaches the state asked for, along an edge of the diagram or by
  -- leaving the instruction as it is.
  pub set_state-⟶ :
      (now : DateTime) (s : InstructionState) (i j : ManagedInstruction W)
      → set_state now s i ≡ ok j
      → (j.state ≡ s) × ((j ≡ i) ⊎ (i.state ⟶ s))
  unfolding set_state
  set_state-⟶ now s i j h = grind (arith, edges)

  -- Every edge of the diagram may be taken.
  set_state_follows :
      (now : DateTime) {s t : InstructionState} (i : ManagedInstruction W)
      → s ⟶ t
      → i.state ≡ s
      → is_ok (set_state now t i) ≡ true
  unfolding set_state
  set_state_follows now i start e = ground arith
  set_state_follows now i abort e = ground arith
  set_state_follows now i fail e = ground arith
  set_state_follows now i finish e = ground arith

  -- `failed` and `executed` are final: no requests change such an instruction.
  pub request_final :
      (rs : List (DateTime × InstructionState)) (i : ManagedInstruction W)
      → (i.state ≡ failed) ⊎ (i.state ≡ executed)
      → request rs i ≡ i
  unfolding request set_state
  request_final [] i h = refl
  request_final ((now, s) ∷ rest) i h =
      let same : keep i (set_state now s i) ≡ i = ground arith in rw same (request_final rest i h)

  -- The times of an instruction: it has a time of execution just when it is executed, and its
  -- execution time is then what had passed since it was made, as a u64.
  abbrev lasted : ManagedInstruction W → Option DateTime → Option ℕ
  lasted i none = none
  lasted i (some t) = some ((t + 2 ^ 64 - i.initialized_at) % 2 ^ 64)

  pub record IsTimed (i : ManagedInstruction W) : Type 0 where
    pub timed : is_some i.executed_at ≡ is_executed i.state
    pub span : i.execution_time ≡ lasted i i.executed_at

  set_state-IsTimed :
      (now : DateTime) (s : InstructionState) (i : ManagedInstruction W)
      → IsTimed i
      → IsTimed (keep i (set_state now s i))
  unfolding set_state
  set_state-IsTimed now s i v = record { timed = ground arith; span = ground arith }

  request-IsTimed :
      (rs : List (DateTime × InstructionState)) (i : ManagedInstruction W)
      → IsTimed i
      → IsTimed (request rs i)
  unfolding request
  request-IsTimed [] i v = v
  request-IsTimed ((now, s) ∷ rest) i v = request-IsTimed rest _ (set_state-IsTimed now s i v)

  -- Whatever states are asked for of a new instruction, it has a time of execution just when it
  -- was executed, and its execution time is then what has passed since it was made, as a u64.
  pub new_instruction-IsTimed :
      (rs : List (DateTime × InstructionState)) (id : ℕ) (now : DateTime) (symbol : Ustr)
      (priority : Priority) (metadata : InstructionMetadata) (instruction : Instruction W)
      → IsTimed (request rs (new_instruction id now symbol priority metadata instruction none none))
  unfolding new_instruction
  new_instruction-IsTimed rs id now symbol priority metadata instruction =
      request-IsTimed rs _ (record { timed = refl; span = refl })
