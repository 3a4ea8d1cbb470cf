-- ===== src/Trader/Handed.antt =====
-- What `compute` of the trader hands over of the pending instructions of an order or a trade.
use babylon_playground_demo.Common.{◌≡◌, Option, [], arith}
use babylon_playground_demo.Common.Result.{ok}
use babylon_playground_demo.Instruction.{DateTime, ManagedInstruction, is_new, set_state}
use babylon_playground_demo.Trader.Compute.{Handed, start, hand_over}

module _ {W : Type 0} where
  -- The instructions of an order or a trade that are handed over once are not handed over again: the next
  -- time, whenever it is, nothing is picked up and both stay as they are.
  pub hand_over-once :
      (now later : DateTime) (special regular : Option (ManagedInstruction W)) (h : Handed W)
      → hand_over now special regular ≡ ok h
      → hand_over later h.special h.regular ≡ ok (record h { picked = [] })
  unfolding hand_over start is_new set_state
  hand_over-once now later special regular h e = ground arith
