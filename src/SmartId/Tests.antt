-- ===== src/SmartId/Tests.antt =====
-- Ids at concrete values.
use babylon_playground_demo.Common.{ℕ, ◌≡◌, arith}
use babylon_playground_demo.Common.Result.{ok, err}
use babylon_playground_demo.SmartId.{
  Decoded, exit_order, stoploss_order, sequence_number_overflow, new_order_id_with_unique_id,
  decode, sequence_number, original_id,
}
use babylon_playground_demo.SmartId.Fields.{
  decode-new_order_id_with_unique_id, increments, new_order_id-increments,
}

abbrev decoded : Decoded
decoded = record {
  handle_id = 12345;
  order_kind = exit_order;
  sequence_number = 0;
  unique_order_id = 77;
}

decode-new_order_id_with_unique_id_example :
    decode (new_order_id_with_unique_id 12345 exit_order 77) ≡ decoded
decode-new_order_id_with_unique_id_example =
    decode-new_order_id_with_unique_id 12345 exit_order 77 (omega arith) (omega arith)

abbrev stop_id : ℕ
stop_id = 0x3039_0305_0000_004d

new_order_id-increments_example :
    (j : ℕ) × (increments 3 (new_order_id_with_unique_id 12345 stoploss_order 77) ≡ ok j)
    × (sequence_number j ≡ 3)
    × (original_id j ≡ new_order_id_with_unique_id 12345 stoploss_order 77)
    × (increments 256 (new_order_id_with_unique_id 12345 stoploss_order 77)
        ≡ err sequence_number_overflow)
new_order_id-increments_example =
    new_order_id-increments 12345 stoploss_order 77 3 (omega arith) (omega arith) (omega arith)
