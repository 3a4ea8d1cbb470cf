-- ===== src/SmartId.antt =====
-- src/id.rs: a 64-bit order id packs a handle id, an order kind, a sequence number and a unique id.
-- A field is read as `(x & mask) >> offset`, which is `x / 2 ^ offset % 2 ^ width`; fields in bit
-- ranges that do not overlap are joined by `|`, which is then `+`. The clock and the two atomic
-- counters, which wrap at 16 bits, are arguments.
pub mod Fields
mod Tests
use babylon_playground_demo.Common.{ℕ, ◌+◌, ◌-◌, ◌*◌, ◌/◌, ◌%◌, ◌^◌, ◌==◌, if◌then◌else◌}
use babylon_playground_demo.Common.Result.{Result, ok, err, ◌>>=◌}

pub data SmartIdError : Type 0 where
  sequence_number_overflow : SmartIdError

pub data HandleOrderKind : Type 0 where
  no_kind entry_order exit_order stoploss_order special_order standalone_order : HandleOrderKind
  unexpected_order unknown : HandleOrderKind

-- `as u64`.
abbrev pub kind_code : HandleOrderKind → ℕ
kind_code no_kind = 0
kind_code entry_order = 1
kind_code exit_order = 2
kind_code stoploss_order = 3
kind_code special_order = 4
kind_code standalone_order = 5
kind_code unexpected_order = 6
kind_code unknown = 255

-- `HandleOrderKind::from(u8)`.
abbrev pub kind_of_code : ℕ → HandleOrderKind
kind_of_code value =
    if value == 0
    then no_kind
    else if value == 1
    then entry_order
    else if value == 2
    then exit_order
    else if value == 3
    then stoploss_order
    else if value == 4
    then special_order
    else if value == 5
    then standalone_order
    else if value == 6
    then unexpected_order
    else unknown

-- At the time `micros` since the epoch, with the counter at `counter`.
unfoldable pub new_handle_id : ℕ → ℕ → ℕ
new_handle_id micros counter = (micros % 2 ^ 16 + counter) % 2 ^ 16

unfoldable pub new_order_id_with_unique_id : ℕ → HandleOrderKind → ℕ → ℕ
new_order_id_with_unique_id trade_id order_kind unique_order_id =
    trade_id * 2 ^ 48 + kind_code order_kind * 2 ^ 40 + 0 * 2 ^ 32 + unique_order_id

-- At the time `micros` since the epoch, with the counter at `counter`, which is below 2 ^ 16.
unfoldable pub new_order_id : ℕ → HandleOrderKind → ℕ → ℕ → ℕ
new_order_id trade_id order_kind micros counter =
    trade_id * 2 ^ 48
    + kind_code order_kind * 2 ^ 40
    + 0 * 2 ^ 32
    + (micros % 2 ^ 16 * 2 ^ 16 + counter)

pub record Decoded : Type 0 where
  pub handle_id : ℕ
  pub order_kind : HandleOrderKind
  pub sequence_number : ℕ
  pub unique_order_id : ℕ

-- Masked to its bits, an id has its handle id in the upper 16, then 8 for the kind, 8 for the
-- sequence number and 32 for the unique id.
unfoldable pub decode : ℕ → Decoded
decode id = record {
  handle_id = id / 2 ^ 48 % 2 ^ 16;
  order_kind = kind_of_code (id / 2 ^ 40 % 2 ^ 8);
  sequence_number = id / 2 ^ 32 % 2 ^ 8;
  unique_order_id = id % 2 ^ 32;
}

unfoldable pub order_kind : ℕ → HandleOrderKind
unfolding decode
order_kind id = (decode id).order_kind

unfoldable pub sequence_number : ℕ → ℕ
unfolding decode
sequence_number id = (decode id).sequence_number

-- The id with the bits of its sequence number cleared, `id & !(0xFF << 32)`.
cleared_id : ℕ → ℕ
cleared_id id = id - id / 2 ^ 32 % 2 ^ 8 * 2 ^ 32

unfoldable pub new_incremented_id : ℕ → Result SmartIdError ℕ
unfolding decode cleared_id
new_incremented_id id =
    if (decode id).sequence_number == 255
    then err sequence_number_overflow
    else ok (cleared_id id + ((decode id).sequence_number + 1) * 2 ^ 32)

unfoldable pub decremented_id : ℕ → Result SmartIdError ℕ
unfolding decode cleared_id
decremented_id id =
    if (decode id).sequence_number == 0
    then err sequence_number_overflow
    else ok (cleared_id id + ((decode id).sequence_number - 1) * 2 ^ 32)

unfoldable pub original_id : ℕ → ℕ
unfolding decode
original_id id =
    let d = decode id in
    d.handle_id * 2 ^ 48 + kind_code d.order_kind * 2 ^ 40 + 0 * 2 ^ 32 + d.unique_order_id
