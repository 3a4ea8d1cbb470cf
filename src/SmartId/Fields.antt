-- ===== src/SmartId/Fields.antt =====
-- src/id.rs: what goes into an id comes out of it.
use babylon_playground_demo.Common.{zero, suc, ℕ, ◌+◌, ◌*◌, ◌/◌, ◌%◌, ◌^◌, ◌<◌, ◌≡◌, refl, arith}
use babylon_playground_demo.SmartId.{
  sequence_number_overflow, err, ◌>>=◌, original_id, ok, decremented_id,
  new_order_id_with_unique_id, Result, new_incremented_id, new_order_id, decode, Decoded,
  sequence_number, SmartIdError, HandleOrderKind, no_kind, kind_code, kind_of_code,
}

kind_code_lt : (k : HandleOrderKind) → kind_code k < 256
kind_code_lt k = ground arith

kind_of_code-kind_code : (k : HandleOrderKind) → kind_of_code (kind_code k) ≡ k
kind_of_code-kind_code no_kind = refl
kind_of_code-kind_code _ = refl

abbrev packed : ℕ → ℕ → ℕ → ℕ
packed h k u = h * 2 ^ 48 + k * 2 ^ 40 + 0 * 2 ^ 32 + u

packed_fields :
    (h k u : ℕ)
    → h < 65536
    → k < 256
    → u < 4294967296
    → (packed h k u / 2 ^ 48 % 2 ^ 16 ≡ h)
      × (packed h k u / 2 ^ 40 % 2 ^ 8 ≡ k)
      × (packed h k u / 2 ^ 32 % 2 ^ 8 ≡ 0)
      × (packed h k u % 2 ^ 32 ≡ u)
packed_fields h k u p q r = omega arith

abbrev parts : ℕ → HandleOrderKind → ℕ → ℕ → Decoded
parts h k n u = record { handle_id = h; order_kind = k; sequence_number = n; unique_order_id = u }

-- An id that is made of a 16-bit handle id, a kind and a 32-bit unique id decodes to these parts,
-- with the sequence number 0.
pub decode-new_order_id_with_unique_id :
    (h : ℕ) (k : HandleOrderKind) (u : ℕ)
    → h < 65536
    → u < 4294967296
    → decode (new_order_id_with_unique_id h k u) ≡ parts h k 0 u
unfolding decode new_order_id_with_unique_id
decode-new_order_id_with_unique_id h k u p r =
    let fields = packed_fields h (kind_code k) u p (kind_code_lt k) r in
    rw (fields.0, fields.1, fields.2, fields.3, kind_of_code-kind_code k)

-- An id that is made of a timestamp and a 16-bit counter decodes to its handle id and kind, with the
-- sequence number 0 and the two halves in the unique id; the handle id has 16 bits.
pub decode-new_order_id :
    (h : ℕ) (k : HandleOrderKind) (micros counter : ℕ)
    → h < 65536
    → counter < 65536
    → decode (new_order_id h k micros counter) ≡ parts h k 0 (micros % 65536 * 65536 + counter)
unfolding new_order_id new_order_id_with_unique_id
decode-new_order_id h k micros counter p r =
    decode-new_order_id_with_unique_id h k (micros % 65536 * 65536 + counter) p (omega arith)

incremented_fields :
    (id : ℕ)
    → id / 2 ^ 32 % 2 ^ 8 < 255
    → let j = id + 2 ^ 32 in
      (j / 2 ^ 48 % 2 ^ 16 ≡ id / 2 ^ 48 % 2 ^ 16)
      × (j / 2 ^ 40 % 2 ^ 8 ≡ id / 2 ^ 40 % 2 ^ 8)
      × (j / 2 ^ 32 % 2 ^ 8 ≡ id / 2 ^ 32 % 2 ^ 8 + 1)
      × (j % 2 ^ 32 ≡ id % 2 ^ 32)
incremented_fields id h = omega arith

new_incremented_id-eq_add :
    (id : ℕ) → id / 2 ^ 32 % 2 ^ 8 < 255 → new_incremented_id id ≡ ok (id + 2 ^ 32)
unfolding new_incremented_id
new_incremented_id-eq_add id h = ground arith

new_incremented_id_bound :
    (id j : ℕ) → new_incremented_id id ≡ ok j → (id / 2 ^ 32 % 2 ^ 8 < 255) × (j ≡ id + 2 ^ 32)
unfolding new_incremented_id
new_incremented_id_bound id j h = ground arith

incremented_decode :
    (id : ℕ)
    → id / 2 ^ 32 % 2 ^ 8 < 255
    → decode (id + 2 ^ 32) ≡ record (decode id) { sequence_number = sequence_number id + 1 }
unfolding decode sequence_number
incremented_decode id h = let same = incremented_fields id h in rw (same.0, same.1, same.2, same.3)

decremented_id-incremented :
    (id : ℕ) → id / 2 ^ 32 % 2 ^ 8 < 255 → decremented_id (id + 2 ^ 32) ≡ ok id
unfolding decremented_id
decremented_id-incremented id h = ground (arith, incremented_fields id h)

original_id-incremented :
    (id : ℕ) → id / 2 ^ 32 % 2 ^ 8 < 255 → original_id (id + 2 ^ 32) ≡ original_id id
unfolding original_id
original_id-incremented id h = let same = incremented_fields id h in rw (same.0, same.1, same.3)

-- An increment that succeeds adds one to the sequence number and changes no other part; the
-- decrement takes it back, and the original id stays the same.
pub new_incremented_id_lem :
    (id j : ℕ)
    → new_incremented_id id ≡ ok j
    → (decode j ≡ record (decode id) { sequence_number = sequence_number id + 1 })
      × (decremented_id j ≡ ok id)
      × (original_id j ≡ original_id id)
new_incremented_id_lem id j h =
    let (small, e) = new_incremented_id_bound id j h in
    rw e (
      incremented_decode id small,
      decremented_id-incremented id small,
      original_id-incremented id small,
    )

-- `n` increments in a row.
unfoldable pub increments : ℕ → ℕ → Result SmartIdError ℕ
increments zero id = ok id
increments (suc n) id = new_incremented_id id >>= increments n

increments-eq_add :
    (n id : ℕ) → id / 2 ^ 32 % 2 ^ 8 + n < 256 → increments n id ≡ ok (id + n * 2 ^ 32)
unfolding increments
increments-eq_add zero id h = ground arith
increments-eq_add (suc n) id h =
    rw (new_incremented_id-eq_add id (omega arith))
      (ground (arith, increments-eq_add n (id + 2 ^ 32) (omega arith)))

full_overflow :
    (id : ℕ) → id / 2 ^ 32 % 2 ^ 8 ≡ 255 → new_incremented_id id ≡ err sequence_number_overflow
unfolding new_incremented_id
full_overflow id h = ground arith

increments_overflow :
    (n id : ℕ) → id / 2 ^ 32 % 2 ^ 8 + n ≡ 256 → increments n id ≡ err sequence_number_overflow
unfolding increments
increments_overflow zero id h = absurd (omega arith)
increments_overflow (suc zero) id h = rw (full_overflow id (omega arith))
increments_overflow (suc (suc n)) id h =
    rw (new_incremented_id-eq_add id (omega arith))
      (increments_overflow (suc n) (id + 2 ^ 32) (omega arith))

counted_fields :
    (h k n u : ℕ)
    → h < 65536
    → k < 256
    → n < 256
    → u < 4294967296
    → let j = packed h k u + n * 2 ^ 32 in
      (j / 2 ^ 48 % 2 ^ 16 ≡ h)
      × (j / 2 ^ 40 % 2 ^ 8 ≡ k)
      × (j / 2 ^ 32 % 2 ^ 8 ≡ n)
      × (j % 2 ^ 32 ≡ u)
counted_fields h k n u p q r t = omega arith

-- A new id can be incremented 255 times and no more: after `n` increments its sequence number is
-- `n` and its original id is the new id again, and the 256th increment is refused.
pub new_order_id-increments :
    (h : ℕ) (k : HandleOrderKind) (u n : ℕ)
    → h < 65536
    → u < 4294967296
    → n < 256
    → let id = new_order_id_with_unique_id h k u in
      (j : ℕ) × (increments n id ≡ ok j)
      × (sequence_number j ≡ n)
      × (original_id j ≡ id)
      × (increments 256 id ≡ err sequence_number_overflow)
unfolding new_order_id_with_unique_id sequence_number original_id
new_order_id-increments h k u n p q r =
    let id : ℕ = packed h (kind_code k) u in
    let start = packed_fields h (kind_code k) u p (kind_code_lt k) q in
    let now = counted_fields h (kind_code k) n u p (kind_code_lt k) r q in
    (
      id + n * 2 ^ 32,
      increments-eq_add n id (omega arith),
      now.2,
      rw (now.0, now.1, now.3, kind_of_code-kind_code k),
      increments_overflow 256 id (omega arith),
    )
