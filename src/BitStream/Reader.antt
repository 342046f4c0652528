-- ===== src/BitStream/Reader.antt =====
-- The class BitReader of src/parquet/util/bit-stream-utils.h and its inline file. `memcpy` into the
-- buffered word keeps the bytes that it does not overwrite; what the constructor leaves in them is
-- a parameter. The type `T` of the values is one that holds `num_bits` bits; `T` of four bytes is
-- read by `unpack32` directly.
pub mod Invariant
pub mod Value
pub mod Loops
pub mod Middle
pub mod Batch
pub mod Bytes
use parquet_cpp.Common.{ℕ, zero, suc, ◌+◌, ◌-◌, ◌*◌, ◌/◌, ◌%◌, ◌^◌, bit_and, bit_or, bit_xor, min}
use parquet_cpp.Common.{Bool, true, false, ◌||◌, Option, none, some, List, [], ◌∷◌, ◌++◌}
use parquet_cpp.Common.{length, take, drop, ltb, leb, ◌==◌, if◌then◌else◌}
use parquet_cpp.Common.Bytes.{le_value, load_over}
use parquet_cpp.BitUtil.{ceil, trailing_bits}
use parquet_cpp.BitPacking.Dispatch.{unpack32}

pub record Reader : Type 0 where
  pub buffer : List ℕ
  pub max_bytes : ℕ
  pub buffered_values : ℕ
  pub byte_offset : ℕ
  pub bit_offset : ℕ

-- The constructor and `Reset`: `old` is the word that `buffered_values_` held.
unfoldable pub reset : ℕ → List ℕ → ℕ → Reader
reset old buffer buffer_len = record {
  buffer = buffer;
  max_bytes = buffer_len;
  buffered_values = load_over old (take (min 8 buffer_len) buffer);
  byte_offset = 0;
  bit_offset = 0;
}

-- `memcpy(&buffered_values, buffer + byte_offset, 8 or bytes_remaining)`.
unfoldable pub refill : Reader → Reader
refill r =
    let bytes_remaining = r.max_bytes - r.byte_offset in
    record r {
      buffered_values = load_over r.buffered_values (
          take (if leb 8 bytes_remaining then 8 else bytes_remaining)
            (drop r.byte_offset r.buffer));
    }

-- The free function `GetValue_`: the value, and the variables that it updates.
unfoldable pub get_value_step : ℕ → Reader → ℕ × Reader
unfolding refill
get_value_step num_bits r =
    let v = trailing_bits r.buffered_values (r.bit_offset + num_bits) / 2 ^ r.bit_offset in
    let bits = r.bit_offset + num_bits in
    if leb 64 bits
    then (let next =
          refill (record r { byte_offset = r.byte_offset + 8; bit_offset = bits - 64 }) in
        (
          bit_or v (
              trailing_bits next.buffered_values next.bit_offset
              * 2 ^ (num_bits - next.bit_offset)
              % 2 ^ 64),
          next,
        ))
    else (v, record r { bit_offset = bits })

-- `for (; i < batch_size && bit_offset != 0; ++i)`, with the rounds left.
unfoldable pub lead_loop : ℕ → ℕ → Reader → List ℕ × Reader
lead_loop zero num_bits r = ([], r)
lead_loop (suc left) num_bits r =
    let (v, next) = get_value_step num_bits r in
    let (vs, end) = lead_loop left num_bits next in
    if r.bit_offset == 0 then ([], r) else (v ∷ vs, end)

-- `for (; i < batch_size; ++i)`, with the rounds left.
unfoldable pub value_loop : ℕ → ℕ → Reader → List ℕ × Reader
value_loop zero num_bits r = ([], r)
value_loop (suc left) num_bits r =
    let (v, next) = get_value_step num_bits r in
    let (vs, end) = value_loop left num_bits next in (v ∷ vs, end)

-- One call of `unpack32` at the current byte, for at most `count` values.
unfoldable pub unpack_at : ℕ → ℕ → Reader → Option (List ℕ × Reader)
unpack_at count num_bits r = elim (unpack32 (drop r.byte_offset r.buffer) count num_bits) [
  | none ↦ none
  | some vs ↦ some (vs, record r { byte_offset = r.byte_offset + length vs * num_bits / 8 })
]

-- The branch for a `T` of another size: `while (i < batch_size)` over a buffer of 1024 values. Each
-- round takes 32 values at least, or stops; `left` values are to come.
unfoldable pub unpack_chunks : ℕ → ℕ → ℕ → Reader → Option (List ℕ × Reader)
unpack_chunks zero left num_bits r = some ([], r)
unpack_chunks (suc fuel) left num_bits r = elim (ltb 0 left) [
  | false ↦ some ([], r)
  | true ↦ elim (unpack_at (min 1024 left) num_bits r) [
    | none ↦ none
    | some (vs, next) ↦ elim (length vs == 0) [
      | true ↦ some ([], r)
      | false ↦ elim (unpack_chunks fuel (left - length vs) num_bits next) [
        | none ↦ none
        | some (ws, end) ↦ some (vs ++ ws, end)
      ]
    ]
  ]
]

-- The middle of `GetBatch`: `if (sizeof(T) == 4)` and its `else`.
unfoldable pub unpack_middle : Bool → ℕ → ℕ → Reader → Option (List ℕ × Reader)
unpack_middle four_bytes left num_bits r =
    if four_bytes then unpack_at left num_bits r else unpack_chunks left left num_bits r

-- An `int` product, as the `uint64_t` that it is converted to.
unfoldable pub int_product : ℕ → ℕ → ℕ
int_product a b =
    let bits = a * b % 2 ^ 32 in if leb (2 ^ 31) bits then bits + (2 ^ 64 - 2 ^ 32) else bits

-- `if (remaining_bits < needed_bits) batch_size = remaining_bits / num_bits;` in `uint64_t`.
unfoldable pub clamp_batch : ℕ → ℕ → Reader → ℕ
unfolding int_product
clamp_batch num_bits batch_size r =
    let needed_bits = int_product num_bits batch_size in
    let remaining_bits = (r.max_bytes * 8 + 2 ^ 64 - (r.byte_offset * 8 + r.bit_offset)) % 2 ^ 64 in
    if ltb remaining_bits needed_bits then remaining_bits / num_bits else batch_size

-- `GetBatch` behind the first lines, which limit the batch.
unfoldable pub read_batch : Bool → ℕ → ℕ → Reader → Option (List ℕ × Reader)
read_batch four_bytes num_bits batch_size r =
    let (first, led) = lead_loop batch_size num_bits r in
    elim (unpack_middle four_bytes (batch_size - length first) num_bits led) [
      | none ↦ none
      | some (second, unpacked) ↦
          let (third, end) =
            value_loop (batch_size - length first - length second) num_bits (refill unpacked) in
          some (first ++ (second ++ third), end)
    ]

-- The values stored into `v`; their number is the result. `none` is the error of `unpack32`.
unfoldable pub get_batch : Bool → ℕ → ℕ → Reader → Option (List ℕ × Reader)
get_batch four_bytes num_bits batch_size r =
    read_batch four_bytes num_bits (clamp_batch num_bits batch_size r) r

-- `GetValue`: a batch of one; `none` where the C++ returns false.
unfoldable pub get_value : Bool → ℕ → Reader → Option (ℕ × Reader)
get_value four_bytes num_bits r = elim (get_batch four_bytes num_bits 1 r) [
  | some (v ∷ [], next) ↦ some (v, next)
  | _ ↦ none
]

-- The value read; `none` where the C++ returns false.
unfoldable pub get_aligned : ℕ → Reader → Option (ℕ × Reader)
unfolding refill
get_aligned num_bytes r =
    let bytes_read = ceil r.bit_offset 8 in
    if ltb r.max_bytes (r.byte_offset + bytes_read + num_bytes)
    then none
    else some (
      le_value (take num_bytes (drop (r.byte_offset + bytes_read) r.buffer)),
      refill (record r { byte_offset = r.byte_offset + bytes_read + num_bytes; bit_offset = 0 }),
    )

-- `do … while ((byte & 0x80) != 0)`; `v` is a bit pattern of 32 bits. Fuel: a byte is read in each
-- round. `none` is false; what the C++ leaves in `*v` then is dropped, the reader is kept.
unfoldable pub get_vlq_loop : ℕ → ℕ → ℕ → Reader → Option ℕ × Reader
get_vlq_loop zero v shift r = (none, r)
get_vlq_loop (suc fuel) v shift r = elim (get_aligned 1 r) [
  | none ↦ (none, r)
  | some (byte, next) ↦
      let v' = bit_or v (bit_and byte 0x7F * 2 ^ shift % 2 ^ 32) in
      elim (bit_and byte 0x80 == 0) [
        | true ↦ (some v', next)
        | false ↦ get_vlq_loop fuel v' (shift + 7) next
      ]
]

unfoldable pub get_vlq_int : Reader → Option ℕ × Reader
get_vlq_int r = get_vlq_loop (suc r.max_bytes) 0 0 r

-- `(u >> 1) ^ -(u & 1)` on 32 bits.
unfoldable pub unzigzag : ℕ → ℕ
unzigzag u = bit_xor (u / 2) ((2 ^ 32 - bit_and u 1) % 2 ^ 32)

unfoldable pub get_zigzag_vlq_int : Reader → Option ℕ × Reader
get_zigzag_vlq_int r =
    let (u, next) = get_vlq_int r in (elim u [ none ↦ none | some u' ↦ some (unzigzag u') ], next)

unfoldable pub bytes_left : Reader → ℕ
bytes_left r = r.max_bytes - (r.byte_offset + ceil r.bit_offset 8)
