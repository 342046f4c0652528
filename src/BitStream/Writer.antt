-- ===== src/BitStream/Writer.antt =====
-- The class BitWriter of src/parquet/util/bit-stream-utils.h and its inline file. The buffer is the
-- list of its bytes and a pointer into it is an offset. The `int` sums and products are taken where
-- they fit (`IsValid` bounds the buffer), and the DCHECKs, which a release build drops, are
-- hypotheses of the theorems.
pub mod Invariant
pub mod Bits
pub mod Bytes
use parquet_cpp.Common.{ℕ, zero, suc, ◌+◌, ◌-◌, ◌*◌, ◌/◌, ◌%◌, ◌^◌, bit_and, bit_or, bit_xor}
use parquet_cpp.Common.{Bool, true, false, ◌&&◌, Option, none, some, List, [], ◌∷◌, length}
use parquet_cpp.Common.{ltb, leb, ◌==◌, if◌then◌else◌}
use parquet_cpp.Common.Bytes.{le_bytes, store}
use parquet_cpp.BitUtil.{ceil}

pub record Writer : Type 0 where
  pub buffer : List ℕ
  pub max_bytes : ℕ
  pub buffered_values : ℕ
  pub byte_offset : ℕ
  pub bit_offset : ℕ

unfoldable pub clear : Writer → Writer
clear wr = record wr { buffered_values = 0; byte_offset = 0; bit_offset = 0 }

-- The constructor: a buffer with `buffer_len` bytes.
unfoldable pub make : List ℕ → ℕ → Writer
unfolding clear
make buffer buffer_len = clear (record {
  buffer = buffer;
  max_bytes = buffer_len;
  buffered_values = 0;
  byte_offset = 0;
  bit_offset = 0;
})

unfoldable pub bytes_written : Writer → ℕ
bytes_written wr = wr.byte_offset + ceil wr.bit_offset 8

-- `PutValue` behind its guard.
put_fitting : ℕ → ℕ → Writer → Writer
put_fitting v num_bits wr =
    let buffered = bit_or wr.buffered_values (v * 2 ^ wr.bit_offset % 2 ^ 64) in
    let bits = wr.bit_offset + num_bits in
    if leb 64 bits
    then record wr {
      buffer = store wr.buffer wr.byte_offset (le_bytes 8 buffered);
      buffered_values = v / 2 ^ (num_bits - (bits - 64));
      byte_offset = wr.byte_offset + 8;
      bit_offset = bits - 64;
    }
    else record wr { buffered_values = buffered; bit_offset = bits }

unfoldable pub put_value : ℕ → ℕ → Writer → Writer × Bool
unfolding put_fitting
put_value v num_bits wr =
    if ltb (wr.max_bytes * 8) (wr.byte_offset * 8 + wr.bit_offset + num_bits)
    then (wr, false)
    else (put_fitting v num_bits wr, true)

-- One `PutValue` after another, as the loop of RleEncoder::FlushLiteralRun calls it.
unfoldable pub put_values : ℕ → List ℕ → Writer → Writer
put_values w [] wr = wr
put_values w (v ∷ vs) wr = put_values w vs (put_value v w wr).0

unfoldable pub flush : Bool → Writer → Writer
flush align wr =
    let num_bytes = ceil wr.bit_offset 8 in
    let stored = record wr {
      buffer = store wr.buffer wr.byte_offset (le_bytes num_bytes wr.buffered_values);
    } in
    if align
    then record stored {
      buffered_values = 0;
      byte_offset = wr.byte_offset + num_bytes;
      bit_offset = 0;
    }
    else stored

-- The pointer, as an offset; `none` is NULL.
unfoldable pub get_next_byte_ptr : ℕ → Writer → Writer × Option ℕ
unfolding flush
get_next_byte_ptr num_bytes wr =
    let aligned = flush true wr in
    if ltb aligned.max_bytes (aligned.byte_offset + num_bytes) then (aligned, none) else (
      record aligned { byte_offset = aligned.byte_offset + num_bytes },
      some aligned.byte_offset,
    )

-- `memcpy(ptr, &val, num_bytes)` unless the pointer is NULL.
put_at : ℕ → ℕ → Writer × Option ℕ → Writer × Bool
put_at val num_bytes (wr, none) = (wr, false)
put_at val num_bytes (wr, some ptr) =
    (record wr { buffer = store wr.buffer ptr (le_bytes num_bytes val) }, true)

unfoldable pub put_aligned : ℕ → ℕ → Writer → Writer × Bool
unfolding put_at get_next_byte_ptr
put_aligned val num_bytes wr = put_at val num_bytes (get_next_byte_ptr num_bytes wr)

-- `while ((v & 0xFFFFFF80) != 0)` and the statement behind it, with the result so far. Four rounds
-- take the 32 bits of `v` below 2 ^ 7.
unfoldable pub put_vlq_loop : ℕ → ℕ → Bool → Writer → Writer × Bool
put_vlq_loop zero v result wr =
    let (next, done) = put_aligned (bit_and v 0x7F) 1 wr in (next, result && done)
put_vlq_loop (suc fuel) v result wr =
    let (next, done) = put_aligned (bit_or (bit_and v 0x7F) 0x80) 1 wr in
    let more = put_vlq_loop fuel (v / 2 ^ 7) (result && done) next in
    let (end, last) = put_aligned (bit_and v 0x7F) 1 wr in
    if bit_and v 0xFFFFFF80 == 0 then (end, result && last) else more

unfoldable pub put_vlq_int : ℕ → Writer → Writer × Bool
unfolding put_vlq_loop
put_vlq_int v wr = put_vlq_loop 4 v true wr

-- `(v << 1) ^ (v >> 31)` on the bit pattern of an `int32_t`: the arithmetic shift by 31 gives 32
-- copies of the sign bit.
unfoldable pub zigzag : ℕ → ℕ
zigzag v = bit_xor (v * 2 % 2 ^ 32) (if leb (2 ^ 31) v then 2 ^ 32 - 1 else 0)

unfoldable pub put_zigzag_vlq_int : ℕ → Writer → Writer × Bool
put_zigzag_vlq_int v wr = put_vlq_int (zigzag v) wr
