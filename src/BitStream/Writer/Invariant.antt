-- ===== src/BitStream/Writer/Invariant.antt =====
-- The invariant of a BitWriter, and what the stream holds: a number of `position` bits, whose
-- bytes are the whole words already stored and then the buffered value.
use parquet_cpp.Common.{ℕ, ◌+◌, ◌*◌, ◌^◌, ◌≤◌, ◌<◌, ◌≡◌, List, ◌++◌, length, take, All, arith}
use parquet_cpp.Common.{length-append, length-take}
use parquet_cpp.Common.Bytes.{
  IsByte, le_value, le_bytes, le_value-append, le_value-le_bytes, length-le_bytes,
}
use parquet_cpp.Common.Bytes.{le_value-lt, All-take}
use parquet_cpp.Common.Pow.{sum_below_two_pow}
use native.Mathlib.Nat.{mod-eq_of_lt, pow-le-pow_right}
use parquet_cpp.BitUtil.{ceil}
use parquet_cpp.BitUtil.Rounding.{ceil-byte}
use parquet_cpp.BitStream.Writer.{Writer, bytes_written}

pub record IsValid (wr : Writer) : Type 0 where
  pub fits : length wr.buffer ≡ wr.max_bytes
  pub bytes : All IsByte wr.buffer
  pub within : wr.byte_offset * 8 + wr.bit_offset ≤ wr.max_bytes * 8
  pub pending : wr.bit_offset < 64
  pub low : wr.buffered_values < 2 ^ wr.bit_offset

-- The number of bits written so far.
abbrev pub position : Writer → ℕ
position wr = 8 * wr.byte_offset + wr.bit_offset

-- The bytes written so far, as a flush leaves them.
abbrev pub contents : Writer → List ℕ
contents wr = take wr.byte_offset wr.buffer ++ le_bytes (ceil wr.bit_offset 8) wr.buffered_values

-- The number whose binary digits are the bits written so far.
abbrev pub value : Writer → ℕ
value wr = le_value (take wr.byte_offset wr.buffer) + wr.buffered_values * 2 ^ (8 * wr.byte_offset)

stored_below : {wr : Writer} → IsValid wr → wr.byte_offset ≤ length wr.buffer
stored_below v = omega arith

pub length-contents : {wr : Writer} → IsValid wr → length (contents wr) ≡ bytes_written wr
unfolding bytes_written
length-contents {wr} v = omega (
  arith,
  length-append (take wr.byte_offset wr.buffer)
      (le_bytes (ceil wr.bit_offset 8) wr.buffered_values),
  length-take wr.byte_offset wr.buffer (stored_below v),
  length-le_bytes (ceil wr.bit_offset 8) wr.buffered_values,
)

pub bytes_written-le : {wr : Writer} → IsValid wr → bytes_written wr ≤ wr.max_bytes
unfolding bytes_written
bytes_written-le {wr} v = omega (arith, v.within, ceil-byte wr.bit_offset)

buffered_fits : {wr : Writer} → IsValid wr → wr.buffered_values < 2 ^ (8 * ceil wr.bit_offset 8)
buffered_fits {wr} v = omega (
  arith,
  v.low,
  pow-le-pow_right {n = 2} (omega arith) {i = wr.bit_offset} {j = 8 * ceil wr.bit_offset 8}
      (ceil-byte wr.bit_offset).0,
)

pub le_value-contents : {wr : Writer} → IsValid wr → le_value (contents wr) ≡ value wr
le_value-contents {wr} v = rw (
  le_value-append (take wr.byte_offset wr.buffer)
      (le_bytes (ceil wr.bit_offset 8) wr.buffered_values),
  le_value-le_bytes (ceil wr.bit_offset 8) wr.buffered_values,
  mod-eq_of_lt (buffered_fits v),
  length-take wr.byte_offset wr.buffer (stored_below v),
)

pub value-lt : {wr : Writer} → IsValid wr → value wr < 2 ^ position wr
value-lt {wr} v =
    sum_below_two_pow (le_value (take wr.byte_offset wr.buffer)) wr.buffered_values
      (8 * wr.byte_offset) wr.bit_offset below v.low
  where
    below : le_value (take wr.byte_offset wr.buffer) < 2 ^ (8 * wr.byte_offset)
    below =
        rw (length-take wr.byte_offset wr.buffer (stored_below v)) at
          (le_value-lt (take wr.byte_offset wr.buffer) (All-take wr.byte_offset wr.buffer v.bytes))
