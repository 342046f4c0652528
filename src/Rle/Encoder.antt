-- ===== src/Rle/Encoder.antt =====
-- The class RleEncoder of src/parquet/util/rle-encoding.h. Of the array `buffered_values_` the list
-- has the `num_buffered_values_` first elements, and its length is that number. A pointer is an
-- offset into the buffer of the writer; a store through NULL, which a DCHECK excludes, does nothing
-- here. Results that only a DCHECK looks at are dropped, as a release build does.
use parquet_cpp.Common.{ℕ, suc, ◌+◌, ◌-◌, ◌*◌, ◌/◌, ◌%◌, ◌^◌, bit_or, max}
use parquet_cpp.Common.{Bool, true, false, ◌&&◌, ◌||◌, Option, none, some, List, [], ◌∷◌, ◌++◌}
use parquet_cpp.Common.{length, replicate, ltb, leb, ◌==◌, if◌then◌else◌}
use parquet_cpp.Common.Bytes.{store}
use parquet_cpp.BitUtil.{ceil}
use parquet_cpp.BitStream.Writer.{
  Writer, bytes_written, get_next_byte_ptr, put_values, put_vlq_int, put_aligned,
}
use parquet_cpp.BitStream.Writer as BitWriter

pub record Encoder : Type 0 where
  pub bit_width : ℕ
  pub bit_writer : Writer
  pub buffer_full : Bool
  pub max_run_byte_size : ℕ
  pub buffered_values : List ℕ
  pub current_value : ℕ
  pub repeat_count : ℕ
  pub literal_count : ℕ
  pub literal_indicator_byte : Option ℕ

-- `MAX_VALUES_PER_LITERAL_RUN`, and `MAX_VLQ_BYTE_LEN` of the reader.
abbrev pub max_values_per_literal_run : ℕ
max_values_per_literal_run = 2 ^ 6 * 8

abbrev pub max_vlq_byte_len : ℕ
max_vlq_byte_len = 5

unfoldable pub min_buffer_size : ℕ → ℕ
min_buffer_size bit_width =
    max (1 + ceil (max_values_per_literal_run * bit_width) 8) (max_vlq_byte_len + ceil bit_width 8)

unfoldable pub max_buffer_size : ℕ → ℕ → ℕ
max_buffer_size bit_width num_values =
    let num_runs = ceil num_values 8 in
    let literal_max_size = num_runs + num_runs * bit_width in
    let min_repeated_run_size = 1 + ceil bit_width 8 in
    let repeated_max_size = ceil num_values 8 * min_repeated_run_size in
    max literal_max_size repeated_max_size

unfoldable pub clear : Encoder → Encoder
clear e = record e {
  buffer_full = false;
  current_value = 0;
  repeat_count = 0;
  buffered_values = [];
  literal_count = 0;
  literal_indicator_byte = none;
  bit_writer = BitWriter.clear e.bit_writer;
}

unfoldable pub make : List ℕ → ℕ → ℕ → Encoder
unfolding clear
make buffer buffer_len bit_width = clear (record {
  bit_width = bit_width;
  bit_writer = BitWriter.make buffer buffer_len;
  buffer_full = false;
  max_run_byte_size = min_buffer_size bit_width;
  buffered_values = [];
  current_value = 0;
  repeat_count = 0;
  literal_count = 0;
  literal_indicator_byte = none;
})

unfoldable pub check_buffer_full : Encoder → Encoder
check_buffer_full e =
    if ltb e.bit_writer.max_bytes (bytes_written e.bit_writer + e.max_run_byte_size)
    then record e { buffer_full = true }
    else e

-- `if (literal_indicator_byte_ == NULL)`.
unfoldable pub reserve_indicator : Encoder → Encoder
reserve_indicator e = elim e.literal_indicator_byte [
  | some ptr ↦ e
  | none ↦
      let (wr, ptr) = get_next_byte_ptr 1 e.bit_writer in
      record e { bit_writer = wr; literal_indicator_byte = ptr }
]

-- `*literal_indicator_byte_ = indicator_value;`.
unfoldable pub store_indicator : Option ℕ → ℕ → Writer → Writer
store_indicator none indicator_value wr = wr
store_indicator (some ptr) indicator_value wr = record wr {
  buffer = store wr.buffer ptr ((indicator_value % 2 ^ 8) ∷ []);
}

unfoldable pub flush_literal_run : Bool → Encoder → Encoder
flush_literal_run update_indicator_byte e0 =
    let e = reserve_indicator e0 in
    let wr = put_values e.bit_width e.buffered_values e.bit_writer in
    let indicator_value = bit_or (e.literal_count / 8 * 2) 1 in
    if update_indicator_byte
    then check_buffer_full (record e {
      bit_writer = store_indicator e.literal_indicator_byte indicator_value wr;
      buffered_values = [];
      literal_indicator_byte = none;
      literal_count = 0;
    })
    else record e { bit_writer = wr; buffered_values = [] }

unfoldable pub flush_repeated_run : Encoder → Encoder
flush_repeated_run e =
    let indicated = (put_vlq_int (e.repeat_count * 2 % 2 ^ 32) e.bit_writer).0 in
    let wr = (put_aligned e.current_value (ceil e.bit_width 8) indicated).0 in
    check_buffer_full (record e { bit_writer = wr; buffered_values = []; repeat_count = 0 })

unfoldable pub flush_buffered_values : Bool → Encoder → Encoder
flush_buffered_values done e =
    if leb 8 e.repeat_count
    then (let cleared = record e { buffered_values = [] } in
        if e.literal_count == 0 then cleared else flush_literal_run true cleared)
    else (let counted = record e { literal_count = e.literal_count + length e.buffered_values } in
        let num_groups = counted.literal_count / 8 in
        record (if leb (2 ^ 6) (num_groups + 1)
          then flush_literal_run true counted
          else flush_literal_run done counted) { repeat_count = 0 })

-- `Put` behind the comparison with the current value.
unfoldable pub buffer_value : ℕ → Encoder → Encoder
buffer_value value e =
    let buffered = record e { buffered_values = e.buffered_values ++ (value ∷ []) } in
    if length buffered.buffered_values == 8 then flush_buffered_values false buffered else buffered

-- The two branches of that comparison.
unfoldable pub put_same : ℕ → Encoder → Encoder
put_same value e =
    let counted = record e { repeat_count = e.repeat_count + 1 } in
    if ltb 8 counted.repeat_count then counted else buffer_value value counted

unfoldable pub put_other : ℕ → Encoder → Encoder
put_other value e =
    let ended = if leb 8 e.repeat_count then flush_repeated_run e else e in
    buffer_value value (record ended { repeat_count = 1; current_value = value })

unfoldable pub put : ℕ → Encoder → Encoder × Bool
put value e =
    if e.buffer_full
    then (e, false)
    else (if e.current_value == value then put_same value e else put_other value e, true)

-- `for (; num_buffered_values_ != 0 && num_buffered_values_ < 8; ++num_buffered_values_)`.
unfoldable pub pad : List ℕ → List ℕ
pad [] = []
pad (v ∷ vs) = (v ∷ vs) ++ replicate (8 - length (v ∷ vs)) 0

unfoldable pub flush_pending : Encoder → Encoder
flush_pending e =
    let num_buffered_values = length e.buffered_values in
    let all_repeat =
      e.literal_count == 0 && (e.repeat_count == num_buffered_values || num_buffered_values == 0) in
    if ltb 0 e.repeat_count && all_repeat
    then flush_repeated_run e
    else record (flush_literal_run true (record e {
      buffered_values = pad e.buffered_values;
      literal_count = e.literal_count + length (pad e.buffered_values);
    })) { repeat_count = 0 }

-- `Flush`, and `len` of what it leaves as its result.
unfoldable pub flush : Encoder → Encoder × ℕ
flush e =
    let done =
      if ltb 0 e.literal_count || (ltb 0 e.repeat_count || ltb 0 (length e.buffered_values))
      then flush_pending e
      else e in
    let flushed = record done { bit_writer = BitWriter.flush false done.bit_writer } in
    (flushed, bytes_written flushed.bit_writer)

-- `Put` until it fails, as LevelEncoder::Encode calls it: the number of values taken.
unfoldable pub put_all : List ℕ → Encoder → Encoder × ℕ
put_all [] e = (e, 0)
put_all (v ∷ vs) e =
    let (next, done) = put v e in
    let (end, num_encoded) = put_all vs next in if done then (end, suc num_encoded) else (next, 0)
