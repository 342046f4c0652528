-- ===== src/Levels.antt =====
-- LevelEncoder and LevelDecoder: src/parquet/column/levels.h and levels.cc. The memory that a
-- coder is given is the list of its bytes, and a pointer with a length is the bytes of that length.
-- `none` is a ParquetException. A level is an `int16_t` that is not negative.
pub mod RoundTrip
pub mod Runs
use parquet_cpp.Common.{
  ℕ, zero, suc, ◌+◌, ◌-◌, ◌*◌, Bool, true, false, Option, none, some, List, [], ◌∷◌,
}
use parquet_cpp.Common.{length, take, drop, min, if◌then◌else◌}
use parquet_cpp.Common.Bytes.{le_value}
use parquet_cpp.BitUtil.{ceil, log2}
use parquet_cpp.BitStream.Writer.{Writer, put_value}
use parquet_cpp.BitStream.Writer as BitWriter
use parquet_cpp.BitStream.Reader.{Reader, reset, get_batch}
use parquet_cpp.Rle.Encoder.{Encoder, put_all, min_buffer_size, max_buffer_size}
use parquet_cpp.Rle.Encoder as RleEncoder
use parquet_cpp.Rle.Decoder.{Decoder, rle_get_batch}
use parquet_cpp.Rle.Decoder as RleDecoder

-- `other` is any encoding but these two.
pub data Encoding : Type 0 where
  rle bit_packed other : Encoding

-- The encoder that is not made is NULL.
pub record LevelEncoder : Type 0 where
  pub bit_width : ℕ
  pub encoding : Encoding
  pub rle_length : ℕ
  pub rle_encoder : Option Encoder
  pub bit_packed_encoder : Option Writer

-- `Init` with `data` of `data_size` bytes.
unfoldable pub init : Encoding → ℕ → ℕ → List ℕ → ℕ → LevelEncoder → Option LevelEncoder
init rle max_level num_buffered_values data_ data_size e =
    let bit_width = log2 (max_level + 1) in
    some (record e {
      bit_width = bit_width;
      encoding = rle;
      rle_encoder = some (RleEncoder.make data_ data_size bit_width);
    })
init bit_packed max_level num_buffered_values data_ data_size e =
    let bit_width = log2 (max_level + 1) in
    let num_bytes = ceil (num_buffered_values * bit_width) 8 in
    some (record e {
      bit_width = bit_width;
      encoding = bit_packed;
      bit_packed_encoder = some (BitWriter.make (take num_bytes data_) num_bytes);
    })
init other max_level num_buffered_values data_ data_size e = none

unfoldable pub level_buffer_size : Encoding → ℕ → ℕ → Option ℕ
level_buffer_size rle max_level num_buffered_values =
    let bit_width = log2 (max_level + 1) in
    some (max_buffer_size bit_width num_buffered_values + min_buffer_size bit_width)
level_buffer_size bit_packed max_level num_buffered_values =
    some (ceil (num_buffered_values * log2 (max_level + 1)) 8)
level_buffer_size other max_level num_buffered_values = none

-- The loop over `PutValue`, until it fails.
unfoldable pub put_bits : ℕ → List ℕ → Writer → Writer × ℕ
put_bits w [] wr = (wr, 0)
put_bits w (v ∷ vs) wr =
    let (next, done) = put_value v w wr in
    let (end, num_encoded) = put_bits w vs next in
    if done then (end, suc num_encoded) else (next, 0)

-- The RLE branch of `Encode`.
unfoldable pub encode_rle : List ℕ → Encoder → LevelEncoder → LevelEncoder × ℕ
encode_rle levels coder e =
    let (taken, num_encoded) = put_all levels coder in
    let (flushed, len) = RleEncoder.flush taken in
    (record e { rle_encoder = some flushed; rle_length = len }, num_encoded)

-- The other branch.
unfoldable pub encode_bits : List ℕ → Writer → LevelEncoder → LevelEncoder × ℕ
encode_bits levels coder e =
    let (taken, num_encoded) = put_bits e.bit_width levels coder in
    (record e { bit_packed_encoder = some (BitWriter.flush false taken) }, num_encoded)

-- `Encode`. A call through the coder that the encoding does not use, where that is NULL, is `none`
-- as well.
unfoldable pub encode : List ℕ → LevelEncoder → Option (LevelEncoder × ℕ)
encode levels e = go e.encoding e.rle_encoder e.bit_packed_encoder
  where
    go : Encoding → Option Encoder → Option Writer → Option (LevelEncoder × ℕ)
    go rle (some coder) w = some (encode_rle levels coder e)
    go rle none w = none
    go bit_packed r (some coder) = some (encode_bits levels coder e)
    go bit_packed r none = none
    go other r (some coder) = some (encode_bits levels coder e)
    go other r none = none

pub record LevelDecoder : Type 0 where
  pub bit_width : ℕ
  pub encoding : Encoding
  pub num_values_remaining : ℕ
  pub rle_decoder : Option Decoder
  pub bit_packed_decoder : Option Reader

-- `SetData`, and the number of bytes that the levels take. `old` is the word that the reader held.
unfoldable pub set_data : ℕ → Encoding → ℕ → ℕ → List ℕ → LevelDecoder → Option (LevelDecoder × ℕ)
set_data old rle max_level num_buffered_values data_ d =
    let bit_width = log2 (max_level + 1) in
    let num_bytes = le_value (take 4 data_) in
    some (
      record d {
        bit_width = bit_width;
        encoding = rle;
        num_values_remaining = num_buffered_values;
        rle_decoder =
            some (RleDecoder.make old (take num_bytes (drop 4 data_)) num_bytes bit_width);
      },
      4 + num_bytes,
    )
set_data old bit_packed max_level num_buffered_values data_ d =
    let bit_width = log2 (max_level + 1) in
    let num_bytes = ceil (num_buffered_values * bit_width) 8 in
    some (
      record d {
        bit_width = bit_width;
        encoding = bit_packed;
        num_values_remaining = num_buffered_values;
        bit_packed_decoder = some (reset old (take num_bytes data_) num_bytes);
      },
      num_bytes,
    )
set_data old other max_level num_buffered_values data_ d = none

-- `Decode` behind the choice of the decoder, for a batch that is limited already.
unfoldable pub decode_rle : ℕ → List ℕ → Decoder → LevelDecoder → Option (List ℕ × LevelDecoder)
decode_rle num_values out coder d = elim (rle_get_batch false num_values out coder) [
  | none ↦ none
  | some (levels, next) ↦ some (
    levels,
    record d {
      rle_decoder = some next;
      num_values_remaining = d.num_values_remaining - length levels;
    },
  )
]

unfoldable pub decode_bits : ℕ → Reader → LevelDecoder → Option (List ℕ × LevelDecoder)
decode_bits num_values coder d = elim (get_batch false d.bit_width num_values coder) [
  | none ↦ none
  | some (levels, next) ↦ some (
    levels,
    record d {
      bit_packed_decoder = some next;
      num_values_remaining = d.num_values_remaining - length levels;
    },
  )
]

-- The levels stored at `levels`, whose memory held `out`; their number is the result.
unfoldable pub decode : ℕ → List ℕ → LevelDecoder → Option (List ℕ × LevelDecoder)
decode batch_size out d = go d.encoding d.rle_decoder d.bit_packed_decoder
  where
    num_values : ℕ
    num_values = min d.num_values_remaining batch_size

    go : Encoding → Option Decoder → Option Reader → Option (List ℕ × LevelDecoder)
    go rle (some coder) r = decode_rle num_values out coder d
    go rle none r = none
    go bit_packed w (some coder) = decode_bits num_values coder d
    go bit_packed w none = none
    go other w (some coder) = decode_bits num_values coder d
    go other w none = none
