-- ===== src/Rle/Runs.antt =====
-- Concrete runs of RleDecoder and RleEncoder, and its theorems at concrete inputs.
use parquet_cpp.Common.{
  ℕ, ◌≡◌, refl, arith, List, [], ◌∷◌, ◌++◌, length, replicate, All, true, false, some,
}
use parquet_cpp.Common.Bytes.{IsByte, all_bytes_sound}
use parquet_cpp.Rle.Decoder.{Decoder, make, rle_get_batch}
use parquet_cpp.Rle.Format.{Run, repeated, literal, IsRun, expand, encoded}
use parquet_cpp.Rle.Decodes.{Decodes, rle_get_batch_lem, rle_get_batch-encoded, make-Denotes}
use parquet_cpp.BitStream.Vlq.{vlq_bytes}
use parquet_cpp.Common.{◌≤◌, ◌<◌, ◌^◌, ◌⊎◌, ap, take, Bool, false, ◌&&◌, ltb, ltb→lt, and_both}
use parquet_cpp.Rle.Encoder.{
  Encoder, min_buffer_size, put, put_all, flush, put_same, put_other, buffer_value,
  flush_buffered_values, flush_literal_run, flush_repeated_run, reserve_indicator, store_indicator,
  check_buffer_full, flush_pending, pad,
}
use parquet_cpp.Rle.Encoder as Encoder
use parquet_cpp.Rle.Encodes.{Encodes}
use parquet_cpp.Rle.Put.{put-Encodes}
use parquet_cpp.Rle.Flushed.{Flushed, flush-Flushed}
use parquet_cpp.Rle.RoundTrip.{make-Encodes, put_all-rle_get_batch}

-- A hundred ones, and eight values that alternate.
abbrev block : List Run
block = repeated 100 1 ∷ literal (1 ∷ 0 ∷ 1 ∷ 0 ∷ 1 ∷ 0 ∷ 1 ∷ 0 ∷ []) ∷ []

block-IsRun : All (IsRun 1) block
block-IsRun = (
  (omega arith, omega arith),
  (
    (
      omega arith,
      refl,
      (
        omega arith,
        (
          omega arith,
          (
            omega arith,
            (omega arith, (omega arith, (omega arith, (omega arith, (omega arith, tt))))),
          ),
        ),
      ),
    ),
    tt,
  ),
)

block_bytes : encoded 1 block ≡ 200 ∷ 1 ∷ 1 ∷ 3 ∷ 0x55 ∷ []
unfolding vlq_bytes parquet_cpp.BitUtil.ceil
block_bytes = refl

block-IsByte : All IsByte (encoded 1 block ++ (9 ∷ []))
unfolding vlq_bytes parquet_cpp.BitUtil.ceil
block-IsByte = all_bytes_sound (encoded 1 block ++ (9 ∷ [])) refl

block_size : length (encoded 1 block ++ (9 ∷ [])) ≡ 6
unfolding vlq_bytes parquet_cpp.BitUtil.ceil
block_size = refl

rle_get_batch-encoded_example :
    Decodes 103
      (expand block)
      (rle_get_batch false 103 (replicate 103 7) (make 5 (encoded 1 block ++ (9 ∷ [])) 6 1))
rle_get_batch-encoded_example =
    rle_get_batch-encoded false 5 1 6 103 (replicate 103 7) block (9 ∷ []) (omega arith) block-IsRun
      block_size block-IsByte (omega arith) (omega arith) (omega arith)

rle_get_batch_lem_example :
    Decodes 50
      (expand block)
      (rle_get_batch true 50 (replicate 50 7) (make 5 (encoded 1 block ++ (9 ∷ [])) 6 1))
rle_get_batch_lem_example =
    rle_get_batch_lem true 50 (replicate 50 7) (make 5 (encoded 1 block ++ (9 ∷ [])) 6 1) block
      (expand block)
      (make-Denotes 5 1 6 block (9 ∷ []) (omega arith) block-IsRun block_size block-IsByte
        (omega arith) (omega arith))
      (omega arith)

abbrev all_below_two : List ℕ → Bool
all_below_two [] = true
all_below_two (v ∷ vs) = ltb v 2 && all_below_two vs

abbrev room : List ℕ
room = replicate 65 0

room-IsByte : All IsByte room
room-IsByte = all_bytes_sound room refl

least : min_buffer_size 1 ≤ 65
unfolding min_buffer_size parquet_cpp.BitUtil.ceil
least = omega arith

abbrev bits : List ℕ
bits = 1 ∷ 0 ∷ 0 ∷ 1 ∷ 1 ∷ 1 ∷ 1 ∷ 1 ∷ 1 ∷ 1 ∷ []

All-bits : (vs : List ℕ) → all_below_two vs ≡ true → All (λ v. v < 2 ^ 1) vs
All-bits [] h = tt
All-bits (v ∷ vs) h = let (a, b) = and_both _ _ h in (ltb→lt v 2 a, All-bits vs b)

-- Ten values are one padded literal run.
bits_block :
    take
      (flush (put_all bits (Encoder.make room 65 1)).0).1
      (flush (put_all bits (Encoder.make room 65 1)).0).0.bit_writer.buffer
    ≡ 5 ∷ 0xF9 ∷ 3 ∷ []
unfolding Encoder.make Encoder.clear put_all put put_same put_other buffer_value
    flush_buffered_values flush_literal_run flush_repeated_run reserve_indicator store_indicator
    check_buffer_full flush_pending pad flush min_buffer_size parquet_cpp.BitStream.Writer.flush
    parquet_cpp.BitStream.Writer.make parquet_cpp.BitStream.Writer.clear
    parquet_cpp.BitStream.Writer.put_value parquet_cpp.BitStream.Writer.put_values
    parquet_cpp.BitStream.Writer.get_next_byte_ptr parquet_cpp.BitStream.Writer.bytes_written
    parquet_cpp.BitUtil.ceil
bits_block = refl

put_all-rle_get_batch_example :
    (((put_all bits (Encoder.make room 65 1)).1 ≡ length bits)
      ⊎ ((put_all bits (Encoder.make room 65 1)).0.buffer_full ≡ true))
    × (next : Decoder) × (rle_get_batch false
          (put_all bits (Encoder.make room 65 1)).1
          (replicate 10 7)
          (make 3
            (take
              (flush (put_all bits (Encoder.make room 65 1)).0).1
              (flush (put_all bits (Encoder.make room 65 1)).0).0.bit_writer.buffer)
            (flush (put_all bits (Encoder.make room 65 1)).0).1
            1)
        ≡ some (take (put_all bits (Encoder.make room 65 1)).1 bits, next))
put_all-rle_get_batch_example =
    put_all-rle_get_batch false 1 65 3 room (replicate 10 7) bits (omega arith) (omega arith)
      (All-bits bits refl) (omega arith) refl room-IsByte (omega arith) least (omega arith)

abbrev fresh : Encoder
fresh = Encoder.make room 65 1

fresh-Encodes : Encodes fresh []
fresh-Encodes =
    make-Encodes 1 65 room (omega arith) (omega arith) refl room-IsByte (omega arith) least

fresh_free : (fresh.buffer_full ≡ false) × (fresh.bit_width ≡ 1)
unfolding Encoder.make
fresh_free = (refl, refl)

fits_fresh : 1 < 2 ^ fresh.bit_width
fits_fresh = omega (arith, ap (λ (t : ℕ). 2 ^ t) fresh_free.1)

put-Encodes_example : ((put 1 fresh).1 ≡ true) × Encodes (put 1 fresh).0 ([] ++ (1 ∷ []))
put-Encodes_example = put-Encodes 1 fresh [] fresh-Encodes fresh_free.0 fits_fresh (omega arith)

flush-Flushed_example :
    Flushed (put 1 fresh).0.bit_width (1 ∷ []) (flush (put 1 fresh).0).0 (flush (put 1 fresh).0).1
flush-Flushed_example =
    flush-Flushed (put 1 fresh).0 (1 ∷ [])
      (put-Encodes 1 fresh [] fresh-Encodes fresh_free.0 fits_fresh (omega arith)).1 (omega arith)
