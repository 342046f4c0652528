-- ===== src/BitStream/Runs.antt =====
-- Concrete runs of BitWriter and BitReader, and their theorems at concrete inputs.
use parquet_cpp.Common.{ℕ, ◌-◌, ◌%◌, ◌^◌, ◌≡◌, refl, arith, List, [], ◌∷◌}
use parquet_cpp.Common.{take, true, false, some, replicate, All}
use parquet_cpp.Common.Bytes.{IsByte, all_bytes_sound, le_bytes, le_value}
use parquet_cpp.BitStream.Writer.{
  Writer, make, flush, put_value, put_values, put_aligned, put_vlq_int, put_zigzag_vlq_int,
  bytes_written, zigzag,
}
use parquet_cpp.BitStream.Writer.Invariant as W
use parquet_cpp.BitStream.Writer.Bits.{Appends, put_value-Appends}
use parquet_cpp.BitStream.Writer.Bytes.{Extends, flush-stores, put_aligned-Extends}
use parquet_cpp.BitStream.Reader.{
  Reader, reset, get_batch, get_value_step, get_aligned, get_vlq_int, get_zigzag_vlq_int, unzigzag,
}
use parquet_cpp.BitStream.Reader.Invariant as R
use parquet_cpp.BitStream.Reader.Value.{Takes, get_value_step_lem}
use parquet_cpp.BitStream.Reader.Batch.{available, ReadsBatch, get_batch_lem}
use parquet_cpp.BitStream.Reader.Bytes.{rest_bytes, StandsBefore, get_aligned_lem}
use parquet_cpp.BitStream.RoundTrip.{make-IsValid, put_values-get_batch}
use parquet_cpp.BitStream.Vlq.{vlq_bytes, put_vlq_int-Extends}
use parquet_cpp.BitStream.VlqRead.{ReadsVlq, get_vlq_int_lem, unzigzag-zigzag}
use parquet_cpp.BitStream.VlqRoundTrip.{
  put_vlq_int-get_vlq_int, put_zigzag_vlq_int-get_zigzag_vlq_int,
}

abbrev eight : List ℕ
eight = replicate 8 0

abbrev sixteen : List ℕ
sixteen = replicate 16 0

eight-IsByte : All IsByte eight
eight-IsByte = all_bytes_sound eight refl

sixteen-IsByte : All IsByte sixteen
sixteen-IsByte = all_bytes_sound sixteen refl

put_values-get_batch_example :
    (next : Reader) × (get_batch true 3 3
        (reset 7 (flush false (put_values 3 (5 ∷ 2 ∷ 7 ∷ []) (make eight 8))).buffer 8)
      ≡ some (5 ∷ 2 ∷ 7 ∷ [], next))
put_values-get_batch_example =
    put_values-get_batch true 3 (5 ∷ 2 ∷ 7 ∷ []) 8 7 eight (omega arith)
      (omega arith, (omega arith, (omega arith, tt))) (omega arith) refl eight-IsByte (omega arith)
      (omega arith)

-- A word with two free bits.
abbrev nearly_full : Writer
nearly_full = record {
  buffer = sixteen;
  max_bytes = 16;
  buffered_values = 5;
  byte_offset = 0;
  bit_offset = 62;
}

nearly_full-IsValid : W.IsValid nearly_full
nearly_full-IsValid = record {
  fits = refl;
  bytes = sixteen-IsByte;
  within = omega arith;
  pending = omega arith;
  low = omega arith;
}

put_value-Appends_example :
    ((put_value 13 4 nearly_full).1 ≡ true)
    × Appends nearly_full (put_value 13 4 nearly_full).0 13 4
put_value-Appends_example =
    put_value-Appends 13 4 nearly_full nearly_full-IsValid (omega arith) (omega arith) (omega arith)

flush-stores_example :
    W.IsValid (flush true nearly_full)
    × (le_value (take (bytes_written nearly_full) (flush true nearly_full).buffer)
        ≡ W.value nearly_full)
    × (bytes_written (flush true nearly_full) ≡ bytes_written nearly_full)
    × ((flush true nearly_full).byte_offset ≡ bytes_written nearly_full)
    × ((flush true nearly_full).bit_offset ≡ 0)
    × ((flush true nearly_full).buffered_values ≡ 0)
flush-stores_example = flush-stores nearly_full nearly_full-IsValid true

put_aligned-Extends_example :
    ((put_aligned 0x1234 2 nearly_full).1 ≡ true)
    × Extends nearly_full (put_aligned 0x1234 2 nearly_full).0 (le_bytes 2 0x1234)
put_aligned-Extends_example =
    put_aligned-Extends nearly_full nearly_full-IsValid 0x1234 2
      (unfold bytes_written in unfold parquet_cpp.BitUtil.ceil in omega arith)

abbrev stream : List ℕ
stream = 0x81 ∷ 0xC3 ∷ 0xE7 ∷ 0x7E ∷ 0x3C ∷ 0x18 ∷ 0xFF ∷ 0xA5 ∷ 0x5A ∷ 0x0F ∷ 0xAC ∷ 0x02 ∷ []

stream-IsByte : All IsByte stream
stream-IsByte = all_bytes_sound stream refl

stream-IsValid : R.IsValid (reset 0 stream 12)
stream-IsValid = R.reset-IsValid 0 stream 12 refl stream-IsByte (omega arith) (omega arith)

get_value_step_lem_example :
    ((get_value_step 11 (reset 0 stream 12)).0
      ≡ R.rest_of (reset 0 stream 12).buffer (R.position (reset 0 stream 12)) % 2 ^ 11)
    × Takes (reset 0 stream 12) (get_value_step 11 (reset 0 stream 12)).1 11
get_value_step_lem_example =
    get_value_step_lem 11 (reset 0 stream 12) stream-IsValid (omega arith)
      (unfold reset in omega arith)

get_batch_lem_example :
    ReadsBatch 5
      (available 5 40 (reset 0 stream 12))
      (reset 0 stream 12)
      (get_batch false 5 40 (reset 0 stream 12))
get_batch_lem_example =
    get_batch_lem false 5 40 (reset 0 stream 12) stream-IsValid (omega arith) (omega arith)

get_aligned_lem_example :
    (next : Reader) × (get_aligned 2 (reset 0 (0x34 ∷ 0x12 ∷ 9 ∷ []) 3)
      ≡ some (le_value (0x34 ∷ 0x12 ∷ []), next))
    × StandsBefore next (9 ∷ [])
    × (next.bit_offset ≡ 0)
    × (next.max_bytes ≡ (reset 0 (0x34 ∷ 0x12 ∷ 9 ∷ []) 3).max_bytes)
get_aligned_lem_example =
    get_aligned_lem 2 (reset 0 (0x34 ∷ 0x12 ∷ 9 ∷ []) 3)
      (R.reset-IsValid 0 (0x34 ∷ 0x12 ∷ 9 ∷ []) 3 refl
        (omega arith, (omega arith, (omega arith, tt))) (omega arith) (omega arith))
      (0x34 ∷ 0x12 ∷ []) (9 ∷ [])
      (unfold rest_bytes in unfold reset in unfold parquet_cpp.BitUtil.ceil in refl) refl

put_vlq_int-Extends_example :
    ((put_vlq_int 300 (make eight 8)).1 ≡ true)
    × Extends (make eight 8) (put_vlq_int 300 (make eight 8)).0 (vlq_bytes 4 300)
put_vlq_int-Extends_example =
    put_vlq_int-Extends 300 (make eight 8) (make-IsValid eight 8 refl eight-IsByte) (omega arith) (
      unfold bytes_written in
      unfold make in unfold parquet_cpp.BitUtil.ceil in unfold vlq_bytes in omega arith)

get_vlq_int_lem_example :
    ReadsVlq 300
      (9 ∷ [])
      (reset 0 (0xAC ∷ 0x02 ∷ 9 ∷ []) 3)
      (get_vlq_int (reset 0 (0xAC ∷ 0x02 ∷ 9 ∷ []) 3))
get_vlq_int_lem_example =
    get_vlq_int_lem 300 (9 ∷ []) (reset 0 (0xAC ∷ 0x02 ∷ 9 ∷ []) 3)
      (R.reset-IsValid 0 (0xAC ∷ 0x02 ∷ 9 ∷ []) 3 refl
        (omega arith, (omega arith, (omega arith, tt))) (omega arith) (omega arith))
      (omega arith)
      (unfold rest_bytes in
        unfold reset in unfold vlq_bytes in unfold parquet_cpp.BitUtil.ceil in refl)

unzigzag-zigzag_example : unzigzag (zigzag (2 ^ 32 - 7)) ≡ 2 ^ 32 - 7
unzigzag-zigzag_example = unzigzag-zigzag (2 ^ 32 - 7) (omega arith)

put_vlq_int-get_vlq_int_example :
    (next : Reader) × (get_vlq_int
        (reset 0 (flush true (put_vlq_int 70000 (make eight 8)).0).buffer 8)
      ≡ (some 70000, next))
put_vlq_int-get_vlq_int_example =
    put_vlq_int-get_vlq_int 70000 8 0 eight (omega arith) (omega arith) refl eight-IsByte
      (omega arith) (omega arith)

put_zigzag_vlq_int-get_zigzag_vlq_int_example :
    (next : Reader) × (get_zigzag_vlq_int
        (reset 0 (flush true (put_zigzag_vlq_int (2 ^ 32 - 7) (make eight 8)).0).buffer 8)
      ≡ (some (2 ^ 32 - 7), next))
put_zigzag_vlq_int-get_zigzag_vlq_int_example =
    put_zigzag_vlq_int-get_zigzag_vlq_int (2 ^ 32 - 7) 8 0 eight (omega arith) (omega arith) refl
      eight-IsByte (omega arith) (omega arith)
