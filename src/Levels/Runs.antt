-- ===== src/Levels/Runs.antt =====
-- The level coders at concrete inputs.
use parquet_cpp.Common.{ℕ, ◌+◌, ◌≤◌, ◌≡◌, refl, arith, List, [], ◌∷◌, replicate, All, none}
use parquet_cpp.Common.Bytes.{IsByte, all_bytes_sound}
use parquet_cpp.BitUtil.{log2, ceil}
use parquet_cpp.Rle.Encoder.{min_buffer_size}
use parquet_cpp.Levels.{other, LevelEncoder, LevelDecoder, init}
use parquet_cpp.Levels.RoundTrip.{RoundTrips, encode-decode}

abbrev blank : LevelEncoder
blank = record {
  bit_width = 0;
  encoding = other;
  rle_length = 0;
  rle_encoder = none;
  bit_packed_encoder = none;
}

abbrev unset : LevelDecoder
unset = record {
  bit_width = 0;
  encoding = other;
  num_values_remaining = 0;
  rle_decoder = none;
  bit_packed_decoder = none;
}

unknown : init other 3 8 [] 0 blank ≡ none
unfolding init
unknown = refl

abbrev room : List ℕ
room = replicate 200 0

room-IsByte : All IsByte room
room-IsByte = all_bytes_sound room refl

least : min_buffer_size (log2 (3 + 1)) ≤ 200
unfolding min_buffer_size ceil log2
least = omega arith

encode-decode_example :
    RoundTrips 3 200 1 room (replicate 4 9) (3 ∷ 0 ∷ 2 ∷ 2 ∷ []) (7 ∷ []) blank unset
encode-decode_example =
    encode-decode 3 200 1 room (replicate 4 9) (3 ∷ 0 ∷ 2 ∷ 2 ∷ []) (7 ∷ []) blank unset
      (omega arith) (omega arith) (omega arith, (omega arith, (omega arith, (omega arith, tt))))
      (omega arith) refl room-IsByte (omega arith) least (omega arith)
