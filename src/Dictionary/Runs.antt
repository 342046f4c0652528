-- ===== src/Dictionary/Runs.antt =====
-- Runs of the dictionary encoding on concrete values, and the theorems at concrete inputs.
use parquet_cpp.Common.{
  length, ◌≤◌, ℕ, ◌+◌, ◌*◌, ◌<◌, ◌≡◌, ◌⊎◌, refl, Bool, true, false, not, Option, none, some, List,
  [], ◌∷◌, replicate, set, take, ◌==◌, arith, All,
}
use parquet_cpp.Common.Bytes.{IsByte}
use parquet_cpp.BitUtil.{log2, ceil}
use parquet_cpp.Dictionary.Slots.{All-replicate}
use parquet_cpp.Rle.Decoder as RleDecoder
use parquet_cpp.Rle.Encoder.{min_buffer_size}
use parquet_cpp.Dictionary.{
  DictEncoder, make, put, put_all, put_at, insert, probe, keeps_probing, slot_different, bit_width,
  write_indices, rehash, rehash_index,
}
use parquet_cpp.Dictionary.Decoder.{DictionaryDecoder, set_data, decode}
use parquet_cpp.Dictionary.Indices.{make-IsSound, no_values, AllStand, put_all-terminates}
use parquet_cpp.Dictionary.Distinct.{IsDistinct}
use parquet_cpp.Dictionary.Unique.{put_all-IsDistinct}
use parquet_cpp.Dictionary.Sound.{IsSound}
use parquet_cpp.Dictionary.Written.{started, put_all-decode}

abbrev differs : ℕ → ℕ → Bool
differs a b = not (a == b)

abbrev hash : ℕ → ℕ
hash v = v * 1024 + 7

abbrev two_values : DictEncoder ℕ
two_values = record {
  hash_table_size = 1024;
  mod_bitmask = 1023;
  hash_slots = set (set (replicate 1024 none) 7 (some 0)) 8 (some 1);
  buffered_indices = 0 ∷ 1 ∷ 0 ∷ [];
  dict_encoded_size = 8;
  uniques = 30 ∷ 20 ∷ [];
}

-- Two values of one hash take neighbouring slots.
puts_two : put_all differs hash 4 (30 ∷ 20 ∷ 30 ∷ []) make ≡ some two_values
unfolding put_all put make probe keeps_probing slot_different put_at insert
puts_two = refl

abbrev full_table : List (Option ℕ)
full_table = none ∷ some 1 ∷ some 0 ∷ none ∷ []

-- A table of four slots is rehashed into eight.
rehashed :
    rehash differs (λ v. v) 8 (6 ∷ 5 ∷ []) full_table (replicate 8 none)
    ≡ some (set (set (replicate 8 none) 5 (some 1)) 6 (some 0))
unfolding rehash rehash_index probe keeps_probing slot_different
rehashed = refl

abbrev zeros : List ℕ
zeros = replicate 200 0

abbrev empty_decoder : DictionaryDecoder ℕ
empty_decoder = record {
  num_values = 0;
  dictionary = 30 ∷ 20 ∷ [];
  idx_decoder = RleDecoder.make 0 [] 0 0;
}

same : (v u : ℕ) → differs v u ≡ false → u ≡ v
same v u h = ground arith

zeros-IsByte : All IsByte zeros
zeros-IsByte = All-replicate IsByte 200 0 (omega arith)

put_all-terminates_example :
    (next : DictEncoder ℕ) × (put_all differs hash 4 (30 ∷ 20 ∷ []) make ≡ some next)
    × IsSound 4 next
    × AllStand differs next.uniques next.buffered_indices (30 ∷ 20 ∷ [])
    × (length next.uniques ≤ 2)
    × (next.dict_encoded_size ≡ length next.uniques * 4)
unfolding make
put_all-terminates_example =
    put_all-terminates differs hash 4 (30 ∷ 20 ∷ []) [] make (make-IsSound 4) no_values
      (omega arith) (omega arith)

room : min_buffer_size (bit_width two_values) < 200
unfolding min_buffer_size bit_width log2 ceil
room = omega arith

put_all-decode_example :
    (((write_indices zeros 200 two_values).1.1 ≡ none)
      × ((started zeros 200 two_values).0.buffer_full ≡ true))
    ⊎ ((size : ℕ) × ((write_indices zeros 200 two_values).1.1 ≡ some size)
        × ((next : DictionaryDecoder ℕ) × (decode 3 []
                (set_data 0 3 (take size (write_indices zeros 200 two_values).0) size empty_decoder)
              ≡ some (30 ∷ 20 ∷ 30 ∷ [], next))))
put_all-decode_example =
    put_all-decode differs hash 4 (30 ∷ 20 ∷ 30 ∷ []) two_values 200 0 zeros [] empty_decoder same
      puts_two refl (omega arith) (omega arith) refl zeros-IsByte (omega arith) room (omega arith)

put_all-IsDistinct_example : IsDistinct two_values.uniques
put_all-IsDistinct_example =
    put_all-IsDistinct differs hash same (λ v. ground arith) 4 (30 ∷ 20 ∷ 30 ∷ []) two_values
      (omega arith) puts_two
