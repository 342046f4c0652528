-- ===== src/BitPacking/Dispatch.antt =====
-- `nullunpacker32` and `unpack32` of src/parquet/util/bpacking.h.
use parquet_cpp.Common.{ℕ, zero, suc, ◌/◌, Option, none, some, ◌==◌}
use parquet_cpp.Common.{List, [], ◌++◌, replicate, if◌then◌else◌}
use parquet_cpp.BitPacking.Statements.{Statement, run, advance}
use parquet_cpp.BitPacking.Narrow.{
  unpack1_32, unpack2_32, unpack3_32, unpack4_32, unpack5_32, unpack6_32, unpack7_32, unpack8_32,
}
use parquet_cpp.BitPacking.Middle.{
  unpack9_32, unpack10_32, unpack11_32, unpack12_32, unpack13_32, unpack14_32, unpack15_32,
  unpack16_32,
}
use parquet_cpp.BitPacking.Wide.{
  unpack17_32, unpack18_32, unpack19_32, unpack20_32, unpack21_32, unpack22_32, unpack23_32,
  unpack24_32,
}
use parquet_cpp.BitPacking.Widest.{
  unpack25_32, unpack26_32, unpack27_32, unpack28_32, unpack29_32, unpack30_32, unpack31_32,
  unpack32_32,
}

-- `for (int i = 0; i < num_loops; ++i) in = unpackN_32(in, out + i * 32);`
unfoldable pub unpack_loop : ℕ → ℕ → List Statement → List ℕ → List ℕ
unpack_loop zero width code in_ = []
unpack_loop (suc left) width code in_ =
    run width code in_ ++ unpack_loop left width code (advance code in_)

-- Stores 32 zeros and leaves `in`.
unfoldable pub nullunpacker32 : List ℕ
nullunpacker32 = replicate 32 0

unfoldable pub null_loop : ℕ → List ℕ
null_loop zero = []
null_loop (suc left) = nullunpacker32 ++ null_loop left

-- The `case` labels; `none` is `default`.
unfoldable pub unpacker : ℕ → Option (List Statement)
unpacker num_bits =
    if num_bits == 1
    then some unpack1_32
    else if num_bits == 2
    then some unpack2_32
    else if num_bits == 3
    then some unpack3_32
    else if num_bits == 4
    then some unpack4_32
    else if num_bits == 5
    then some unpack5_32
    else if num_bits == 6
    then some unpack6_32
    else if num_bits == 7
    then some unpack7_32
    else if num_bits == 8
    then some unpack8_32
    else if num_bits == 9
    then some unpack9_32
    else if num_bits == 10
    then some unpack10_32
    else if num_bits == 11
    then some unpack11_32
    else if num_bits == 12
    then some unpack12_32
    else if num_bits == 13
    then some unpack13_32
    else if num_bits == 14
    then some unpack14_32
    else if num_bits == 15
    then some unpack15_32
    else if num_bits == 16
    then some unpack16_32
    else if num_bits == 17
    then some unpack17_32
    else if num_bits == 18
    then some unpack18_32
    else if num_bits == 19
    then some unpack19_32
    else if num_bits == 20
    then some unpack20_32
    else if num_bits == 21
    then some unpack21_32
    else if num_bits == 22
    then some unpack22_32
    else if num_bits == 23
    then some unpack23_32
    else if num_bits == 24
    then some unpack24_32
    else if num_bits == 25
    then some unpack25_32
    else if num_bits == 26
    then some unpack26_32
    else if num_bits == 27
    then some unpack27_32
    else if num_bits == 28
    then some unpack28_32
    else if num_bits == 29
    then some unpack29_32
    else if num_bits == 30
    then some unpack30_32
    else if num_bits == 31
    then some unpack31_32
    else if num_bits == 32
    then some unpack32_32
    else none

-- `unpack32`: what it stores; it returns their number. `none` is the `std::runtime_error` of an
-- unsupported width.
unfoldable pub unpack32 : List ℕ → ℕ → ℕ → Option (List ℕ)
unpack32 in_ batch_size num_bits =
    if num_bits == 0 then some (null_loop (batch_size / 32)) else elim (unpacker num_bits) [
      | none ↦ none
      | some code ↦ some (unpack_loop (batch_size / 32) num_bits code in_)
    ]
