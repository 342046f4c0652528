-- ===== src/Rle/Format.antt =====
-- The format that the comment of src/parquet/util/rle-encoding.h describes, apart from the code: a
-- block is a list of runs, a run stands for values and is written as bytes.
use parquet_cpp.Common.{
  ℕ, ◌+◌, ◌*◌, ◌/◌, ◌%◌, ◌^◌, ◌<◌, ◌≡◌, List, [], ◌∷◌, ◌++◌, length, replicate, All,
}
use parquet_cpp.Common.Bytes.{le_bytes}
use parquet_cpp.Common.Slices.{packed}
use parquet_cpp.BitUtil.{ceil}
use parquet_cpp.BitStream.Vlq.{vlq_bytes}

pub data Run : Type 0 where
  repeated : ℕ → ℕ → Run
  literal : List ℕ → Run

abbrev pub run_values : Run → List ℕ
run_values (repeated count v) = replicate count v
run_values (literal vs) = vs

-- The varint of a run, and what stands behind it.
abbrev pub indicator : Run → ℕ
indicator (repeated count v) = count * 2
indicator (literal vs) = length vs / 8 * 2 + 1

abbrev pub body : ℕ → Run → List ℕ
body w (repeated count v) = le_bytes (ceil w 8) v
body w (literal vs) = le_bytes (length vs / 8 * w) (packed w vs)

-- The values fit the width, a literal run is whole groups of eight, and the lengths fit an `int`.
abbrev pub IsRun : ℕ → Run → Type 0
IsRun w (repeated count v) = (count < 2 ^ 30) × (v < 2 ^ w)
IsRun w (literal vs) = (length vs < 2 ^ 30) × (length vs % 8 ≡ 0) × All (λ v. v < 2 ^ w) vs

abbrev pub expand : List Run → List ℕ
expand [] = []
expand (run ∷ runs) = run_values run ++ expand runs

abbrev pub encoded : ℕ → List Run → List ℕ
encoded w [] = []
encoded w (run ∷ runs) = vlq_bytes 4 (indicator run) ++ (body w run ++ encoded w runs)
