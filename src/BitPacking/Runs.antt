-- ===== src/BitPacking/Runs.antt =====
-- Concrete runs of `unpack32`, and its theorems at concrete inputs.
use parquet_cpp.Common.{ℕ, ◌*◌, ◌/◌, ◌≡◌, refl, arith, List, [], ◌∷◌, All, some}
use parquet_cpp.Common.Bytes.{IsByte, all_bytes_sound, le_value}
use parquet_cpp.Common.Slices.{slices}
use parquet_cpp.BitPacking.Dispatch.{unpack32}
use parquet_cpp.BitPacking.Slices.{unpack32_lem}

-- The numbers 0 to 7 in three bits each, four times.
abbrev octal : List ℕ
octal = 136 ∷ 198 ∷ 250 ∷ 136 ∷ 198 ∷ 250 ∷ 136 ∷ 198 ∷ 250 ∷ 136 ∷ 198 ∷ 250 ∷ []

octal-IsByte : All IsByte octal
octal-IsByte = all_bytes_sound octal refl

unpack32_lem_example : unpack32 octal 40 3 ≡ some (slices 3 (40 / 32 * 32) (le_value octal))
unpack32_lem_example = unpack32_lem octal 40 3 (omega arith) octal-IsByte
