-- ===== src/BitUtil/Runs.antt =====
-- Concrete runs of the BitUtil functions, and their theorems at concrete inputs.
use parquet_cpp.Common.{ℕ, ◌+◌, ◌-◌, ◌*◌, ◌^◌, ◌≤◌, ◌<◌, ◌≡◌, ◌⊎◌, refl, arith, [], ◌∷◌}
use parquet_cpp.BitUtil.{
  ceil, round_up, round_down, round_up_to_power_of2, popcount_no_hw, log2, next_power_of_two,
  byte_swap16, byte_swap_bytes, num_required_bits,
}
use parquet_cpp.BitUtil.Rounding.{round_up-least, round_down_lem, round_up_to_power_of2_lem}
use parquet_cpp.BitUtil.Counting.{ones, popcount_no_hw_lem}
use parquet_cpp.BitUtil.Positions.{log2_lem, num_required_bits_lem}

ceil_21 : ceil 21 8 ≡ 3
unfolding ceil
ceil_21 = refl

log2_of_five : log2 5 ≡ 3
unfolding log2
log2_of_five = refl

next_power_of_17 : next_power_of_two 17 ≡ 32
unfolding next_power_of_two
next_power_of_17 = refl

swapped : byte_swap16 0x1234 ≡ 0x3412
unfolding byte_swap16
swapped = refl

reversed : byte_swap_bytes (0 ∷ 0 ∷ 0 ∷ []) (1 ∷ 2 ∷ 3 ∷ []) 3 ≡ 3 ∷ 2 ∷ 1 ∷ []
unfolding byte_swap_bytes
reversed = refl

round_up-least_example :
    (21 ≤ round_up 21 8)
    × ((m : ℕ) → 21 ≤ m * 8 → round_up 21 8 ≤ m * 8)
    × (round_up 21 8 ≡ ceil 21 8 * 8)
    × (round_up 21 8 < 2 ^ 63)
round_up-least_example = round_up-least 21 8 (omega arith) (omega arith)

round_down_lem_example : (round_down 21 8 ≤ 21) × (21 < round_down 21 8 + 8)
round_down_lem_example = round_down_lem 21 8 (omega arith)

round_up_to_power_of2_lem_example : round_up_to_power_of2 21 (2 ^ 3) ≡ round_up 21 (2 ^ 3)
round_up_to_power_of2_lem_example = round_up_to_power_of2_lem 21 3 (omega arith) (omega arith)

popcount_no_hw_lem_example : popcount_no_hw 0xF1 ≡ ones 64 0xF1
popcount_no_hw_lem_example = popcount_no_hw_lem 0xF1 (omega arith)

log2_lem_example : (5 ≤ 2 ^ log2 5) × ((log2 5 ≡ 0) ⊎ (2 ^ (log2 5 - 1) < 5))
log2_lem_example = log2_lem 5 (omega arith) (omega arith)

num_required_bits_lem_example :
    (9 < 2 ^ num_required_bits 9)
    × ((num_required_bits 9 ≡ 0) ⊎ (2 ^ (num_required_bits 9 - 1) ≤ 9))
num_required_bits_lem_example = num_required_bits_lem 9 (omega arith)
