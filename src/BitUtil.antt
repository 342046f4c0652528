-- ===== src/BitUtil.antt =====
-- The class BitUtil of src/parquet/util/bit-util.h. Signed arguments are taken where they are not
-- negative and where the sums fit, so they are plain numbers; a `uint32_t` or `uint64_t` keeps its
-- wrap. The compiler's byte-swap builtins and the SSE population count are not modelled.
pub mod Rounding
pub mod Counting
pub mod Positions
pub mod Runs
use parquet_cpp.Common.{
  ℕ, zero, suc, ◌+◌, ◌-◌, ◌*◌, ◌/◌, ◌%◌, ◌^◌, bit_and, bit_or, Bool, true, false,
}
use parquet_cpp.Common.{List, length, set, get_or, not, ltb, leb, ◌==◌, if◌then◌else◌}

unfoldable pub ceil : ℕ → ℕ → ℕ
ceil value divisor = value / divisor + (if value % divisor == 0 then 0 else 1)

-- Of a value that is not negative, as everything here that divides an `int64_t`.
unfoldable pub round_up : ℕ → ℕ → ℕ
round_up value factor = (value + (factor - 1)) / factor * factor

unfoldable pub round_down : ℕ → ℕ → ℕ
round_down value factor = value / factor * factor

-- `~x` of an `int` that is not negative, as a bit pattern.
abbrev pub complement32 : ℕ → ℕ
complement32 x = 2 ^ 32 - 1 - x

pub round_up_to_power_of2 : ℕ → ℕ → ℕ
round_up_to_power_of2 value factor = bit_and (value + (factor - 1)) (complement32 (factor - 1))

pub round_down_to_power_of2 : ℕ → ℕ → ℕ
round_down_to_power_of2 value factor = bit_and value (complement32 (factor - 1))

pub round_up_num_bytes : ℕ → ℕ
round_up_num_bytes bits = (bits + 7) % 2 ^ 32 / 2 ^ 3

pub round_down_num_bytes : ℕ → ℕ
round_down_num_bytes bits = bits / 2 ^ 3

pub round_up_numi32 : ℕ → ℕ
round_up_numi32 bits = (bits + 31) % 2 ^ 32 / 2 ^ 5

pub round_down_numi32 : ℕ → ℕ
round_down_numi32 bits = bits / 2 ^ 5

pub round_up_numi64 : ℕ → ℕ
round_up_numi64 bits = (bits + 63) % 2 ^ 32 / 2 ^ 6

pub round_down_numi64 : ℕ → ℕ
round_down_numi64 bits = bits / 2 ^ 6

-- `for (; x != 0; ++count) x &= x - 1;` with fuel; each round clears a bit, and there are 64.
popcount_loop : ℕ → ℕ → ℕ → ℕ
popcount_loop zero x count = count
popcount_loop (suc fuel) x count =
    let rest = popcount_loop fuel (bit_and x (x - 1)) (count + 1) in if x == 0 then count else rest

pub popcount_no_hw : ℕ → ℕ
unfolding popcount_loop
popcount_no_hw x = popcount_loop 64 x 0

unfoldable pub trailing_bits : ℕ → ℕ → ℕ
trailing_bits v num_bits =
    if num_bits == 0
    then 0
    else if leb 64 num_bits
    then v
    else let n = 64 - num_bits in v * 2 ^ n % 2 ^ 64 / 2 ^ n

-- `while (x >>= 1) ++result;` with fuel: a `uint64_t` is 0 after 64 shifts.
log2_loop : ℕ → ℕ → ℕ → ℕ
log2_loop zero x result = result
log2_loop (suc fuel) x result =
    let rest = log2_loop fuel (x / 2) (result + 1) in if x / 2 == 0 then result else rest

unfoldable pub log2 : ℕ → ℕ
unfolding log2_loop
log2 x = if x == 1 then 0 else log2_loop 64 (x - 1) 1

pub next_power_of_two : ℕ → ℕ
next_power_of_two v =
    let v0 = v - 1 in
    let v1 = bit_or v0 (v0 / 2 ^ 1) in
    let v2 = bit_or v1 (v1 / 2 ^ 2) in
    let v3 = bit_or v2 (v2 / 2 ^ 4) in
    let v4 = bit_or v3 (v3 / 2 ^ 8) in
    let v5 = bit_or v4 (v4 / 2 ^ 16) in let v6 = bit_or v5 (v5 / 2 ^ 32) in v6 + 1

-- The overload of `ByteSwap` for `int16_t`, on bit patterns.
pub byte_swap16 : ℕ → ℕ
byte_swap16 value = bit_or (bit_and (value / 2 ^ 8) 0xff) (bit_and value 0xff * 2 ^ 8)

-- `for (int i = 0; i < len; ++i) d[i] = s[len - i - 1];`, with the rounds left.
byte_swap_loop : ℕ → ℕ → ℕ → List ℕ → List ℕ → List ℕ
byte_swap_loop zero i len d s = d
byte_swap_loop (suc left) i len d s =
    byte_swap_loop left (i + 1) len (set d i (get_or s (len - i - 1) 0)) s

-- The overload on memory; the fixed lengths 2, 4 and 8 reverse the bytes by builtins.
pub byte_swap_bytes : List ℕ → List ℕ → ℕ → List ℕ
unfolding byte_swap_loop
byte_swap_bytes dst src len = byte_swap_loop len 0 len dst src

pub get_array_bit : List ℕ → ℕ → Bool
get_array_bit bits i = not (bit_and (get_or bits (i / 8) 0) (2 ^ (i % 8)) == 0)

pub set_array_bit : List ℕ → ℕ → Bool → List ℕ
set_array_bit bits i is_set =
    set bits (i / 8)
      (bit_or (get_or bits (i / 8) 0) (2 ^ (i % 8) * (if is_set then 1 else 0)) % 2 ^ 8)

-- `for (int i = 63; i >= 0; --i) if (x & 1L << i) return i + 1;`; the argument is `i + 1`.
num_required_bits_loop : ℕ → ℕ → ℕ
num_required_bits_loop zero x = 0
num_required_bits_loop (suc i) x =
    let rest = num_required_bits_loop i x in if bit_and x (2 ^ i) == 0 then rest else i + 1

unfoldable pub num_required_bits : ℕ → ℕ
unfolding num_required_bits_loop
num_required_bits x = num_required_bits_loop 64 x
