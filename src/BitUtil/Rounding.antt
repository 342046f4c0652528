-- ===== src/BitUtil/Rounding.antt =====
-- The rounding functions of BitUtil.
use parquet_cpp.Common.{
  ℕ, zero, suc, ◌+◌, ◌-◌, ◌*◌, ◌/◌, ◌%◌, ◌^◌, ◌≤◌, ◌<◌, ◌≡◌, arith, bit_and, sym, ◌∙◌, ap, refl,
}
use parquet_cpp.Common.{Bool-cases, inl, inr, ◌==◌, ==→eq, leb, leb→le, leb→gt}
use parquet_cpp.BitUtil.{ceil, round_up, round_down, round_up_to_power_of2, round_down_to_power_of2}
use parquet_cpp.BitUtil.{trailing_bits, complement32}
use parquet_cpp.Common.Pow.{two_pow_pos, div-two_pow, mul-two_pow-mod, mul-two_pow-div}
use parquet_cpp.Common.Bits.{bit_and_digit, bit_and_mask}
use native.Mathlib.Nat.{
  mod-lt, div-add-mod, mod-eq_of_lt, pow-suc, div-eq_of_lt-le, pow-le-pow_right, mul-le-mul_right,
}

pub ceil_bounds :
    (value divisor : ℕ)
    → 0 < divisor
    → (value ≤ ceil value divisor * divisor) × (ceil value divisor * divisor < value + divisor)
unfolding ceil
ceil_bounds value divisor h = ground (arith, mod-lt value h, div-add-mod value divisor)

pub ceil-byte : (value : ℕ) → (value ≤ 8 * ceil value 8) × (8 * ceil value 8 < value + 8)
unfolding ceil
ceil-byte value = ground arith

ceil_unique : (value factor : ℕ) → 0 < factor → (value + (factor - 1)) / factor ≡ ceil value factor
ceil_unique value factor h =
    let b = ceil_bounds value factor h in
    div-eq_of_lt-le {k = ceil value factor} factor (omega arith) (omega arith)

-- Without a bound, for what `RoundUp` computes on natural numbers.
pub round_up_lem :
    (value factor : ℕ)
    → 0 < factor
    → (value ≤ round_up value factor)
      × (round_up value factor < value + factor)
      × (round_up value factor ≡ ceil value factor * factor)
unfolding round_up
round_up_lem value factor h =
    rw (ceil_unique value factor h) (let b = ceil_bounds value factor h in (b.0, b.1, refl))

-- For a value that is not negative and a positive factor, where the sum of the value and the factor
-- less one fits an `int64_t`, `RoundUp` returns the least multiple of the factor that is not below the
-- value, the one that `Ceil` counts, and that multiple fits an `int64_t` as well.
pub round_up-least :
    (value factor : ℕ)
    → 0 < factor
    → value + (factor - 1) < 2 ^ 63
    → (value ≤ round_up value factor)
      × ((m : ℕ) → value ≤ m * factor → round_up value factor ≤ m * factor)
      × (round_up value factor ≡ ceil value factor * factor)
      × (round_up value factor < 2 ^ 63)
round_up-least value factor h in_int =
    let (above, near, count) = round_up_lem value factor h in
    (above, least near count, count, omega (arith, near, in_int, h))
  where
    least :
        round_up value factor < value + factor
        → round_up value factor ≡ ceil value factor * factor
        → (m : ℕ) → value ≤ m * factor
        → round_up value factor ≤ m * factor
    least near count m above = elim (Bool-cases (leb (ceil value factor) m)) [
      | inl le ↦ omega (arith, count, mul-le-mul_right factor (leb→le (ceil value factor) m le))
      | inr gt ↦
          let more : m * factor + factor ≤ ceil value factor * factor =
            omega (arith, mul-le-mul_right factor (leb→gt (ceil value factor) m gt)) in
          absurd (omega (arith, near, count, more, above))
    ]

-- For a positive factor, `RoundDown` stays at or below the value, by less than the factor.
pub round_down_lem :
    (value factor : ℕ)
    → 0 < factor
    → (round_down value factor ≤ value) × (value < round_down value factor + factor)
unfolding round_down
round_down_lem value factor h = ground (arith, mod-lt value h, div-add-mod value factor)

pub bit_and_clear : (w k a : ℕ) → k ≤ w → a < 2 ^ w → bit_and a (2 ^ w - 2 ^ k) ≡ a / 2 ^ k * 2 ^ k
bit_and_clear w zero a h l = omega (arith, bit_and_mask w a, mod-eq_of_lt l)
bit_and_clear zero (suc k) a h l = absurd (omega arith)
bit_and_clear (suc w) (suc k) a h l =
    let half : (2 ^ suc w - 2 ^ suc k) / 2 ≡ 2 ^ w - 2 ^ k =
      omega (arith, pow-suc 2 w, pow-suc 2 k) in
    let even : (2 ^ suc w - 2 ^ suc k) % 2 ≡ 0 = omega (arith, pow-suc 2 w, pow-suc 2 k) in
    let e : suc k ≡ 1 + k = omega arith in
    let d : a / 2 ^ suc k ≡ a / 2 / 2 ^ k = rw (e, ← div-two_pow a 1 k) in
    omega (
      arith,
      ap (λ (t : ℕ). t * 2 ^ suc k) d,
      ap (λ (t : ℕ). a / 2 / 2 ^ k * t) (pow-suc 2 k),
      bit_and_digit a (2 ^ suc w - 2 ^ suc k),
      ap (bit_and (a / 2)) half,
      even,
      bit_and_clear w k (a / 2) (omega arith) (omega (arith, pow-suc 2 w)),
    )

-- For the factor `2 ^ k` and a value of 32 bits, the mask form of rounding down agrees with the
-- division form.
pub round_down_to_power_of2_lem :
    (value k : ℕ)
    → k < 31
    → value < 2 ^ 31
    → round_down_to_power_of2 value (2 ^ k) ≡ round_down value (2 ^ k)
unfolding round_down_to_power_of2 round_down
round_down_to_power_of2_lem value k h l =
    let mask : complement32 (2 ^ k - 1) ≡ 2 ^ 32 - 2 ^ k = omega (arith, two_pow_pos k) in
    rw mask (bit_and_clear 32 k value (omega arith) (omega arith))

-- For the factor `2 ^ k` and no overflow of 32 bits, the mask form of rounding up agrees with the
-- division form.
pub round_up_to_power_of2_lem :
    (value k : ℕ)
    → k < 31
    → value + 2 ^ k ≤ 2 ^ 31
    → round_up_to_power_of2 value (2 ^ k) ≡ round_up value (2 ^ k)
unfolding round_up_to_power_of2 round_up
round_up_to_power_of2_lem value k h l =
    let mask : complement32 (2 ^ k - 1) ≡ 2 ^ 32 - 2 ^ k = omega (arith, two_pow_pos k) in
    rw mask (bit_and_clear 32 k (value + (2 ^ k - 1)) (omega arith) (omega arith))

-- `TrailingBits` of a `uint64_t` is its remainder by `2 ^ num_bits`, on all three branches.
pub trailing_bits_lem : (v num_bits : ℕ) → v < 2 ^ 64 → trailing_bits v num_bits ≡ v % 2 ^ num_bits
unfolding trailing_bits
trailing_bits_lem v n h = elim (Bool-cases (n == 0)) [
  | inl z ↦ rw z (let e : n ≡ 0 = ==→eq n 0 z in rw e (omega arith))
  | inr nz ↦ rw nz (elim (Bool-cases (leb 64 n)) [
    | inl big ↦
        rw big
          (sym (mod-eq_of_lt (lt_le_trans h (pow-le-pow_right (omega arith) (leb→le 64 n big)))))
    | inr small ↦ rw small (cut (leb→gt 64 n small))
  ])
]
  where
    lt_le_trans : {a b c : ℕ} → a < b → b ≤ c → a < c
    lt_le_trans p q = omega arith

    cut : n < 64 → v * 2 ^ (64 - n) % 2 ^ 64 / 2 ^ (64 - n) ≡ v % 2 ^ n
    cut l =
        let e : 64 ≡ (64 - n) + n = omega arith in
        ap (λ (t : ℕ). v * 2 ^ (64 - n) % 2 ^ t / 2 ^ (64 - n)) e
        ∙ ap (λ (t : ℕ). t / 2 ^ (64 - n)) (mul-two_pow-mod v (64 - n) n)
        ∙ mul-two_pow-div (v % 2 ^ n) (64 - n)
