-- ===== src/BitUtil/Positions.antt =====
-- The position of the highest bit: `Log2` and `NumRequiredBits`.
use parquet_cpp.Common.{
  ℕ, zero, suc, ◌+◌, ◌-◌, ◌*◌, ◌/◌, ◌%◌, ◌^◌, ◌≤◌, ◌<◌, ◌≡◌, arith, bit_and, ap, ==→eq, ==→ne,
}
use parquet_cpp.Common.{Bool-cases, inl, inr, ◌==◌, ltb, ltb→lt, ltb→ge, ◌∙◌, refl, ◌⊎◌, ◌≢◌}
use parquet_cpp.BitUtil.{log2_loop, log2, num_required_bits_loop, num_required_bits}
use parquet_cpp.Common.Bits.{bit_and_digit, bit_and-zero}
use parquet_cpp.Common.Pow.{two_pow_pos, div-two_pow}
use native.Mathlib.Nat.{pow-suc, div-add-mod, mod-lt, div-eq_of_lt}

-- The loop of `Log2` adds the number of digits above the lowest one.
log2_loop_lem :
    (fuel x result : ℕ)
    → 0 < x
    → x < 2 ^ suc fuel
    → (k : ℕ) × (log2_loop fuel x result ≡ result + k) × (2 ^ k ≤ x) × (x < 2 ^ suc k)
unfolding log2_loop
log2_loop_lem zero x result p l = (0, omega arith, omega arith, omega arith)
log2_loop_lem (suc fuel) x result p l = elim (Bool-cases (x / 2 == 0)) [
  | inl z ↦ (0, rw z (omega arith), omega arith, omega (arith, ==→eq (x / 2) 0 z))
  | inr nz ↦
      let (k, e, lo, hi) =
        log2_loop_lem fuel (x / 2) (result + 1) (omega (arith, ==→ne (x / 2) 0 nz))
          (omega (arith, pow-suc 2 (suc fuel))) in
      (
        suc k,
        rw nz (omega (arith, e)),
        omega (arith, lo, pow-suc 2 k),
        omega (arith, hi, pow-suc 2 (suc k)),
      )
]

-- `Log2` of a positive `uint64_t` rounds up: its result is the least exponent whose power of two
-- reaches `x`.
pub log2_lem :
    (x : ℕ) → 0 < x → x < 2 ^ 64 → (x ≤ 2 ^ log2 x) × ((log2 x ≡ 0) ⊎ (2 ^ (log2 x - 1) < x))
unfolding log2
log2_lem x p l = elim (Bool-cases (x == 1)) [
  | inl one ↦ rw one (omega (arith, ==→eq x 1 one), inl refl)
  | inr more ↦ rw more (
      let (k, e, lo, hi) =
        log2_loop_lem 64 (x - 1) 1 (omega (arith, ==→ne x 1 more)) (omega arith) in
      let f : log2_loop 64 (x - 1) 1 ≡ suc k = omega (arith, e) in
      let g : suc k - 1 ≡ k = omega arith in rw (f, g) (omega (arith, hi), inr (omega (arith, lo))))
]

pub bit_and_bit : (i x : ℕ) → bit_and x (2 ^ i) ≡ x / 2 ^ i % 2 * 2 ^ i
bit_and_bit zero x = omega (arith, bit_and_digit x 1, bit_and-zero (x / 2))
bit_and_bit (suc i) x =
    let half : 2 ^ suc i / 2 ≡ 2 ^ i = omega (arith, pow-suc 2 i) in
    let even : 2 ^ suc i % 2 ≡ 0 = omega (arith, pow-suc 2 i) in
    let s : suc i ≡ 1 + i = omega arith in
    let d : x / 2 ^ suc i ≡ x / 2 / 2 ^ i = rw (s, ← div-two_pow x 1 i) in
    omega (
      arith,
      bit_and_digit x (2 ^ suc i),
      ap (bit_and (x / 2)) half,
      even,
      bit_and_bit i (x / 2),
      ap (λ (t : ℕ). t % 2 * 2 ^ suc i) d,
      ap (λ (t : ℕ). x / 2 / 2 ^ i % 2 * t) (pow-suc 2 i),
    )

-- Below `2 ^ (i + 1)` the bit `i` tells whether the number reaches `2 ^ i`.
top_bit : (i x : ℕ) → x < 2 ^ suc i → bit_and x (2 ^ i) ≡ 0 → x < 2 ^ i
top_bit i x l e =
    let d = div-add-mod x (2 ^ i) in
    let r = mod-lt x (two_pow_pos i) in grind (arith, d, r, bit_and_bit i x, pow-suc 2 i)

top_bit_set : (i x : ℕ) → bit_and x (2 ^ i) ≢ 0 → 2 ^ i ≤ x
top_bit_set i x ne = elim (Bool-cases (ltb x (2 ^ i))) [
  | inl small ↦
      absurd (ne (bit_and_bit i x ∙ rw (div-eq_of_lt (ltb→lt x (2 ^ i) small)) (omega arith)))
  | inr big ↦ ltb→ge x (2 ^ i) big
]

num_required_bits_loop_lem :
    (i x : ℕ)
    → x < 2 ^ i
    → (x < 2 ^ num_required_bits_loop i x)
      × ((num_required_bits_loop i x ≡ 0) ⊎ (2 ^ (num_required_bits_loop i x - 1) ≤ x))
unfolding num_required_bits_loop
num_required_bits_loop_lem zero x l = (l, inl refl)
num_required_bits_loop_lem (suc i) x l = elim (Bool-cases (bit_and x (2 ^ i) == 0)) [
  | inl z ↦ rw z (num_required_bits_loop_lem i x (top_bit i x l (==→eq _ 0 z)))
  | inr nz ↦
      let s : i + 1 ≡ suc i = omega arith in
      let p : suc i - 1 ≡ i = omega arith in rw (nz, s, p) (l, inr (top_bit_set i x (==→ne _ 0 nz)))
]

-- `NumRequiredBits` of a `uint64_t` is the least width that holds the value.
pub num_required_bits_lem :
    (x : ℕ)
    → x < 2 ^ 64
    → (x < 2 ^ num_required_bits x)
      × ((num_required_bits x ≡ 0) ⊎ (2 ^ (num_required_bits x - 1) ≤ x))
unfolding num_required_bits
num_required_bits_lem x l = num_required_bits_loop_lem 64 x l
