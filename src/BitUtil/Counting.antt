-- ===== src/BitUtil/Counting.antt =====
-- `PopcountNoHw` counts the one bits.
use parquet_cpp.Common.{
  ℕ, zero, suc, ◌+◌, ◌-◌, ◌*◌, ◌/◌, ◌%◌, ◌^◌, ◌≤◌, ◌<◌, ◌≡◌, arith, bit_and, ap, ==→eq, ==→ne,
}
use parquet_cpp.Common.{Bool-cases, inl, inr, ◌==◌, refl}
use parquet_cpp.BitUtil.{popcount_loop, popcount_no_hw}
use parquet_cpp.Common.Bits.{bit_and_digit, zero-bit_and}
use native.Mathlib.Nat.{pow-suc}

-- The sum of the `n` lowest binary digits.
pub ones : ℕ → ℕ → ℕ
ones zero x = 0
ones (suc n) x = x % 2 + ones n (x / 2)

ones-le : (n x : ℕ) → ones n x ≤ n
unfolding ones
ones-le zero x = omega arith
ones-le (suc n) x = omega (arith, ones-le n (x / 2))

ones-zero : (n : ℕ) → ones n 0 ≡ 0
unfolding ones
ones-zero zero = refl
ones-zero (suc n) = omega (arith, ones-zero n)

bit_and_self : (n x : ℕ) → x < 2 ^ n → bit_and x x ≡ x
bit_and_self zero x h = ground (arith, zero-bit_and x)
bit_and_self (suc n) x h =
    omega (arith, bit_and_digit x x, bit_and_self n (x / 2) (omega (arith, pow-suc 2 n)))

-- `x & (x - 1)` has one bit fewer.
clear_lowest :
    (n x : ℕ)
    → 0 < x
    → x < 2 ^ n
    → (ones n (bit_and x (x - 1)) + 1 ≡ ones n x) × (bit_and x (x - 1) < 2 ^ n)
unfolding ones
clear_lowest zero x h l = absurd (omega arith)
clear_lowest (suc n) x h l = elim (Bool-cases (x % 2 == 0)) [
  | inl even ↦
      let e : x % 2 ≡ 0 = ==→eq (x % 2) 0 even in
      let p : (x - 1) / 2 ≡ x / 2 - 1 = omega arith in
      let d = bit_and_digit x (x - 1) in
      let rest = clear_lowest n (x / 2) (omega arith) (omega (arith, pow-suc 2 n)) in
      let r : bit_and x (x - 1) ≡ bit_and (x / 2) (x / 2 - 1) * 2 =
        omega (arith, d, ap (bit_and (x / 2)) p) in
      let q : bit_and x (x - 1) / 2 ≡ bit_and (x / 2) (x / 2 - 1) = omega arith in
      (omega (arith, rest.0, ap (ones n) q), omega (arith, rest.1, pow-suc 2 n))
  | inr odd ↦
      let e : x % 2 ≡ 1 = omega (arith, ==→ne (x % 2) 0 odd) in
      let p : (x - 1) / 2 ≡ x / 2 = omega arith in
      let d = bit_and_digit x (x - 1) in
      let r : bit_and x (x - 1) ≡ x / 2 * 2 =
        omega
          (arith, d, ap (bit_and (x / 2)) p, bit_and_self n (x / 2) (omega (arith, pow-suc 2 n))) in
      let q : bit_and x (x - 1) / 2 ≡ x / 2 = omega arith in
      (omega (arith, ap (ones n) q), omega arith)
]

popcount_loop_lem :
    (fuel n x count : ℕ)
    → x < 2 ^ n
    → ones n x ≤ fuel
    → popcount_loop fuel x count ≡ count + ones n x
unfolding popcount_loop
popcount_loop_lem zero n x count l h = omega arith
popcount_loop_lem (suc fuel) n x count l h = elim (Bool-cases (x == 0)) [
  | inl z ↦ rw z (let e : x ≡ 0 = ==→eq x 0 z in rw e (omega (arith, ones-zero n)))
  | inr nz ↦
      let pos : 0 < x = omega (arith, ==→ne x 0 nz) in
      let c = clear_lowest n x pos l in
      rw nz (
        omega (
          arith,
          c.0,
          popcount_loop_lem fuel n (bit_and x (x - 1)) (count + 1) c.1 (omega (arith, c.0)),
        ))
]

-- `PopcountNoHw` returns the number of one bits of a `uint64_t`.
pub popcount_no_hw_lem : (x : ℕ) → x < 2 ^ 64 → popcount_no_hw x ≡ ones 64 x
unfolding popcount_no_hw
popcount_no_hw_lem x l = omega (arith, popcount_loop_lem 64 64 x 0 l (ones-le 64 x))
