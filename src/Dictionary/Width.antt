-- ===== src/Dictionary/Width.antt =====
-- The bit width of the buffered indices.
use parquet_cpp.Common.{
  ℕ, zero, suc, ◌-◌, ◌^◌, ◌≤◌, ◌<◌, ◌≡◌, ◌⊎◌, inl, inr, arith, false, ◌==◌, Bool-cases, leb, leb→le,
  leb→gt, ne→==, ==→eq, ==→ne,
}
use parquet_cpp.BitUtil.{log2}
use parquet_cpp.BitUtil.Positions.{log2_lem}
use native.Mathlib.Nat.{pow-le-pow_right}
use parquet_cpp.Dictionary.{DictEncoder, bit_width, num_entries}

-- A power of two below `2 ^ 31` has a small exponent.
small_exponent : (k : ℕ) → 2 ^ (k - 1) < 2 ^ 31 → k ≤ 32
small_exponent k h = elim (Bool-cases (leb k 32)) [
  | inl e ↦ leb→le k 32 e
  | inr e ↦
      let large : 2 ^ 32 ≤ 2 ^ (k - 1) =
        pow-le-pow_right {n = 2} (omega arith) {i = 32} {j = k - 1}
          (omega (arith, leb→gt k 32 e)) in
      absurd (omega (arith, large))
]

log2_range :
    (k n : ℕ) → 1 < n → n < 2 ^ 31 → n ≤ 2 ^ k → (k ≡ 0) ⊎ (2 ^ (k - 1) < n) → (1 ≤ k) × (k ≤ 32)
log2_range zero n more few reach least = absurd (omega arith)
log2_range (suc k) n more few reach (inl e) = absurd (omega arith)
log2_range (suc k) n more few reach (inr l) =
    (omega arith, small_exponent (suc k) (omega (arith, l, few)))

module _ {ℓ} {A : Type ℓ} (d : DictEncoder A) where
  -- The width that `WriteIndices` stores is one that the RLE encoding takes, and the indices fit.
  pub bit_width_lem :
      0 < num_entries d
      → num_entries d < 2 ^ 31
      → (1 ≤ bit_width d) × (bit_width d ≤ 32) × (num_entries d ≤ 2 ^ bit_width d)
  unfolding bit_width
  bit_width_lem some_entry few =
      let (reach, least) = log2_lem (num_entries d) some_entry (omega (arith, few)) in
      let nz : (num_entries d == 0) ≡ false = ne→== (num_entries d) 0 (ground arith) in
      elim (Bool-cases (num_entries d == 1)) [
        | inl one ↦
            rw (bit_width, nz, one)
              (omega arith, omega arith, omega (arith, ==→eq (num_entries d) 1 one))
        | inr more ↦
            let range =
              log2_range (log2 (num_entries d)) (num_entries d)
                (omega (arith, some_entry, ==→ne (num_entries d) 1 more)) few reach least in
            rw (bit_width, nz, more) (range.0, range.1, reach)
      ]
