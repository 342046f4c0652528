-- ===== src/Common/Bits.antt =====
-- `|`, `&` and `^` of words as arithmetic: the digit equations that the native operations stand
-- for, and what they give for disjoint fields, low masks and an inversion.
use Prim.Native.Nat.{ℕ, zero, suc, ◌+◌, ◌-◌, ◌*◌, ◌/◌, ◌%◌, ◌^◌, ◌≤◌, ◌<◌, min, max, digits, differ}
use Prim.Native.Nat.{bit_and, bit_or, bit_xor, bit_and-bitwise, bit_or-bitwise, bit_xor-bitwise}
use mathlib.Core.Path.{◌≡◌, refl, ap, ◌∙◌}
use native.Mathlib.Omega.{arith}
use native.Mathlib.Nat.{pow-suc, mul_comm}
use parquet_cpp.Common.Pow.{two_pow_pos, mod_product}

-- More fuel than the first argument changes nothing.
module _ (z : ℕ → ℕ) (f : ℕ → ℕ → ℕ) where
  fuel_irrelevant : (n m a b : ℕ) → a ≤ n → a ≤ m → digits z f n a b ≡ digits z f m a b
  fuel_irrelevant zero m zero b p q = from_zero m
    where
      from_zero : (m : ℕ) → digits z f zero zero b ≡ digits z f m zero b
      from_zero zero = refl
      from_zero (suc m) = refl
  fuel_irrelevant zero m (suc a) b p q = absurd (omega arith)
  fuel_irrelevant (suc n) zero zero b p q = refl
  fuel_irrelevant (suc n) zero (suc a) b p q = absurd (omega arith)
  fuel_irrelevant (suc n) (suc m) zero b p q = refl
  fuel_irrelevant (suc n) (suc m) (suc a) b p q =
      ap (λ t. t * 2 + f (suc a % 2) (b % 2))
        (fuel_irrelevant n m (suc a / 2) (b / 2) (omega arith) (omega arith))

  -- The lowest digit of a nonzero first argument.
  lowest_digit :
      (a b : ℕ)
      → digits z f (suc a) (suc a) b
        ≡ digits z f (suc a / 2) (suc a / 2) (b / 2) * 2 + f (suc a % 2) (b % 2)
  lowest_digit a b =
      ap (λ t. t * 2 + f (suc a % 2) (b % 2))
        (fuel_irrelevant a (suc a / 2) (suc a / 2) (b / 2) (omega arith) (omega arith))

pub zero-bit_or : (b : ℕ) → bit_or 0 b ≡ b
zero-bit_or b = bit_or-bitwise 0 b

pub zero-bit_and : (b : ℕ) → bit_and 0 b ≡ 0
zero-bit_and b = bit_and-bitwise 0 b

pub zero-bit_xor : (b : ℕ) → bit_xor 0 b ≡ b
zero-bit_xor b = bit_xor-bitwise 0 b

pub bit_or_digit : (a b : ℕ) → bit_or a b ≡ bit_or (a / 2) (b / 2) * 2 + max (a % 2) (b % 2)
bit_or_digit zero b = omega (arith, zero-bit_or b, zero-bit_or (b / 2))
bit_or_digit (suc a) b =
    rw (bit_or-bitwise (suc a) b, bit_or-bitwise (suc a / 2) (b / 2))
      (lowest_digit (λ y. y) max a b)

pub bit_and_digit : (a b : ℕ) → bit_and a b ≡ bit_and (a / 2) (b / 2) * 2 + min (a % 2) (b % 2)
bit_and_digit zero b = omega (arith, zero-bit_and b, zero-bit_and (b / 2))
bit_and_digit (suc a) b =
    rw (bit_and-bitwise (suc a) b, bit_and-bitwise (suc a / 2) (b / 2))
      (lowest_digit (λ y. 0) min a b)

pub bit_xor_digit : (a b : ℕ) → bit_xor a b ≡ bit_xor (a / 2) (b / 2) * 2 + differ (a % 2) (b % 2)
bit_xor_digit zero b = omega (arith, zero-bit_xor b, zero-bit_xor (b / 2))
bit_xor_digit (suc a) b =
    rw (bit_xor-bitwise (suc a) b, bit_xor-bitwise (suc a / 2) (b / 2))
      (lowest_digit (λ y. y) differ a b)

-- `x | (v << k)` is a sum when `x` fits `k` bits.
pub bit_or_shifted : (k x v : ℕ) → x < 2 ^ k → bit_or x (v * 2 ^ k) ≡ x + v * 2 ^ k
bit_or_shifted zero x v h = ground (arith, zero-bit_or v)
bit_or_shifted (suc k) x v h = ground (
  arith,
  pow-suc 2 k,
  ap (λ (t : ℕ). v * t) (pow-suc 2 k),
  bit_or_digit x (v * 2 ^ suc k),
  bit_or_shifted k (x / 2) v (omega (arith, pow-suc 2 k)),
)

bit_and_zero_below : (n a : ℕ) → a < 2 ^ n → bit_and a 0 ≡ 0
bit_and_zero_below zero a h = let e : a ≡ 0 = omega arith in rw e (zero-bit_and 0)
bit_and_zero_below (suc n) a h =
    omega (arith, bit_and_digit a 0, bit_and_zero_below n (a / 2) (omega (arith, pow-suc 2 n)))

lt-two_pow : (n : ℕ) → n < 2 ^ n
lt-two_pow zero = omega arith
lt-two_pow (suc n) = omega (arith, pow-suc 2 n, lt-two_pow n)

pub bit_and-zero : (a : ℕ) → bit_and a 0 ≡ 0
bit_and-zero a = bit_and_zero_below a a (lt-two_pow a)

half_mod : (k a : ℕ) → a / 2 % 2 ^ k * 2 + a % 2 ≡ a % (2 ^ k * 2)
half_mod k a = omega (
  arith,
  ap (λ (t : ℕ). a % t) (mul_comm (2 ^ k) 2),
  mod_product a 2 (2 ^ k) (omega arith) (two_pow_pos k),
)

min_digit : (a : ℕ) → min (a % 2) 1 ≡ a % 2
min_digit a = omega arith

differ_digit : (d : ℕ) → d < 2 → differ d 1 ≡ 1 - d
differ_digit zero h = refl
differ_digit (suc zero) h = refl
differ_digit (suc (suc d)) h = absurd (omega arith)

differ_one : (a : ℕ) → differ (a % 2) 1 ≡ 1 - a % 2
differ_one a = differ_digit (a % 2) (omega arith)

-- A mask of the `k` low bits is the remainder by `2 ^ k`.
pub bit_and_mask : (k a : ℕ) → bit_and a (2 ^ k - 1) ≡ a % 2 ^ k
bit_and_mask zero a = ground (arith, bit_and-zero a)
bit_and_mask (suc k) a =
    let half : (2 ^ suc k - 1) / 2 ≡ 2 ^ k - 1 = omega (arith, pow-suc 2 k, two_pow_pos k) in
    let odd : (2 ^ suc k - 1) % 2 ≡ 1 = omega (arith, pow-suc 2 k, two_pow_pos k) in
    rw (bit_and_digit a (2 ^ suc k - 1), half, odd, bit_and_mask k (a / 2), pow-suc)
      (ap (λ t. a / 2 % 2 ^ k * 2 + t) (min_digit a) ∙ half_mod k a)

-- `^` with `k` ones inverts the `k` low bits.
pub bit_xor_ones : (k a : ℕ) → a < 2 ^ k → bit_xor a (2 ^ k - 1) ≡ 2 ^ k - 1 - a
bit_xor_ones zero a h = let e : a ≡ 0 = omega arith in rw e (zero-bit_xor 0)
bit_xor_ones (suc k) a h =
    let half : (2 ^ suc k - 1) / 2 ≡ 2 ^ k - 1 = omega (arith, pow-suc 2 k, two_pow_pos k) in
    let odd : (2 ^ suc k - 1) % 2 ≡ 1 = omega (arith, pow-suc 2 k, two_pow_pos k) in
    rw
      (
        bit_xor_digit a (2 ^ suc k - 1),
        half,
        odd,
        bit_xor_ones k (a / 2) (omega (arith, pow-suc 2 k)),
      )
      (omega (arith, pow-suc 2 k, differ_one a))

bit_xor_zero_below : (n a : ℕ) → a < 2 ^ n → bit_xor a 0 ≡ a
bit_xor_zero_below zero a h = let e : a ≡ 0 = omega arith in rw e (zero-bit_xor 0)
bit_xor_zero_below (suc n) a h = omega (
  arith,
  bit_xor_digit a 0,
  differ_zero (a % 2),
  bit_xor_zero_below n (a / 2) (omega (arith, pow-suc 2 n)),
)
  where
    differ_zero : (d : ℕ) → differ d 0 ≡ d
    differ_zero zero = refl
    differ_zero (suc d) = refl

pub bit_xor-zero : (a : ℕ) → bit_xor a 0 ≡ a
bit_xor-zero a = bit_xor_zero_below a a (lt-two_pow a)
