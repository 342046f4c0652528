-- ===== src/Common/Pow.antt =====
-- Powers of two under `+`, `/` and `%`, and slices of a number's binary digits.
use Prim.Native.Nat.{ℕ, zero, suc, ◌+◌, ◌*◌, ◌/◌, ◌%◌, ◌^◌, ◌<◌}
use mathlib.Core.Path.{◌≡◌, ap, ◌∙◌, sym}
use native.Mathlib.Omega.{arith}
use native.Mathlib.Nat.{
  pow-suc, pow-zero, one-le-pow, div-div-eq-div-mul, mul_assoc, add-zero, add-suc, zero-add,
}
use native.Mathlib.Nat.{
  mul-div_cancel, add-mul-div_right, div-eq_of_lt, mod-eq_of_lt, add-mul-mod_self_right,
}
use native.Mathlib.Nat.{mod-lt, div-add-mod, mul-mod_left, div-lt_iff_lt-mul}

pub pow-add : (b m n : ℕ) → b ^ (m + n) ≡ b ^ m * b ^ n
pow-add b m zero = rw (add-zero, pow-zero) (omega arith)
pow-add b m (suc n) = rw (add-suc, pow-suc, pow-suc, pow-add b m n) (mul_assoc (b ^ m) (b ^ n) b)

pub two_pow_pos : (n : ℕ) → 0 < 2 ^ n
two_pow_pos n = one-le-pow n 2 (omega arith)

pub div-two_pow : (x m n : ℕ) → x / 2 ^ m / 2 ^ n ≡ x / 2 ^ (m + n)
div-two_pow x m n =
    div-div-eq-div-mul x (2 ^ m) (2 ^ n) ∙ ap (λ (t : ℕ). x / t) (sym (pow-add 2 m n))

-- The digits from `m` up are what is left of a multiple of `2 ^ m` and a smaller number.
pub mul-two_pow-div : (v m : ℕ) → v * 2 ^ m / 2 ^ m ≡ v
mul-two_pow-div v m = mul-div_cancel v (two_pow_pos m)

pub fields_div : (k x v : ℕ) → x < 2 ^ k → (x + v * 2 ^ k) / 2 ^ k ≡ v
fields_div k x v h = rw (add-mul-div_right x v (two_pow_pos k), div-eq_of_lt h) (zero-add v)

pub fields_mod : (k x v : ℕ) → x < 2 ^ k → (x + v * 2 ^ k) % 2 ^ k ≡ x
fields_mod k x v h = add-mul-mod_self_right x v (2 ^ k) ∙ mod-eq_of_lt h

-- Digits in base `m`, and then in base `n`.
sum_below : (r s m n : ℕ) → r < m → s < n → r + s * m < m * n
sum_below r s m n h k = grind arith

split_number : (x m n : ℕ) → x ≡ (x % m + x / m % n * m) + x / m / n * (m * n)
split_number x m n = omega (arith, div-add-mod x m, ap (λ (t : ℕ). t * m) (div-add-mod (x / m) n))

pub mod_product : (x m n : ℕ) → 0 < m → 0 < n → x % (m * n) ≡ x % m + x / m % n * m
mod_product x m n hm hn =
    ap (λ (t : ℕ). t % (m * n)) (split_number x m n)
    ∙ add-mul-mod_self_right (x % m + x / m % n * m) (x / m / n) (m * n)
    ∙ mod-eq_of_lt (sum_below (x % m) (x / m % n) m n (mod-lt x hm) (mod-lt (x / m) hn))

pub mod_split : (x m n : ℕ) → x % 2 ^ (m + n) ≡ x % 2 ^ m + x / 2 ^ m % 2 ^ n * 2 ^ m
mod_split x m n = rw (pow-add 2 m n) (mod_product x (2 ^ m) (2 ^ n) (two_pow_pos m) (two_pow_pos n))

-- `n` digits from place `m` on: first cut above, or first shift.
pub mod-two_pow-div : (x m n : ℕ) → x % 2 ^ (m + n) / 2 ^ m ≡ x / 2 ^ m % 2 ^ n
mod-two_pow-div x m n =
    rw (mod_split x m n) (fields_div m (x % 2 ^ m) (x / 2 ^ m % 2 ^ n) (mod-lt x (two_pow_pos m)))

pub mod-two_pow-mod : (x m n : ℕ) → x % 2 ^ (m + n) % 2 ^ m ≡ x % 2 ^ m
mod-two_pow-mod x m n =
    rw (mod_split x m n) (fields_mod m (x % 2 ^ m) (x / 2 ^ m % 2 ^ n) (mod-lt x (two_pow_pos m)))

-- A left shift that wraps at `2 ^ (m + n)` keeps the `n` low bits.
pub mul-two_pow-mod : (v m n : ℕ) → v * 2 ^ m % 2 ^ (m + n) ≡ v % 2 ^ n * 2 ^ m
mul-two_pow-mod v m n =
    rw (mod_split (v * 2 ^ m) m n, mul-two_pow-div v m, mul-mod_left v (2 ^ m)) (zero-add _)

pub sum_below_two_pow : (r s m n : ℕ) → r < 2 ^ m → s < 2 ^ n → r + s * 2 ^ m < 2 ^ (m + n)
sum_below_two_pow r s m n h k = rw (pow-add 2 m n) (sum_below r s (2 ^ m) (2 ^ n) h k)

pub mul-two_pow-lt : (s m n : ℕ) → s < 2 ^ n → s * 2 ^ m < 2 ^ (m + n)
mul-two_pow-lt s m n k = omega (arith, sum_below_two_pow 0 s m n (two_pow_pos m) k)

pub div-two_pow-lt : (v m n : ℕ) → v < 2 ^ (m + n) → v / 2 ^ m < 2 ^ n
div-two_pow-lt v m n h = (div-lt_iff_lt-mul (two_pow_pos m)).1 (omega (arith, pow-add 2 m n))
