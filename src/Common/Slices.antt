-- ===== src/Common/Slices.antt =====
-- Consecutive fields of `w` binary digits of a number, lowest first: the reference view of a
-- bit-packed stream.
use Prim.Native.Nat.{ℕ, zero, suc, ◌+◌, ◌-◌, ◌*◌, ◌/◌, ◌%◌, ◌^◌, ◌≤◌, ◌<◌}
use mathlib.Core.Path.{◌≡◌, refl, ap, ap₂, ◌∙◌}
use mathlib.Core.List.{List, [], ◌∷◌, ◌++◌}
use native.Mathlib.Omega.{arith}
use parquet_cpp.Common.Lists.{length, All, replicate}
use parquet_cpp.Common.Pow.{div-two_pow, fields_div, fields_mod, mod-two_pow-mod, mod-two_pow-div}

abbrev pub slices : ℕ → ℕ → ℕ → List ℕ
slices w zero x = []
slices w (suc n) x = (x % 2 ^ w) ∷ slices w n (x / 2 ^ w)

pub length-slices : (w n x : ℕ) → length (slices w n x) ≡ n
length-slices w zero x = refl
length-slices w (suc n) x = ap suc (length-slices w n (x / 2 ^ w))

pub slices-append :
    (w m n x : ℕ) → slices w (m + n) x ≡ slices w m x ++ slices w n (x / 2 ^ (w * m))
slices-append w zero n x =
    let e : 0 + n ≡ n = omega arith in let f : x / 2 ^ (w * 0) ≡ x = by_zero in rw (e, f)
  where
    by_zero : x / 2 ^ (w * 0) ≡ x
    by_zero = let z : w * 0 ≡ 0 = omega arith in rw z (omega arith)
slices-append w (suc m) n x =
    let e : suc m + n ≡ suc (m + n) = omega arith in
    let f : w * suc m ≡ w + w * m = omega arith in
    rw (e, f, ← div-two_pow x w (w * m), slices-append w m n (x / 2 ^ w))

pub slices-zero_width : (n x : ℕ) → slices 0 n x ≡ replicate n 0
slices-zero_width zero x = refl
slices-zero_width (suc n) x =
    let e : x % 2 ^ 0 ≡ 0 = omega arith in rw (e, slices-zero_width n (x / 2 ^ 0))

-- The number whose fields are the values: the inverse of `slices`.
abbrev pub packed : ℕ → List ℕ → ℕ
packed w [] = 0
packed w (v ∷ vs) = v + packed w vs * 2 ^ w

pub slices-packed :
    (w : ℕ) (vs : List ℕ) → All (λ v. v < 2 ^ w) vs → slices w (length vs) (packed w vs) ≡ vs
slices-packed w [] h = refl
slices-packed w (v ∷ vs) h =
    rw (fields_mod w v (packed w vs) h.0, fields_div w v (packed w vs) h.0, slices-packed w vs h.1)

-- Digits above the last field do not matter.
pub slices-mod : (w n k x : ℕ) → w * n ≤ k → slices w n (x % 2 ^ k) ≡ slices w n x
slices-mod w zero k x h = refl
slices-mod w (suc n) k x h =
    let e : k ≡ w + (k - w) = omega arith in
    let f : w + (k - w) ≡ k = omega arith in
    ap₂ ◌∷◌ (ap (λ (t : ℕ). x % 2 ^ t % 2 ^ w) e ∙ mod-two_pow-mod x w (k - w)) (
      ap (λ (t : ℕ). slices w n (x % 2 ^ t / 2 ^ w)) e
      ∙ ap (slices w n) (mod-two_pow-div x w (k - w))
      ∙ slices-mod w n (k - w) (x / 2 ^ w) (omega arith))
