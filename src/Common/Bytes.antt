-- ===== src/Common/Bytes.antt =====
-- Little-endian bytes of a number, and `memcpy` into a buffer.
use Prim.Native.Nat.{ℕ, zero, suc, ◌+◌, ◌*◌, ◌/◌, ◌%◌, ◌^◌, ◌≤◌, ◌<◌}
use mathlib.Core.Path.{◌≡◌, refl, ap, ap₂, ◌∙◌, sym}
use mathlib.Core.List.{List, [], ◌∷◌, ◌++◌}
use native.Mathlib.Omega.{arith}
use native.Mathlib.Nat.{zero-div, zero-mod}
use parquet_cpp.Common.Lists.{length, take, drop, All, length-append, length-take, length-drop}
use parquet_cpp.Common.Lists.{take-append, All-append}
use parquet_cpp.Common.Tests.{ltb, ltb→lt, and_both}
use mathlib.Core.Bool.{Bool, true, ◌&&◌}
use mathlib.Core.List.{append_assoc}
use parquet_cpp.Common.Pow.{pow-add, two_pow_pos, mod_product, div-two_pow, fields_mod}

abbrev pub IsByte : ℕ → Type 0
IsByte b = b < 256

-- The first `n` bytes in memory of the number `x`.
abbrev pub le_bytes : ℕ → ℕ → List ℕ
le_bytes zero x = []
le_bytes (suc n) x = (x % 256) ∷ le_bytes n (x / 256)

-- The number that the bytes stand for.
abbrev pub le_value : List ℕ → ℕ
le_value [] = 0
le_value (b ∷ bs) = b + 256 * le_value bs

-- `memcpy(buf + off, bytes, length bytes)`, for a range inside `buf`.
abbrev pub store : List ℕ → ℕ → List ℕ → List ℕ
store buf off bytes = take off buf ++ (bytes ++ drop (off + length bytes) buf)

-- `memcpy(&word, bytes, length bytes)`: the bytes of `word` behind them keep their values.
abbrev pub load_over : ℕ → List ℕ → ℕ
load_over word bytes = le_value bytes + word / 2 ^ (8 * length bytes) * 2 ^ (8 * length bytes)

pub pow_byte : (n : ℕ) → 2 ^ (8 * suc n) ≡ 256 * 2 ^ (8 * n)
pow_byte n = let e : 8 * suc n ≡ 8 + 8 * n = omega arith in rw (e, pow-add 2 8 (8 * n))

pub length-le_bytes : (n x : ℕ) → length (le_bytes n x) ≡ n
length-le_bytes zero x = refl
length-le_bytes (suc n) x = ap suc (length-le_bytes n (x / 256))

pub le_bytes-IsByte : (n x : ℕ) → All IsByte (le_bytes n x)
le_bytes-IsByte zero x = tt
le_bytes-IsByte (suc n) x = (omega arith, le_bytes-IsByte n (x / 256))

pub le_value-lt : (bs : List ℕ) → All IsByte bs → le_value bs < 2 ^ (8 * length bs)
le_value-lt [] h = omega arith
le_value-lt (b ∷ bs) h = omega (arith, pow_byte (length bs), le_value-lt bs h.1)

pub le_value-le_bytes : (n x : ℕ) → le_value (le_bytes n x) ≡ x % 2 ^ (8 * n)
le_value-le_bytes zero x = omega arith
le_value-le_bytes (suc n) x = omega (
  arith,
  ap (λ (t : ℕ). x % t) (pow_byte n),
  mod_product x 256 (2 ^ (8 * n)) (omega arith) (two_pow_pos (8 * n)),
  le_value-le_bytes n (x / 256),
)

pub le_bytes-le_value : (bs : List ℕ) → All IsByte bs → le_bytes (length bs) (le_value bs) ≡ bs
le_bytes-le_value [] h = refl
le_bytes-le_value (b ∷ bs) h =
    let low : (b + 256 * le_value bs) % 256 ≡ b = omega arith in
    let high : (b + 256 * le_value bs) / 256 ≡ le_value bs = omega arith in
    rw (low, high, le_bytes-le_value bs h.1)

pub le_value-append :
    (xs ys : List ℕ) → le_value (xs ++ ys) ≡ le_value xs + le_value ys * 2 ^ (8 * length xs)
le_value-append [] ys = omega arith
le_value-append (x ∷ xs) ys =
    omega (arith, le_value-append xs ys, ap (λ (t : ℕ). le_value ys * t) (pow_byte (length xs)))

pub le_bytes-append :
    (m n x : ℕ) → le_bytes (m + n) x ≡ le_bytes m x ++ le_bytes n (x / 2 ^ (8 * m))
le_bytes-append zero n x =
    let e : 0 + n ≡ n = omega arith in let d : x / 2 ^ (8 * 0) ≡ x = omega arith in rw (e, d)
le_bytes-append (suc m) n x =
    let e : suc m + n ≡ suc (m + n) = omega arith in
    let s : 8 * suc m ≡ 8 + 8 * m = omega arith in
    rw (e, s, ← div-two_pow x 8 (8 * m), le_bytes-append m n (x / 256))

-- Bytes of a number that has zeros from some byte on; numbers that agree below.
pub le_bytes-mod : (n x : ℕ) → le_bytes n (x % 2 ^ (8 * n)) ≡ le_bytes n x
le_bytes-mod n x =
    ap₂ le_bytes (sym (length-le_bytes n x)) (sym (le_value-le_bytes n x))
    ∙ le_bytes-le_value (le_bytes n x) (le_bytes-IsByte n x)

pub le_value-take :
    (n : ℕ) (bs : List ℕ) → All IsByte bs → le_value (take n bs) ≡ le_value bs % 2 ^ (8 * n)
le_value-take zero bs h = omega arith
le_value-take (suc n) [] h = sym (zero-mod (2 ^ (8 * suc n)))
le_value-take (suc n) (b ∷ bs) h = omega (
  arith,
  ap (λ (t : ℕ). (b + 256 * le_value bs) % t) (pow_byte n),
  mod_product (b + 256 * le_value bs) 256 (2 ^ (8 * n)) (omega arith) (two_pow_pos (8 * n)),
  ap (λ (t : ℕ). t % 2 ^ (8 * n)) (high b (le_value bs) h.0),
  le_value-take n bs h.1,
)
  where
    high : (b v : ℕ) → b < 256 → (b + 256 * v) / 256 ≡ v
    high b v h = omega arith

pub le_value-drop :
    (n : ℕ) (bs : List ℕ) → All IsByte bs → le_value (drop n bs) ≡ le_value bs / 2 ^ (8 * n)
le_value-drop zero bs h = omega arith
le_value-drop (suc n) [] h = sym (zero-div (2 ^ (8 * suc n)))
le_value-drop (suc n) (b ∷ bs) h =
    let s : 8 * suc n ≡ 8 + 8 * n = omega arith in
    let high : (b + 256 * le_value bs) / 2 ^ 8 ≡ le_value bs = omega arith in
    rw (s, ← div-two_pow (b + 256 * le_value bs) 8 (8 * n), high) (le_value-drop n bs h.1)

pub All-take : (n : ℕ) (bs : List ℕ) → All IsByte bs → All IsByte (take n bs)
All-take zero bs h = tt
All-take (suc n) [] h = tt
All-take (suc n) (b ∷ bs) h = (h.0, All-take n bs h.1)

pub All-drop : (n : ℕ) (bs : List ℕ) → All IsByte bs → All IsByte (drop n bs)
All-drop zero bs h = h
All-drop (suc n) [] h = tt
All-drop (suc n) (b ∷ bs) h = All-drop n bs h.1

pub length-store :
    (buf : List ℕ) (off : ℕ) (bytes : List ℕ)
    → off + length bytes ≤ length buf
    → length (store buf off bytes) ≡ length buf
length-store buf off bytes h = omega (
  arith,
  length-append (take off buf) (bytes ++ drop (off + length bytes) buf),
  length-append bytes (drop (off + length bytes) buf),
  length-take off buf (omega arith),
  length-drop (off + length bytes) buf,
)

pub take-store :
    (buf : List ℕ) (off : ℕ) (bytes : List ℕ)
    → off ≤ length buf
    → take off (store buf off bytes) ≡ take off buf
take-store buf off bytes h = take-append off (take off buf) _ (sym (length-take off buf h))

-- What was stored, with what stands below it.
pub take-store_end :
    (buf : List ℕ) (off : ℕ) (bytes : List ℕ)
    → off ≤ length buf
    → take (off + length bytes) (store buf off bytes) ≡ take off buf ++ bytes
take-store_end buf off bytes h =
    ap (take (off + length bytes))
      (sym (append_assoc (take off buf) bytes (drop (off + length bytes) buf)))
    ∙ take-append (off + length bytes) (take off buf ++ bytes) _
        (omega (arith, length-append (take off buf) bytes, length-take off buf h))

pub All-store :
    (buf : List ℕ) (off : ℕ) (bytes : List ℕ)
    → All IsByte buf
    → All IsByte bytes
    → All IsByte (store buf off bytes)
All-store buf off bytes h k =
    All-append IsByte (take off buf) _ (All-take off buf h)
      (All-append IsByte bytes _ k (All-drop (off + length bytes) buf h))

-- The loaded bytes of `load_over` are its low digits.
pub load_over-mod :
    (word : ℕ) (bytes : List ℕ)
    → All IsByte bytes
    → load_over word bytes % 2 ^ (8 * length bytes) ≡ le_value bytes
load_over-mod word bytes h = fields_mod (8 * length bytes) (le_value bytes) _ (le_value-lt bytes h)

-- A test of concrete bytes.
abbrev pub all_bytes : List ℕ → Bool
all_bytes [] = true
all_bytes (b ∷ bs) = ltb b 256 && all_bytes bs

pub all_bytes_sound : (bs : List ℕ) → all_bytes bs ≡ true → All IsByte bs
all_bytes_sound [] e = tt
all_bytes_sound (b ∷ bs) e = let (h, k) = and_both _ _ e in (ltb→lt b 256 h, all_bytes_sound bs k)
