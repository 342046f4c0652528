-- ===== src/Rle/RunStart.antt =====
-- What stands behind the indicator of a run.
use parquet_cpp.Common.{
  ℕ, ◌+◌, ◌*◌, ◌^◌, ◌≤◌, ◌<◌, ◌≡◌, List, ◌++◌, length, take, drop, All, arith, refl,
}
use parquet_cpp.Common.{
  true, false, ap, ◌∙◌, sym, leb, ◌==◌, bit_and, length-append, drop-drop, drop-append, take-append,
  gt→leb, eq→==, ne→==,
}
use parquet_cpp.Common.Bits.{bit_and_mask}
use parquet_cpp.Common.Bytes.{
  le_bytes, le_value, le_value-le_bytes, length-le_bytes, le_value-take, le_value-drop, All-drop,
}
use parquet_cpp.Common.Slices.{slices, packed, slices-packed, slices-mod}
use parquet_cpp.BitUtil.{ceil}
use parquet_cpp.BitUtil.Rounding.{ceil-byte}
use parquet_cpp.BitStream.Reader.{Reader}
use parquet_cpp.BitStream.Reader.Invariant.{IsValid, position, rest_of}
use parquet_cpp.BitStream.Reader.Loops.{fields}
use parquet_cpp.BitStream.Reader.Bytes.{rest_bytes, length-rest_bytes}
use parquet_cpp.Rle.Decoder.{half}

-- The byte at which whole bytes start.
abbrev pub next_byte : Reader → ℕ
next_byte r = r.byte_offset + ceil r.bit_offset 8

-- At a byte boundary the bytes left are those from `q` on.
pub rest_at : (r : Reader) (q : ℕ) → position r ≡ 8 * q → rest_bytes r ≡ drop q r.buffer
unfolding rest_bytes
rest_at r q e =
    let same : r.byte_offset + ceil r.bit_offset 8 ≡ q = omega (arith, ceil-byte r.bit_offset) in
    ap (λ (t : ℕ). drop t r.buffer) same

pub half_lem : (n x b : ℕ) → x ≡ n * 2 + b → b < 2 → n < 2 ^ 30 → half x ≡ n
unfolding half
half_lem n x b e l h =
    let small : leb (2 ^ 31) x ≡ false = gt→leb (2 ^ 31) x (omega arith) in rw small (omega arith)

pub odd_test : (n : ℕ) → bit_and (n * 2 + 1) 1 == 1 ≡ true
odd_test n = eq→== _ 1 (omega (arith, bit_and_mask 1 (n * 2 + 1)))

pub even_test : (n : ℕ) → bit_and (n * 2) 1 == 1 ≡ false
even_test n = ne→== _ 1 (λ e. absurd (omega (arith, bit_and_mask 1 (n * 2))))

-- The literal values stand as fields at the start of the bytes left.
pub fields_of_literals :
    (w g : ℕ) (vs more : List ℕ) (r : Reader)
    → IsValid r
    → r.bit_offset ≡ 0
    → length vs ≡ g * 8
    → All (λ v. v < 2 ^ w) vs
    → rest_bytes r ≡ le_bytes (g * w) (packed w vs) ++ more
    → fields w (length vs) r ≡ vs
unfolding rest_bytes ceil
fields_of_literals w g vs more r ok aligned size small e =
    let m : ℕ = g * w in
    let bs = le_bytes m (packed w vs) in
    let here : r.byte_offset + ceil r.bit_offset 8 ≡ r.byte_offset =
      ap (λ (t : ℕ). r.byte_offset + ceil t 8) aligned ∙ omega arith in
    let start : drop r.byte_offset r.buffer ≡ bs ++ more =
      ap (λ (t : ℕ). drop t r.buffer) (sym here) ∙ e in
    let fit : w * length vs ≤ 8 * m = omega (arith, ap (λ (t : ℕ). w * t) size) in
    let bytes = All-drop r.byte_offset r.buffer ok.is_loaded.bytes in
    let pos : position r ≡ 8 * r.byte_offset = omega arith in
    ap (slices w (length vs))
      (ap (rest_of r.buffer) pos ∙ sym (le_value-drop r.byte_offset r.buffer ok.is_loaded.bytes))
    ∙ sym (slices-mod w (length vs) (8 * m) (le_value (drop r.byte_offset r.buffer)) fit)
    ∙ ap (slices w (length vs)) (
        sym (le_value-take m (drop r.byte_offset r.buffer) bytes)
        ∙ ap (λ l. le_value (take m l)) start
        ∙ ap le_value (take-append m bs more (sym (length-le_bytes m (packed w vs))))
        ∙ le_value-le_bytes m (packed w vs))
    ∙ slices-mod w (length vs) (8 * m) (packed w vs) fit
    ∙ slices-packed w vs small

-- The bytes behind a body of `m` bytes.
module _ (r : Reader) (ok : IsValid r) (aligned : r.bit_offset ≡ 0) (bs more : List ℕ)
    (e : rest_bytes r ≡ bs ++ more) where
  here_eq : next_byte r ≡ r.byte_offset
  unfolding ceil
  here_eq = ap (λ (t : ℕ). r.byte_offset + ceil t 8) aligned ∙ omega arith

  pub position_here : position r ≡ 8 * next_byte r
  position_here = omega (arith, here_eq)

  pub behind_body : drop (next_byte r + length bs) r.buffer ≡ more
  unfolding rest_bytes
  behind_body =
      sym (drop-drop (length bs) (next_byte r) r.buffer)
      ∙ ap (drop (length bs)) e
      ∙ drop-append (length bs) bs more refl

  pub body_inside : next_byte r + length bs ≤ r.max_bytes
  body_inside =
      omega (arith, length-rest_bytes ok, ap length e, length-append bs more, ok.within, here_eq)
