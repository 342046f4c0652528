-- ===== src/BitStream/Vlq.antt =====
-- Variable-length quantities: `PutVlqInt` and `GetVlqInt`, and the zigzag code of signed numbers.
use parquet_cpp.Common.{
  ℕ, zero, suc, ◌+◌, ◌*◌, ◌/◌, ◌%◌, ◌^◌, ◌≤◌, ◌<◌, ◌≡◌, List, [], ◌∷◌, ◌++◌, length, arith, refl,
}
use parquet_cpp.Common.{
  Bool, true, false, ◌&&◌, ap, ◌∙◌, ltb, ◌==◌, Bool-cases, inl, inr, if◌then◌else◌, bit_and, bit_or,
}
use parquet_cpp.Common.{subst, eq→==, ne→==, ltb→lt, ltb→ge, length-append}
use parquet_cpp.Common.Bits.{bit_and_mask, bit_or_shifted}
use parquet_cpp.Common.Bytes.{le_bytes}
use parquet_cpp.BitStream.Writer.{Writer, put_vlq_loop, put_vlq_int, put_aligned, bytes_written}
use parquet_cpp.BitStream.Writer.Invariant as W
use parquet_cpp.BitStream.Writer.Bytes.{Extends, put_aligned-Extends}
use mathlib.Core.List.{append_assoc}
use native.Mathlib.Nat.{pow-suc}
use parquet_cpp.BitUtil.Rounding.{bit_and_clear}

-- The groups of seven bits, lowest first, all but the last with the top bit set: at most `fuel`
-- groups before the last.
unfoldable pub vlq_bytes : ℕ → ℕ → List ℕ
vlq_bytes zero v = v ∷ []
vlq_bytes (suc fuel) v =
    let rest = vlq_bytes fuel (v / 128) in if ltb v 128 then v ∷ [] else (v % 128 + 128) ∷ rest

-- `v & 0xFFFFFF80` tells whether `v` has more than seven bits.
high_mask : (v : ℕ) → v < 2 ^ 32 → bit_and v 0xFFFFFF80 ≡ v / 128 * 128
high_mask v h = bit_and_clear 32 7 v (omega arith) h

low_group : (v : ℕ) → bit_and v 0x7F ≡ v % 128
low_group v = bit_and_mask 7 v

more_group : (v : ℕ) → bit_or (bit_and v 0x7F) 0x80 ≡ v % 128 + 128
more_group v =
    ap (λ (t : ℕ). bit_or t 0x80) (low_group v) ∙ bit_or_shifted 7 (v % 128) 1 (omega arith)

more_than_seven : (v : ℕ) → v < 2 ^ 32 → 128 ≤ v → bit_and v 0xFFFFFF80 == 0 ≡ false
more_than_seven v h k = ne→== _ 0 (λ e. absurd (omega (arith, high_mask v h)))

at_most_seven : (v : ℕ) → v < 128 → bit_and v 0xFFFFFF80 == 0 ≡ true
at_most_seven v k = eq→== _ 0 (omega (arith, high_mask v (omega arith)))

Extends-trans :
    {a b c : Writer} (xs ys : List ℕ) → Extends a b xs → Extends b c ys → Extends a c (xs ++ ys)
Extends-trans {a} xs ys x y = record {
  valid = y.valid;
  contents_eq = y.contents_eq ∙ ap (λ l. l ++ ys) x.contents_eq ∙ append_assoc (W.contents a) xs ys;
  aligned = y.aligned;
  max_eq = y.max_eq ∙ x.max_eq;
}

bytes_written-Extends :
    {a b : Writer} (xs : List ℕ)
    → W.IsValid a
    → Extends a b xs
    → bytes_written b ≡ bytes_written a + length xs
bytes_written-Extends {a} {b} xs ok x = omega (
  arith,
  W.length-contents ok,
  W.length-contents x.valid,
  ap length x.contents_eq,
  length-append (W.contents a) xs,
)

one_byte : (b : ℕ) → b < 256 → le_bytes 1 b ≡ b ∷ []
one_byte b h = let e : b % 256 ≡ b = omega arith in rw e

and_true : (b : Bool) → (b && true) ≡ b
and_true true = refl
and_true false = refl

-- What one call with a last group, and with a further one, does.
put_group :
    (b : ℕ) (wr : Writer)
    → b < 256
    → W.IsValid wr
    → bytes_written wr + 1 ≤ wr.max_bytes
    → ((put_aligned b 1 wr).1 ≡ true) × Extends wr (put_aligned b 1 wr).0 (b ∷ [])
put_group b wr h ok room =
    let (e, x) = put_aligned-Extends wr ok b 1 room in
    (e, subst (λ l. Extends wr (put_aligned b 1 wr).0 l) (one_byte b h) x)

pub length-vlq_bytes : (fuel v : ℕ) → 1 ≤ length (vlq_bytes fuel v)
unfolding vlq_bytes
length-vlq_bytes zero v = omega arith
length-vlq_bytes (suc fuel) v = ground arith

pub length-vlq_bytes_le : (fuel v : ℕ) → length (vlq_bytes fuel v) ≤ suc fuel
unfolding vlq_bytes
length-vlq_bytes_le zero v = omega arith
length-vlq_bytes_le (suc fuel) v = ground (arith, length-vlq_bytes_le fuel (v / 128))

put_last :
    (v : ℕ) (result : Bool) (wr : Writer)
    → v < 128
    → W.IsValid wr
    → bytes_written wr + 1 ≤ wr.max_bytes
    → ((result && (put_aligned (bit_and v 0x7F) 1 wr).1) ≡ result)
      × Extends wr (put_aligned (bit_and v 0x7F) 1 wr).0 (v ∷ [])
put_last v result wr h ok room =
    let e : bit_and v 0x7F ≡ v = omega (arith, low_group v) in
    let (t, x) = put_group v wr (omega arith) ok room in rw (e, t) (and_true result, x)

put_vlq_loop_lem :
    (fuel v : ℕ) (result : Bool) (wr : Writer)
    → W.IsValid wr
    → v < 2 ^ 32
    → v < 128 ^ suc fuel
    → bytes_written wr + length (vlq_bytes fuel v) ≤ wr.max_bytes
    → ((put_vlq_loop fuel v result wr).1 ≡ result)
      × Extends wr (put_vlq_loop fuel v result wr).0 (vlq_bytes fuel v)
unfolding put_vlq_loop vlq_bytes
put_vlq_loop_lem zero v result wr ok h small room = put_last v result wr (omega arith) ok room
put_vlq_loop_lem (suc fuel) v result wr ok h small room = elim (Bool-cases (ltb v 128)) [
  | inl short ↦
      rw (short, at_most_seven v (ltb→lt v 128 short))
        (put_last v result wr (ltb→lt v 128 short) ok (rw short at room))
  | inr long ↦
      let room' : bytes_written wr + suc (length (vlq_bytes fuel (v / 128))) ≤ wr.max_bytes =
        rw long at room in
      let (t, x) = put_group (v % 128 + 128) wr (omega arith) ok (omega arith) in
      let w' = put_aligned (v % 128 + 128) 1 wr in
      let (e, y) =
        put_vlq_loop_lem fuel (v / 128) result w'.0 x.valid (omega arith)
          (omega (arith, pow-suc 128 (suc fuel)))
          (omega (arith, bytes_written-Extends ((v % 128 + 128) ∷ []) ok x, x.max_eq)) in
      rw (long, more_than_seven v h (ltb→ge v 128 long), more_group v, t, and_true result)
        (e, Extends-trans ((v % 128 + 128) ∷ []) _ x y)
]

-- On a valid writer with room for its bytes, `PutVlqInt` of a `uint32_t` succeeds and writes the
-- groups of seven bits of the number, lowest first, all but the last with the top bit set.
pub put_vlq_int-Extends :
    (v : ℕ) (wr : Writer)
    → W.IsValid wr
    → v < 2 ^ 32
    → bytes_written wr + length (vlq_bytes 4 v) ≤ wr.max_bytes
    → ((put_vlq_int v wr).1 ≡ true) × Extends wr (put_vlq_int v wr).0 (vlq_bytes 4 v)
unfolding put_vlq_int
put_vlq_int-Extends v wr ok h room = put_vlq_loop_lem 4 v true wr ok h (omega arith) room
