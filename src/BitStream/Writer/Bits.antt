-- ===== src/BitStream/Writer/Bits.antt =====
-- `PutValue` appends the bits of its argument to the stream.
use parquet_cpp.Common.{ℕ, ◌+◌, ◌-◌, ◌*◌, ◌/◌, ◌%◌, ◌^◌, ◌≤◌, ◌<◌, ◌≡◌, take, arith, refl}
use parquet_cpp.Common.{true, false, ap, ap₂, ◌∙◌, sym, bit_or, leb, Bool-cases, inl, inr}
use parquet_cpp.Common.{leb→le, leb→gt, ge→ltb, lt→ltb}
use parquet_cpp.Common.Bytes.{le_value, le_bytes, le_value-append, le_value-le_bytes}
use parquet_cpp.Common.Bytes.{take-store_end, length-store, All-store, le_bytes-IsByte, store}
use parquet_cpp.Common.Lists.{length-take}
use parquet_cpp.Common.Pow.{
  two_pow_pos, pow-add, mul-two_pow-lt, sum_below_two_pow, div-two_pow-lt, mul-two_pow-mod,
}
use parquet_cpp.Common.Bits.{bit_or_shifted}
use native.Mathlib.Nat.{mod-eq_of_lt, mod-lt, div-add-mod, pow-le-pow_right}
use parquet_cpp.BitStream.Writer.{Writer, put_value, put_fitting}
use parquet_cpp.Common.{ltb}
use parquet_cpp.BitStream.Writer.Invariant.{IsValid, position, value}

-- `w` bits of `v` more, at the end of the stream.
pub record Appends (wr next : Writer) (v w : ℕ) : Type 0 where
  pub valid : IsValid next
  pub value_eq : value next ≡ value wr + v * 2 ^ position wr
  pub position_eq : position next ≡ position wr + w
  pub max_eq : next.max_bytes ≡ wr.max_bytes

-- The two parts of `v` add up, at their places.
regroup :
    (l b p q k v : ℕ) → l + (b + v % k * q) * p + v / k * (p * q * k) ≡ l + b * p + v * (p * q)
regroup l b p q k v = omega (arith, ap (λ (t : ℕ). t * (p * q)) (div-add-mod v k))

module _ (v w : ℕ) (wr : Writer) (ok : IsValid wr) (narrow : w ≤ 32) (small : v < 2 ^ w)
    (room : wr.byte_offset * 8 + wr.bit_offset + w ≤ wr.max_bytes * 8) where
  abbrev joined : ℕ
  joined = bit_or wr.buffered_values (v * 2 ^ wr.bit_offset % 2 ^ 64)

  -- Without a flush: nothing of the shifted value is lost.
  joined_sum : wr.bit_offset + w < 64 → joined ≡ wr.buffered_values + v * 2 ^ wr.bit_offset
  joined_sum l =
      let lt = mul-two_pow-lt v wr.bit_offset w small in
      let top =
        pow-le-pow_right {n = 2} (omega arith) {i = wr.bit_offset + w} {j = 64} (omega arith) in
      ap (bit_or wr.buffered_values) (mod-eq_of_lt (omega (arith, lt, top)))
      ∙ bit_or_shifted wr.bit_offset wr.buffered_values v ok.low

  Appends-buffered :
      wr.bit_offset + w < 64
      → Appends wr (record wr { buffered_values = joined; bit_offset = wr.bit_offset + w }) v w
  Appends-buffered l = record {
    valid = record {
      fits = ok.fits;
      bytes = ok.bytes;
      within = omega arith;
      pending = l;
      low = rw (joined_sum l) (sum_below_two_pow wr.buffered_values v wr.bit_offset w ok.low small);
    };
    value_eq = omega (
      arith,
      ap (λ (t : ℕ). t * 2 ^ (8 * wr.byte_offset)) (joined_sum l),
      ap (λ (t : ℕ). v * t) (pow-add 2 (8 * wr.byte_offset) wr.bit_offset),
    );
    position_eq = omega arith;
    max_eq = refl;
  }

  -- With a flush: the low part of `v` completes the word, and the rest is buffered.
  module _ (full : 64 ≤ wr.bit_offset + w) where
    abbrev low_part : ℕ
    low_part = 64 - wr.bit_offset

    abbrev high_width : ℕ
    high_width = wr.bit_offset + w - 64

    joined_word : joined ≡ wr.buffered_values + v % 2 ^ low_part * 2 ^ wr.bit_offset
    joined_word =
        let e : 64 ≡ wr.bit_offset + low_part = omega (arith, ok.pending) in
        ap (bit_or wr.buffered_values) (
          ap (λ (t : ℕ). v * 2 ^ wr.bit_offset % 2 ^ t) e
          ∙ mul-two_pow-mod v wr.bit_offset low_part)
        ∙ bit_or_shifted wr.bit_offset wr.buffered_values (v % 2 ^ low_part) ok.low

    joined-lt : joined < 2 ^ 64
    joined-lt =
        let e : wr.bit_offset + low_part ≡ 64 = omega (arith, ok.pending) in
        let below =
          sum_below_two_pow wr.buffered_values (v % 2 ^ low_part) wr.bit_offset low_part ok.low
            (mod-lt v (two_pow_pos low_part)) in
        omega (arith, joined_word, below, ap (λ (t : ℕ). 2 ^ t) e)

    abbrev flushed : Writer
    flushed = record wr {
      buffer = store wr.buffer wr.byte_offset (le_bytes 8 joined);
      buffered_values = v / 2 ^ (w - high_width);
      byte_offset = wr.byte_offset + 8;
      bit_offset = high_width;
    }

    stored_word :
        le_value (take (wr.byte_offset + 8) flushed.buffer)
        ≡ le_value (take wr.byte_offset wr.buffer) + joined * 2 ^ (8 * wr.byte_offset)
    stored_word =
        ap le_value (take-store_end wr.buffer wr.byte_offset (le_bytes 8 joined) (omega arith))
        ∙ le_value-append (take wr.byte_offset wr.buffer) (le_bytes 8 joined)
        ∙ ap₂ (λ (a b : ℕ). le_value (take wr.byte_offset wr.buffer) + a * 2 ^ (8 * b))
            (le_value-le_bytes 8 joined ∙ mod-eq_of_lt joined-lt)
            (length-take wr.byte_offset wr.buffer (omega arith))

    shift : w - high_width ≡ low_part
    shift = omega arith

    kept-lt : v / 2 ^ (w - high_width) < 2 ^ high_width
    kept-lt =
        let e : w ≡ low_part + high_width = omega (arith, ok.pending) in
        rw shift
          (div-two_pow-lt v low_part high_width (omega (arith, small, ap (λ (t : ℕ). 2 ^ t) e)))

    -- A whole word further the place value is that of `position wr`, times that of `low_part`.
    place :
        2 ^ (8 * (wr.byte_offset + 8)) ≡ 2 ^ (8 * wr.byte_offset) * 2 ^ wr.bit_offset * 2 ^ low_part
    place =
        let e : 8 * (wr.byte_offset + 8) ≡ 8 * wr.byte_offset + wr.bit_offset + low_part =
          omega (arith, ok.pending) in
        ap (λ (t : ℕ). 2 ^ t) e
        ∙ pow-add 2 (8 * wr.byte_offset + wr.bit_offset) low_part
        ∙ ap (λ (t : ℕ). t * 2 ^ low_part) (pow-add 2 (8 * wr.byte_offset) wr.bit_offset)

    value-flushed : value flushed ≡ value wr + v * 2 ^ position wr
    value-flushed =
        ap₂ (λ (a b : ℕ). a + b)
          (stored_word
            ∙ ap
                (λ (t : ℕ). le_value (take wr.byte_offset wr.buffer) + t * 2 ^ (8 * wr.byte_offset))
                joined_word)
          (ap₂ (λ (a b : ℕ). v / 2 ^ a * b) shift place)
        ∙ regroup (le_value (take wr.byte_offset wr.buffer)) wr.buffered_values
            (2 ^ (8 * wr.byte_offset)) (2 ^ wr.bit_offset) (2 ^ low_part) v
        ∙ ap (λ (t : ℕ). value wr + v * t) (sym (pow-add 2 (8 * wr.byte_offset) wr.bit_offset))

    Appends-flushed : Appends wr flushed v w
    Appends-flushed = record {
      valid = record {
        fits = length-store wr.buffer wr.byte_offset (le_bytes 8 joined) (omega arith) ∙ ok.fits;
        bytes =
            All-store wr.buffer wr.byte_offset (le_bytes 8 joined) ok.bytes
              (le_bytes-IsByte 8 joined);
        within = omega arith;
        pending = omega arith;
        low = kept-lt;
      };
      value_eq = value-flushed;
      position_eq = omega arith;
      max_eq = refl;
    }

-- On a valid writer with room for `w` bits, `w` at most 32, `PutValue` of a value that fits them
-- succeeds, keeps the invariant, and puts the bits of the value behind those of the stream.
pub put_value-Appends :
    (v w : ℕ) (wr : Writer)
    → IsValid wr
    → w ≤ 32
    → v < 2 ^ w
    → wr.byte_offset * 8 + wr.bit_offset + w ≤ wr.max_bytes * 8
    → ((put_value v w wr).1 ≡ true) × Appends wr (put_value v w wr).0 v w
unfolding put_value
put_value-Appends v w wr ok narrow small room =
    rw (ge→ltb (wr.max_bytes * 8) (wr.byte_offset * 8 + wr.bit_offset + w) room)
      (elim (Bool-cases (leb 64 (wr.bit_offset + w))) [
        | inl full ↦ rw full (refl, Appends-flushed v w wr ok narrow small room (leb→le 64 _ full))
        | inr short ↦
            rw short (refl, Appends-buffered v w wr ok narrow small room (leb→gt 64 _ short))
      ])

-- Without room for `w` bits `PutValue` fails and leaves the writer as it was.
pub put_value_full :
    (v w : ℕ) (wr : Writer)
    → wr.max_bytes * 8 < wr.byte_offset * 8 + wr.bit_offset + w
    → put_value v w wr ≡ (wr, false)
unfolding put_value
put_value_full v w wr h = rw (lt→ltb (wr.max_bytes * 8) (wr.byte_offset * 8 + wr.bit_offset + w) h)

pub byte_offset-put_value :
    (v w : ℕ) (wr : Writer) → wr.byte_offset ≤ (put_value v w wr).0.byte_offset
unfolding put_value put_fitting
byte_offset-put_value v w wr =
    elim (Bool-cases (ltb (wr.max_bytes * 8) (wr.byte_offset * 8 + wr.bit_offset + w))) [
      | inl full ↦ rw full (omega arith)
      | inr room ↦ rw room (elim (Bool-cases (leb 64 (wr.bit_offset + w))) [
        | inl word ↦ rw word (omega arith)
        | inr short ↦ rw short (omega arith)
      ])
    ]
