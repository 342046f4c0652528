-- ===== src/BitStream/Reader/Value.antt =====
-- `GetValue_` reads the next `num_bits` bits of the stream.
use parquet_cpp.Common.{ℕ, ◌+◌, ◌-◌, ◌*◌, ◌/◌, ◌%◌, ◌^◌, ◌≤◌, ◌<◌, ◌≡◌, arith, refl, bit_or}
use parquet_cpp.Common.{ap, ap₂, ◌∙◌, sym, leb, Bool-cases, inl, inr, leb→le, leb→gt}
use parquet_cpp.Common.Bits.{bit_or_shifted}
use parquet_cpp.Common.Pow.{two_pow_pos, mod-two_pow-div, mod_split, div-two_pow, mul-two_pow-lt}
use native.Mathlib.Nat.{mod-eq_of_lt, mod-lt, pow-le-pow_right}
use parquet_cpp.BitUtil.{trailing_bits}
use parquet_cpp.BitUtil.Rounding.{trailing_bits_lem}
use parquet_cpp.BitStream.Reader.{Reader, refill, get_value_step}
use parquet_cpp.BitStream.Reader.Invariant.{IsLoaded, IsValid, position, rest_of, refill-IsLoaded}

-- A step that takes `bits` bits of the stream.
pub record Takes (r next : Reader) (bits : ℕ) : Type 0 where
  pub valid : IsValid next
  pub position_eq : position next ≡ position r + bits
  pub buffer_eq : next.buffer ≡ r.buffer
  pub max_eq : next.max_bytes ≡ r.max_bytes

module _ (w : ℕ) (r : Reader) (ok : IsValid r) (narrow : w ≤ 32)
    (room : position r + w ≤ 8 * r.max_bytes) where
  abbrev from_byte : ℕ
  from_byte = rest_of r.buffer (8 * r.byte_offset)

  abbrev from_bit : ℕ
  from_bit = rest_of r.buffer (position r)

  from_bit_lem : from_byte / 2 ^ r.bit_offset ≡ from_bit
  from_bit_lem = div-two_pow _ (8 * r.byte_offset) r.bit_offset

  -- Inside the buffered word.
  short_value :
      r.bit_offset + w < 64
      → trailing_bits r.buffered_values (r.bit_offset + w) / 2 ^ r.bit_offset ≡ from_bit % 2 ^ w
  short_value h =
      ap (λ (t : ℕ). t / 2 ^ r.bit_offset)
        (trailing_bits_lem r.buffered_values (r.bit_offset + w) ok.is_loaded.word
          ∙ ok.is_loaded.loaded (r.bit_offset + w) (omega arith) (omega arith))
      ∙ mod-two_pow-div from_byte r.bit_offset w
      ∙ ap (λ (t : ℕ). t % 2 ^ w) from_bit_lem

  short_Takes : r.bit_offset + w < 64 → Takes r (record r { bit_offset = r.bit_offset + w }) w
  short_Takes h = record {
    valid = record {
      is_loaded = record {
        fits = ok.is_loaded.fits;
        bytes = ok.is_loaded.bytes;
        in_int = ok.is_loaded.in_int;
        word = ok.is_loaded.word;
        loaded = ok.is_loaded.loaded;
      };
      pending = h;
      within = omega arith;
    };
    position_eq = omega arith;
    buffer_eq = refl;
    max_eq = refl;
  }

  -- To the end of the word and into the next one.
  module _ (full : 64 ≤ r.bit_offset + w) where
    abbrev low_part : ℕ
    low_part = 64 - r.bit_offset

    abbrev high_part : ℕ
    high_part = r.bit_offset + w - 64

    abbrev moved : Reader
    moved = record r { byte_offset = r.byte_offset + 8; bit_offset = high_part }

    moved-IsLoaded : IsLoaded (refill moved)
    moved-IsLoaded =
        refill-IsLoaded moved ok.is_loaded.fits ok.is_loaded.bytes ok.is_loaded.in_int
          ok.is_loaded.word (omega arith)

    low_value :
        trailing_bits r.buffered_values (r.bit_offset + w) / 2 ^ r.bit_offset
        ≡ from_bit % 2 ^ low_part
    low_value =
        let e : 64 ≡ r.bit_offset + low_part = omega (arith, ok.pending) in
        let top = pow-le-pow_right {n = 2} (omega arith) {i = 64} {j = r.bit_offset + w} full in
        ap (λ (t : ℕ). t / 2 ^ r.bit_offset)
          (trailing_bits_lem r.buffered_values (r.bit_offset + w) ok.is_loaded.word
            ∙ mod-eq_of_lt (omega (arith, ok.is_loaded.word, top))
            ∙ sym (mod-eq_of_lt ok.is_loaded.word)
            ∙ ok.is_loaded.loaded 64 (omega arith) (omega arith)
            ∙ ap (λ (t : ℕ). from_byte % 2 ^ t) e)
        ∙ mod-two_pow-div from_byte r.bit_offset low_part
        ∙ ap (λ (t : ℕ). t % 2 ^ low_part) from_bit_lem

    next_rest : rest_of r.buffer (8 * (r.byte_offset + 8)) ≡ from_bit / 2 ^ low_part
    next_rest =
        let e : 8 * (r.byte_offset + 8) ≡ position r + low_part = omega (arith, ok.pending) in
        ap (rest_of r.buffer) e ∙ sym (div-two_pow _ (position r) low_part)

    high_value :
        trailing_bits (refill moved).buffered_values high_part
        ≡ from_bit / 2 ^ low_part % 2 ^ high_part
    unfolding refill
    high_value =
        trailing_bits_lem (refill moved).buffered_values high_part moved-IsLoaded.word
        ∙ moved-IsLoaded.loaded high_part (omega arith) (omega arith)
        ∙ ap (λ (t : ℕ). t % 2 ^ high_part) next_rest

    full_value :
        bit_or
          (trailing_bits r.buffered_values (r.bit_offset + w) / 2 ^ r.bit_offset)
          (trailing_bits (refill moved).buffered_values high_part * 2 ^ (w - high_part) % 2 ^ 64)
        ≡ from_bit % 2 ^ w
    full_value =
        let e : w - high_part ≡ low_part = omega arith in
        let s : low_part + high_part ≡ w = omega (arith, ok.pending) in
        let hi = mod-lt (from_bit / 2 ^ low_part) (two_pow_pos high_part) in
        let top =
          pow-le-pow_right {n = 2} (omega arith) {i = low_part + high_part} {j = 64}
            (omega arith) in
        ap₂ (λ (a b : ℕ). bit_or a (b % 2 ^ 64)) low_value
          (ap₂ (λ (a b : ℕ). a * 2 ^ b) high_value e)
        ∙ ap (bit_or (from_bit % 2 ^ low_part)) (
            mod-eq_of_lt (
              omega (
                arith,
                top,
                mul-two_pow-lt (from_bit / 2 ^ low_part % 2 ^ high_part) low_part high_part hi,
              )))
        ∙ bit_or_shifted low_part (from_bit % 2 ^ low_part)
            (from_bit / 2 ^ low_part % 2 ^ high_part) (mod-lt from_bit (two_pow_pos low_part))
        ∙ sym (mod_split from_bit low_part high_part)
        ∙ ap (λ (t : ℕ). from_bit % 2 ^ t) s

    full_Takes : Takes r (refill moved) w
    unfolding refill
    full_Takes = record {
      valid = record { is_loaded = moved-IsLoaded; pending = omega arith; within = omega arith };
      position_eq = omega arith;
      buffer_eq = refl;
      max_eq = refl;
    }

-- On a valid reader with `w` bits left, `w` at most 32, `GetValue_` returns the next `w` bits of the
-- stream and moves behind them, inside the buffered word and across its end.
pub get_value_step_lem :
    (w : ℕ) (r : Reader)
    → IsValid r
    → w ≤ 32
    → position r + w ≤ 8 * r.max_bytes
    → ((get_value_step w r).0 ≡ rest_of r.buffer (position r) % 2 ^ w)
      × Takes r (get_value_step w r).1 w
unfolding get_value_step
get_value_step_lem w r ok narrow room = elim (Bool-cases (leb 64 (r.bit_offset + w))) [
  | inl full ↦ rw full (
    full_value w r ok narrow room (leb→le 64 _ full),
    full_Takes w r ok narrow room (leb→le 64 _ full),
  )
  | inr short ↦ rw short (
    short_value w r ok narrow room (leb→gt 64 _ short),
    short_Takes w r ok narrow room (leb→gt 64 _ short),
  )
]
