-- ===== src/BitStream/Reader/Invariant.antt =====
-- The invariant of a BitReader.
use parquet_cpp.Common.{
  ℕ, ◌+◌, ◌-◌, ◌*◌, ◌/◌, ◌%◌, ◌^◌, ◌≤◌, ◌<◌, ◌≡◌, List, length, take, drop, All, arith, min,
}
use parquet_cpp.Common.{
  ap, ap₂, ◌∙◌, sym, leb, length-take, length-drop, length-take-min, if◌then◌else◌,
}
use parquet_cpp.Common.Bytes.{
  IsByte, le_value, load_over, load_over-mod, le_value-take, le_value-drop, All-take, All-drop,
  le_value-lt,
}
use parquet_cpp.Common.Pow.{mod-two_pow-mod, div-two_pow-lt, sum_below_two_pow}
use parquet_cpp.BitStream.Reader.{Reader, reset, refill}

-- The stream from bit `pos` on, as a number.
abbrev pub rest_of : List ℕ → ℕ → ℕ
rest_of buffer pos = le_value buffer / 2 ^ pos

abbrev pub position : Reader → ℕ
position r = 8 * r.byte_offset + r.bit_offset

-- What holds between the refills: the word has the bits that the buffer has left.
pub record IsLoaded (r : Reader) : Type 0 where
  pub fits : length r.buffer ≡ r.max_bytes
  pub bytes : All IsByte r.buffer
  pub in_int : r.max_bytes * 8 < 2 ^ 31
  pub word : r.buffered_values < 2 ^ 64
  pub loaded :
      (n : ℕ)
      → n ≤ 64
      → 8 * r.byte_offset + n ≤ 8 * r.max_bytes
      → r.buffered_values % 2 ^ n ≡ rest_of r.buffer (8 * r.byte_offset) % 2 ^ n

pub record IsValid (r : Reader) : Type 0 where
  pub is_loaded : IsLoaded r
  pub pending : r.bit_offset < 64
  pub within : 8 * r.byte_offset + r.bit_offset ≤ 8 * r.max_bytes

-- The number of bytes that a refill copies.
abbrev pub refill_size : Reader → ℕ
refill_size r = if leb 8 (r.max_bytes - r.byte_offset) then 8 else r.max_bytes - r.byte_offset

refill_size-le : (r : Reader) → (refill_size r ≤ 8) × (refill_size r ≤ r.max_bytes - r.byte_offset)
refill_size-le r = ground arith

refill_size_enough :
    (r : Reader) (n : ℕ) → n ≤ 64 → 8 * r.byte_offset + n ≤ 8 * r.max_bytes → n ≤ 8 * refill_size r
refill_size_enough r n h k = ground arith

-- Loading `k ≤ 8` bytes from offset `off` gives the low `8 * k` bits of the rest.
load_bits :
    (old : ℕ) (buffer : List ℕ) (off k n : ℕ)
    → All IsByte buffer
    → off + k ≤ length buffer
    → n ≤ 8 * k
    → load_over old (take k (drop off buffer)) % 2 ^ n ≡ rest_of buffer (8 * off) % 2 ^ n
load_bits old buffer off k n h fits l =
    let e : 8 * k ≡ n + (8 * k - n) = omega arith in
    let len : length (take k (drop off buffer)) ≡ k =
      length-take k (drop off buffer) (omega (arith, length-drop off buffer)) in
    sym (mod-two_pow-mod (load_over old (take k (drop off buffer))) n (8 * k - n))
    ∙ ap (λ (t : ℕ). load_over old (take k (drop off buffer)) % 2 ^ t % 2 ^ n)
        (sym e ∙ ap (λ (t : ℕ). 8 * t) (sym len))
    ∙ ap (λ (t : ℕ). t % 2 ^ n)
        (load_over-mod old (take k (drop off buffer))
            (All-take k (drop off buffer) (All-drop off buffer h))
          ∙ le_value-take k (drop off buffer) (All-drop off buffer h)
          ∙ ap₂ (λ (a b : ℕ). a % 2 ^ b) (le_value-drop off buffer h) e)
    ∙ mod-two_pow-mod (rest_of buffer (8 * off)) n (8 * k - n)

load-lt :
    (old : ℕ) (bytes : List ℕ)
    → All IsByte bytes
    → old < 2 ^ 64
    → length bytes ≤ 8
    → load_over old bytes < 2 ^ 64
load-lt old bytes h o l =
    let e : 64 ≡ 8 * length bytes + (64 - 8 * length bytes) = omega arith in
    let kept =
      div-two_pow-lt old (8 * length bytes) (64 - 8 * length bytes)
        (omega (arith, o, ap (λ (t : ℕ). 2 ^ t) e)) in
    omega (
      arith,
      sum_below_two_pow (le_value bytes) (old / 2 ^ (8 * length bytes)) (8 * length bytes)
          (64 - 8 * length bytes) (le_value-lt bytes h) kept,
      ap (λ (t : ℕ). 2 ^ t) e,
    )

-- A refill at any byte of the buffer, the end included, loads the word.
pub refill-IsLoaded :
    (r : Reader)
    → length r.buffer ≡ r.max_bytes
    → All IsByte r.buffer
    → r.max_bytes * 8 < 2 ^ 31
    → r.buffered_values < 2 ^ 64
    → r.byte_offset ≤ r.max_bytes
    → IsLoaded (refill r)
unfolding refill
refill-IsLoaded r fits bytes in_int word inside =
    let size = refill_size-le r in
    let len = length-take-min (refill_size r) (drop r.byte_offset r.buffer) in
    record {
      fits = fits;
      bytes = bytes;
      in_int = in_int;
      word =
          load-lt r.buffered_values (take (refill_size r) (drop r.byte_offset r.buffer))
            (All-take (refill_size r) (drop r.byte_offset r.buffer)
              (All-drop r.byte_offset r.buffer bytes))
            word (omega (arith, len, size.0));
      loaded = λ n h k.
          load_bits r.buffered_values r.buffer r.byte_offset (refill_size r) n bytes
            (omega (arith, size.1)) (refill_size_enough r n h k);
    }

-- A new reader starts at bit 0, whatever the word held before.
pub reset-IsValid :
    (old : ℕ) (buffer : List ℕ) (len : ℕ)
    → length buffer ≡ len
    → All IsByte buffer
    → len * 8 < 2 ^ 31
    → old < 2 ^ 64
    → IsValid (reset old buffer len)
unfolding reset
reset-IsValid old buffer len fits bytes in_int word =
    let size = length-take-min (min 8 len) buffer in
    record {
      is_loaded = record {
        fits = fits;
        bytes = bytes;
        in_int = in_int;
        word =
            load-lt old (take (min 8 len) buffer) (All-take (min 8 len) buffer bytes) word
              (omega (arith, size));
        loaded = λ n h k. load_bits old buffer 0 (min 8 len) n bytes (omega arith) (omega arith);
      };
      pending = omega arith;
      within = omega arith;
    }
