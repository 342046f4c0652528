-- ===== src/BitStream/RoundTrip.antt =====
-- What BitWriter writes, BitReader reads back.
use parquet_cpp.Common.{
  ℕ, ◌+◌, ◌-◌, ◌*◌, ◌/◌, ◌^◌, ◌≤◌, ◌<◌, ◌≡◌, List, [], ◌∷◌, length, All, arith, refl,
}
use parquet_cpp.Common.{Bool, false, ap, ap₂, ◌∙◌, sym, some, ge→ltb}
use parquet_cpp.Common.Bytes.{IsByte, le_value, le_value-take}
use parquet_cpp.Common.Pow.{pow-add}
use parquet_cpp.Common.Slices.{slices, packed, slices-packed, slices-mod}
use parquet_cpp.BitStream.Writer.{Writer, make, flush, put_value, put_values, bytes_written}
use parquet_cpp.BitStream.Writer.Invariant as W
use parquet_cpp.BitStream.Writer.Bits.{put_value-Appends}
use parquet_cpp.BitStream.Writer.Bytes.{flush-take, flush-IsValid}
use parquet_cpp.BitStream.Reader.{Reader, reset, get_batch}
use parquet_cpp.BitStream.Reader.Loops.{fields}
use parquet_cpp.BitStream.Reader.Invariant as R
use parquet_cpp.BitStream.Reader.Batch.{get_batch_lem, available}
use parquet_cpp.BitUtil.Rounding.{ceil-byte}

pub make-IsValid :
    (buffer : List ℕ) (n : ℕ) → length buffer ≡ n → All IsByte buffer → W.IsValid (make buffer n)
unfolding make
make-IsValid buffer n fits bytes = record {
  fits = fits;
  bytes = bytes;
  within = omega arith;
  pending = omega arith;
  low = omega arith;
}

-- The values go behind what the stream holds, lowest first.
pub record AppendsAll (w : ℕ) (vs : List ℕ) (wr next : Writer) : Type 0 where
  pub valid : W.IsValid next
  pub value_eq : W.value next ≡ W.value wr + packed w vs * 2 ^ W.position wr
  pub position_eq : W.position next ≡ W.position wr + w * length vs
  pub max_eq : next.max_bytes ≡ wr.max_bytes

-- The places of the values behind the first one.
shift_packed : (x v p w q : ℕ) → x + v * 2 ^ q + p * 2 ^ (q + w) ≡ x + (v + p * 2 ^ w) * 2 ^ q
shift_packed x v p w q = omega (arith, ap (λ (t : ℕ). p * t) (pow-add 2 q w))

pub put_values_lem :
    (w : ℕ) (vs : List ℕ) (wr : Writer)
    → W.IsValid wr
    → w ≤ 32
    → All (λ v. v < 2 ^ w) vs
    → W.position wr + w * length vs ≤ 8 * wr.max_bytes
    → AppendsAll w vs wr (put_values w vs wr)
unfolding put_values
put_values_lem w [] wr ok narrow small room = record {
  valid = ok;
  value_eq = omega arith;
  position_eq = omega arith;
  max_eq = refl;
}
put_values_lem w (v ∷ vs) wr ok narrow small room =
    let a = (put_value-Appends v w wr ok narrow small.0 (omega arith)).1 in
    let b =
      put_values_lem w vs (put_value v w wr).0 a.valid narrow small.1
        (omega (arith, a.position_eq, a.max_eq)) in
    record {
      valid = b.valid;
      value_eq =
          b.value_eq
          ∙ ap₂ (λ (x q : ℕ). x + packed w vs * 2 ^ q) a.value_eq a.position_eq
          ∙ shift_packed (W.value wr) v (packed w vs) w (W.position wr);
      position_eq = omega (arith, a.position_eq, b.position_eq);
      max_eq = b.max_eq ∙ a.max_eq;
    }

module _ (w : ℕ) (vs : List ℕ) (n : ℕ) (buffer : List ℕ) (narrow : w ≤ 32)
    (small : All (λ v. v < 2 ^ w) vs) (room : w * length vs ≤ 8 * n) (fits : length buffer ≡ n)
    (bytes : All IsByte buffer) where
  abbrev full : Writer
  full = put_values w vs (make buffer n)

  all_in : AppendsAll w vs (make buffer n) full
  all_in =
      put_values_lem w vs (make buffer n) (make-IsValid buffer n fits bytes) narrow small
        (unfold make in omega arith)

  full_facts :
      (W.value full ≡ packed w vs) × (W.position full ≡ w * length vs) × (full.max_bytes ≡ n)
  unfolding make
  full_facts = (omega (arith, all_in.value_eq), omega (arith, all_in.position_eq), all_in.max_eq)

  -- The flushed buffer holds the values as its lowest fields.
  stored_fields : slices w (length vs) (le_value (flush false full).buffer) ≡ vs
  unfolding bytes_written
  stored_fields =
      let flushed = (flush false full).buffer in
      let k : ℕ = 8 * bytes_written full in
      let enough : w * length vs ≤ k = omega (arith, full_facts.1, ceil-byte full.bit_offset) in
      sym (slices-mod w (length vs) k (le_value flushed) enough)
      ∙ ap (slices w (length vs)) (
          sym (
            le_value-take (bytes_written full) flushed
              (flush-IsValid full all_in.valid false).bytes)
          ∙ ap le_value (flush-take full all_in.valid false)
          ∙ W.le_value-contents all_in.valid
          ∙ full_facts.0)
      ∙ slices-packed w vs small

  flushed_size : length (flush false full).buffer ≡ n
  unfolding flush
  flushed_size = (flush-IsValid full all_in.valid false).fits ∙ full_facts.2

-- The reader of the flushed buffer.
module _ (four_bytes : Bool) (w : ℕ) (vs : List ℕ) (n old : ℕ) (bs : List ℕ) (narrow : w ≤ 32)
    (room : w * length vs ≤ 8 * n) (fits : length bs ≡ n) (bytes : All IsByte bs)
    (in_int : n * 8 < 2 ^ 31) (word : old < 2 ^ 64)
    (stored : slices w (length vs) (le_value bs) ≡ vs) where
  all_there : available w (length vs) (reset old bs n) ≡ length vs
  unfolding reset
  all_there = rw (ge→ltb (8 * n - (8 * 0 + 0)) (w * length vs) (omega arith))

  at_start : fields w (length vs) (reset old bs n) ≡ vs
  unfolding reset
  at_start =
      let e : le_value bs / 2 ^ (8 * 0 + 0) ≡ le_value bs = omega arith in
      ap (slices w (length vs)) e ∙ stored

  reads_back :
      (next : Reader) × (get_batch four_bytes w (length vs) (reset old bs n) ≡ some (vs, next))
  reads_back =
      let r = reset old bs n in
      let b =
        get_batch_lem four_bytes w (length vs) r (R.reset-IsValid old bs n fits bytes in_int word)
          narrow (omega (arith, room, in_int)) in
      (b.next, b.returns ∙ ap (λ l. some (l, b.next)) (ap (λ k. fields w k r) all_there ∙ at_start))

-- At a width of at most 32 bits, values that fit the width and together fit the buffer, whose length
-- in bits fits an `int`, come back from the flushed stream by one `GetBatch`, in order, for both
-- sizes of `T`, whatever bytes the buffer and word the reader held before.
pub put_values-get_batch :
    (four_bytes : Bool) (w : ℕ) (vs : List ℕ) (n old : ℕ) (buffer : List ℕ)
    → w ≤ 32
    → All (λ v. v < 2 ^ w) vs
    → w * length vs ≤ 8 * n
    → length buffer ≡ n
    → All IsByte buffer
    → n * 8 < 2 ^ 31
    → old < 2 ^ 64
    → (next : Reader) × (get_batch four_bytes w
          (length vs)
          (reset old (flush false (put_values w vs (make buffer n))).buffer n)
        ≡ some (vs, next))
put_values-get_batch four_bytes w vs n old buffer narrow small room fits bytes in_int word =
    reads_back four_bytes w vs n old
      (flush false (full w vs n buffer narrow small room fits bytes)).buffer narrow room
      (flushed_size w vs n buffer narrow small room fits bytes)
      (flush-IsValid (full w vs n buffer narrow small room fits bytes)
        (all_in w vs n buffer narrow small room fits bytes).valid false).bytes
      in_int word (stored_fields w vs n buffer narrow small room fits bytes)
