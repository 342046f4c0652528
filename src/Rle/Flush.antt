-- ===== src/Rle/Flush.antt =====
-- `Flush` of RleEncoder closes the last run.
use parquet_cpp.Common.{
  ℕ, zero, suc, ◌+◌, ◌-◌, ◌*◌, ◌^◌, ◌≤◌, ◌<◌, ◌≡◌, ◌⊎◌, inl, inr, List, [], ◌∷◌, ◌++◌, length,
  replicate, All, All-append, arith, refl,
}
use parquet_cpp.Common.{
  Bool, true, false, ◌&&◌, ◌||◌, ap, ap₂, ◌∙◌, sym, subst, none, length-append, ltb, ◌==◌,
}
use parquet_cpp.BitUtil.{ceil}
use parquet_cpp.Common.Pow.{two_pow_pos}
use parquet_cpp.BitStream.Writer.{Writer}
use parquet_cpp.BitStream.Vlq.{vlq_bytes, length-vlq_bytes_le}
use parquet_cpp.Rle.Encoder.{Encoder, check_buffer_full, flush_repeated_run, flush_literal_run, pad}
use parquet_cpp.Rle.Format.{Run, repeated, literal, IsRun, expand}
use parquet_cpp.Rle.Denotes.{length-replicate}
use parquet_cpp.Rle.Stored.{Stored, short_vlq}
use parquet_cpp.Rle.LiteralRun.{flush_literal_run-closed}
use parquet_cpp.Rle.Encodes.{
  Free, Full, Encodes, stored_bytes, min_buffer_size-bounds, no_indicator, check_buffer_full_lem,
}
use parquet_cpp.Rle.Groups.{expand_one, literal-IsRun}
use parquet_cpp.Rle.Buffered.{mul_le}
use parquet_cpp.Rle.RepeatedRun.{flush_repeated_run_lem}
use mathlib.Core.List.{append_assoc, append-nil}

-- All values are in closed runs, the last of which may be padded by zeros.
pub record Closed (w : ℕ) (vs : List ℕ) (wr : Writer) : Type 0 where
  pub runs : List Run
  pub padding : ℕ
  pub stored : Stored w none runs [] wr
  pub runs_ok : All (IsRun w) runs
  pub few : padding < 8
  pub in_int : wr.max_bytes * 8 < 2 ^ 31
  pub values : expand runs ≡ vs ++ replicate padding 0

check_buffer_full-writer : (e : Encoder) → (check_buffer_full e).bit_writer ≡ e.bit_writer
check_buffer_full-writer e = elim (check_buffer_full_lem e) [
  | inl (same, room) ↦ ap (λ (t : Encoder). t.bit_writer) same
  | inr full ↦ ap (λ (t : Encoder). t.bit_writer) full
]

unfoldable pub all_repeat : Encoder → Bool
all_repeat e =
    ltb 0 e.repeat_count
    && (e.literal_count == 0
        && (e.repeat_count == length e.buffered_values || length e.buffered_values == 0))

pub all_repeat-true :
    (e : Encoder)
    → all_repeat e ≡ true
    → (0 < e.repeat_count)
      × (e.literal_count ≡ 0)
      × ((e.repeat_count ≡ length e.buffered_values) ⊎ (length e.buffered_values ≡ 0))
unfolding all_repeat
all_repeat-true e h = ground arith

pub all_repeat-false :
    (e : Encoder)
    → all_repeat e ≡ false
    → e.literal_count ≡ 0
    → (e.repeat_count ≡ length e.buffered_values) ⊎ (length e.buffered_values ≡ 0)
    → e.repeat_count ≡ 0
unfolding all_repeat
all_repeat-false e h z c = ground arith

pub pad_lem :
    (bs : List ℕ)
    → length bs < 8
    → (p : ℕ) × (k : ℕ) × (pad bs ≡ bs ++ replicate p 0)
      × (p < 8)
      × (length (pad bs) ≡ k * 8)
      × (k ≤ 1)
unfolding pad
pad_lem [] h = (0, 0, refl, omega arith, refl, omega arith)
pad_lem (v ∷ bs) h = (
  8 - length (v ∷ bs),
  1,
  refl,
  omega arith,
  omega (
    arith,
    length-append (v ∷ bs) (replicate (8 - length (v ∷ bs)) 0),
    length-replicate (8 - length (v ∷ bs)) 0,
  ),
  omega arith,
)

zeros_small : (w p : ℕ) → All (λ v. v < 2 ^ w) (replicate p 0)
zeros_small w zero = tt
zeros_small w (suc p) = (two_pow_pos w, zeros_small w p)

-- The pending values are one run.
module _ (e : Encoder) (vs : List ℕ) (h : Encodes e vs) (few : length vs < 2 ^ 30)
    (some_left : 0 < e.repeat_count) (no_literal : e.literal_count ≡ 0)
    (one_run : h.pending ≡ replicate e.repeat_count e.current_value) where
  none_open : h.g ≡ 0
  none_open = omega (arith, h.base.count, no_literal)

  all_values : vs ≡ expand h.runs ++ replicate e.repeat_count e.current_value
  all_values =
      h.values ∙ ap₂ (λ a c. expand h.runs ++ (a ++ c)) (no_indicator h.base none_open).1 one_run

  count : e.repeat_count < 2 ^ 30
  count = omega (
    arith,
    few,
    ap length all_values,
    length-append (expand h.runs) (replicate e.repeat_count e.current_value),
    length-replicate e.repeat_count e.current_value,
  )

  run_room :
      Free e h.runs ⊎ Full e h.runs h.g h.pending
      → stored_bytes e h.runs + length (vlq_bytes 4 (e.repeat_count * 2)) + ceil e.bit_width 8
        ≤ e.bit_writer.max_bytes
  run_room (inl free) = omega (
    arith,
    free.1,
    (min_buffer_size-bounds e.bit_width h.base.positive).1,
    length-vlq_bytes_le 4 (e.repeat_count * 2),
  )
  run_room (inr (full, z, small, same, inl none_left)) =
      absurd (omega (arith, none_left, some_left))
  run_room (inr (full, z, small, same, inr room)) =
      omega (arith, room, ap length (short_vlq (e.repeat_count * 2) (omega (arith, small))))

  pub flushed_repeat : Closed e.bit_width vs (flush_repeated_run e).bit_writer
  flushed_repeat =
      let (e', s, max) =
        flush_repeated_run_lem e h.runs h.ls h.g h.base none_open count (run_room h.room) in
      let writer = ap (λ (t : Encoder). t.bit_writer) e' ∙ check_buffer_full-writer _ in
      rw writer (record {
        runs = h.runs ++ (repeated e.repeat_count e.current_value ∷ []);
        padding = 0;
        stored = s;
        runs_ok =
            All-append (IsRun e.bit_width) h.runs _ h.base.runs_ok ((count, h.base.current), tt);
        few = omega arith;
        in_int = omega (arith, h.base.in_int, max);
        values =
            expand_one h.runs (repeated e.repeat_count e.current_value)
            ∙ sym all_values
            ∙ sym (append-nil vs);
      })

-- The pending values are a last group of literals.
module _ (e : Encoder) (vs : List ℕ) (h : Encodes e vs) (free : Free e h.runs)
    (short : length e.buffered_values < 8) (pending : h.pending ≡ e.buffered_values) where
  abbrev padded : Encoder
  padded = record e {
    buffered_values = pad e.buffered_values;
    literal_count = e.literal_count + length (pad e.buffered_values);
  }

  pub flushed_literal : Closed e.bit_width vs (flush_literal_run true padded).bit_writer
  flushed_literal =
      let (p, k, bs, few, size, one) = pad_lem e.buffered_values short in
      let w : ℕ = e.bit_width in
      let small : All (λ v. v < 2 ^ w) (pad e.buffered_values) =
        subst (All (λ v. v < 2 ^ w)) (sym bs) (
          All-append (λ v. v < 2 ^ w) e.buffered_values (replicate p 0)
            (subst (All (λ v. v < 2 ^ w)) pending h.pending_small) (zeros_small w p)) in
      let bounds = min_buffer_size-bounds w h.base.positive in
      let (wr, e', s, max) =
        flush_literal_run-closed padded h.g k h.runs h.ls h.base.stored h.base.narrow h.base.size
          size h.base.small small
          (omega (arith, free.1, bounds.0, mul_le (h.g + k) 63 w (omega (arith, h.base.few, one))))
          (omega (arith, h.base.count, size)) (omega (arith, h.base.few, one)) in
      let writer = ap (λ (t : Encoder). t.bit_writer) e' ∙ check_buffer_full-writer _ in
      let ws = h.ls ++ pad e.buffered_values in
      rw writer (record {
        runs = h.runs ++ (literal ws ∷ []);
        padding = p;
        stored = s;
        runs_ok = All-append (IsRun w) h.runs _ h.base.runs_ok (
          literal-IsRun w (h.g + k) ws
              (omega (arith, length-append h.ls (pad e.buffered_values), size, h.base.size))
              (omega (arith, h.base.few, one))
              (All-append (λ v. v < 2 ^ w) h.ls (pad e.buffered_values) h.base.small small),
          tt,
        );
        few = few;
        in_int = omega (arith, h.base.in_int, max);
        values =
            expand_one h.runs (literal ws)
            ∙ ap (λ l. expand h.runs ++ (h.ls ++ l))
                (bs ∙ ap (λ l. l ++ replicate p 0) (sym pending))
            ∙ ap (λ l. expand h.runs ++ l) (sym (append_assoc h.ls h.pending (replicate p 0)))
            ∙ sym (append_assoc (expand h.runs) (h.ls ++ h.pending) (replicate p 0))
            ∙ ap (λ l. l ++ replicate p 0) (sym h.values);
      })
