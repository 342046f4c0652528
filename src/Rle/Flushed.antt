-- ===== src/Rle/Flushed.antt =====
-- `Flush` of RleEncoder leaves a block of runs for the values put so far.
use parquet_cpp.Common.{
  ℕ, ◌+◌, ◌*◌, ◌^◌, ◌<◌, ◌≡◌, ◌⊎◌, inl, inr, List, [], ◌∷◌, ◌++◌, length, replicate, take, All,
  arith, refl,
}
use parquet_cpp.Common.{
  Bool, true, false, ◌||◌, ap, ap₂, ◌∙◌, sym, subst, none, length-append, ltb, Bool-cases,
}
use parquet_cpp.Common.Bytes.{IsByte}
use parquet_cpp.BitStream.Writer as BitWriter
use parquet_cpp.BitStream.Writer.{Writer, bytes_written}
use parquet_cpp.BitStream.Writer.Invariant as W
use parquet_cpp.BitStream.Writer.Bytes.{flush-take, flush-IsValid}
use parquet_cpp.Rle.Encoder.{Encoder, flush, flush_pending}
use parquet_cpp.Rle.Format.{Run, IsRun, expand, encoded}
use parquet_cpp.Rle.Denotes.{length-replicate}
use parquet_cpp.Rle.Stored.{Stored}
use parquet_cpp.Rle.Encodes.{Repeats, Buffers, Free, Full, Encodes, no_indicator}
use parquet_cpp.Rle.Flush.{
  Closed, all_repeat, all_repeat-true, all_repeat-false, flushed_repeat, flushed_literal,
}
use mathlib.Core.List.{append-nil}

empty_list : (l : List ℕ) → length l ≡ 0 → l ≡ []
empty_list [] h = refl
empty_list (x ∷ l) h = absurd (omega arith)

module _ (e : Encoder) (vs : List ℕ) (h : Encodes e vs) (few : length vs < 2 ^ 30) where
  buffered_size :
      (before : List ℕ)
      → e.buffered_values ≡ before ++ replicate e.repeat_count e.current_value
      → length e.buffered_values ≡ length before + e.repeat_count
  buffered_size before last = omega (
    arith,
    ap length last,
    length-append before (replicate e.repeat_count e.current_value),
    length-replicate e.repeat_count e.current_value,
  )

  one_run :
      all_repeat e ≡ true
      → Repeats e h.g h.pending ⊎ Buffers e h.pending
      → h.pending ≡ replicate e.repeat_count e.current_value
  one_run t (inl rep) = rep.3
  one_run t (inr (short, pending, before, last)) =
      let (some_left, no_literal, whole) = all_repeat-true e t in
      pending
      ∙ last
      ∙ ap (λ l. l ++ replicate e.repeat_count e.current_value)
          (empty_list before (none_before some_left (buffered_size before last) whole))
    where
      none_before :
          {n : ℕ}
          → 0 < e.repeat_count
          → length e.buffered_values ≡ n + e.repeat_count
          → (e.repeat_count ≡ length e.buffered_values) ⊎ (length e.buffered_values ≡ 0)
          → n ≡ 0
      none_before l s (inl w) = omega arith
      none_before l s (inr w) = absurd (omega arith)

  a_group :
      (0 < e.literal_count) ⊎ ((0 < e.repeat_count) ⊎ (0 < length e.buffered_values))
      → all_repeat e ≡ false
      → Repeats e h.g h.pending ⊎ Buffers e h.pending
      → Free e h.runs ⊎ Full e h.runs h.g h.pending
      → Free e h.runs × (length e.buffered_values < 8) × (h.pending ≡ e.buffered_values)
  a_group c f (inl (many, empty, z, same)) room = absurd (
      omega (
        arith,
        many,
        all_repeat-false e f (omega (arith, h.base.count, z)) (inr (ap length empty)),
      ))
  a_group c f (inr (short, pending, before, last)) (inl free) = (free, short, pending)
  a_group c f (inr (short, pending, before, last)) (inr (full, z, small, same, fits)) =
      let no_literal : e.literal_count ≡ 0 = omega (arith, h.base.count, z) in
      let size : length e.buffered_values ≡ e.repeat_count =
        ap length (sym pending ∙ same) ∙ length-replicate e.repeat_count e.current_value in
      let none_left = all_repeat-false e f no_literal (inl (sym size)) in
      absurd (nothing c no_literal none_left size)
    where
      nothing :
          (0 < e.literal_count) ⊎ ((0 < e.repeat_count) ⊎ (0 < length e.buffered_values))
          → e.literal_count ≡ 0
          → e.repeat_count ≡ 0
          → length e.buffered_values ≡ e.repeat_count
          → ⊥
      nothing (inl l) a b s = omega arith
      nothing (inr (inl l)) a b s = omega arith
      nothing (inr (inr l)) a b s = omega arith

  flush_pending-Closed :
      (0 < e.literal_count) ⊎ ((0 < e.repeat_count) ⊎ (0 < length e.buffered_values))
      → Closed e.bit_width vs (flush_pending e).bit_writer
  unfolding flush_pending all_repeat
  flush_pending-Closed c = elim (Bool-cases (all_repeat e)) [
    | inl t ↦
        let (some_left, no_literal, whole) = all_repeat-true e t in
        rw t (flushed_repeat e vs h few some_left no_literal (one_run t h.shape))
    | inr f ↦
        let (free, short, pending) = a_group c f h.shape h.room in
        rw f (flushed_literal e vs h free short pending)
  ]

  already-Closed :
      e.literal_count ≡ 0
      → e.repeat_count ≡ 0
      → length e.buffered_values ≡ 0
      → Closed e.bit_width vs e.bit_writer
  already-Closed a b c =
      let z : h.g ≡ 0 = omega (arith, h.base.count) in
      let (n, l) = no_indicator h.base z in
      let stored =
        subst (λ t. Stored e.bit_width none h.runs t e.bit_writer) l
          (subst (λ p. Stored e.bit_width p h.runs h.ls e.bit_writer) n h.base.stored) in
      record {
        runs = h.runs;
        padding = 0;
        stored = stored;
        runs_ok = h.base.runs_ok;
        few = omega arith;
        in_int = h.base.in_int;
        values =
            sym (append-nil (expand h.runs))
            ∙ ap₂ (λ s t. expand h.runs ++ (s ++ t)) (sym l) (sym (nothing_pending h.shape))
            ∙ sym h.values
            ∙ sym (append-nil vs);
      }
    where
      nothing_pending : Repeats e h.g h.pending ⊎ Buffers e h.pending → h.pending ≡ []
      nothing_pending (inl rep) = absurd (omega (arith, b, rep.0))
      nothing_pending (inr buf) = buf.1 ∙ empty_list e.buffered_values c

module _ (a b c : ℕ) where
  abbrev pub any_left : Bool
  any_left = ltb 0 a || (ltb 0 b || ltb 0 c)

  any_left-true : any_left ≡ true → (0 < a) ⊎ ((0 < b) ⊎ (0 < c))
  any_left-true h = ground arith

  any_left-false : any_left ≡ false → (a ≡ 0) × (b ≡ 0) × (c ≡ 0)
  any_left-false h = ground arith

-- What a flush leaves: the encoder's bytes at the start of the buffer.
pub record Flushed (w : ℕ) (vs : List ℕ) (e : Encoder) (size : ℕ) : Type 0 where
  pub runs : List Run
  pub padding : ℕ
  pub runs_ok : All (IsRun w) runs
  pub few : padding < 8
  pub values : expand runs ≡ vs ++ replicate padding 0
  pub stream : take size e.bit_writer.buffer ≡ encoded w runs
  pub size_eq : size ≡ length (encoded w runs)
  pub in_int : size * 8 < 2 ^ 31
  pub fits : length e.bit_writer.buffer ≡ e.bit_writer.max_bytes
  pub bytes : All IsByte e.bit_writer.buffer

written_size : (wr : Writer) → bytes_written (BitWriter.flush false wr) ≡ bytes_written wr
unfolding bytes_written BitWriter.flush
written_size wr = refl

finished :
    (w : ℕ) (vs : List ℕ) (e : Encoder)
    → Closed w vs e.bit_writer
    → Flushed w vs
        (record e { bit_writer = BitWriter.flush false e.bit_writer })
        (bytes_written (BitWriter.flush false e.bit_writer))
finished w vs e c =
    let valid = flush-IsValid e.bit_writer c.stored.valid false in
    let size : bytes_written (BitWriter.flush false e.bit_writer) ≡ length (encoded w c.runs) =
      written_size e.bit_writer
      ∙ sym (W.length-contents c.stored.valid)
      ∙ ap length c.stored.holds.1 in
    record {
      runs = c.runs;
      padding = c.padding;
      runs_ok = c.runs_ok;
      few = c.few;
      values = c.values;
      stream =
          ap (λ (t : ℕ). take t (BitWriter.flush false e.bit_writer).buffer)
            (written_size e.bit_writer)
          ∙ flush-take e.bit_writer c.stored.valid false
          ∙ c.stored.holds.1;
      size_eq = size;
      in_int =
          omega (arith, c.in_int, written_size e.bit_writer, W.bytes_written-le c.stored.valid);
      fits = valid.fits;
      bytes = valid.bytes;
    }

-- `Flush` of an encoder that stands for fewer than 2 ^ 30 values leaves a block of runs that stand for
-- these values, and fewer than eight zeros behind them, as the first bytes of the buffer; their
-- number is its result.
pub flush-Flushed :
    (e : Encoder) (vs : List ℕ)
    → Encodes e vs
    → length vs < 2 ^ 30
    → Flushed e.bit_width vs (flush e).0 (flush e).1
unfolding flush
flush-Flushed e vs h few =
    elim (Bool-cases (any_left e.literal_count e.repeat_count (length e.buffered_values))) [
      | inl some_left ↦ rw some_left (
          finished e.bit_width vs (flush_pending e) (
            flush_pending-Closed e vs h few
              (any_left-true e.literal_count e.repeat_count (length e.buffered_values) some_left)))
      | inr nothing ↦
          let (a, b, c) =
            any_left-false e.literal_count e.repeat_count (length e.buffered_values) nothing in
          rw nothing (finished e.bit_width vs e (already-Closed e vs h few a b c))
    ]
