-- ===== src/Rle/Groups.antt =====
-- `FlushBufferedValues`: what becomes of a group of eight values.
use parquet_cpp.Common.{
  ℕ, ◌+◌, ◌*◌, ◌/◌, ◌^◌, ◌≤◌, ◌<◌, ◌≡◌, ◌⊎◌, inl, inr, List, [], ◌∷◌, ◌++◌, length, replicate, All,
  All-append, arith, refl,
}
use parquet_cpp.Common.{Bool, true, false, ap, ◌∙◌, sym, subst, none, length-append}
use parquet_cpp.BitUtil.{ceil}
use parquet_cpp.BitStream.Writer.{Writer, bytes_written}
use parquet_cpp.BitStream.Writer.Invariant as W
use parquet_cpp.Rle.Encoder.{Encoder, check_buffer_full, flush_literal_run}
use parquet_cpp.Rle.Format.{Run, literal, IsRun, expand, encoded, body, run_values}
use parquet_cpp.Rle.Stored.{Stored, encoded-append, expand-append, short_vlq}
use parquet_cpp.BitStream.Vlq.{vlq_bytes}
use parquet_cpp.Common.Bytes.{length-le_bytes}
use parquet_cpp.Common.Slices.{packed}
use parquet_cpp.Rle.LiteralRun.{flush_literal_run-closed}
use parquet_cpp.Rle.Encodes.{
  Base, Repeats, Buffers, Free, Encodes, stored_bytes, min_buffer_size-bounds,
  check_buffer_full_lem,
}
use mathlib.Core.List.{append_assoc, append-nil}

-- The written part does not depend on the buffered values and the counts of repetitions.
pub Base-with :
    {e : Encoder} {runs : List Run} {ls : List ℕ} {g : ℕ}
    → Base e runs ls g
    → (full : Bool) (bs : List ℕ) (rc cur : ℕ) → cur < 2 ^ e.bit_width
    → Base
        (record e {
          buffer_full = full;
          buffered_values = bs;
          repeat_count = rc;
          current_value = cur;
        })
        runs
        ls
        g
Base-with b full bs rc cur fits = record {
  stored = b.stored;
  positive = b.positive;
  narrow = b.narrow;
  in_int = b.in_int;
  run_size = b.run_size;
  runs_ok = b.runs_ok;
  size = b.size;
  count = b.count;
  few = b.few;
  opened = b.opened;
  small = b.small;
  current = fits;
}

bytes_of :
    (e : Encoder) (runs : List Run)
    → Stored e.bit_width none runs [] e.bit_writer
    → bytes_written e.bit_writer ≡ stored_bytes e runs
bytes_of e runs s = sym (W.length-contents s.valid) ∙ ap length s.holds.1

-- After a run, `CheckBufferFull` finds room for another run, or the rest is one that still fits.
pub check_buffer_full-Encodes :
    (e : Encoder) (runs : List Run) (pending vs : List ℕ)
    → Base e runs [] 0
    → Stored e.bit_width none runs [] e.bit_writer
    → e.buffer_full ≡ false
    → vs ≡ expand runs ++ pending
    → All (λ v. v < 2 ^ e.bit_width) pending
    → Repeats e 0 pending ⊎ Buffers e pending
    → e.repeat_count ≤ 8
    → pending ≡ replicate e.repeat_count e.current_value
    → (e.repeat_count ≡ 0) ⊎ (stored_bytes e runs + 1 + ceil e.bit_width 8 ≤ e.bit_writer.max_bytes)
    → Encodes (check_buffer_full e) vs
check_buffer_full-Encodes e runs pending vs b s not_full values small shape few same fits =
    elim (check_buffer_full_lem e) [
      | inl (e', room) ↦ rw e' (record {
        runs = runs;
        ls = [];
        g = 0;
        pending = pending;
        base = b;
        values = values;
        pending_small = small;
        shape = shape;
        room = inl (not_full, omega (arith, room, bytes_of e runs s, b.run_size));
      })
      | inr e' ↦ rw e' (record {
        runs = runs;
        ls = [];
        g = 0;
        pending = pending;
        base = Base-with b true e.buffered_values e.repeat_count e.current_value b.current;
        values = values;
        pending_small = small;
        shape = shape;
        room = inr (refl, refl, few, same, fits);
      })
    ]

-- The run that a closed literal run adds.
pub literal-IsRun :
    (w g : ℕ) (ls : List ℕ)
    → length ls ≡ g * 8
    → g < 64
    → All (λ v. v < 2 ^ w) ls
    → IsRun w (literal ls)
literal-IsRun w g ls size few small = (omega (arith, size), omega (arith, size), small)

pub encoded_literal :
    (w g : ℕ) (runs : List Run) (ls : List ℕ)
    → length ls ≡ g * 8
    → g < 64
    → length (encoded w (runs ++ (literal ls ∷ []))) ≡ length (encoded w runs) + 1 + g * w
encoded_literal w g runs ls size few =
    let groups : length ls / 8 ≡ g = omega (arith, size) in
    let code : vlq_bytes 4 (length ls / 8 * 2 + 1) ≡ (g * 2 + 1) ∷ [] =
      ap (λ (t : ℕ). vlq_bytes 4 (t * 2 + 1)) groups ∙ short_vlq (g * 2 + 1) (omega arith) in
    omega (
      arith,
      ap length (encoded-append w runs (literal ls ∷ [])),
      length-append (encoded w runs) (encoded w (literal ls ∷ [])),
      length-append (vlq_bytes 4 (length ls / 8 * 2 + 1)) (body w (literal ls) ++ []),
      ap length code,
      length-append (body w (literal ls)) [],
      length-le_bytes (length ls / 8 * w) (packed w ls),
      ap (λ (t : ℕ). t * w) groups,
    )

pub expand_one :
    (runs : List Run) (run : Run) → expand (runs ++ (run ∷ [])) ≡ expand runs ++ run_values run
expand_one runs run =
    expand-append runs (run ∷ []) ∙ ap (λ l. expand runs ++ l) (append-nil (run_values run))

-- Where a closed literal run leaves the writer.
pub closed_Base :
    {e : Encoder} {runs : List Run} {ls : List ℕ} {g : ℕ} (b : Base e runs ls g) (ws : List ℕ)
    (k : ℕ) (wr : Writer) (bs : List ℕ) (rc : ℕ)
    → length ws ≡ k * 8
    → k < 64
    → All (λ v. v < 2 ^ e.bit_width) ws
    → Stored e.bit_width none (runs ++ (literal ws ∷ [])) [] wr
    → wr.max_bytes ≡ e.bit_writer.max_bytes
    → Base
        (record e {
          bit_writer = wr;
          buffered_values = bs;
          literal_indicator_byte = none;
          literal_count = 0;
          repeat_count = rc;
        })
        (runs ++ (literal ws ∷ []))
        []
        0
closed_Base {e} {runs} b ws k wr bs rc size few small s max = record {
  stored = s;
  positive = b.positive;
  narrow = b.narrow;
  in_int = omega (arith, max, b.in_int);
  run_size = b.run_size;
  runs_ok =
      All-append (IsRun e.bit_width) runs (literal ws ∷ []) b.runs_ok
        (literal-IsRun e.bit_width k ws size few small, tt);
  size = refl;
  count = refl;
  few = omega arith;
  opened = inl refl;
  small = tt;
  current = b.current;
}

-- A group of eight equal values starts a repeated run and closes an open literal run.
module _ (e : Encoder) (runs : List Run) (ls vs : List ℕ) (g : ℕ) (b : Base e runs ls g)
    (free : Free e runs) (rc_eq : e.repeat_count ≡ 8)
    (values : vs ≡ expand runs ++ (ls ++ replicate e.repeat_count e.current_value))
    (small : All (λ v. v < 2 ^ e.bit_width) (replicate e.repeat_count e.current_value)) where
  pub starts_repeat : e.literal_count ≡ 0 → Encodes (record e { buffered_values = [] }) vs
  starts_repeat none_left = record {
    runs = runs;
    ls = ls;
    g = g;
    pending = replicate e.repeat_count e.current_value;
    base = Base-with b e.buffer_full [] e.repeat_count e.current_value b.current;
    values = values;
    pending_small = small;
    shape = inl (omega (arith, rc_eq), refl, omega (arith, b.count), refl);
    room = inl free;
  }

  pub closes_literal : Encodes (flush_literal_run true (record e { buffered_values = [] })) vs
  closes_literal =
      let size : length (ls ++ []) ≡ (g + 0) * 8 =
        omega (arith, ap length (append-nil ls), b.size) in
      let bounds = min_buffer_size-bounds e.bit_width b.positive in
      let mul : g * e.bit_width ≤ 62 * e.bit_width = mul_le g e.bit_width b.few in
      let (wr, e', s, max) =
        flush_literal_run-closed (record e { buffered_values = [] }) g 0 runs ls b.stored b.narrow
          b.size refl b.small tt (omega (arith, free.1, bounds.0, mul)) (omega (arith, b.count))
          (omega (arith, b.few)) in
      let small_ls = subst (All (λ v. v < 2 ^ e.bit_width)) (sym (append-nil ls)) b.small in
      let bytes = encoded_literal e.bit_width (g + 0) runs (ls ++ []) size (omega (arith, b.few)) in
      let base =
        closed_Base b (ls ++ []) (g + 0) wr [] e.repeat_count size (omega (arith, b.few)) small_ls s
          max in
      rw e' (
        check_buffer_full-Encodes
          (record e {
            bit_writer = wr;
            buffered_values = [];
            literal_indicator_byte = none;
            literal_count = 0;
          })
          (runs ++ (literal (ls ++ []) ∷ [])) (replicate e.repeat_count e.current_value) vs base s
          free.0
          (values
            ∙ sym (append_assoc (expand runs) ls (replicate e.repeat_count e.current_value))
            ∙ ap (λ l. l ++ replicate e.repeat_count e.current_value)
                (ap (λ l. expand runs ++ l) (sym (append-nil ls))
                  ∙ sym (expand_one runs (literal (ls ++ [])))))
          small (inl (omega (arith, rc_eq), refl, refl, refl)) (omega (arith, rc_eq)) refl
          (inr (omega (arith, bytes, free.1, bounds.0, bounds.2, mul, max))))
    where
      mul_le : (g w : ℕ) → g < 63 → g * w ≤ 62 * w
      mul_le g w h = grind arith
