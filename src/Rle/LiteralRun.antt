-- ===== src/Rle/LiteralRun.antt =====
-- `FlushLiteralRun` of RleEncoder.
use parquet_cpp.Common.{
  ℕ, ◌+◌, ◌*◌, ◌/◌, ◌%◌, ◌^◌, ◌≤◌, ◌<◌, ◌≡◌, List, [], ◌∷◌, ◌++◌, length, All, arith, refl, max,
}
use parquet_cpp.Common.{
  true, false, ap, ap₂, ◌∙◌, sym, subst, Option, some, none, length-append, bit_or,
}
use parquet_cpp.Common.Bits.{bit_or_digit, bit_or_shifted}
use parquet_cpp.Common.Bytes.{store, length-le_bytes}
use parquet_cpp.Common.Slices.{packed}
use parquet_cpp.BitStream.Writer.{Writer, put_values, get_next_byte_ptr}
use parquet_cpp.BitStream.Writer.Invariant as W
use parquet_cpp.Rle.Encoder.{
  Encoder, reserve_indicator, store_indicator, flush_literal_run, check_buffer_full,
}
use parquet_cpp.Rle.Format.{Run, literal, encoded, body}
use parquet_cpp.Rle.Stored.{Stored, reserve_literal, grow_literal, close_literal}
use native.Mathlib.Nat.{mod-eq_of_lt}

-- The number of bytes of the stream while a literal run is open.
open_size :
    (w p g : ℕ) (runs : List Run) (ls : List ℕ) (wr : Writer)
    → Stored w (some p) runs ls wr
    → length ls ≡ g * 8
    → length (W.contents wr) ≡ length (encoded w runs) + 1 + g * w
open_size w p g runs ls wr s size =
    let (x, e, at, inside) = s.holds in
    let groups : length ls / 8 * w ≡ g * w =
      ap (λ (t : ℕ). t * w) (let q : length ls / 8 ≡ g = omega (arith, size) in q) in
    omega (
      arith,
      ap length e,
      length-append (encoded w runs) (x ∷ body w (literal ls)),
      length-le_bytes (length ls / 8 * w) (packed w ls),
      groups,
    )

pub record Opened (e : Encoder) (runs : List Run) (ls : List ℕ) : Type 0 where
  pub wr : Writer
  pub ptr : ℕ
  pub returns :
      reserve_indicator e ≡ record e { bit_writer = wr; literal_indicator_byte = some ptr }
  pub stored : Stored e.bit_width (some ptr) runs ls wr
  pub max_eq : wr.max_bytes ≡ e.bit_writer.max_bytes

reserved_new :
    (e : Encoder) {wr : Writer} {ptr : Option ℕ}
    → e.literal_indicator_byte ≡ none
    → get_next_byte_ptr 1 e.bit_writer ≡ (wr, ptr)
    → reserve_indicator e ≡ record e { bit_writer = wr; literal_indicator_byte = ptr }
unfolding reserve_indicator
reserved_new e new got =
    rw (new, reserve_indicator)
      (ap (λ (t : Writer × Option ℕ). record e { bit_writer = t.0; literal_indicator_byte = t.1 })
        got)

reserved_old :
    (e : Encoder) {ptr : ℕ}
    → e.literal_indicator_byte ≡ some ptr
    → reserve_indicator e
      ≡ record e { bit_writer = e.bit_writer; literal_indicator_byte = some ptr }
unfolding reserve_indicator
reserved_old e old =
    rw (old, reserve_indicator)
      (ap (λ (t : Option ℕ). record e { bit_writer = e.bit_writer; literal_indicator_byte = t })
        old)

opens :
    (e : Encoder) (ptr : Option ℕ) (runs : List Run) (ls : List ℕ)
    → e.literal_indicator_byte ≡ ptr
    → Stored e.bit_width ptr runs ls e.bit_writer
    → length (encoded e.bit_width runs) + 1 ≤ e.bit_writer.max_bytes
    → Opened e runs ls
opens e (some p) runs ls old s room = record {
  wr = e.bit_writer;
  ptr = p;
  returns = reserved_old e old;
  stored = s;
  max_eq = refl;
}
opens e none runs ls new s room =
    let s' = subst (λ l. Stored e.bit_width none runs l e.bit_writer) s.holds.0 s in
    let (t, at_end, max) =
      reserve_literal e.bit_width runs e.bit_writer s' (omega (arith, room, ap length s.holds.1)) in
    record {
      wr = (get_next_byte_ptr 1 e.bit_writer).0;
      ptr = length (encoded e.bit_width runs);
      returns = reserved_new e new (ap (λ q. ((get_next_byte_ptr 1 e.bit_writer).0, q)) at_end);
      stored =
          subst
            (λ l.
              Stored e.bit_width (some (length (encoded e.bit_width runs))) runs l
                (get_next_byte_ptr 1 e.bit_writer).0)
            (sym s.holds.0)
            (subst (λ q. Stored e.bit_width q runs [] (get_next_byte_ptr 1 e.bit_writer).0) at_end
              t);
      max_eq = max;
    }

indicator_byte : (g : ℕ) → g < 64 → bit_or (g * 2) 1 % 2 ^ 8 ≡ g * 2 + 1
indicator_byte g h =
    let half : g * 2 / 2 ≡ g = omega arith in
    let even : g * 2 % 2 ≡ 0 = omega arith in
    let same : bit_or g 0 ≡ g = bit_or_shifted 10 g 0 (omega arith) ∙ omega arith in
    let all : bit_or (g * 2) 1 ≡ g * 2 + 1 =
      bit_or_digit (g * 2) 1
      ∙ ap₂ (λ (a b : ℕ). bit_or a 0 * 2 + max b 1) half even
      ∙ ap (λ (t : ℕ). t * 2 + 1) same in
    ap (λ (t : ℕ). t % 2 ^ 8) all ∙ mod-eq_of_lt (omega arith)

flushed_open :
    (e : Encoder) {wr : Writer} {p : ℕ}
    → reserve_indicator e ≡ record e { bit_writer = wr; literal_indicator_byte = some p }
    → flush_literal_run false e ≡ record e {
      bit_writer = put_values e.bit_width e.buffered_values wr;
      literal_indicator_byte = some p;
      buffered_values = [];
    }
unfolding flush_literal_run
flushed_open e r = rw (r, flush_literal_run)

flushed_closed :
    (e : Encoder) {wr : Writer} {p : ℕ}
    → reserve_indicator e ≡ record e { bit_writer = wr; literal_indicator_byte = some p }
    → flush_literal_run true e
      ≡ check_buffer_full (record e {
        bit_writer =
            store_indicator
              (some p)
              (bit_or (e.literal_count / 8 * 2) 1)
              (put_values e.bit_width e.buffered_values wr);
        buffered_values = [];
        literal_indicator_byte = none;
        literal_count = 0;
      })
unfolding flush_literal_run
flushed_closed e r = rw (r, flush_literal_run)

-- What is written of a literal run, for an encoder that has `k` more groups buffered.
module _ (e : Encoder) (g k : ℕ) (runs : List Run) (ls : List ℕ)
    (s : Stored e.bit_width e.literal_indicator_byte runs ls e.bit_writer)
    (narrow : e.bit_width ≤ 32) (size : length ls ≡ g * 8)
    (size' : length e.buffered_values ≡ k * 8) (small : All (λ v. v < 2 ^ e.bit_width) ls)
    (small' : All (λ v. v < 2 ^ e.bit_width) e.buffered_values)
    (room : length (encoded e.bit_width runs) + 1 + (g + k) * e.bit_width
      ≤ e.bit_writer.max_bytes) where
  opened : Opened e runs ls
  opened = opens e e.literal_indicator_byte runs ls refl s (omega (arith, room))

  grown :
      Stored e.bit_width
        (some opened.ptr)
        runs
        (ls ++ e.buffered_values)
        (put_values e.bit_width e.buffered_values opened.wr)
      × ((put_values e.bit_width e.buffered_values opened.wr).max_bytes ≡ opened.wr.max_bytes)
  grown =
      grow_literal e.bit_width opened.ptr g k runs ls e.buffered_values opened.wr opened.stored
        narrow size size' small small'
        (omega (
          arith,
          room,
          open_size e.bit_width opened.ptr g runs ls opened.wr opened.stored size,
          opened.max_eq,
        ))

  -- The run stays open.
  pub flush_literal_run-open :
      (wr : Writer) × (p : ℕ) × (flush_literal_run false e
        ≡ record e { bit_writer = wr; literal_indicator_byte = some p; buffered_values = [] })
      × Stored e.bit_width (some p) runs (ls ++ e.buffered_values) wr
      × (wr.max_bytes ≡ e.bit_writer.max_bytes)
  flush_literal_run-open = (
    put_values e.bit_width e.buffered_values opened.wr,
    opened.ptr,
    flushed_open e opened.returns,
    grown.0,
    grown.1 ∙ opened.max_eq,
  )

  both_sizes : length (ls ++ e.buffered_values) ≡ (g + k) * 8
  both_sizes = omega (arith, length-append ls e.buffered_values, size, size')

  -- The run is closed.
  pub flush_literal_run-closed :
      e.literal_count ≡ (g + k) * 8
      → g + k < 64
      → (wr : Writer) × (flush_literal_run true e
          ≡ check_buffer_full (record e {
            bit_writer = wr;
            buffered_values = [];
            literal_indicator_byte = none;
            literal_count = 0;
          }))
        × Stored e.bit_width none (runs ++ (literal (ls ++ e.buffered_values) ∷ [])) [] wr
        × (wr.max_bytes ≡ e.bit_writer.max_bytes)
  unfolding store_indicator
  flush_literal_run-closed count few =
      let wr = put_values e.bit_width e.buffered_values opened.wr in
      let groups : e.literal_count / 8 ≡ g + k = omega (arith, count) in
      let byte : bit_or (e.literal_count / 8 * 2) 1 % 2 ^ 8 ≡ (g + k) * 2 + 1 =
        ap (λ (t : ℕ). bit_or (t * 2) 1 % 2 ^ 8) groups ∙ indicator_byte (g + k) few in
      (
        record wr { buffer = store wr.buffer opened.ptr (((g + k) * 2 + 1) ∷ []) },
        flushed_closed e opened.returns
            ∙ ap
                (λ (t : ℕ). check_buffer_full (record e {
                  bit_writer = record wr { buffer = store wr.buffer opened.ptr (t ∷ []) };
                  buffered_values = [];
                  literal_indicator_byte = none;
                  literal_count = 0;
                }))
                byte,
        close_literal e.bit_width opened.ptr (g + k) runs (ls ++ e.buffered_values) wr grown.0
            both_sizes few,
        grown.1 ∙ opened.max_eq,
      )
