-- ===== src/Rle/RepeatedRun.antt =====
-- `FlushRepeatedRun` of RleEncoder.
use parquet_cpp.Common.{
  ℕ, ◌+◌, ◌*◌, ◌%◌, ◌^◌, ◌≤◌, ◌<◌, ◌≡◌, inl, List, [], ◌∷◌, ◌++◌, length, All-append, arith, refl,
}
use parquet_cpp.Common.{Bool, ap, sym, subst, none, length-append}
use parquet_cpp.Common.Bytes.{length-le_bytes}
use parquet_cpp.BitUtil.{ceil}
use parquet_cpp.BitStream.Writer.{Writer, put_vlq_int, put_aligned}
use parquet_cpp.BitStream.Vlq.{vlq_bytes}
use parquet_cpp.Rle.Encoder.{Encoder, check_buffer_full, flush_repeated_run}
use parquet_cpp.Rle.Format.{Run, repeated, IsRun, encoded, body}
use parquet_cpp.Rle.Stored.{Stored, encoded-append, write_repeated}
use parquet_cpp.Rle.Encodes.{Base, stored_bytes, no_indicator}
use native.Mathlib.Nat.{mod-eq_of_lt}

pub encoded_repeated :
    (w count v : ℕ) (runs : List Run)
    → length (encoded w (runs ++ (repeated count v ∷ [])))
      ≡ length (encoded w runs) + length (vlq_bytes 4 (count * 2)) + ceil w 8
encoded_repeated w count v runs = omega (
  arith,
  ap length (encoded-append w runs (repeated count v ∷ [])),
  length-append (encoded w runs) (encoded w (repeated count v ∷ [])),
  length-append (vlq_bytes 4 (count * 2)) (body w (repeated count v) ++ []),
  length-append (body w (repeated count v)) [],
  length-le_bytes (ceil w 8) v,
)

module _ (e : Encoder) (runs : List Run) (ls : List ℕ) (g : ℕ) (b : Base e runs ls g)
    (none_open : g ≡ 0) (count : e.repeat_count < 2 ^ 30)
    (room : stored_bytes e runs + length (vlq_bytes 4 (e.repeat_count * 2)) + ceil e.bit_width 8
      ≤ e.bit_writer.max_bytes) where
  abbrev wr : Writer
  wr =
      (put_aligned e.current_value (ceil e.bit_width 8)
        (put_vlq_int (e.repeat_count * 2) e.bit_writer).0).0

  abbrev run : Run
  run = repeated e.repeat_count e.current_value

  Stored-none : Stored e.bit_width none runs [] e.bit_writer
  Stored-none =
      let (n, z) = no_indicator b none_open in
      subst (λ l. Stored e.bit_width none runs l e.bit_writer) z
        (subst (λ p. Stored e.bit_width p runs ls e.bit_writer) n b.stored)

  run_written :
      Stored e.bit_width none (runs ++ (run ∷ [])) [] wr × (wr.max_bytes ≡ e.bit_writer.max_bytes)
  run_written =
      write_repeated e.bit_width e.repeat_count e.current_value runs e.bit_writer Stored-none count
        (omega (arith, room, ap length Stored-none.holds.1))

  -- The run is written, and the encoder has nothing buffered.
  pub flush_repeated_run_lem :
      (flush_repeated_run e
        ≡ check_buffer_full (record e { bit_writer = wr; buffered_values = []; repeat_count = 0 }))
      × Stored e.bit_width none (runs ++ (run ∷ [])) [] wr
      × (wr.max_bytes ≡ e.bit_writer.max_bytes)
  unfolding flush_repeated_run
  flush_repeated_run_lem =
      let small : e.repeat_count * 2 % 2 ^ 32 ≡ e.repeat_count * 2 =
        mod-eq_of_lt (omega (arith, count)) in
      (
        ap
            (λ (t : ℕ). check_buffer_full (record e {
              bit_writer =
                  (put_aligned e.current_value (ceil e.bit_width 8)
                    (put_vlq_int t e.bit_writer).0).0;
              buffered_values = [];
              repeat_count = 0;
            }))
            small,
        run_written.0,
        run_written.1,
      )

  pub repeated_Base :
      (bs : List ℕ) (rc cur : ℕ) (full : Bool)
      → cur < 2 ^ e.bit_width
      → Base
          (record e {
            bit_writer = wr;
            buffer_full = full;
            buffered_values = bs;
            repeat_count = rc;
            current_value = cur;
          })
          (runs ++ (run ∷ []))
          []
          0
  repeated_Base bs rc cur full fits = record {
    stored =
        subst (λ p. Stored e.bit_width p (runs ++ (run ∷ [])) [] wr)
          (sym (no_indicator b none_open).0) run_written.0;
    positive = b.positive;
    narrow = b.narrow;
    in_int = omega (arith, b.in_int, run_written.1);
    run_size = b.run_size;
    runs_ok = All-append (IsRun e.bit_width) runs (run ∷ []) b.runs_ok ((count, b.current), tt);
    size = refl;
    count = omega (arith, b.count, none_open);
    few = omega arith;
    opened = inl (no_indicator b none_open).0;
    small = tt;
    current = fits;
  }
