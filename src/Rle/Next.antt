-- ===== src/Rle/Next.antt =====
-- `NextCounts` takes up the next run.
use parquet_cpp.Common.{
  ℕ, ◌+◌, ◌*◌, ◌/◌, ◌%◌, ◌^◌, ◌≤◌, ◌<◌, ◌≡◌, List, [], ◌∷◌, ◌++◌, length, replicate, All, arith,
  refl,
}
use parquet_cpp.Common.{true, ap, ap₂, ◌∙◌, sym, Option, some}
use parquet_cpp.Common.Bytes.{le_bytes, le_value, load_over, le_value-le_bytes, length-le_bytes}
use parquet_cpp.Common.Slices.{packed}
use parquet_cpp.BitUtil.{ceil}
use parquet_cpp.BitUtil.Rounding.{ceil-byte}
use parquet_cpp.BitStream.Reader.{Reader, get_aligned, get_vlq_int}
use parquet_cpp.BitStream.Reader.Loops.{fields}
use parquet_cpp.BitStream.Reader.Bytes.{rest_bytes, StandsBefore, get_aligned_lem}
use parquet_cpp.BitStream.VlqRead.{get_vlq_int_lem, ReadsVlq}
use parquet_cpp.BitStream.Vlq.{vlq_bytes}
use parquet_cpp.Rle.Decoder.{Decoder, half, read_current, start_run, next_counts}
use parquet_cpp.Rle.Format.{Run, repeated, literal, IsRun, expand, encoded, indicator, body}
use parquet_cpp.Rle.Denotes.{Denotes}
use native.Mathlib.Nat.{mod-eq_of_lt, div-eq_of_lt, pow-le-pow_right}
use mathlib.Core.List.{append_assoc}
use parquet_cpp.Common.{subst}
use parquet_cpp.Rle.RunStart.{
  next_byte, rest_at, half_lem, odd_test, even_test, fields_of_literals, position_here, behind_body,
  body_inside,
}

literal_start :
    (g : ℕ) (d : Decoder)
    → g < 2 ^ 28
    → start_run (g * 2 + 1) d ≡ record d { literal_count = g * 8 }
unfolding start_run
literal_start g d h =
    let n : half (g * 2 + 1) ≡ g = half_lem g (g * 2 + 1) 1 refl (omega arith) (omega arith) in
    let c : g * 8 % 2 ^ 32 ≡ g * 8 = mod-eq_of_lt (omega arith) in rw (odd_test g, n, c)

repeated_start :
    (count : ℕ) (d : Decoder)
    → count < 2 ^ 30
    → start_run (count * 2) d
      ≡ read_current (ceil d.bit_width 8) (record d { repeat_count = count })
unfolding start_run
repeated_start count d h =
    let n : half (count * 2) ≡ count = half_lem count (count * 2) 0 (omega arith) (omega arith) h in
    rw (even_test count, n)

read_current_steps :
    (n : ℕ) (d : Decoder) {v : ℕ} {next : Reader}
    → get_aligned n d.bit_reader ≡ some (v, next)
    → read_current n d
      ≡ record d { bit_reader = next; current_value = load_over d.current_value (le_bytes n v) }
unfolding read_current
read_current_steps n d e = rw (e, read_current)

-- A value below `2 ^ (8 * n)` replaces a word that is below it as well.
load_low :
    (n old v : ℕ)
    → old < 2 ^ (8 * n)
    → v < 2 ^ (8 * n)
    → load_over old (le_bytes n (le_value (le_bytes n v))) ≡ v
load_low n old v h k =
    let once : le_value (le_bytes n v) ≡ v = le_value-le_bytes n v ∙ mod-eq_of_lt k in
    let same : le_value (le_bytes n (le_value (le_bytes n v))) ≡ v =
      ap (λ (t : ℕ). le_value (le_bytes n t)) once ∙ once in
    let none_kept : old / 2 ^ (8 * length (le_bytes n (le_value (le_bytes n v)))) ≡ 0 =
      ap (λ (t : ℕ). old / 2 ^ (8 * t)) (length-le_bytes n (le_value (le_bytes n v)))
      ∙ div-eq_of_lt h in
    ap₂ (λ (a b : ℕ). a + b * 2 ^ (8 * length (le_bytes n (le_value (le_bytes n v))))) same
      none_kept
    ∙ omega arith

value_fits : (w v : ℕ) → v < 2 ^ w → v < 2 ^ (8 * ceil w 8)
value_fits w v h =
    omega (arith, pow-le-pow_right {n = 2} (omega arith) {i = w} {j = 8 * ceil w 8} (ceil-byte w).0)

next_steps :
    (d : Decoder) {u : ℕ} {after : Reader}
    → get_vlq_int d.bit_reader ≡ (some u, after)
    → next_counts d ≡ (start_run u (record d { bit_reader = after }), true)
unfolding next_counts
next_steps d {u} e =
    rw (e, next_counts)
      (ap (λ (s : Option ℕ × Reader). (start_run u (record d { bit_reader = s.1 }), true)) e)

indicator-lt : (w : ℕ) (run : Run) → IsRun w run → indicator run < 2 ^ 32
indicator-lt w (repeated count v) h = omega (arith, h.0)
indicator-lt w (literal vs) h = omega (arith, h.0)

-- The state that the start of a run leaves, when the reader stands before its body.
pub record Starts (d : Decoder) (runs : List Run) (vs : List ℕ) (result : Decoder) : Type 0 where
  pub next : Decoder
  pub returns : result ≡ next
  pub denotes : Denotes next runs vs

module _ (d : Decoder) (runs : List Run) (more : List ℕ) (narrow : d.bit_width ≤ 32)
    (low : d.current_value < 2 ^ (8 * ceil d.bit_width 8)) (runs_ok : All (IsRun d.bit_width) runs)
    (no_repeat : d.repeat_count ≡ 0) (no_literal : d.literal_count ≡ 0) where
  start_literal :
      (ws : List ℕ)
      → StandsBefore d.bit_reader
          (body d.bit_width (literal ws) ++ (encoded d.bit_width runs ++ more))
      → d.bit_reader.bit_offset ≡ 0
      → IsRun d.bit_width (literal ws)
      → Starts d runs (ws ++ expand runs) (start_run (length ws / 8 * 2 + 1) d)
  start_literal ws b aligned ok =
      let g : ℕ = length ws / 8 in
      let w : ℕ = d.bit_width in
      let bs = le_bytes (g * w) (packed w ws) in
      let rest = encoded w runs ++ more in
      let size : length ws ≡ g * 8 = omega (arith, ok.1) in
      let len = length-le_bytes (g * w) (packed w ws) in
      let fs = fields_of_literals w g ws rest d.bit_reader b.valid aligned size ok.2 b.rest_eq in
      record {
        next = record d { literal_count = g * 8 };
        returns = literal_start g d (omega (arith, ok.0));
        denotes = record {
          valid = b.valid;
          narrow = narrow;
          low = low;
          repeat_int = omega (arith, no_repeat);
          literal_int = omega (arith, ok.0, size);
          ending = next_byte d.bit_reader + length bs;
          more = more;
          ending_eq =
              omega (arith, position_here d.bit_reader b.valid aligned bs rest b.rest_eq, len);
          inside = body_inside d.bit_reader b.valid aligned bs rest b.rest_eq;
          tail = behind_body d.bit_reader b.valid aligned bs rest b.rest_eq;
          runs_ok = runs_ok;
          values_eq =
              ap (λ l. l ++ expand runs) (sym fs ∙ ap (λ (t : ℕ). fields w t d.bit_reader) size)
              ∙ ap
                  (λ (t : ℕ).
                    replicate t d.current_value ++ (fields w (g * 8) d.bit_reader ++ expand runs))
                  (sym no_repeat);
        };
      }

  start_repeated :
      (count v : ℕ)
      → StandsBefore d.bit_reader
          (body d.bit_width (repeated count v) ++ (encoded d.bit_width runs ++ more))
      → IsRun d.bit_width (repeated count v)
      → Starts d runs (replicate count v ++ expand runs) (start_run (count * 2) d)
  start_repeated count v b ok =
      let w : ℕ = d.bit_width in
      let n : ℕ = ceil w 8 in
      let rest = encoded w runs ++ more in
      let (next, got, before, aligned, max) =
        get_aligned_lem n d.bit_reader b.valid (le_bytes n v) rest b.rest_eq
          (length-le_bytes n v) in
      let fits = value_fits w v ok.1 in
      let value = load_low n d.current_value v low fits in
      record {
        next = record d { bit_reader = next; current_value = v; repeat_count = count };
        returns =
            repeated_start count d ok.0
            ∙ read_current_steps n (record d { repeat_count = count }) got
            ∙ ap
                (λ (t : ℕ). record d { bit_reader = next; current_value = t; repeat_count = count })
                value;
        denotes = record {
          valid = before.valid;
          narrow = narrow;
          low = fits;
          repeat_int = omega (arith, ok.0);
          literal_int = omega (arith, no_literal);
          ending = next_byte next + 0;
          more = more;
          ending_eq = omega (
            arith,
            position_here next before.valid aligned [] rest before.rest_eq,
            ap (λ (t : ℕ). w * t) no_literal,
          );
          inside = body_inside next before.valid aligned [] rest before.rest_eq;
          tail = behind_body next before.valid aligned [] rest before.rest_eq;
          runs_ok = runs_ok;
          values_eq =
              ap (λ (t : ℕ). replicate count v ++ (fields w t next ++ expand runs))
                (sym no_literal);
        };
      }

pub record NextRun (d : Decoder) (runs : List Run) (vs : List ℕ) : Type 0 where
  pub next : Decoder
  pub returns : next_counts d ≡ (next, true)
  pub denotes : Denotes next runs vs

started :
    {d : Decoder} {u : ℕ} {after : Reader} {runs : List Run} {vs : List ℕ}
    → get_vlq_int d.bit_reader ≡ (some u, after)
    → Starts
        (record d { bit_reader = after })
        runs
        vs
        (start_run u (record d { bit_reader = after }))
    → NextRun d runs vs
started {d} e s = record {
  next = s.next;
  returns = next_steps d e ∙ ap (λ t. (t, true)) s.returns;
  denotes = s.denotes;
}

-- With nothing left of the last run, `NextCounts` takes up the next one.
pub next_counts_lem :
    {d : Decoder} (run : Run) (runs : List Run) {vs : List ℕ}
    → Denotes d (run ∷ runs) vs
    → d.repeat_count ≡ 0
    → d.literal_count ≡ 0
    → NextRun d runs vs
next_counts_lem {d} run runs {vs} h no_repeat no_literal =
    let w : ℕ = d.bit_width in
    let all : expand (run ∷ runs) ≡ vs =
      ap₂
        (λ (a b : ℕ).
          replicate a d.current_value ++ (fields w b d.bit_reader ++ expand (run ∷ runs)))
        (sym no_repeat) (sym no_literal)
      ∙ sym h.values_eq in
    let behind = body w run ++ (encoded w runs ++ h.more) in
    let before : rest_bytes d.bit_reader ≡ vlq_bytes 4 (indicator run) ++ behind =
      rest_at d.bit_reader h.ending (omega (arith, h.ending_eq, ap (λ (t : ℕ). w * t) no_literal))
      ∙ h.tail
      ∙ append_assoc (vlq_bytes 4 (indicator run)) (body w run ++ encoded w runs) h.more
      ∙ ap (λ l. vlq_bytes 4 (indicator run) ++ l)
          (append_assoc (body w run) (encoded w runs) h.more) in
    let got =
      get_vlq_int_lem (indicator run) behind d.bit_reader h.valid (indicator-lt w run h.runs_ok.0)
        before in
    subst (λ l. NextRun d runs l) all (started got.returns (start run got h.runs_ok.0))
  where
    start :
        (run : Run)
        → (got : ReadsVlq
            (indicator run)
            (body d.bit_width run ++ (encoded d.bit_width runs ++ h.more))
            d.bit_reader
            (get_vlq_int d.bit_reader))
        → IsRun d.bit_width run
        → Starts
            (record d { bit_reader = got.next })
            runs
            (expand (run ∷ runs))
            (start_run (indicator run) (record d { bit_reader = got.next }))
    start (repeated count v) got ok =
        start_repeated (record d { bit_reader = got.next }) runs h.more h.narrow h.low h.runs_ok.1
          no_repeat no_literal count v got.before ok
    start (literal ws) got ok =
        start_literal (record d { bit_reader = got.next }) runs h.more h.narrow h.low h.runs_ok.1
          no_repeat no_literal ws got.before got.aligned ok
