-- ===== src/Rle/Buffered.antt =====
-- `FlushBufferedValues` on eight buffered values, and the buffering of one value in `Put`.
use parquet_cpp.Common.{
  ℕ, ◌+◌, ◌*◌, ◌/◌, ◌^◌, ◌≤◌, ◌<◌, ◌≡◌, inl, inr, List, [], ◌∷◌, ◌++◌, length, replicate, All,
  All-append, arith, refl,
}
use parquet_cpp.Common.{
  true, false, ap, ◌∙◌, sym, subst, none, length-append, ltb, leb, ◌==◌, Bool-cases, leb→le, leb→gt,
  ==→eq,
}
use parquet_cpp.BitStream.Writer.{bytes_written}
use parquet_cpp.Rle.Encoder.{Encoder, check_buffer_full, flush_literal_run, flush_buffered_values}
use parquet_cpp.Rle.Format.{Run, literal, expand}
use parquet_cpp.Rle.LiteralRun.{flush_literal_run-open, flush_literal_run-closed}
use parquet_cpp.Rle.Denotes.{length-replicate}
use parquet_cpp.Rle.Encodes.{Base, Free, Encodes, stored_bytes, min_buffer_size-bounds}
use parquet_cpp.Rle.Groups.{
  check_buffer_full-Encodes, closed_Base, expand_one, starts_repeat, closes_literal,
}
use mathlib.Core.List.{append-nil}

check_buffer_full-reset :
    (e : Encoder)
    → record (check_buffer_full e) { repeat_count = 0 }
      ≡ check_buffer_full (record e { repeat_count = 0 })
unfolding check_buffer_full
check_buffer_full-reset e =
    elim (Bool-cases
      (ltb e.bit_writer.max_bytes (bytes_written e.bit_writer + e.max_run_byte_size))) [
        | inl full ↦ rw full refl
        | inr room ↦ rw room refl
      ]

pub mul_le : (g h w : ℕ) → g ≤ h → g * w ≤ h * w
mul_le g h w l = grind arith

-- A group of other values goes to the literal run.
module _ (e : Encoder) (runs : List Run) (ls vs : List ℕ) (g : ℕ) (b : Base e runs ls g)
    (free : Free e runs) (group : length e.buffered_values ≡ 8)
    (small : All (λ v. v < 2 ^ e.bit_width) e.buffered_values)
    (values : vs ≡ expand runs ++ (ls ++ e.buffered_values)) where
  abbrev counted : Encoder
  counted = record e { literal_count = e.literal_count + length e.buffered_values }

  room_for_group : stored_bytes e runs + 1 + (g + 1) * e.bit_width ≤ e.bit_writer.max_bytes
  room_for_group =
      let bounds = min_buffer_size-bounds e.bit_width b.positive in
      omega (arith, free.1, bounds.0, mul_le (g + 1) 63 e.bit_width (omega (arith, b.few)))

  All-small : All (λ v. v < 2 ^ e.bit_width) (ls ++ e.buffered_values)
  All-small = All-append (λ v. v < 2 ^ e.bit_width) ls e.buffered_values b.small small

  both : length (ls ++ e.buffered_values) ≡ (g + 1) * 8
  both = omega (arith, length-append ls e.buffered_values, group, b.size)

  extends_literal :
      g < 62 → Encodes (record (flush_literal_run false counted) { repeat_count = 0 }) vs
  extends_literal few =
      let (wr, p, e', s, max) =
        flush_literal_run-open counted g 1 runs ls b.stored b.narrow b.size (omega (arith, group))
          b.small small room_for_group in
      rw e' (record {
        runs = runs;
        ls = ls ++ e.buffered_values;
        g = g + 1;
        pending = [];
        base = record {
          stored = s;
          positive = b.positive;
          narrow = b.narrow;
          in_int = omega (arith, b.in_int, max);
          run_size = b.run_size;
          runs_ok = b.runs_ok;
          size = both;
          count = omega (arith, b.count, group);
          few = omega (arith, few);
          opened = inr (omega arith);
          small = All-small;
          current = b.current;
        };
        values = values ∙ ap (λ l. expand runs ++ l) (sym (append-nil (ls ++ e.buffered_values)));
        pending_small = tt;
        shape = inr (omega arith, refl, [], refl);
        room = inl (free.0, omega (arith, free.1, max));
      })

  ends_literal : g ≡ 62 → Encodes (record (flush_literal_run true counted) { repeat_count = 0 }) vs
  ends_literal last =
      let (wr, e', s, max) =
        flush_literal_run-closed counted g 1 runs ls b.stored b.narrow b.size (omega (arith, group))
          b.small small room_for_group (omega (arith, b.count, group)) (omega (arith, last)) in
      let closed = record e {
        bit_writer = wr;
        buffered_values = [];
        literal_indicator_byte = none;
        literal_count = 0;
        repeat_count = 0;
      } in
      let base =
        closed_Base b (ls ++ e.buffered_values) (g + 1) wr [] 0 both (omega (arith, last)) All-small
          s max in
      subst (λ t. Encodes t vs)
        (sym (ap (λ (t : Encoder). record t { repeat_count = 0 }) e' ∙ check_buffer_full-reset _))
        (check_buffer_full-Encodes closed (runs ++ (literal (ls ++ e.buffered_values) ∷ [])) [] vs
          base s free.0
          (values ∙ sym (expand_one runs (literal (ls ++ e.buffered_values))) ∙ sym (append-nil _))
          tt (inr (omega arith, refl, [], refl)) (omega arith) refl (inl refl))

-- `FlushBufferedValues` on a full group keeps the values.
module _ (e : Encoder) (runs : List Run) (ls before vs : List ℕ) (g : ℕ) (b : Base e runs ls g)
    (free : Free e runs) (group : length e.buffered_values ≡ 8)
    (last : e.buffered_values ≡ before ++ replicate e.repeat_count e.current_value)
    (small : All (λ v. v < 2 ^ e.bit_width) e.buffered_values)
    (values : vs ≡ expand runs ++ (ls ++ e.buffered_values)) where
  sizes : length before + e.repeat_count ≡ 8
  sizes = omega (
    arith,
    group,
    ap length last,
    length-append before (replicate e.repeat_count e.current_value),
    length-replicate e.repeat_count e.current_value,
  )

  all_equal : 8 ≤ e.repeat_count → e.buffered_values ≡ replicate e.repeat_count e.current_value
  all_equal h =
      last
      ∙ ap (λ l. l ++ replicate e.repeat_count e.current_value)
          (nothing before (omega (arith, sizes, h)))
    where
      nothing : (l : List ℕ) → length l ≡ 0 → l ≡ []
      nothing [] h = refl
      nothing (x ∷ l) h = absurd (omega arith)

  pub flush_buffered_values-Encodes : Encodes (flush_buffered_values false e) vs
  unfolding flush_buffered_values
  flush_buffered_values-Encodes = elim (Bool-cases (leb 8 e.repeat_count)) [
    | inl many ↦
        let h = leb→le 8 e.repeat_count many in
        let same = all_equal h in
        let values' = values ∙ ap (λ l. expand runs ++ (ls ++ l)) same in
        let small' = subst (All (λ v. v < 2 ^ e.bit_width)) same small in
        let eight : e.repeat_count ≡ 8 = omega (arith, sizes, h) in
        rw many (elim (Bool-cases (e.literal_count == 0)) [
          | inl z ↦
              rw z (
                starts_repeat e runs ls vs g b free eight values' small'
                  (==→eq e.literal_count 0 z))
          | inr nz ↦ rw nz (closes_literal e runs ls vs g b free eight values' small')
        ])
    | inr few ↦
        rw few
          (elim (Bool-cases (leb (2 ^ 6) ((e.literal_count + length e.buffered_values) / 8 + 1))) [
            | inl full ↦
                let h = leb→le (2 ^ 6) _ full in
                rw full (
                  ends_literal e runs ls vs g b free group small values
                    (omega (arith, h, b.count, b.few, group)))
            | inr room ↦
                let h = leb→gt (2 ^ 6) _ room in
                rw room (
                  extends_literal e runs ls vs g b free group small values
                    (omega (arith, h, b.count, group)))
          ])
  ]
