-- ===== src/Rle/PutSame.antt =====
-- `Put` of a value: the buffer, and a value like the last one.
use parquet_cpp.Common.{
  ℕ, ◌+◌, ◌^◌, ◌≤◌, ◌<◌, ◌≡◌, ◌⊎◌, inl, inr, List, [], ◌∷◌, ◌++◌, length, replicate, All,
  All-append, arith, refl,
}
use parquet_cpp.Common.{
  ap, ◌∙◌, sym, subst, length-append, ltb, ◌==◌, Bool-cases, lt→ltb, ge→ltb, ==→eq, ==→ne,
  if◌then◌else◌,
}
use parquet_cpp.Rle.Encoder.{Encoder, buffer_value, put_same}
use parquet_cpp.Rle.Format.{Run, expand}
use parquet_cpp.Rle.Denotes.{length-replicate, replicate-split}
use parquet_cpp.Rle.Encodes.{Base, Repeats, Buffers, Free, Full, Encodes}
use parquet_cpp.Rle.Groups.{Base-with}
use parquet_cpp.Rle.Buffered.{flush_buffered_values-Encodes}
use mathlib.Core.List.{append_assoc}

-- One value more in the buffer, which the counts include already.
module _ (v : ℕ) (e : Encoder) (runs : List Run) (ls before vs : List ℕ) (g : ℕ)
    (b : Base e runs ls g) (fits : v < 2 ^ e.bit_width) (short : length e.buffered_values < 8)
    (small : All (λ x. x < 2 ^ e.bit_width) e.buffered_values)
    (last : e.buffered_values ++ (v ∷ []) ≡ before ++ replicate e.repeat_count e.current_value)
    (values : vs ≡ expand runs ++ (ls ++ (e.buffered_values ++ (v ∷ []))))
    (room : Free e runs
      ⊎ (Full e runs g (e.buffered_values ++ (v ∷ [])) × (e.repeat_count ≡ 1))) where
  abbrev buffered : List ℕ
  buffered = e.buffered_values ++ (v ∷ [])

  buffered_small : All (λ x. x < 2 ^ e.bit_width) buffered
  buffered_small = All-append (λ x. x < 2 ^ e.bit_width) e.buffered_values (v ∷ []) small (fits, tt)

  stays : length buffered ≡ 8 → Free e runs
  stays eight = free room
    where
      free : Free e runs ⊎ (Full e runs g buffered × (e.repeat_count ≡ 1)) → Free e runs
      free (inl f) = f
      free (inr (f, one)) = absurd (
          omega (arith, eight, one, ap length f.3, length-replicate e.repeat_count e.current_value))

  room_kept : Free e runs ⊎ Full e runs g buffered
  room_kept = kept room
    where
      kept :
          Free e runs ⊎ (Full e runs g buffered × (e.repeat_count ≡ 1))
          → Free e runs ⊎ Full e runs g buffered
      kept (inl f) = inl f
      kept (inr (f, one)) = inr f

  pub buffer_value-Encodes : Encodes (buffer_value v e) vs
  unfolding buffer_value
  buffer_value-Encodes = elim (Bool-cases (length buffered == 8)) [
    | inl full ↦
        let eight = ==→eq (length buffered) 8 full in
        rw full (
          flush_buffered_values-Encodes (record e { buffered_values = buffered }) runs ls before vs
            g (Base-with b e.buffer_full buffered e.repeat_count e.current_value b.current)
            (stays eight) eight last buffered_small values)
    | inr part ↦
        let seven = ==→ne (length buffered) 8 part in
        rw part (record {
          runs = runs;
          ls = ls;
          g = g;
          pending = buffered;
          base = Base-with b e.buffer_full buffered e.repeat_count e.current_value b.current;
          values = values;
          pending_small = buffered_small;
          shape = inr (
            omega (arith, length-append e.buffered_values (v ∷ []), short, seven),
            refl,
            before,
            last,
          );
          room = room_kept;
        })
  ]

-- A value like the last one.
pub put_same-Encodes :
    (v : ℕ) (e : Encoder) (vs : List ℕ) (h : Encodes e vs)
    → Free e h.runs
    → v < 2 ^ e.bit_width
    → e.current_value ≡ v
    → Encodes (put_same v e) (vs ++ (v ∷ []))
unfolding put_same
put_same-Encodes v e vs h free fits same = go h.shape
  where
    one_more : (n : ℕ) → replicate n e.current_value ++ (v ∷ []) ≡ replicate (n + 1) e.current_value
    one_more n =
        ap (λ (t : ℕ). replicate n e.current_value ++ (t ∷ [])) (sym same)
        ∙ sym (replicate-split n 1 e.current_value)

    behind : vs ++ (v ∷ []) ≡ expand h.runs ++ (h.ls ++ (h.pending ++ (v ∷ [])))
    behind =
        ap (λ l. l ++ (v ∷ [])) h.values
        ∙ append_assoc (expand h.runs) (h.ls ++ h.pending) (v ∷ [])
        ∙ ap (λ l. expand h.runs ++ l) (append_assoc h.ls h.pending (v ∷ []))

    go :
        Repeats e h.g h.pending ⊎ Buffers e h.pending
        → Encodes
            (if ltb 8 (e.repeat_count + 1)
              then record e { repeat_count = e.repeat_count + 1 }
              else buffer_value v (record e { repeat_count = e.repeat_count + 1 }))
            (vs ++ (v ∷ []))
    go (inl (many, empty, none_open, pending)) =
        rw (lt→ltb 8 (e.repeat_count + 1) (omega (arith, many))) (record {
          runs = h.runs;
          ls = h.ls;
          g = h.g;
          pending = h.pending ++ (v ∷ []);
          base =
              Base-with h.base e.buffer_full e.buffered_values (e.repeat_count + 1) e.current_value
                h.base.current;
          values = behind;
          pending_small =
              All-append (λ x. x < 2 ^ e.bit_width) h.pending (v ∷ []) h.pending_small (fits, tt);
          shape = inl (
            omega (arith, many),
            empty,
            none_open,
            ap (λ l. l ++ (v ∷ [])) pending ∙ one_more e.repeat_count,
          );
          room = inl free;
        })
    go (inr (short, pending, before, last)) =
        let few : e.repeat_count + 1 ≤ 8 = omega (
          arith,
          short,
          ap length last,
          length-append before (replicate e.repeat_count e.current_value),
          length-replicate e.repeat_count e.current_value,
        ) in
        rw (ge→ltb 8 (e.repeat_count + 1) few) (
          buffer_value-Encodes v (record e { repeat_count = e.repeat_count + 1 }) h.runs h.ls before
            (vs ++ (v ∷ [])) h.g
            (Base-with h.base e.buffer_full e.buffered_values (e.repeat_count + 1) e.current_value
              h.base.current)
            fits short (subst (All (λ x. x < 2 ^ e.bit_width)) pending h.pending_small)
            (ap (λ l. l ++ (v ∷ [])) last
              ∙ append_assoc before (replicate e.repeat_count e.current_value) (v ∷ [])
              ∙ ap (λ l. before ++ l) (one_more e.repeat_count))
            (behind ∙ ap (λ l. expand h.runs ++ (h.ls ++ (l ++ (v ∷ [])))) pending) (inl free))
