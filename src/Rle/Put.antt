-- ===== src/Rle/Put.antt =====
-- `Put` appends a value to those that the encoder stands for.
use parquet_cpp.Common.{
  ℕ, ◌+◌, ◌*◌, ◌^◌, ◌≤◌, ◌<◌, ◌≡◌, ◌⊎◌, inl, inr, List, [], ◌∷◌, ◌++◌, length, replicate, All,
  arith, refl,
}
use parquet_cpp.Common.{
  Bool, true, false, ap, ap₂, ◌∙◌, sym, subst, length-append, ltb, leb, ◌==◌, Bool-cases, le→leb,
  gt→leb, ==→eq, if◌then◌else◌,
}
use parquet_cpp.BitUtil.{ceil}
use parquet_cpp.BitStream.Vlq.{vlq_bytes, length-vlq_bytes_le}
use parquet_cpp.BitStream.Writer.{bytes_written, put_vlq_int, put_aligned}
use parquet_cpp.BitStream.Writer.Invariant as W
use parquet_cpp.Rle.Encoder.{
  Encoder, check_buffer_full, flush_repeated_run, buffer_value, put_same, put_other, put,
}
use parquet_cpp.Rle.Format.{Run, repeated, expand}
use parquet_cpp.Rle.Denotes.{length-replicate}
use parquet_cpp.Rle.Encodes.{
  Repeats, Buffers, Free, Full, Encodes, stored_bytes, min_buffer_size-bounds, no_indicator,
  check_buffer_full_lem,
}
use parquet_cpp.Rle.Groups.{Base-with, expand_one}
use parquet_cpp.Rle.RepeatedRun.{flush_repeated_run_lem, repeated_Base, encoded_repeated}
use parquet_cpp.Rle.PutSame.{buffer_value-Encodes, put_same-Encodes}
use mathlib.Core.List.{append_assoc}
use mathlib.Core.Bool.{true≢false}

check_buffer_full-restart :
    (v : ℕ) (e : Encoder)
    → record (check_buffer_full e) { repeat_count = 1; current_value = v }
      ≡ check_buffer_full (record e { repeat_count = 1; current_value = v })
unfolding check_buffer_full
check_buffer_full-restart v e =
    elim (Bool-cases
      (ltb e.bit_writer.max_bytes (bytes_written e.bit_writer + e.max_run_byte_size))) [
        | inl full ↦ rw full refl
        | inr room ↦ rw room refl
      ]

-- A run that has ended is written, and the value starts a new one.
module _ (v : ℕ) (e : Encoder) (vs : List ℕ) (h : Encodes e vs) (free : Free e h.runs)
    (fits : v < 2 ^ e.bit_width) (rep : Repeats e h.g h.pending)
    (count : e.repeat_count < 2 ^ 30) where
  abbrev room_for : ℕ
  room_for = stored_bytes e h.runs + length (vlq_bytes 4 (e.repeat_count * 2)) + ceil e.bit_width 8

  has_room : room_for ≤ e.bit_writer.max_bytes
  has_room = omega (
    arith,
    free.1,
    (min_buffer_size-bounds e.bit_width h.base.positive).1,
    length-vlq_bytes_le 4 (e.repeat_count * 2),
  )

  abbrev runs_now : List Run
  runs_now = h.runs ++ (repeated e.repeat_count e.current_value ∷ [])

  values_now : vs ++ (v ∷ []) ≡ expand runs_now ++ (v ∷ [])
  values_now =
      let z = (no_indicator h.base rep.2).1 in
      ap (λ l. l ++ (v ∷ []))
        (h.values
          ∙ ap₂ (λ a c. expand h.runs ++ (a ++ c)) z rep.3
          ∙ sym (expand_one h.runs (repeated e.repeat_count e.current_value)))

  abbrev restarted : Encoder
  restarted = record e {
    bit_writer =
        (put_aligned e.current_value (ceil e.bit_width 8)
          (put_vlq_int (e.repeat_count * 2) e.bit_writer).0).0;
    buffered_values = [];
    repeat_count = 1;
    current_value = v;
  }

  begins :
      (full : Bool)
      → (Free (record restarted { buffer_full = full }) runs_now
          ⊎ (Full (record restarted { buffer_full = full }) runs_now 0 (v ∷ [])
              × (restarted.repeat_count ≡ 1)))
      → Encodes (buffer_value v (record restarted { buffer_full = full })) (vs ++ (v ∷ []))
  begins full room =
      buffer_value-Encodes v (record restarted { buffer_full = full }) runs_now [] []
        (vs ++ (v ∷ [])) 0
        (repeated_Base e h.runs h.ls h.g h.base rep.2 count has_room [] 1 v full fits) fits
        (omega arith) tt refl values_now room

  restarts :
      Encodes
        (buffer_value v (record (flush_repeated_run e) { repeat_count = 1; current_value = v }))
        (vs ++ (v ∷ []))
  restarts =
      let (e', s, max) = flush_repeated_run_lem e h.runs h.ls h.g h.base rep.2 count has_room in
      let bytes = encoded_repeated e.bit_width e.repeat_count e.current_value h.runs in
      let bounds = min_buffer_size-bounds e.bit_width h.base.positive in
      subst (λ t. Encodes (buffer_value v t) (vs ++ (v ∷ [])))
        (sym (
          ap (λ (t : Encoder). record t { repeat_count = 1; current_value = v }) e'
          ∙ check_buffer_full-restart v _))
        (elim (check_buffer_full_lem restarted) [
          | inl (same, room) ↦ rw same (
              begins e.buffer_full (
                inl (
                  free.0,
                  omega (
                    arith,
                    room,
                    h.base.run_size,
                    W.length-contents s.valid,
                    ap length s.holds.1,
                  ),
                )))
          | inr full ↦ rw full (
              begins true (
                inr (
                  (
                    refl,
                    refl,
                    omega arith,
                    refl,
                    inr (
                        omega (
                          arith,
                          max,
                          bytes,
                          free.1,
                          bounds.0,
                          bounds.2,
                          h.base.positive,
                          length-vlq_bytes_le 4 (e.repeat_count * 2),
                        )),
                  ),
                  refl,
                )))
        ])

put_other-Encodes :
    (v : ℕ) (e : Encoder) (vs : List ℕ) (h : Encodes e vs)
    → Free e h.runs
    → v < 2 ^ e.bit_width
    → length vs < 2 ^ 30
    → Encodes (put_other v e) (vs ++ (v ∷ []))
unfolding put_other
put_other-Encodes v e vs h free fits few = go h.shape
  where
    sizes : length vs ≡ length (expand h.runs) + (length h.ls + length h.pending)
    sizes = omega (
      arith,
      ap length h.values,
      length-append (expand h.runs) (h.ls ++ h.pending),
      length-append h.ls h.pending,
    )

    go :
        Repeats e h.g h.pending ⊎ Buffers e h.pending
        → Encodes
            (buffer_value v (record (if leb 8 e.repeat_count then flush_repeated_run e else e) {
              repeat_count = 1;
              current_value = v;
            }))
            (vs ++ (v ∷ []))
    go (inl rep) = rw (le→leb 8 e.repeat_count rep.0) (
        restarts v e vs h free fits rep (
          omega
            (arith, few, sizes, ap length rep.3, length-replicate e.repeat_count e.current_value)))
    go (inr (short, pending, before, last)) =
        rw
          (gt→leb 8 e.repeat_count (
            omega (
              arith,
              short,
              ap length last,
              length-append before (replicate e.repeat_count e.current_value),
              length-replicate e.repeat_count e.current_value,
            )))
          (buffer_value-Encodes v (record e { repeat_count = 1; current_value = v }) h.runs h.ls
            e.buffered_values (vs ++ (v ∷ [])) h.g
            (Base-with h.base e.buffer_full e.buffered_values 1 v fits) fits short
            (subst (All (λ x. x < 2 ^ e.bit_width)) pending h.pending_small) refl
            (ap (λ l. l ++ (v ∷ [])) h.values
              ∙ append_assoc (expand h.runs) (h.ls ++ h.pending) (v ∷ [])
              ∙ ap (λ l. expand h.runs ++ l) (append_assoc h.ls h.pending (v ∷ []))
              ∙ ap (λ l. expand h.runs ++ (h.ls ++ (l ++ (v ∷ [])))) pending)
            (inl free))

is_free : {e : Encoder} {vs : List ℕ} (h : Encodes e vs) → e.buffer_full ≡ false → Free e h.runs
is_free {e} h not_full = free h.room
  where
    free : Free e h.runs ⊎ Full e h.runs h.g h.pending → Free e h.runs
    free (inl f) = f
    free (inr f) = absurd (true≢false (sym f.0 ∙ not_full))

put_steps :
    (v : ℕ) (e : Encoder)
    → e.buffer_full ≡ false
    → put v e ≡ (if e.current_value == v then put_same v e else put_other v e, true)
unfolding put
put_steps v e not_full =
    ap
      (λ (b : Bool).
        if b
        then (e, false)
        else (if e.current_value == v then put_same v e else put_other v e, true))
      not_full

-- `Put` of a value that fits the width, to an encoder that is not full and has fewer than 2 ^ 30
-- values, succeeds, and the encoder stands for one value more.
pub put-Encodes :
    (v : ℕ) (e : Encoder) (vs : List ℕ)
    → Encodes e vs
    → e.buffer_full ≡ false
    → v < 2 ^ e.bit_width
    → length vs < 2 ^ 30
    → ((put v e).1 ≡ true) × Encodes (put v e).0 (vs ++ (v ∷ []))
put-Encodes v e vs h not_full fits few =
    let free = is_free h not_full in
    rw (put_steps v e not_full) (
      refl,
      elim (Bool-cases (e.current_value == v)) [
        | inl same ↦ rw same (put_same-Encodes v e vs h free fits (==→eq e.current_value v same))
        | inr other ↦ rw other (put_other-Encodes v e vs h free fits few)
      ],
    )

-- A full encoder takes no value and stays as it is.
pub put_full : (v : ℕ) (e : Encoder) → e.buffer_full ≡ true → put v e ≡ (e, false)
unfolding put
put_full v e full =
    ap
      (λ (b : Bool).
        if b
        then (e, false)
        else (if e.current_value == v then put_same v e else put_other v e, true))
      full
