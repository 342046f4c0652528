-- ===== src/Rle/Passes.antt =====
-- One pass of the loop of RleDecoder::GetBatch.
use parquet_cpp.Common.{ℕ, ◌+◌, ◌-◌, ◌^◌, ◌≤◌, ◌<◌, ◌≡◌, List, [], ◌∷◌, ◌++◌, length, arith, refl}
use parquet_cpp.Common.{
  Bool, true, false, ap, ap₂, ◌∙◌, Option, some, ltb, Bool-cases, inl, inr, ltb→lt, ltb→ge, gt→leb,
  replicate,
}
use parquet_cpp.Rle.Decoder.{
  Decoder, repeat_run, repeat_step, literal_step, batch_step, next_counts,
}
use parquet_cpp.Rle.Format.{Run}
use parquet_cpp.Rle.Denotes.{Denotes, Gives, repeat_run_lem, literal_step_lem}
use parquet_cpp.Rle.Next.{next_counts_lem}
use parquet_cpp.BitStream.Reader.Loops.{fields}

-- One pass gives values or takes up a run, so that the work left gets less.
pub record Step (left : ℕ) (runs : List Run) (vs : List ℕ)
    (result : Option (List ℕ × (Decoder × Bool))) : Type 0 where
  pub out : List ℕ
  pub next : Decoder
  pub after : List Run
  pub returns : result ≡ some (out, (next, true))
  pub gives : Gives vs after out next
  pub at_most : length out ≤ left
  pub smaller : left - length out + length after < left + length runs

module _ (four_bytes : Bool) (left : ℕ) (out : List ℕ) (d : Decoder) where
  repeat_branch :
      d.repeat_count < 2 ^ 31
      → ltb 0 d.repeat_count ≡ true
      → batch_step four_bytes left out d
        ≡ some ((repeat_run left d).0, ((repeat_run left d).1, true))
  unfolding batch_step repeat_step
  repeat_branch small e = rw (e, batch_step, gt→leb (2 ^ 31) d.repeat_count small)

  literal_branch :
      {vs : List ℕ} {next : Decoder}
      → ltb 0 d.repeat_count ≡ false
      → ltb 0 d.literal_count ≡ true
      → literal_step four_bytes left out d ≡ some (vs, next)
      → batch_step four_bytes left out d ≡ some (vs, (next, true))
  unfolding batch_step
  literal_branch e f g = rw (e, batch_step, f, g)

  next_branch :
      ltb 0 d.repeat_count ≡ false
      → ltb 0 d.literal_count ≡ false
      → batch_step four_bytes left out d ≡ some ([], next_counts d)
  unfolding batch_step
  next_branch e f = rw (e, batch_step, f)

nothing_left :
    {d : Decoder} {vs : List ℕ}
    → Denotes d [] vs
    → d.repeat_count ≡ 0
    → d.literal_count ≡ 0
    → length vs ≡ 0
nothing_left {d} {vs} h e f =
    ap length h.values_eq
    ∙ ap₂
        (λ (a b : ℕ).
          length (replicate a d.current_value ++ (fields d.bit_width b d.bit_reader ++ [])))
        e f

take_up :
    (four_bytes : Bool) (left : ℕ) (out : List ℕ) (d : Decoder) (runs : List Run) (vs : List ℕ)
    → Denotes d runs vs
    → 0 < left
    → left ≤ length vs
    → ltb 0 d.repeat_count ≡ false
    → ltb 0 d.literal_count ≡ false
    → Step left runs vs (batch_step four_bytes left out d)
take_up four_bytes left out d [] vs h some_left enough e f = absurd (
    omega (
      arith,
      nothing_left h (omega (arith, ltb→ge 0 d.repeat_count e))
          (omega (arith, ltb→ge 0 d.literal_count f)),
    ))
take_up four_bytes left out d (run ∷ runs) vs h some_left enough e f =
    let n =
      next_counts_lem run runs h (omega (arith, ltb→ge 0 d.repeat_count e))
        (omega (arith, ltb→ge 0 d.literal_count f)) in
    record {
      out = [];
      next = n.next;
      after = runs;
      returns = next_branch four_bytes left out d e f ∙ ap (λ p. some ([], p)) n.returns;
      gives = record { rest = vs; denotes = n.denotes; split = refl };
      at_most = omega arith;
      smaller = omega arith;
    }

pub batch_step_lem :
    (four_bytes : Bool) (left : ℕ) (out : List ℕ) (d : Decoder) (runs : List Run) (vs : List ℕ)
    → Denotes d runs vs
    → 0 < left
    → left ≤ length vs
    → Step left runs vs (batch_step four_bytes left out d)
batch_step_lem four_bytes left out d runs vs h some_left enough =
    elim (Bool-cases (ltb 0 d.repeat_count)) [
      | inl e ↦
          let (g, len) = repeat_run_lem h left in
          let more = ltb→lt 0 d.repeat_count e in
          record {
            out = (repeat_run left d).0;
            next = (repeat_run left d).1;
            after = runs;
            returns = repeat_branch four_bytes left out d h.repeat_int e;
            gives = g;
            at_most = omega (arith, len);
            smaller = omega (arith, len, more);
          }
      | inr e ↦ elim (Bool-cases (ltb 0 d.literal_count)) [
        | inl f ↦
            let s =
              literal_step_lem h four_bytes left out (omega (arith, ltb→ge 0 d.repeat_count e)) in
            let more = ltb→lt 0 d.literal_count f in
            record {
              out = s.out;
              next = s.next;
              after = runs;
              returns = literal_branch four_bytes left out d e f s.returns;
              gives = s.gives;
              at_most = omega (arith, s.count);
              smaller = omega (arith, s.count, more);
            }
        | inr f ↦ take_up four_bytes left out d runs vs h some_left enough e f
      ]
    ]
