-- ===== src/Rle/Decodes.antt =====
-- `GetBatch` of RleDecoder hands out the values that the runs stand for.
use parquet_cpp.Common.{
  ℕ, zero, suc, ◌+◌, ◌-◌, ◌*◌, ◌^◌, ◌≤◌, ◌<◌, ◌≡◌, List, [], ◌∷◌, ◌++◌, length, take, drop, All,
  arith, refl,
}
use parquet_cpp.Common.{
  Bool, true, ap, ◌∙◌, sym, Option, some, ltb, length-append, take-append, lt→ltb, length-drop,
}
use parquet_cpp.Common.Bytes.{IsByte}
use parquet_cpp.BitUtil.{ceil}
use parquet_cpp.Common.Pow.{two_pow_pos}
use parquet_cpp.BitStream.Reader.{reset}
use parquet_cpp.BitStream.Reader.Invariant.{reset-IsValid}
use parquet_cpp.BitStream.Vlq.{vlq_bytes, length-vlq_bytes}
use parquet_cpp.Rle.Decoder.{Decoder, make, batch_step, batch_loop, rle_get_batch}
use parquet_cpp.Rle.Format.{Run, IsRun, expand, encoded, indicator, body}
use parquet_cpp.Rle.Denotes.{Denotes, Gives}
use mathlib.Core.List.{append_assoc}
use parquet_cpp.Rle.Passes.{batch_step_lem}

-- What the loop leaves: `n` values, and a decoder that is to give the others.
pub record Decodes (n : ℕ) (vs : List ℕ) (result : Option (List ℕ × Decoder)) : Type 0 where
  pub next : Decoder
  pub after : List Run
  pub rest : List ℕ
  pub returns : result ≡ some (take n vs, next)
  pub denotes : Denotes next after rest
  pub split : vs ≡ take n vs ++ rest

record Loops (n : ℕ) (vs : List ℕ) (result : Option (List ℕ × Decoder)) : Type 0 where
  pub got : List ℕ
  pub next : Decoder
  pub after : List Run
  pub returns : result ≡ some (got, next)
  pub gives : Gives vs after got next
  pub count : length got ≡ n

loop_stops :
    (fuel : ℕ) (four_bytes : Bool) (out : List ℕ) (d : Decoder)
    → batch_loop fuel four_bytes 0 out d ≡ some ([], d)
unfolding batch_loop
loop_stops zero four_bytes out d = refl
loop_stops (suc fuel) four_bytes out d = refl

loop_passes :
    (fuel : ℕ) (four_bytes : Bool) (left : ℕ) (out : List ℕ) (d : Decoder) {vs ws : List ℕ}
    {next end : Decoder}
    → ltb 0 left ≡ true
    → batch_step four_bytes left out d ≡ some (vs, (next, true))
    → batch_loop fuel four_bytes (left - length vs) (drop (length vs) out) next ≡ some (ws, end)
    → batch_loop (suc fuel) four_bytes left out d ≡ some (vs ++ ws, end)
unfolding batch_loop
loop_passes fuel four_bytes left out d e f g = rw (e, batch_loop, f, g)

batch_loop_lem :
    (fuel : ℕ) (four_bytes : Bool) (left : ℕ) (out : List ℕ) (d : Decoder) (runs : List Run)
    (vs : List ℕ)
    → Denotes d runs vs
    → left ≤ length vs
    → left + length runs ≤ fuel
    → Loops left vs (batch_loop fuel four_bytes left out d)
batch_loop_lem fuel four_bytes zero out d runs vs h enough fuel_enough = record {
  got = [];
  next = d;
  after = runs;
  returns = loop_stops fuel four_bytes out d;
  gives = record { rest = vs; denotes = h; split = refl };
  count = refl;
}
batch_loop_lem zero four_bytes (suc left) out d runs vs h enough fuel_enough = absurd (omega arith)
batch_loop_lem (suc fuel) four_bytes (suc left) out d runs vs h enough fuel_enough =
    let s = batch_step_lem four_bytes (suc left) out d runs vs h (omega arith) enough in
    let sizes = ap length s.gives.split ∙ length-append s.out s.gives.rest in
    let r =
      batch_loop_lem fuel four_bytes (suc left - length s.out) (drop (length s.out) out) s.next
        s.after s.gives.rest s.gives.denotes (omega (arith, sizes, s.at_most))
        (omega (arith, s.smaller)) in
    record {
      got = s.out ++ r.got;
      next = r.next;
      after = r.after;
      returns =
          loop_passes fuel four_bytes (suc left) out d (lt→ltb 0 (suc left) (omega arith)) s.returns
            r.returns;
      gives = record {
        rest = r.gives.rest;
        denotes = r.gives.denotes;
        split =
            s.gives.split
            ∙ ap (λ l. s.out ++ l) r.gives.split
            ∙ sym (append_assoc s.out r.got r.gives.rest);
      };
      count = omega (arith, length-append s.out r.got, r.count, s.at_most);
    }

length-encoded : (w : ℕ) (runs : List Run) → length runs ≤ length (encoded w runs)
length-encoded w [] = omega arith
length-encoded w (run ∷ runs) = omega (
  arith,
  length-encoded w runs,
  length-vlq_bytes 4 (indicator run),
  length-append (vlq_bytes 4 (indicator run)) (body w run ++ encoded w runs),
  length-append (body w run) (encoded w runs),
)

pub runs_fit :
    {d : Decoder} {runs : List Run} {vs : List ℕ}
    → Denotes d runs vs
    → length runs ≤ d.bit_reader.max_bytes
runs_fit {d} {runs} h = omega (
  arith,
  length-encoded d.bit_width runs,
  length-append (encoded d.bit_width runs) h.more,
  ap length h.tail,
  length-drop h.ending d.bit_reader.buffer,
  h.valid.is_loaded.fits,
)

-- `GetBatch` of a decoder that is to give at least `n` values, and whose two counts fit an `int`,
-- stores the first `n` of them and leaves a decoder that is to give the rest, through any mix of repeated and literal runs.
pub rle_get_batch_lem :
    (four_bytes : Bool) (n : ℕ) (out : List ℕ) (d : Decoder) (runs : List Run) (vs : List ℕ)
    → Denotes d runs vs
    → n ≤ length vs
    → Decodes n vs (rle_get_batch four_bytes n out d)
unfolding rle_get_batch
rle_get_batch_lem four_bytes n out d runs vs h enough =
    let r =
      batch_loop_lem (n + suc d.bit_reader.max_bytes) four_bytes n out d runs vs h enough
        (omega (arith, runs_fit h)) in
    let start : take n vs ≡ r.got =
      ap (take n) r.gives.split ∙ take-append n r.got r.gives.rest (sym r.count) in
    record {
      next = r.next;
      after = r.after;
      rest = r.gives.rest;
      returns = r.returns ∙ ap (λ l. some (l, r.next)) (sym start);
      denotes = r.gives.denotes;
      split = r.gives.split ∙ ap (λ l. l ++ r.gives.rest) (sym start);
    }

-- A new decoder of a block is to give what its runs stand for.
pub make-Denotes :
    (old w n : ℕ) (runs : List Run) (more : List ℕ)
    → w ≤ 32
    → All (IsRun w) runs
    → length (encoded w runs ++ more) ≡ n
    → All IsByte (encoded w runs ++ more)
    → n * 8 < 2 ^ 31
    → old < 2 ^ 64
    → Denotes (make old (encoded w runs ++ more) n w) runs (expand runs)
unfolding make reset
make-Denotes old w n runs more narrow runs_ok fits bytes in_int word = record {
  valid = reset-IsValid old (encoded w runs ++ more) n fits bytes in_int word;
  narrow = narrow;
  low = two_pow_pos (8 * ceil w 8);
  repeat_int = omega arith;
  literal_int = omega arith;
  ending = 0;
  more = more;
  ending_eq = omega arith;
  inside = omega arith;
  tail = refl;
  runs_ok = runs_ok;
  values_eq = refl;
}

-- A block of runs of at most 32 bits, behind which any bytes may stand, decodes to the values of the
-- runs: `GetBatch` of a new decoder stores the first `n` of them, for every `n` up to their number,
-- and leaves a decoder that is to give the rest.
pub rle_get_batch-encoded :
    (four_bytes : Bool) (old w n k : ℕ) (out : List ℕ) (runs : List Run) (more : List ℕ)
    → w ≤ 32
    → All (IsRun w) runs
    → length (encoded w runs ++ more) ≡ n
    → All IsByte (encoded w runs ++ more)
    → n * 8 < 2 ^ 31
    → old < 2 ^ 64
    → k ≤ length (expand runs)
    → Decodes k
        (expand runs)
        (rle_get_batch four_bytes k out (make old (encoded w runs ++ more) n w))
rle_get_batch-encoded four_bytes old w n k out runs more narrow runs_ok fits bytes in_int word
      enough =
    rle_get_batch_lem four_bytes k out (make old (encoded w runs ++ more) n w) runs (expand runs)
      (make-Denotes old w n runs more narrow runs_ok fits bytes in_int word) enough
