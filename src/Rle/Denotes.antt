-- ===== src/Rle/Denotes.antt =====
-- What the state of an RleDecoder stands for, and the two branches that hand out values.
use parquet_cpp.Common.{
  ℕ, zero, suc, ◌+◌, ◌-◌, ◌*◌, ◌^◌, ◌≤◌, ◌<◌, ◌≡◌, List, [], ◌∷◌, ◌++◌, length, take, drop,
  replicate, All, arith, refl, min,
}
use parquet_cpp.Common.{Bool, subst, ap, ap₂, ◌∙◌, sym, Option, some, ge→ltb, gt→leb}
use parquet_cpp.Common.Slices.{length-slices}
use parquet_cpp.BitUtil.{ceil}
use parquet_cpp.BitStream.Reader.{Reader, get_batch}
use parquet_cpp.BitStream.Reader.Invariant.{IsValid, position, rest_of}
use parquet_cpp.BitStream.Reader.Value.{Takes}
use parquet_cpp.BitStream.Reader.Loops.{fields, fields_behind}
use parquet_cpp.BitStream.Reader.Batch.{available, get_batch_lem}
use parquet_cpp.Rle.Decoder.{Decoder, repeat_run, literal_step}
use parquet_cpp.Rle.Format.{Run, IsRun, expand, encoded}
use mathlib.Core.List.{append_assoc, append-nil}

-- The decoder is to give `values`: what is left of the current run, and then `runs`.
pub record Denotes (d : Decoder) (runs : List Run) (values : List ℕ) : Type 0 where
  pub valid : IsValid d.bit_reader
  pub narrow : d.bit_width ≤ 32
  pub low : d.current_value < 2 ^ (8 * ceil d.bit_width 8)
  pub repeat_int : d.repeat_count < 2 ^ 31
  pub literal_int : d.literal_count < 2 ^ 31
  pub ending : ℕ
  pub more : List ℕ
  pub ending_eq : position d.bit_reader + d.bit_width * d.literal_count ≡ 8 * ending
  pub inside : ending ≤ d.bit_reader.max_bytes
  pub tail : drop ending d.bit_reader.buffer ≡ encoded d.bit_width runs ++ more
  pub runs_ok : All (IsRun d.bit_width) runs
  pub values_eq :
      values
      ≡ replicate d.repeat_count d.current_value
        ++ (fields d.bit_width d.literal_count d.bit_reader ++ expand runs)

pub length-replicate : (n x : ℕ) → length (replicate n x) ≡ n
length-replicate zero x = refl
length-replicate (suc n) x = ap suc (length-replicate n x)

pub replicate-split : (k n x : ℕ) → replicate (k + n) x ≡ replicate k x ++ replicate n x
replicate-split zero n x = ap (λ (t : ℕ). replicate t x) (omega arith)
replicate-split (suc k) n x =
    ap (λ (t : ℕ). replicate t x) e ∙ ap (λ l. x ∷ l) (replicate-split k n x)
  where
    e : suc k + n ≡ suc (k + n)
    e = omega arith

-- A part of the values, and a decoder that denotes the rest.
pub record Gives (vs : List ℕ) (runs : List Run) (out : List ℕ) (next : Decoder) : Type 0 where
  pub rest : List ℕ
  pub denotes : Denotes next runs rest
  pub split : vs ≡ out ++ rest

module _ {d : Decoder} {runs : List Run} {vs : List ℕ} (h : Denotes d runs vs) (left : ℕ) where
  pub repeat_run_lem :
      Gives vs runs (repeat_run left d).0 (repeat_run left d).1
      × (length (repeat_run left d).0 ≡ min left d.repeat_count)
  unfolding repeat_run
  repeat_run_lem =
      let k : ℕ = min left d.repeat_count in
      let e : d.repeat_count ≡ k + (d.repeat_count - k) = omega arith in
      let behind : List ℕ = fields d.bit_width d.literal_count d.bit_reader ++ expand runs in
      (
        record {
          rest = replicate (d.repeat_count - k) d.current_value ++ behind;
          denotes = record {
            valid = h.valid;
            narrow = h.narrow;
            low = h.low;
            repeat_int = omega (arith, h.repeat_int);
            literal_int = h.literal_int;
            ending = h.ending;
            more = h.more;
            ending_eq = h.ending_eq;
            inside = h.inside;
            tail = h.tail;
            runs_ok = h.runs_ok;
            values_eq = refl;
          };
          split =
              h.values_eq
              ∙ ap (λ (t : ℕ). replicate t d.current_value ++ behind) e
              ∙ ap (λ l. l ++ behind) (replicate-split k (d.repeat_count - k) d.current_value)
              ∙ append_assoc (replicate k d.current_value)
                  (replicate (d.repeat_count - k) d.current_value) behind;
        },
        length-replicate k d.current_value,
      )

available_all : (w k : ℕ) (r : Reader) → position r + w * k ≤ 8 * r.max_bytes → available w k r ≡ k
available_all w k r room = rw (ge→ltb (8 * r.max_bytes - position r) (w * k) (omega arith))

drop-take : (k : ℕ) (xs : List ℕ) → drop k (take k xs) ≡ []
drop-take zero xs = refl
drop-take (suc k) [] = refl
drop-take (suc k) (x ∷ xs) = drop-take k xs

append-nothing : (k n : ℕ) (vs out : List ℕ) → n ≡ k → vs ++ drop n (take k out) ≡ vs ++ []
append-nothing k n vs out e =
    ap (λ (t : ℕ). vs ++ drop t (take k out)) e ∙ ap (λ l. vs ++ l) (drop-take k out)

module _ {d : Decoder} {runs : List Run} {vs : List ℕ} (h : Denotes d runs vs)
    (no_repeat : d.repeat_count ≡ 0) (k : ℕ) (k-le : k ≤ d.literal_count) where
  split_count :
      d.bit_width * d.literal_count ≡ d.bit_width * k + d.bit_width * (d.literal_count - k)
  split_count =
      let e : d.literal_count ≡ k + (d.literal_count - k) = omega arith in
      omega (arith, ap (λ (t : ℕ). d.bit_width * t) e)

  literal_room : position d.bit_reader + d.bit_width * k ≤ 8 * d.bit_reader.max_bytes
  literal_room = omega (arith, split_count, h.ending_eq, h.inside)

  -- The values that a reader behind `k` literals is to give.
  literal_Gives :
      (next : Reader)
      → Takes d.bit_reader next (d.bit_width * k)
      → Gives vs runs
          (fields d.bit_width k d.bit_reader)
          (record d { bit_reader = next; literal_count = d.literal_count - k })
  literal_Gives next t =
      let e : k + (d.literal_count - k) ≡ d.literal_count = omega arith in
      record {
        rest =
            replicate d.repeat_count d.current_value
            ++ (fields d.bit_width (d.literal_count - k) next ++ expand runs);
        denotes = record {
          valid = t.valid;
          narrow = h.narrow;
          low = h.low;
          repeat_int = h.repeat_int;
          literal_int = omega (arith, h.literal_int);
          ending = h.ending;
          more = h.more;
          ending_eq = omega (arith, split_count, h.ending_eq, t.position_eq);
          inside = omega (arith, h.inside, t.max_eq);
          tail = ap (drop h.ending) t.buffer_eq ∙ h.tail;
          runs_ok = h.runs_ok;
          values_eq = refl;
        };
        split =
            h.values_eq
            ∙ ap₂ (λ (n : ℕ) l. replicate n d.current_value ++ (l ++ expand runs)) no_repeat
                (sym (ap (λ (n : ℕ). fields d.bit_width n d.bit_reader) e)
                  ∙ sym (
                      fields_behind d.bit_width k (d.literal_count - k) d.bit_reader next
                        t.position_eq t.buffer_eq))
            ∙ append_assoc (fields d.bit_width k d.bit_reader)
                (fields d.bit_width (d.literal_count - k) next) (expand runs)
            ∙ ap
                (λ (n : ℕ).
                  fields d.bit_width k d.bit_reader
                  ++ (replicate n d.current_value
                      ++ (fields d.bit_width (d.literal_count - k) next ++ expand runs)))
                (sym no_repeat);
      }

-- What the literal branch leaves.
pub record LiteralStep (d : Decoder) (runs : List Run) (vs : List ℕ) (k : ℕ)
    (result : Option (List ℕ × Decoder)) : Type 0 where
  pub out : List ℕ
  pub next : Decoder
  pub returns : result ≡ some (out, next)
  pub gives : Gives vs runs out next
  pub count : length out ≡ k

literal_steps :
    (four_bytes : Bool) (left : ℕ) (out vs : List ℕ) (d : Decoder) {next : Reader}
    → d.literal_count < 2 ^ 31
    → get_batch four_bytes d.bit_width (min left d.literal_count) d.bit_reader ≡ some (vs, next)
    → literal_step four_bytes left out d
      ≡ some (
        vs ++ drop (length vs) (take (min left d.literal_count) out),
        record d { bit_reader = next; literal_count = d.literal_count - min left d.literal_count },
      )
unfolding literal_step
literal_steps four_bytes left out vs d small e = rw (gt→leb (2 ^ 31) d.literal_count small, e) refl

pub literal_step_lem :
    {d : Decoder} {runs : List Run} {vs : List ℕ} (h : Denotes d runs vs) (four_bytes : Bool)
    (left : ℕ) (out : List ℕ)
    → d.repeat_count ≡ 0
    → LiteralStep d runs vs (min left d.literal_count) (literal_step four_bytes left out d)
literal_step_lem {d} {runs} {vs} h four_bytes left out no_repeat =
    let k : ℕ = min left d.literal_count in
    let w : ℕ = d.bit_width in
    let r = d.bit_reader in
    let k-le : k ≤ d.literal_count = omega arith in
    let all = available_all w k r (literal_room h no_repeat k k-le) in
    let b =
      get_batch_lem four_bytes w k r h.valid h.narrow
        (omega (arith, literal_room h no_repeat k k-le, h.valid.is_loaded.in_int)) in
    let ws = fields w k r in
    record {
      out = ws;
      next = record d { bit_reader = b.next; literal_count = d.literal_count - k };
      returns =
          literal_steps four_bytes left out ws d h.literal_int
            (b.returns ∙ ap (λ (t : ℕ). some (fields w t r, b.next)) all)
          ∙ ap
              (λ l. some (l, record d { bit_reader = b.next; literal_count = d.literal_count - k }))
              (append-nothing k (length ws) ws out
                  (length-slices w k (rest_of r.buffer (position r)))
                ∙ append-nil ws);
      gives =
          literal_Gives h no_repeat k k-le b.next
            (subst (λ (t : ℕ). Takes r b.next (w * t)) all b.takes);
      count = length-slices w k (rest_of r.buffer (position r));
    }
