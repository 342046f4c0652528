-- ===== src/Rle/Stored.antt =====
-- What the stream of an RleEncoder holds, and the writes that extend it.
use parquet_cpp.Common.{
  ℕ, ◌+◌, ◌*◌, ◌/◌, ◌^◌, ◌≤◌, ◌<◌, ◌≡◌, List, [], ◌∷◌, ◌++◌, length, replicate, All, arith, refl,
}
use parquet_cpp.Common.{
  true, ap, ap₂, ◌∙◌, sym, subst, Option, some, none, lt→ltb, length-append, get_or,
}
use parquet_cpp.Common.Bytes.{le_bytes, store, length-le_bytes}
use parquet_cpp.Common.Slices.{packed}
use parquet_cpp.BitUtil.{ceil}
use parquet_cpp.BitStream.Writer.{
  Writer, bytes_written, put_values, flush, get_next_byte_ptr, put_vlq_int, put_aligned,
}
use parquet_cpp.BitStream.Writer.Invariant as W
use parquet_cpp.BitStream.Writer.Bytes.{put_aligned-Extends}
use parquet_cpp.BitStream.Groups.{
  put_values-Grows, le_bytes-sum, packed-lt, packed-append, get_next_byte_ptr-Reserves,
  store-contents,
}
use parquet_cpp.BitStream.Vlq.{vlq_bytes, put_vlq_int-Extends}
use parquet_cpp.Rle.Format.{Run, repeated, literal, expand, encoded, indicator, body}
use mathlib.Core.List.{append_assoc, append-nil}

-- The stream holds the closed runs, and behind a reserved indicator byte the literals so far.
abbrev pub Holds : ℕ → Option ℕ → List Run → List ℕ → Writer → Type 0
Holds w none runs ls wr = (ls ≡ []) × (W.contents wr ≡ encoded w runs)
Holds w (some ptr) runs ls wr =
    (x : ℕ) × (W.contents wr ≡ encoded w runs ++ (x ∷ body w (literal ls)))
    × (ptr ≡ length (encoded w runs))
    × (ptr < wr.byte_offset)

pub record Stored (w : ℕ) (ptr : Option ℕ) (runs : List Run) (ls : List ℕ) (wr : Writer)
    : Type 0 where
  pub valid : W.IsValid wr
  pub aligned : W.position wr ≡ 8 * length (W.contents wr)
  pub holds : Holds w ptr runs ls wr

pub encoded-append :
    (w : ℕ) (xs ys : List Run) → encoded w (xs ++ ys) ≡ encoded w xs ++ encoded w ys
encoded-append w [] ys = refl
encoded-append w (run ∷ xs) ys =
    ap (λ l. vlq_bytes 4 (indicator run) ++ (body w run ++ l)) (encoded-append w xs ys)
    ∙ ap (λ l. vlq_bytes 4 (indicator run) ++ l)
        (sym (append_assoc (body w run) (encoded w xs) (encoded w ys)))
    ∙ sym (append_assoc (vlq_bytes 4 (indicator run)) (body w run ++ encoded w xs) (encoded w ys))

pub expand-append : (xs ys : List Run) → expand (xs ++ ys) ≡ expand xs ++ expand ys
expand-append [] ys = refl
expand-append (repeated count v ∷ xs) ys =
    ap (λ l. replicate count v ++ l) (expand-append xs ys)
    ∙ sym (append_assoc (replicate count v) (expand xs) (expand ys))
expand-append (literal vs ∷ xs) ys =
    ap (λ l. vs ++ l) (expand-append xs ys) ∙ sym (append_assoc vs (expand xs) (expand ys))

-- Groups of eight literals make whole bytes.
pub body-append :
    (w g k : ℕ) (ls bs : List ℕ)
    → length ls ≡ g * 8
    → length bs ≡ k * 8
    → All (λ v. v < 2 ^ w) ls
    → All (λ v. v < 2 ^ w) bs
    → body w (literal (ls ++ bs)) ≡ body w (literal ls) ++ le_bytes (k * w) (packed w bs)
body-append w g k ls bs size size' small small' =
    let both = length-append ls bs in
    let first : length ls / 8 * w ≡ g * w =
      ap (λ (t : ℕ). t * w) (let e : length ls / 8 ≡ g = omega (arith, size) in e) in
    let all : length (ls ++ bs) / 8 * w ≡ g * w + k * w =
      ap (λ (t : ℕ). t * w)
        (let e : length (ls ++ bs) / 8 ≡ g + k = omega (arith, size, size', both) in e)
      ∙ omega arith in
    let bits : w * length ls ≡ 8 * (g * w) = omega (arith, ap (λ (t : ℕ). w * t) size) in
    let bits' : w * length bs ≡ 8 * (k * w) = omega (arith, ap (λ (t : ℕ). w * t) size') in
    ap₂ le_bytes all
      (packed-append w ls bs ∙ ap (λ (t : ℕ). packed w ls + packed w bs * 2 ^ t) bits)
    ∙ le_bytes-sum (g * w) (k * w) (packed w ls) (packed w bs)
        (omega (arith, packed-lt w ls small, ap (λ (t : ℕ). 2 ^ t) bits))
        (omega (arith, packed-lt w bs small', ap (λ (t : ℕ). 2 ^ t) bits'))
    ∙ ap (λ (t : ℕ). le_bytes t (packed w ls) ++ le_bytes (k * w) (packed w bs)) (sym first)

body_nil : (w : ℕ) → body w (literal []) ≡ []
body_nil w = let e : 0 / 8 * w ≡ 0 = omega arith in ap (λ (t : ℕ). le_bytes t 0) e

-- `GetNextBytePtr` starts a literal run.
pub reserve_literal :
    (w : ℕ) (runs : List Run) (wr : Writer)
    → Stored w none runs [] wr
    → length (W.contents wr) + 1 ≤ wr.max_bytes
    → Stored w (get_next_byte_ptr 1 wr).1 runs [] (get_next_byte_ptr 1 wr).0
      × ((get_next_byte_ptr 1 wr).1 ≡ some (length (encoded w runs)))
      × ((get_next_byte_ptr 1 wr).0.max_bytes ≡ wr.max_bytes)
reserve_literal w runs wr s room =
    let r =
      get_next_byte_ptr-Reserves wr s.valid (omega (arith, room, W.length-contents s.valid)) in
    let at_end : (get_next_byte_ptr 1 wr).1 ≡ some (length (encoded w runs)) =
      r.ptr_eq ∙ ap (λ l. some (length l)) s.holds.1 in
    let x : ℕ = get_or (flush true wr).buffer (bytes_written wr) 0 in
    let len = ap length r.contents_eq ∙ length-append (W.contents wr) (x ∷ []) in
    (
      rw at_end (record {
        valid = r.valid;
        aligned = omega (arith, r.position_eq, len);
        holds = (
          x,
          r.contents_eq
              ∙ ap (λ l. l ++ (x ∷ [])) s.holds.1
              ∙ ap (λ l. encoded w runs ++ (x ∷ l)) (sym (body_nil w)),
          refl,
          omega (arith, r.below, ap length s.holds.1),
        );
      }),
      at_end,
      r.max_eq,
    )

module _ (w p g k : ℕ) (runs : List Run) (ls bs : List ℕ) (wr : Writer)
    (s : Stored w (some p) runs ls wr) (narrow : w ≤ 32) (size : length ls ≡ g * 8)
    (size' : length bs ≡ k * 8) (small : All (λ v. v < 2 ^ w) ls)
    (small' : All (λ v. v < 2 ^ w) bs) where
  -- Groups of literals go behind the indicator byte and the literals before.
  pub grow_literal :
      length (W.contents wr) + k * w ≤ wr.max_bytes
      → Stored w (some p) runs (ls ++ bs) (put_values w bs wr)
        × ((put_values w bs wr).max_bytes ≡ wr.max_bytes)
  grow_literal room =
      let bits : w * length bs ≡ 8 * (k * w) = omega (arith, ap (λ (t : ℕ). w * t) size') in
      let grown =
        put_values-Grows w (k * w) (length (W.contents wr)) bs wr s.valid narrow small' s.aligned
          bits room in
      let (x, e, at, inside) = s.holds in
      let more = le_bytes (k * w) (packed w bs) in
      let len = ap length grown.contents_eq ∙ length-append (W.contents wr) more in
      (
        record {
          valid = grown.valid;
          aligned =
              omega
                (arith, grown.position_eq, s.aligned, len, length-le_bytes (k * w) (packed w bs));
          holds = (
            x,
            grown.contents_eq
                ∙ ap (λ l. l ++ more) e
                ∙ append_assoc (encoded w runs) (x ∷ body w (literal ls)) more
                ∙ ap (λ l. encoded w runs ++ (x ∷ l))
                    (sym (body-append w g k ls bs size size' small small')),
            at,
            omega (arith, inside, grown.behind),
          );
        },
        grown.max_eq,
      )

pub short_vlq : (v : ℕ) → v < 128 → vlq_bytes 4 v ≡ v ∷ []
unfolding vlq_bytes
short_vlq v h = rw (lt→ltb v 128 h)

-- The indicator byte closes a literal run of at most 63 groups.
pub close_literal :
    (w p g : ℕ) (runs : List Run) (ls : List ℕ) (wr : Writer)
    → Stored w (some p) runs ls wr
    → length ls ≡ g * 8
    → g < 64
    → Stored w none
        (runs ++ (literal ls ∷ []))
        []
        (record wr { buffer = store wr.buffer p ((g * 2 + 1) ∷ []) })
close_literal w p g runs ls wr s size few =
    let (x, e, at, inside) = s.holds in
    let c =
      store-contents (g * 2 + 1) x (encoded w runs) (body w (literal ls)) wr s.valid (omega arith) e
        (omega (arith, at, inside)) in
    let groups : length ls / 8 ≡ g = omega (arith, size) in
    let code : vlq_bytes 4 (indicator (literal ls)) ≡ (g * 2 + 1) ∷ [] =
      ap (λ (t : ℕ). vlq_bytes 4 (t * 2 + 1)) groups ∙ short_vlq (g * 2 + 1) (omega arith) in
    let same : length (encoded w runs ++ ((g * 2 + 1) ∷ body w (literal ls)))
        ≡ length (W.contents wr) =
      length-append (encoded w runs) _
      ∙ sym (length-append (encoded w runs) _)
      ∙ sym (ap length e) in
    subst
      (λ (t : ℕ).
        Stored w none (runs ++ (literal ls ∷ [])) []
          (record wr { buffer = store wr.buffer t ((g * 2 + 1) ∷ []) }))
      (sym at)
      (record {
        valid = c.0;
        aligned = s.aligned ∙ ap (λ (t : ℕ). 8 * t) (sym same ∙ ap length (sym c.1));
        holds = (
          refl,
          c.1
              ∙ ap (λ l. encoded w runs ++ (l ++ body w (literal ls))) (sym code)
              ∙ ap (λ l. encoded w runs ++ (vlq_bytes 4 (indicator (literal ls)) ++ l))
                  (sym (append-nil (body w (literal ls))))
              ∙ sym (encoded-append w runs (literal ls ∷ [])),
        );
      })

written : (x : Writer) → x.bit_offset ≡ 0 → bytes_written x ≡ x.byte_offset
unfolding bytes_written ceil
written x e = ap (λ (t : ℕ). x.byte_offset + ceil t 8) e ∙ omega arith

-- `PutVlqInt` and `PutAligned` write a repeated run.
pub write_repeated :
    (w count v : ℕ) (runs : List Run) (wr : Writer)
    → Stored w none runs [] wr
    → count < 2 ^ 30
    → length (W.contents wr) + length (vlq_bytes 4 (count * 2)) + ceil w 8 ≤ wr.max_bytes
    → Stored w none
        (runs ++ (repeated count v ∷ []))
        []
        (put_aligned v (ceil w 8) (put_vlq_int (count * 2) wr).0).0
      × ((put_aligned v (ceil w 8) (put_vlq_int (count * 2) wr).0).0.max_bytes ≡ wr.max_bytes)
write_repeated w count v runs wr s few room =
    let code = vlq_bytes 4 (count * 2) in
    let bs = le_bytes (ceil w 8) v in
    let a =
      (put_vlq_int-Extends (count * 2) wr s.valid (omega arith)
        (omega (arith, W.length-contents s.valid))).1 in
    let mid = (put_vlq_int (count * 2) wr).0 in
    let len = ap length a.contents_eq ∙ length-append (W.contents wr) code in
    let b =
      (put_aligned-Extends mid a.valid v (ceil w 8)
        (omega (arith, W.length-contents a.valid, len, a.max_eq))).1 in
    (
      record {
        valid = b.valid;
        aligned = boundary b.valid b.aligned;
        holds = (
          refl,
          b.contents_eq
              ∙ ap (λ l. l ++ bs) (a.contents_eq ∙ ap (λ l. l ++ code) s.holds.1)
              ∙ append_assoc (encoded w runs) code bs
              ∙ ap (λ l. encoded w runs ++ (code ++ l)) (sym (append-nil bs))
              ∙ sym (encoded-append w runs (repeated count v ∷ [])),
        );
      },
      b.max_eq ∙ a.max_eq,
    )
  where
    boundary :
        {x : Writer} → W.IsValid x → x.bit_offset ≡ 0 → W.position x ≡ 8 * length (W.contents x)
    boundary {x} ok e = omega (arith, W.length-contents ok, written x e)
