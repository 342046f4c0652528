-- ===== src/BitStream/Reader/Loops.antt =====
-- The loops of `GetBatch` read consecutive fields of the stream.
use parquet_cpp.Common.{ℕ, zero, suc, ◌+◌, ◌*◌, ◌%◌, ◌^◌, ◌≤◌, ◌≡◌, List, ◌∷◌, ◌++◌, arith, refl}
use parquet_cpp.Common.{ap, ap₂, ◌∙◌, sym, ◌==◌, Bool-cases, inl, inr, ==→eq, ◌⊎◌}
use parquet_cpp.Common.Pow.{div-two_pow}
use parquet_cpp.Common.Slices.{slices, slices-append}
use parquet_cpp.BitStream.Reader.{Reader, get_value_step, value_loop, lead_loop}
use parquet_cpp.BitStream.Reader.Invariant.{IsValid, position, rest_of}
use parquet_cpp.BitStream.Reader.Value.{Takes, get_value_step_lem}

-- `count` fields of `w` bits from the reader's position on.
abbrev pub fields : ℕ → ℕ → Reader → List ℕ
fields w count r = slices w count (rest_of r.buffer (position r))

-- Fields that follow on what was taken before.
pub fields_behind :
    (w k n : ℕ) (r next : Reader)
    → position next ≡ position r + w * k
    → next.buffer ≡ r.buffer
    → fields w k r ++ fields w n next ≡ fields w (k + n) r
fields_behind w k n r next p b =
    ap (λ t. fields w k r ++ slices w n t)
      (ap₂ rest_of b p ∙ sym (div-two_pow _ (position r) (w * k)))
    ∙ sym (slices-append w k n (rest_of r.buffer (position r)))

pub Takes-trans : {r s t : Reader} (a b : ℕ) → Takes r s a → Takes s t b → Takes r t (a + b)
Takes-trans a b x y = record {
  valid = y.valid;
  position_eq = omega (arith, x.position_eq, y.position_eq);
  buffer_eq = y.buffer_eq ∙ x.buffer_eq;
  max_eq = y.max_eq ∙ x.max_eq;
}

pub Takes-refl : {r : Reader} → IsValid r → Takes r r 0
Takes-refl ok = record { valid = ok; position_eq = omega arith; buffer_eq = refl; max_eq = refl }

pub Takes-cast : {r s : Reader} (a b : ℕ) → a ≡ b → Takes r s a → Takes r s b
Takes-cast a b e x = record {
  valid = x.valid;
  position_eq = omega (arith, x.position_eq);
  buffer_eq = x.buffer_eq;
  max_eq = x.max_eq;
}

one_field :
    (w n : ℕ) {r next : Reader} (v : ℕ)
    → v ≡ rest_of r.buffer (position r) % 2 ^ w
    → Takes r next w
    → v ∷ fields w n next ≡ fields w (suc n) r
one_field w n {r} v e t =
    ap₂ ◌∷◌ e
      (ap (slices w n) (ap₂ rest_of t.buffer_eq t.position_eq ∙ sym (div-two_pow _ (position r) w)))

pub value_loop_lem :
    (n w : ℕ) (r : Reader)
    → IsValid r
    → w ≤ 32
    → position r + w * n ≤ 8 * r.max_bytes
    → ((value_loop n w r).0 ≡ fields w n r) × Takes r (value_loop n w r).1 (w * n)
unfolding value_loop
value_loop_lem zero w r ok narrow room = (refl, Takes-cast 0 (w * 0) (omega arith) (Takes-refl ok))
value_loop_lem (suc n) w r ok narrow room =
    let (e, t) = get_value_step_lem w r ok narrow (omega arith) in
    let (es, ts) =
      value_loop_lem n w (get_value_step w r).1 t.valid narrow
        (omega (arith, t.position_eq, t.max_eq)) in
    (
      ap (λ l. (get_value_step w r).0 ∷ l) es ∙ one_field w n (get_value_step w r).0 e t,
      Takes-cast (w + w * n) (w * suc n) (omega arith) (Takes-trans w (w * n) t ts),
    )

-- The leading loop stops at a byte boundary, or has read all that was asked for.
pub record Leads (w n : ℕ) (r : Reader) (result : List ℕ × Reader) : Type 0 where
  pub count : ℕ
  pub count-le : count ≤ n
  pub values : result.0 ≡ fields w count r
  pub takes : Takes r result.1 (w * count)
  pub stops : (count ≡ n) ⊎ (result.1.bit_offset ≡ 0)

stops_suc : (c n b : ℕ) → (c ≡ n) ⊎ (b ≡ 0) → (suc c ≡ suc n) ⊎ (b ≡ 0)
stops_suc c n b (inl e) = inl (ap suc e)
stops_suc c n b (inr e) = inr e

pub lead_loop_lem :
    (n w : ℕ) (r : Reader)
    → IsValid r
    → w ≤ 32
    → position r + w * n ≤ 8 * r.max_bytes
    → Leads w n r (lead_loop n w r)
unfolding lead_loop
lead_loop_lem zero w r ok narrow room = record {
  count = 0;
  count-le = omega arith;
  values = refl;
  takes = Takes-cast 0 (w * 0) (omega arith) (Takes-refl ok);
  stops = inl refl;
}
lead_loop_lem (suc n) w r ok narrow room = elim (Bool-cases (r.bit_offset == 0)) [
  | inl z ↦ rw z (record {
    count = 0;
    count-le = omega arith;
    values = refl;
    takes = Takes-cast 0 (w * 0) (omega arith) (Takes-refl ok);
    stops = inr (==→eq r.bit_offset 0 z);
  })
  | inr nz ↦
      let (e, t) = get_value_step_lem w r ok narrow (omega arith) in
      let l =
        lead_loop_lem n w (get_value_step w r).1 t.valid narrow
          (omega (arith, t.position_eq, t.max_eq)) in
      rw nz (record {
        count = suc l.count;
        count-le = omega (arith, l.count-le);
        values =
            ap (λ vs. (get_value_step w r).0 ∷ vs) l.values
            ∙ one_field w l.count (get_value_step w r).0 e t;
        takes =
            Takes-cast (w + w * l.count) (w * suc l.count) (omega arith)
              (Takes-trans w (w * l.count) t l.takes);
        stops = stops_suc l.count n (lead_loop n w (get_value_step w r).1).1.bit_offset l.stops;
      })
]
