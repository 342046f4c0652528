-- ===== src/BitStream/Reader/Batch.antt =====
-- `GetBatch` as a whole: the three loops read one run of fields.
use parquet_cpp.Common.{
  ℕ, ◌+◌, ◌-◌, ◌*◌, ◌/◌, ◌%◌, ◌^◌, ◌≤◌, ◌<◌, ◌≡◌, List, ◌++◌, length, arith, refl,
}
use parquet_cpp.Common.{
  Bool, ap, ap₂, ◌∙◌, inl, inr, ◌⊎◌, Option, some, if◌then◌else◌, ltb, Bool-cases, ltb→ge, gt→leb,
}
use parquet_cpp.Common.Slices.{length-slices}
use native.Mathlib.Nat.{mul_comm, div-mul-le_self, mod-eq_of_lt}
use parquet_cpp.BitStream.Reader.{
  Reader, refill, int_product, clamp_batch, lead_loop, unpack_middle, value_loop, read_batch,
  get_batch,
}
use parquet_cpp.BitStream.Reader.Invariant.{IsValid, position, rest_of}
use parquet_cpp.BitStream.Reader.Value.{Takes}
use parquet_cpp.BitStream.Reader.Loops.{fields, fields_behind, lead_loop_lem, value_loop_lem, Leads}
use parquet_cpp.BitStream.Reader.Middle.{
  Unpacks, unpack_middle_lem, IsValid-IsPlaced, refill-IsValid,
}

-- The number of values that the stream has left for a batch of `n`.
abbrev pub available : ℕ → ℕ → Reader → ℕ
available w n r =
    if ltb (8 * r.max_bytes - position r) (w * n) then (8 * r.max_bytes - position r) / w else n

int_product_lem : (a b : ℕ) → a * b < 2 ^ 31 → int_product a b ≡ a * b
unfolding int_product
int_product_lem a b h =
    let e : a * b % 2 ^ 32 ≡ a * b = mod-eq_of_lt (omega (arith, h)) in
    rw (e, gt→leb (2 ^ 31) (a * b) h) refl

clamp_batch_lem :
    (w n : ℕ) (r : Reader) → IsValid r → w * n < 2 ^ 31 → clamp_batch w n r ≡ available w n r
unfolding clamp_batch
clamp_batch_lem w n r ok in_int =
    let e : (r.max_bytes * 8 + 2 ^ 64 - (r.byte_offset * 8 + r.bit_offset)) % 2 ^ 64
        ≡ 8 * r.max_bytes - position r =
      omega (arith, ok.within, ok.is_loaded.in_int) in
    rw (int_product_lem w n in_int, e)

available_fits :
    (w n : ℕ) (r : Reader) → IsValid r → position r + w * available w n r ≤ 8 * r.max_bytes
available_fits w n r ok = elim (Bool-cases (ltb (8 * r.max_bytes - position r) (w * n))) [
  | inl short ↦ rw short (
      omega (
        arith,
        ok.within,
        div-mul-le_self (8 * r.max_bytes - position r) w,
        mul_comm w ((8 * r.max_bytes - position r) / w),
      ))
  | inr enough ↦ rw enough (omega (arith, ok.within, ltb→ge _ _ enough))
]

-- Reads `count` fields, whatever the type of the values.
pub record ReadsBatch (w count : ℕ) (r : Reader) (result : Option (List ℕ × Reader)) : Type 0 where
  pub next : Reader
  pub returns : result ≡ some (fields w count r, next)
  pub takes : Takes r next (w * count)

read_batch_steps :
    (four_bytes : Bool) (w m : ℕ) (r : Reader) {second : List ℕ} {unpacked : Reader}
    → unpack_middle four_bytes (m - length (lead_loop m w r).0) w (lead_loop m w r).1
      ≡ some (second, unpacked)
    → read_batch four_bytes w m r
      ≡ some (
        (lead_loop m w r).0
            ++ (second
                ++ (value_loop
                    (m - length (lead_loop m w r).0 - length second)
                    w
                    (refill unpacked)).0),
        (value_loop (m - length (lead_loop m w r).0 - length second) w (refill unpacked)).1,
      )
unfolding read_batch
read_batch_steps four_bytes w m r e = ground arith

read_batch_counts :
    (four_bytes : Bool) (w m a b : ℕ) (r : Reader) {second : List ℕ} {unpacked : Reader}
    → length (lead_loop m w r).0 ≡ a
    → unpack_middle four_bytes (m - a) w (lead_loop m w r).1 ≡ some (second, unpacked)
    → length second ≡ b
    → read_batch four_bytes w m r
      ≡ some (
        (lead_loop m w r).0 ++ (second ++ (value_loop (m - a - b) w (refill unpacked)).0),
        (value_loop (m - a - b) w (refill unpacked)).1,
      )
read_batch_counts four_bytes w m a b r len e len' =
    rw (← len, ← len') (read_batch_steps four_bytes w m r (rw len e))

at_boundary : (a m b : ℕ) → (a ≡ m) ⊎ (b ≡ 0) → (m - a ≡ 0) ⊎ (b ≡ 0)
at_boundary a m b (inl e) = inl (omega arith)
at_boundary a m b (inr e) = inr e

-- The three parts, put together.
module _ (w m : ℕ) {r led : Reader} {first : List ℕ} {middle : Option (List ℕ × Reader)}
    (l : Leads w m r (first, led)) (u : Unpacks w (m - l.count) led middle) where
  refill_keeps :
      (position (refill u.next) ≡ position u.next)
      × ((refill u.next).buffer ≡ u.next.buffer)
      × ((refill u.next).max_bytes ≡ u.next.max_bytes)
  unfolding refill
  refill_keeps = (refl, refl, refl)

  parts_sum : l.count + (u.count + (m - l.count - u.count)) ≡ m
  parts_sum = omega (arith, l.count-le, u.count-le)

  parts_room :
      position r + w * m ≤ 8 * r.max_bytes
      → position (refill u.next) + w * (m - l.count - u.count) ≤ 8 * (refill u.next).max_bytes
  parts_room room = omega (
    arith,
    refill_keeps.0,
    refill_keeps.2,
    u.position_eq,
    u.max_eq,
    l.takes.position_eq,
    l.takes.max_eq,
    ap (λ (k : ℕ). w * k) parts_sum,
  )

  module _ (third : List ℕ × Reader)
      (e : third.0 ≡ fields w (m - l.count - u.count) (refill u.next))
      (t : Takes (refill u.next) third.1 (w * (m - l.count - u.count))) where
    parts_values : first ++ (fields w u.count led ++ third.0) ≡ fields w m r
    parts_values =
        ap₂ (λ x y. x ++ (fields w u.count led ++ y)) l.values e
        ∙ ap (λ x. fields w l.count r ++ x)
            (fields_behind w u.count (m - l.count - u.count) led (refill u.next)
              (refill_keeps.0 ∙ u.position_eq) (refill_keeps.1 ∙ u.buffer_eq))
        ∙ fields_behind w l.count (u.count + (m - l.count - u.count)) r led l.takes.position_eq
            l.takes.buffer_eq
        ∙ ap (λ k. fields w k r) parts_sum

    parts_Takes : Takes r third.1 (w * m)
    parts_Takes = record {
      valid = t.valid;
      position_eq = omega (
        arith,
        t.position_eq,
        refill_keeps.0,
        u.position_eq,
        l.takes.position_eq,
        ap (λ (k : ℕ). w * k) parts_sum,
      );
      buffer_eq = t.buffer_eq ∙ refill_keeps.1 ∙ u.buffer_eq ∙ l.takes.buffer_eq;
      max_eq = t.max_eq ∙ refill_keeps.2 ∙ u.max_eq ∙ l.takes.max_eq;
    }

middle_room :
    (w m : ℕ) (r : Reader) {result : List ℕ × Reader} (l : Leads w m r result)
    → position r + w * m ≤ 8 * r.max_bytes
    → position result.1 + w * (m - l.count) ≤ 8 * result.1.max_bytes
middle_room w m r l room =
    let s : l.count + (m - l.count) ≡ m = omega (arith, l.count-le) in
    omega (arith, l.takes.position_eq, l.takes.max_eq, ap (λ (k : ℕ). w * k) s)

parts_batch :
    (four_bytes : Bool) (w m : ℕ) (r : Reader)
    → w ≤ 32
    → position r + w * m ≤ 8 * r.max_bytes
    → (l : Leads w m r (lead_loop m w r))
    → (u : Unpacks w
        (m - l.count)
        (lead_loop m w r).1
        (unpack_middle four_bytes (m - l.count) w (lead_loop m w r).1))
    → ReadsBatch w m r (read_batch four_bytes w m r)
parts_batch four_bytes w m r narrow room l u =
    let left : ℕ = m - l.count - u.count in
    let third = value_loop left w (refill u.next) in
    let (e, t) =
      value_loop_lem left w (refill u.next) (refill-IsValid u.placed) narrow
        (parts_room w m l u room) in
    record {
      next = third.1;
      returns =
          read_batch_counts four_bytes w m l.count u.count r
            (ap length l.values ∙ length-slices w l.count (rest_of r.buffer (position r))) u.returns
            (length-slices w u.count
              (rest_of (lead_loop m w r).1.buffer (position (lead_loop m w r).1)))
          ∙ ap (λ vs. some (vs, third.1)) (parts_values w m l u third e t);
      takes = parts_Takes w m l u third e t;
    }

pub read_batch_lem :
    (four_bytes : Bool) (w m : ℕ) (r : Reader)
    → IsValid r
    → w ≤ 32
    → position r + w * m ≤ 8 * r.max_bytes
    → ReadsBatch w m r (read_batch four_bytes w m r)
read_batch_lem four_bytes w m r ok narrow room =
    let l = lead_loop_lem m w r ok narrow room in
    let u =
      unpack_middle_lem w narrow four_bytes (m - l.count) (lead_loop m w r).1
        (IsValid-IsPlaced l.takes.valid)
        (at_boundary l.count m (lead_loop m w r).1.bit_offset l.stops) (middle_room w m r l room) in
    parts_batch four_bytes w m r narrow room l u

-- On a valid reader, at a width of at most 32 and where the bits that are asked for are counted by
-- an `int`, `GetBatch` returns as many of the `n` values as the stream has left: the next fields of
-- `w` bits, in order, for both sizes of `T`, and moves behind them.
pub get_batch_lem :
    (four_bytes : Bool) (w n : ℕ) (r : Reader)
    → IsValid r
    → w ≤ 32
    → w * n < 2 ^ 31
    → ReadsBatch w (available w n r) r (get_batch four_bytes w n r)
unfolding get_batch
get_batch_lem four_bytes w n r ok narrow in_int =
    rw (clamp_batch_lem w n r ok in_int)
      (read_batch_lem four_bytes w (available w n r) r ok narrow (available_fits w n r ok))
