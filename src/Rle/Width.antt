-- ===== src/Rle/Width.antt =====
-- The operations of RleEncoder keep its bit width.
use parquet_cpp.Common.{
  ℕ, ◌+◌, ◌/◌, ◌^◌, ◌≡◌, refl, ap, ◌∙◌, Bool, true, false, Option, some, none, inl, inr, length,
  ltb, leb, ◌==◌, if◌then◌else◌,
}
use parquet_cpp.Rle.Encoder.{
  Encoder, check_buffer_full, reserve_indicator, flush_literal_run, flush_repeated_run,
  flush_buffered_values, buffer_value, put_same, put_other, put,
}
use parquet_cpp.Rle.Encodes.{check_buffer_full_lem}

if_width :
    (b : Bool) (n : ℕ) (x y : Encoder)
    → x.bit_width ≡ n
    → y.bit_width ≡ n
    → (if b then x else y).bit_width ≡ n
if_width true n x y p q = p
if_width false n x y p q = q

check_width : (e : Encoder) → (check_buffer_full e).bit_width ≡ e.bit_width
check_width e = elim (check_buffer_full_lem e) [
  | inl (same, room) ↦ ap (λ (t : Encoder). t.bit_width) same
  | inr full ↦ ap (λ (t : Encoder). t.bit_width) full
]

reserve_width : (e : Encoder) → (reserve_indicator e).bit_width ≡ e.bit_width
unfolding reserve_indicator
reserve_width e = go e.literal_indicator_byte refl
  where
    go :
        (p : Option ℕ)
        → e.literal_indicator_byte ≡ p
        → (reserve_indicator e).bit_width ≡ e.bit_width
    go none h = rw (h, reserve_indicator) refl
    go (some ptr) h = rw (h, reserve_indicator) refl

literal_width : (update : Bool) (e : Encoder) → (flush_literal_run update e).bit_width ≡ e.bit_width
unfolding flush_literal_run
literal_width true e = check_width _ ∙ reserve_width e
literal_width false e = reserve_width e

repeated_width : (e : Encoder) → (flush_repeated_run e).bit_width ≡ e.bit_width
unfolding flush_repeated_run
repeated_width e = check_width _

buffered_width :
    (done : Bool) (e : Encoder) → (flush_buffered_values done e).bit_width ≡ e.bit_width
unfolding flush_buffered_values
buffered_width done e =
    if_width (leb 8 e.repeat_count) e.bit_width _ _
      (if_width (e.literal_count == 0) e.bit_width _ _ refl (literal_width true _))
      (if_width (leb (2 ^ 6) ((e.literal_count + length e.buffered_values) / 8 + 1)) e.bit_width _ _
        (literal_width true _) (literal_width done _))

value_width : (v : ℕ) (e : Encoder) → (buffer_value v e).bit_width ≡ e.bit_width
unfolding buffer_value
value_width v e = if_width _ e.bit_width _ _ (buffered_width false _) refl

pub put-bit_width : (v : ℕ) (e : Encoder) → (put v e).0.bit_width ≡ e.bit_width
unfolding put put_same put_other
put-bit_width v e = go e.buffer_full
  where
    next : (if e.current_value == v then put_same v e else put_other v e).bit_width ≡ e.bit_width
    next =
        if_width (e.current_value == v) e.bit_width _ _
          (if_width (ltb 8 (e.repeat_count + 1)) e.bit_width _ _ refl (value_width v _))
          (value_width v _
            ∙ if_width (leb 8 e.repeat_count) e.bit_width _ _ (repeated_width e) refl)

    pick : Bool → Encoder × Bool
    pick b =
        if b
        then (e, false)
        else (if e.current_value == v then put_same v e else put_other v e, true)

    go : (b : Bool) → (pick b).0.bit_width ≡ e.bit_width
    go true = refl
    go false = next
