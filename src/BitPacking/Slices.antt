-- ===== src/BitPacking/Slices.antt =====
-- All unpackers cut the bit string of the input into consecutive fields.
use parquet_cpp.Common.{
  ℕ, zero, suc, ◌+◌, ◌-◌, ◌*◌, ◌/◌, ◌%◌, ◌^◌, ◌≤◌, ◌<◌, ◌≡◌, refl, ap, ap₂, ◌∙◌, sym,
}
use parquet_cpp.Common.{Bool, true, false, ◌&&◌, ◌||◌, List, [], ◌∷◌, ◌++◌, length, All, arith}
use parquet_cpp.Common.{
  Option, none, some, ltb, leb, ◌==◌, ==→eq, ==→ne, Bool-cases, inl, inr, bit_or, replicate,
  replicate-append, and_both,
}
use parquet_cpp.Common.Tests.{all_below, all_below_sound}
use parquet_cpp.Common.Bytes.{IsByte, le_value, le_value-take, le_value-drop, All-drop}
use parquet_cpp.Common.Bits.{bit_or_shifted, bit_and_mask}
use parquet_cpp.Common.Pow.{
  two_pow_pos, div-two_pow, mod-two_pow-div, mod-two_pow-mod, mod_split, mul-two_pow-mod,
}
use parquet_cpp.Common.Slices.{slices, slices-append, slices-zero_width}
use native.Mathlib.Nat.{mod-lt, mod-eq_of_lt, pow-le-pow_right}
use parquet_cpp.BitPacking.Statements.{
  Statement, bit, field, last, cross, deref, next, run, advance,
}
use parquet_cpp.BitPacking.Dispatch.{unpack_loop, nullunpacker32, null_loop, unpacker, unpack32}

-- The statements follow on one another: `pos` is the bit of `*in` at which the next value starts.
abbrev lined_up : ℕ → ℕ → List Statement → Bool
lined_up w pos [] = pos == 0
lined_up w pos (bit s ∷ rest) = s == pos && w == 1 && ltb (pos + 1) 32 && lined_up w (pos + w) rest
lined_up w pos (field s ∷ rest) = s == pos && leb (pos + w) 32 && lined_up w (pos + w) rest
lined_up w pos (last s ∷ rest) = s == pos && pos + w == 32 && lined_up w 0 rest
lined_up w pos (cross s b ∷ rest) =
    s == pos && pos + w == 32 + b && ltb pos 32 && leb b w && lined_up w b rest

-- What each test of `lined_up` says.
bit_facts :
    (s pos w : ℕ) (more : Bool)
    → (s == pos && w == 1 && ltb (pos + 1) 32 && more) ≡ true
    → (s ≡ pos) × (w ≡ 1) × (pos + 1 < 32) × (more ≡ true)
bit_facts s pos w more c = ground arith

field_facts :
    (s pos w : ℕ) (more : Bool)
    → (s == pos && leb (pos + w) 32 && more) ≡ true
    → (s ≡ pos) × (pos + w ≤ 32) × (more ≡ true)
field_facts s pos w more c = ground arith

last_facts :
    (s pos w : ℕ) (more : Bool)
    → (s == pos && pos + w == 32 && more) ≡ true
    → (s ≡ pos) × (pos + w ≡ 32) × (more ≡ true)
last_facts s pos w more c = ground arith

cross_facts :
    (s b pos w : ℕ) (more : Bool)
    → (s == pos && pos + w == 32 + b && ltb pos 32 && leb b w && more) ≡ true
    → (s ≡ pos) × (pos + w ≡ 32 + b) × (pos < 32) × (b ≤ w) × (more ≡ true)
cross_facts s b pos w more c = ground arith

-- A field inside one word, up to its top or across its end, as digits of the whole input.
within : (x pos w : ℕ) → pos + w ≤ 32 → x % 2 ^ 32 / 2 ^ pos % 2 ^ w ≡ x / 2 ^ pos % 2 ^ w
within x pos w h =
    let e : 32 ≡ pos + (w + (32 - pos - w)) = omega arith in
    ap (λ (t : ℕ). x % 2 ^ t / 2 ^ pos % 2 ^ w) e
    ∙ ap (λ (t : ℕ). t % 2 ^ w) (mod-two_pow-div x pos (w + (32 - pos - w)))
    ∙ mod-two_pow-mod (x / 2 ^ pos) w (32 - pos - w)

up_to_top : (x pos w : ℕ) → pos + w ≡ 32 → x % 2 ^ 32 / 2 ^ pos ≡ x / 2 ^ pos % 2 ^ w
up_to_top x pos w h =
    let e : 32 ≡ pos + w = omega arith in
    ap (λ (t : ℕ). x % 2 ^ t / 2 ^ pos) e ∙ mod-two_pow-div x pos w

-- The part of a crossing field that stands in the next word fits above the part in this one.
high_part : (y p b : ℕ) → p + b ≤ 32 → y % 2 ^ 32 % 2 ^ b * 2 ^ p % 2 ^ 32 ≡ y % 2 ^ b * 2 ^ p
high_part y p b h =
    let e : 32 ≡ b + (32 - b) = omega arith in
    let f : 32 ≡ p + (32 - p) = omega arith in
    let small : y % 2 ^ b < 2 ^ (32 - p) = omega (
      arith,
      mod-lt y (two_pow_pos b),
      pow-le-pow_right {n = 2} (omega arith) {i = b} {j = 32 - p} (omega arith),
    ) in
    ap (λ (t : ℕ). y % 2 ^ t % 2 ^ b * 2 ^ p % 2 ^ 32) e
    ∙ ap (λ (t : ℕ). t * 2 ^ p % 2 ^ 32) (mod-two_pow-mod y b (32 - b))
    ∙ ap (λ (t : ℕ). y % 2 ^ b * 2 ^ p % 2 ^ t) f
    ∙ mul-two_pow-mod (y % 2 ^ b) p (32 - p)
    ∙ ap (λ (t : ℕ). t * 2 ^ p) (mod-eq_of_lt small)

across :
    (x pos p b : ℕ)
    → pos + p ≡ 32
    → p + b ≤ 32
    → bit_or (x % 2 ^ 32 / 2 ^ pos) (x / 2 ^ 32 % 2 ^ 32 % 2 ^ b * 2 ^ p % 2 ^ 32)
      ≡ x / 2 ^ pos % 2 ^ (p + b)
across x pos p b h l =
    let e : 32 ≡ pos + p = omega arith in
    let low : x / 2 ^ pos % 2 ^ p < 2 ^ p = mod-lt (x / 2 ^ pos) (two_pow_pos p) in
    ap₂ bit_or (up_to_top x pos p h) (high_part (x / 2 ^ 32) p b l)
    ∙ bit_or_shifted p (x / 2 ^ pos % 2 ^ p) (x / 2 ^ 32 % 2 ^ b) low
    ∙ ap (λ (t : ℕ). x / 2 ^ pos % 2 ^ p + t % 2 ^ b * 2 ^ p)
        (ap (λ (t : ℕ). x / 2 ^ t) e ∙ sym (div-two_pow x pos p))
    ∙ sym (mod_split (x / 2 ^ pos) p b)

-- `*in`, and `*in` after `++in`, as digits of the input.
deref_lem : (in_ : List ℕ) → All IsByte in_ → deref in_ ≡ le_value in_ % 2 ^ 32
deref_lem in_ h = le_value-take 4 in_ h

next_lem : (in_ : List ℕ) → All IsByte in_ → le_value (next in_) ≡ le_value in_ / 2 ^ 32
next_lem in_ h = le_value-drop 4 in_ h

deref-next : (in_ : List ℕ) → All IsByte in_ → deref (next in_) ≡ le_value in_ / 2 ^ 32 % 2 ^ 32
deref-next in_ h =
    deref_lem (next in_) (All-drop 4 in_ h) ∙ ap (λ (t : ℕ). t % 2 ^ 32) (next_lem in_ h)

-- What is left of the input after a value: in the same word, and in the next one.
same_word : (x pos w : ℕ) → x / 2 ^ (pos + w) ≡ x / 2 ^ pos / 2 ^ w
same_word x pos w = sym (div-two_pow x pos w)

next_word :
    (in_ : List ℕ) (pos w b : ℕ)
    → All IsByte in_
    → pos + w ≡ 32 + b
    → le_value (next in_) / 2 ^ b ≡ le_value in_ / 2 ^ pos / 2 ^ w
next_word in_ pos w b h e =
    ap (λ (t : ℕ). t / 2 ^ b) (next_lem in_ h)
    ∙ div-two_pow (le_value in_) 32 b
    ∙ ap (λ (t : ℕ). le_value in_ / 2 ^ t) (sym e)
    ∙ same_word (le_value in_) pos w

run_lem :
    (w pos : ℕ) (code : List Statement) (in_ : List ℕ)
    → w ≤ 32
    → lined_up w pos code ≡ true
    → All IsByte in_
    → run w code in_ ≡ slices w (length code) (le_value in_ / 2 ^ pos)
unfolding run
run_lem w pos [] in_ l c h = refl
run_lem w pos (bit s ∷ rest) in_ l c h =
    let (e, one, fits, more) = bit_facts s pos w (lined_up w (pos + w) rest) c in
    ap₂ ◌∷◌
      (rw (e, one, bit_and_mask 1 (deref in_ / 2 ^ pos), deref_lem in_ h)
        (within (le_value in_) pos 1 (omega arith)))
      (run_lem w (pos + w) rest in_ l more h
        ∙ ap (slices w (length rest)) (same_word (le_value in_) pos w))
run_lem w pos (field s ∷ rest) in_ l c h =
    let (e, fits, more) = field_facts s pos w (lined_up w (pos + w) rest) c in
    ap₂ ◌∷◌ (rw (e, deref_lem in_ h) (within (le_value in_) pos w fits)) (
      run_lem w (pos + w) rest in_ l more h
      ∙ ap (slices w (length rest)) (same_word (le_value in_) pos w))
run_lem w pos (last s ∷ rest) in_ l c h =
    let (e, fits, more) = last_facts s pos w (lined_up w 0 rest) c in
    ap₂ ◌∷◌ (rw (e, deref_lem in_ h) (up_to_top (le_value in_) pos w fits)) (
      run_lem w 0 rest (next in_) l more (All-drop 4 in_ h)
      ∙ ap (slices w (length rest)) (next_word in_ pos w 0 h (omega arith)))
run_lem w pos (cross s b ∷ rest) in_ l c h =
    let (e, fits, inside, low, more) = cross_facts s b pos w (lined_up w b rest) c in
    let s : (w - b) + b ≡ w = omega arith in
    ap₂ ◌∷◌
      (rw (e, deref_lem in_ h, deref-next in_ h)
        (across (le_value in_) pos (w - b) b (omega arith) (omega arith)
          ∙ ap (λ (t : ℕ). le_value in_ / 2 ^ pos % 2 ^ t) s))
      (run_lem w b rest (next in_) l more (All-drop 4 in_ h)
        ∙ ap (slices w (length rest)) (next_word in_ pos w b h fits))

one_more : (y z w n : ℕ) → z ≡ y / 2 ^ w → z / 2 ^ (w * n) ≡ y / 2 ^ (w * suc n)
one_more y z w n e =
    let s : w * suc n ≡ w + w * n = omega arith in rw (e, s) (div-two_pow y w (w * n))

advance_lem :
    (w pos : ℕ) (code : List Statement) (in_ : List ℕ)
    → lined_up w pos code ≡ true
    → All IsByte in_
    → (le_value (advance code in_) ≡ le_value in_ / 2 ^ pos / 2 ^ (w * length code))
      × All IsByte (advance code in_)
unfolding advance
advance_lem w pos [] in_ c h =
    let e : pos ≡ 0 = ==→eq pos 0 c in
    let z : w * 0 ≡ 0 = omega arith in (rw (e, z) (omega arith), h)
advance_lem w pos (bit s ∷ rest) in_ c h =
    let f = bit_facts s pos w (lined_up w (pos + w) rest) c in
    let (e, b) = advance_lem w (pos + w) rest in_ f.3 h in
    (e ∙ one_more (le_value in_ / 2 ^ pos) _ w (length rest) (same_word (le_value in_) pos w), b)
advance_lem w pos (field s ∷ rest) in_ c h =
    let f = field_facts s pos w (lined_up w (pos + w) rest) c in
    let (e, b) = advance_lem w (pos + w) rest in_ f.2 h in
    (e ∙ one_more (le_value in_ / 2 ^ pos) _ w (length rest) (same_word (le_value in_) pos w), b)
advance_lem w pos (last s ∷ rest) in_ c h =
    let f = last_facts s pos w (lined_up w 0 rest) c in
    let (e, b) = advance_lem w 0 rest (next in_) f.2 (All-drop 4 in_ h) in
    (
      e
          ∙ one_more (le_value in_ / 2 ^ pos) _ w (length rest)
              (next_word in_ pos w 0 h (omega arith)),
      b,
    )
advance_lem w pos (cross s k ∷ rest) in_ c h =
    let f = cross_facts s k pos w (lined_up w k rest) c in
    let (e, b) = advance_lem w k rest (next in_) f.4 (All-drop 4 in_ h) in
    (e ∙ one_more (le_value in_ / 2 ^ pos) _ w (length rest) (next_word in_ pos w k h f.1), b)

unpack_loop_lem :
    (n w : ℕ) (code : List Statement) (in_ : List ℕ)
    → w ≤ 32
    → lined_up w 0 code ≡ true
    → length code ≡ 32
    → All IsByte in_
    → unpack_loop n w code in_ ≡ slices w (n * 32) (le_value in_)
unfolding unpack_loop
unpack_loop_lem zero w code in_ l c k h = refl
unpack_loop_lem (suc n) w code in_ l c k h =
    let (e, b) = advance_lem w 0 code in_ c h in
    let one : le_value in_ / 2 ^ 0 ≡ le_value in_ = omega arith in
    let s : suc n * 32 ≡ 32 + n * 32 = omega arith in
    rw (
      run_lem w 0 code in_ l c h,
      unpack_loop_lem n w code (advance code in_) l c k b,
      e,
      one,
      k,
      s,
      slices-append w 32 (n * 32) (le_value in_),
    )

null_loop-replicate : (n : ℕ) → null_loop n ≡ replicate (n * 32) 0
unfolding null_loop nullunpacker32
null_loop-replicate zero = refl
null_loop-replicate (suc n) =
    let s : suc n * 32 ≡ 32 + n * 32 = omega arith in
    ap (λ t. replicate 32 0 ++ t) (null_loop-replicate n)
    ∙ sym (replicate-append 32 (n * 32) 0)
    ∙ ap (λ (k : ℕ). replicate k 0) (sym s)

null_loop_lem : (n x : ℕ) → null_loop n ≡ slices 0 (n * 32) x
null_loop_lem n x = null_loop-replicate n ∙ sym (slices-zero_width (n * 32) x)

-- Every width from 1 to 32 has an unpacker of 32 lined-up statements.
is_unpacker : ℕ → Option (List Statement) → Bool
is_unpacker w none = false
is_unpacker w (some code) = lined_up w 0 code && length code == 32

is_unpacker_all : all_below 33 (λ w. w == 0 || is_unpacker w (unpacker w)) ≡ true
unfolding is_unpacker unpacker all_below
is_unpacker_all = refl

is_unpacker_sound :
    (w : ℕ) (found : Option (List Statement))
    → is_unpacker w found ≡ true
    → (code : List Statement) × (found ≡ some code)
      × (lined_up w 0 code ≡ true)
      × (length code ≡ 32)
unfolding is_unpacker
is_unpacker_sound w none h = cc
is_unpacker_sound w (some code) h =
    let (a, b) = and_both (lined_up w 0 code) (length code == 32) h in
    (code, refl, a, ==→eq (length code) 32 b)

unpacker_total :
    (w : ℕ)
    → 0 < w
    → w ≤ 32
    → (code : List Statement) × (unpacker w ≡ some code)
      × (lined_up w 0 code ≡ true)
      × (length code ≡ 32)
unpacker_total w p l =
    let checked =
      all_below_sound 33 (λ w. w == 0 || is_unpacker w (unpacker w)) w is_unpacker_all
        (omega arith) in
    let nz : w == 0 ≡ false = ground arith in is_unpacker_sound w (unpacker w) (rw nz at checked)

unpacker-none : (w : ℕ) → 32 < w → unpacker w ≡ none
unfolding unpacker
unpacker-none w h = ground arith

-- At a width of at most 32, `unpack32` on bytes stores the whole groups of 32 among the values
-- asked for: the consecutive fields of that width in the little-endian number of the input.
pub unpack32_lem :
    (in_ : List ℕ) (n w : ℕ)
    → w ≤ 32
    → All IsByte in_
    → unpack32 in_ n w ≡ some (slices w (n / 32 * 32) (le_value in_))
unfolding unpack32
unpack32_lem in_ n w l h = elim (Bool-cases (w == 0)) [
  | inl z ↦ rw z (ap some (rw (==→eq w 0 z) (null_loop_lem (n / 32) (le_value in_))))
  | inr nz ↦
      let (code, e, c, k) = unpacker_total w (omega (arith, ==→ne w 0 nz)) l in
      rw (nz, e) (ap some (unpack_loop_lem (n / 32) w code in_ l c k h))
]

-- A width above 32 is an error of `unpack32`.
pub unpack32_unsupported : (in_ : List ℕ) (n w : ℕ) → 32 < w → unpack32 in_ n w ≡ none
unfolding unpack32
unpack32_unsupported in_ n w h =
    let nz : w == 0 ≡ false = ground arith in rw (nz, unpacker-none w h)
