-- ===== src/BitStream/VlqRead.antt =====
-- `GetVlqInt` reads what `PutVlqInt` writes; the zigzag code is invertible.
use parquet_cpp.Common.{
  ℕ, zero, suc, ◌+◌, ◌-◌, ◌*◌, ◌/◌, ◌%◌, ◌^◌, ◌≤◌, ◌<◌, ◌≡◌, List, [], ◌∷◌, ◌++◌, length, arith,
  refl,
}
use parquet_cpp.Common.{
  true, false, ap, ◌∙◌, Option, some, ltb, leb, ◌==◌, Bool-cases, inl, inr, bit_and, bit_or,
  bit_xor,
}
use parquet_cpp.Common.{eq→==, ne→==, ltb→lt, leb→le, leb→gt, length-append}
use parquet_cpp.Common.Bits.{bit_and_mask, bit_or_shifted, bit_xor_ones, bit_xor-zero}
use parquet_cpp.Common.Pow.{sum_below_two_pow, pow-add}
use parquet_cpp.BitUtil.Positions.{bit_and_bit}
use parquet_cpp.BitStream.Vlq.{vlq_bytes, length-vlq_bytes}
use parquet_cpp.BitStream.Writer.{zigzag}
use parquet_cpp.BitStream.Reader.{Reader, get_aligned, get_vlq_loop, get_vlq_int, unzigzag}
use parquet_cpp.BitStream.Reader.Invariant.{IsValid}
use parquet_cpp.BitStream.Reader.Bytes.{
  rest_bytes, StandsBefore, get_aligned_lem, length-rest_bytes,
}
use native.Mathlib.Nat.{mod-eq_of_lt, pow-suc, div-add-mod}

continues : (b : ℕ) → b < 256 → bit_and b 0x80 ≡ b / 128 % 2 * 128
continues b h = bit_and_bit 7 b

ends : (b : ℕ) → b < 128 → bit_and b 0x80 == 0 ≡ true
ends b h = eq→== _ 0 (omega (arith, bit_and_bit 7 b))

goes_on : (g : ℕ) → g < 128 → bit_and (g + 128) 0x80 == 0 ≡ false
goes_on g h = ne→== _ 0 (λ e. absurd (omega (arith, bit_and_bit 7 (g + 128))))

group_of : (g : ℕ) → g < 128 → bit_and (g + 128) 0x7F ≡ g
group_of g h = omega (arith, bit_and_mask 7 (g + 128))

last_of : (b : ℕ) → b < 128 → bit_and b 0x7F ≡ b
last_of b h = omega (arith, bit_and_mask 7 b)

-- A group that fits 32 bits at its place is added.
add_group :
    (acc g shift : ℕ)
    → acc < 2 ^ shift
    → g * 2 ^ shift < 2 ^ 32
    → bit_or acc (g * 2 ^ shift % 2 ^ 32) ≡ acc + g * 2 ^ shift
add_group acc g shift h k = ap (bit_or acc) (mod-eq_of_lt k) ∙ bit_or_shifted shift acc g h

-- One round of the loop, on each branch.
module _ (fuel acc shift : ℕ) (r : Reader) {byte : ℕ} {next : Reader}
    (got : get_aligned 1 r ≡ some (byte, next)) where
  round_ends :
      {v : ℕ}
      → bit_or acc (bit_and byte 0x7F * 2 ^ shift % 2 ^ 32) ≡ v
      → bit_and byte 0x80 == 0 ≡ true
      → get_vlq_loop (suc fuel) acc shift r ≡ (some v, next)
  unfolding get_vlq_loop
  round_ends e stop = rw (got, get_vlq_loop, stop, e)

  round_goes_on :
      (v : ℕ)
      → bit_or acc (bit_and byte 0x7F * 2 ^ shift % 2 ^ 32) ≡ v
      → bit_and byte 0x80 == 0 ≡ false
      → get_vlq_loop (suc fuel) acc shift r ≡ get_vlq_loop fuel v (shift + 7) next
  unfolding get_vlq_loop
  round_goes_on v e stop = rw (got, get_vlq_loop, stop, e)

-- What reading a code leaves.
pub record ReadsVlq (v : ℕ) (more : List ℕ) (r : Reader) (result : Option ℕ × Reader) : Type 0 where
  pub next : Reader
  pub returns : result ≡ (some v, next)
  pub before : StandsBefore next more
  pub aligned : next.bit_offset ≡ 0
  pub max_eq : next.max_bytes ≡ r.max_bytes

shift_seven : (s : ℕ) → 2 ^ (s + 7) ≡ 2 ^ s * 128
shift_seven s = pow-add 2 s 7

-- A number is its lowest group and the rest, at their places.
split_group : (v s : ℕ) → v * 2 ^ s ≡ v % 128 * 2 ^ s + v / 128 * 2 ^ (s + 7)
split_group v s = omega (
  arith,
  ap (λ (t : ℕ). t * 2 ^ s) (div-add-mod v 128),
  ap (λ (t : ℕ). v / 128 * t) (shift_seven s),
)

read_last :
    (fuel v acc shift : ℕ) (more : List ℕ) (r : Reader)
    → IsValid r
    → rest_bytes r ≡ v ∷ more
    → v < 128
    → acc < 2 ^ shift
    → acc + v * 2 ^ shift < 2 ^ 32
    → ReadsVlq (acc + v * 2 ^ shift) more r (get_vlq_loop (suc fuel) acc shift r)
read_last fuel v acc shift more r ok e small low fits =
    let (next, got, before, bit, max) = get_aligned_lem 1 r ok (v ∷ []) more e refl in
    record {
      next = next;
      returns =
          round_ends fuel acc shift r got
            (ap (λ (t : ℕ). bit_or acc (t * 2 ^ shift % 2 ^ 32)) (last_lem v small)
              ∙ add_group acc v shift low (omega arith))
            (ends_lem v small);
      before = before;
      aligned = bit;
      max_eq = max;
    }
  where
    last_lem : (v : ℕ) → v < 128 → bit_and (v + 256 * 0) 0x7F ≡ v
    last_lem v h = let z : v + 256 * 0 ≡ v = omega arith in rw z (last_of v h)

    ends_lem : (v : ℕ) → v < 128 → bit_and (v + 256 * 0) 0x80 == 0 ≡ true
    ends_lem v h = let z : v + 256 * 0 ≡ v = omega arith in rw z (ends v h)

read_more :
    (fuel v acc shift : ℕ) (r : Reader)
    → IsValid r
    → (tail : List ℕ) → rest_bytes r ≡ (v % 128 + 128) ∷ tail
    → acc < 2 ^ shift
    → acc + v * 2 ^ shift < 2 ^ 32
    → {more : List ℕ}
    → ((s : Reader)
        → StandsBefore s tail
        → ReadsVlq
            (acc + v % 128 * 2 ^ shift + v / 128 * 2 ^ (shift + 7))
            more
            s
            (get_vlq_loop fuel (acc + v % 128 * 2 ^ shift) (shift + 7) s))
    → ReadsVlq (acc + v * 2 ^ shift) more r (get_vlq_loop (suc fuel) acc shift r)
read_more fuel v acc shift r ok tail e low fits behind =
    let (next, got, before, bit, max) = get_aligned_lem 1 r ok ((v % 128 + 128) ∷ []) tail e refl in
    let rest = behind next before in
    let z : v % 128 + 128 + 256 * 0 ≡ v % 128 + 128 = omega arith in
    let sp = split_group v shift in
    let total : acc + v % 128 * 2 ^ shift + v / 128 * 2 ^ (shift + 7) ≡ acc + v * 2 ^ shift =
      omega arith in
    record {
      next = rest.next;
      returns =
          round_goes_on fuel acc shift r got (acc + v % 128 * 2 ^ shift)
            (ap (λ (t : ℕ). bit_or acc (t * 2 ^ shift % 2 ^ 32))
                (rw z (group_of (v % 128) (omega arith)))
              ∙ add_group acc (v % 128) shift low (omega arith))
            (rw z (goes_on (v % 128) (omega arith)))
          ∙ rest.returns
          ∙ ap (λ (t : ℕ). (some t, rest.next)) total;
      before = rest.before;
      aligned = rest.aligned;
      max_eq = rest.max_eq ∙ max;
    }

shorter :
    (fuel k v : ℕ)
    → ltb v 128 ≡ false
    → length (vlq_bytes (suc k) v) ≤ suc fuel
    → length (vlq_bytes k (v / 128)) ≤ fuel
unfolding vlq_bytes
shorter fuel k v long h =
    let h' : suc (length (vlq_bytes k (v / 128))) ≤ suc fuel = rw long at h in omega arith

get_vlq_loop_lem :
    (fuel k v acc shift : ℕ) (more : List ℕ) (r : Reader)
    → IsValid r
    → rest_bytes r ≡ vlq_bytes k v ++ more
    → length (vlq_bytes k v) ≤ fuel
    → v < 128 ^ suc k
    → acc < 2 ^ shift
    → acc + v * 2 ^ shift < 2 ^ 32
    → ReadsVlq (acc + v * 2 ^ shift) more r (get_vlq_loop fuel acc shift r)
get_vlq_loop_lem zero k v acc shift more r ok e enough small low fits =
    absurd (omega (arith, length-vlq_bytes k v))
get_vlq_loop_lem (suc fuel) zero v acc shift more r ok e enough small low fits =
    read_last fuel v acc shift more r ok (unfold vlq_bytes in e) (omega arith) low fits
get_vlq_loop_lem (suc fuel) (suc k) v acc shift more r ok e enough small low fits =
    elim (Bool-cases (ltb v 128)) [
      | inl short ↦
          read_last fuel v acc shift more r ok (unfold vlq_bytes in (rw short at e))
            (ltb→lt v 128 short) low fits
      | inr long ↦
          let sp = split_group v shift in
          read_more fuel v acc shift r ok (vlq_bytes k (v / 128) ++ more)
            (unfold vlq_bytes in (rw long at e)) low fits
            (λ s before.
              get_vlq_loop_lem fuel k (v / 128) (acc + v % 128 * 2 ^ shift) (shift + 7) more s
                before.valid before.rest_eq (shorter fuel k v long enough)
                (omega (arith, pow-suc 128 (suc k)))
                (sum_below_two_pow acc (v % 128) shift 7 low (omega arith))
                (omega (arith, split_group v shift)))
    ]

-- A valid reader that stands before the code of a `uint32_t` and more bytes returns that number by
-- `GetVlqInt` and stands before the rest.
pub get_vlq_int_lem :
    (v : ℕ) (more : List ℕ) (r : Reader)
    → IsValid r
    → v < 2 ^ 32
    → rest_bytes r ≡ vlq_bytes 4 v ++ more
    → ReadsVlq v more r (get_vlq_int r)
unfolding get_vlq_int
get_vlq_int_lem v more r ok h e =
    let fuel_enough : length (vlq_bytes 4 v) ≤ suc r.max_bytes =
      omega (arith, ap length e, length-append (vlq_bytes 4 v) more, length-rest_bytes ok) in
    let got =
      get_vlq_loop_lem (suc r.max_bytes) 4 v 0 0 more r ok e fuel_enough (omega arith) (omega arith)
        (omega arith) in
    let same : 0 + v * 2 ^ 0 ≡ v = omega arith in
    record {
      next = got.next;
      returns = got.returns ∙ ap (λ (t : ℕ). (some t, got.next)) same;
      before = got.before;
      aligned = got.aligned;
      max_eq = got.max_eq;
    }

pub zigzag-lt : (v : ℕ) → zigzag v < 2 ^ 32
unfolding zigzag
zigzag-lt v = elim (Bool-cases (leb (2 ^ 31) v)) [
  | inl negative ↦ rw negative (omega (arith, bit_xor_ones 32 (v * 2 % 2 ^ 32) (omega arith)))
  | inr positive ↦ rw positive (omega (arith, bit_xor-zero (v * 2 % 2 ^ 32)))
]

-- The zigzag code of a bit pattern of 32 bits is undone by the reader.
pub unzigzag-zigzag : (v : ℕ) → v < 2 ^ 32 → unzigzag (zigzag v) ≡ v
unfolding unzigzag zigzag
unzigzag-zigzag v h = elim (Bool-cases (leb (2 ^ 31) v)) [
  | inl negative ↦
      let k = leb→le (2 ^ 31) v negative in
      let u : bit_xor (v * 2 % 2 ^ 32) (2 ^ 32 - 1) ≡ 2 ^ 33 - 1 - 2 * v =
        bit_xor_ones 32 (v * 2 % 2 ^ 32) (omega arith) ∙ omega arith in
      let odd : bit_and (2 ^ 33 - 1 - 2 * v) 1 ≡ 1 =
        bit_and_mask 1 (2 ^ 33 - 1 - 2 * v) ∙ omega arith in
      let half : (2 ^ 33 - 1 - 2 * v) / 2 ≡ 2 ^ 32 - 1 - v = omega arith in
      rw (negative, u, odd, half) (bit_xor_ones 32 (2 ^ 32 - 1 - v) (omega arith) ∙ omega arith)
  | inr positive ↦
      let k = leb→gt (2 ^ 31) v positive in
      let u : bit_xor (v * 2 % 2 ^ 32) 0 ≡ 2 * v = bit_xor-zero (v * 2 % 2 ^ 32) ∙ omega arith in
      let even : bit_and (2 * v) 1 ≡ 0 = bit_and_mask 1 (2 * v) ∙ omega arith in
      let half : 2 * v / 2 ≡ v = omega arith in rw (positive, u, even, half) (bit_xor-zero v)
]
