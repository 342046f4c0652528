-- ===== src/BitStream/Groups.antt =====
-- Values written by BitWriter from a byte boundary to a byte boundary, and a byte overwritten.
use parquet_cpp.Common.{
  ℕ, zero, suc, ◌+◌, ◌*◌, ◌^◌, ◌≤◌, ◌<◌, ◌≡◌, List, [], ◌∷◌, ◌++◌, length, take, drop, All,
  All-append, arith, refl,
}
use parquet_cpp.Common.{true, ap, ap₂, ◌∙◌, sym, length-append, length-take}
use parquet_cpp.Common.Bytes.{
  IsByte, le_bytes, le_value, le_bytes-le_value, le_value-append, le_value-le_bytes,
  length-le_bytes, le_bytes-IsByte, All-take, store, length-store, All-store,
}
use parquet_cpp.Common.Pow.{sum_below_two_pow, two_pow_pos, pow-add}
use parquet_cpp.Common.Slices.{packed}
use parquet_cpp.BitUtil.{ceil}
use parquet_cpp.BitUtil.Rounding.{ceil-byte}
use parquet_cpp.BitStream.Writer.{
  Writer, bytes_written, put_value, put_values, flush, get_next_byte_ptr,
}
use parquet_cpp.BitStream.Writer.Bits.{byte_offset-put_value}
use parquet_cpp.BitStream.Writer.Bytes.{flush-take, flush-IsValid}
use parquet_cpp.Common.{Option, some, ge→ltb, get_or, set}
use mathlib.Core.List.{append-nil}
use parquet_cpp.BitStream.Writer.Invariant as W
use parquet_cpp.BitStream.RoundTrip.{put_values_lem}
use native.Mathlib.Nat.{mod-eq_of_lt}

-- Numbers one behind the other are their bytes one behind the other.
pub le_bytes-sum :
    (a b x y : ℕ)
    → x < 2 ^ (8 * a)
    → y < 2 ^ (8 * b)
    → le_bytes (a + b) (x + y * 2 ^ (8 * a)) ≡ le_bytes a x ++ le_bytes b y
le_bytes-sum a b x y h k =
    let bs : List ℕ = le_bytes a x ++ le_bytes b y in
    let len : length bs ≡ a + b =
      length-append (le_bytes a x) (le_bytes b y)
      ∙ ap₂ (λ (m n : ℕ). m + n) (length-le_bytes a x) (length-le_bytes b y) in
    let val : le_value bs ≡ x + y * 2 ^ (8 * a) =
      le_value-append (le_bytes a x) (le_bytes b y)
      ∙ ap₂ (λ (m n : ℕ). m + n * 2 ^ (8 * length (le_bytes a x)))
          (le_value-le_bytes a x ∙ mod-eq_of_lt h) (le_value-le_bytes b y ∙ mod-eq_of_lt k)
      ∙ ap (λ (n : ℕ). x + y * 2 ^ (8 * n)) (length-le_bytes a x) in
    ap₂ le_bytes (sym len) (sym val)
    ∙ le_bytes-le_value bs (
        All-append IsByte (le_bytes a x) (le_bytes b y) (le_bytes-IsByte a x) (le_bytes-IsByte b y))

pub packed-lt : (w : ℕ) (vs : List ℕ) → All (λ v. v < 2 ^ w) vs → packed w vs < 2 ^ (w * length vs)
packed-lt w [] h = two_pow_pos (w * 0)
packed-lt w (v ∷ vs) h =
    let e : w + w * length vs ≡ w * suc (length vs) = omega arith in
    omega (
      arith,
      sum_below_two_pow v (packed w vs) w (w * length vs) h.0 (packed-lt w vs h.1),
      ap (λ (t : ℕ). 2 ^ t) e,
    )

pub packed-append :
    (w : ℕ) (xs ys : List ℕ) → packed w (xs ++ ys) ≡ packed w xs + packed w ys * 2 ^ (w * length xs)
packed-append w [] ys =
    let e : w * 0 ≡ 0 = omega arith in omega (arith, ap (λ (t : ℕ). packed w ys * 2 ^ t) e)
packed-append w (x ∷ xs) ys =
    let e : w * suc (length xs) ≡ w * length xs + w = omega arith in
    omega (
      arith,
      ap (λ (t : ℕ). t * 2 ^ w) (packed-append w xs ys),
      ap (λ (t : ℕ). packed w ys * 2 ^ t) e,
      ap (λ (t : ℕ). packed w ys * t) (pow-add 2 (w * length xs) w),
    )

-- At a byte boundary the contents are the bytes of the value.
aligned_contents :
    {wr : Writer} (q : ℕ)
    → W.IsValid wr
    → W.position wr ≡ 8 * q
    → (W.contents wr ≡ le_bytes q (W.value wr)) × (W.value wr < 2 ^ (8 * q))
unfolding bytes_written
aligned_contents {wr} q ok e =
    let len : length (W.contents wr) ≡ q = W.length-contents ok ∙ bytes q e in
    (
      sym (le_bytes-le_value (W.contents wr) all_bytes) ∙ ap₂ le_bytes len (W.le_value-contents ok),
      omega (arith, W.value-lt ok, ap (λ (t : ℕ). 2 ^ t) e),
    )
  where
    bytes : (q : ℕ) → W.position wr ≡ 8 * q → bytes_written wr ≡ q
    bytes q e = omega (arith, ceil-byte wr.bit_offset)

    all_bytes : All IsByte (W.contents wr)
    all_bytes =
        All-append IsByte (take wr.byte_offset wr.buffer) _
          (All-take wr.byte_offset wr.buffer ok.bytes)
          (le_bytes-IsByte (ceil wr.bit_offset 8) wr.buffered_values)

-- Whole bytes of values more.
pub record Grows (wr next : Writer) (bs : List ℕ) (m : ℕ) : Type 0 where
  pub valid : W.IsValid next
  pub contents_eq : W.contents next ≡ W.contents wr ++ bs
  pub position_eq : W.position next ≡ W.position wr + 8 * m
  pub behind : wr.byte_offset ≤ next.byte_offset
  pub max_eq : next.max_bytes ≡ wr.max_bytes

byte_offset-put_values :
    (w : ℕ) (vs : List ℕ) (wr : Writer) → wr.byte_offset ≤ (put_values w vs wr).byte_offset
unfolding put_values
byte_offset-put_values w [] wr = omega arith
byte_offset-put_values w (v ∷ vs) wr =
    omega (arith, byte_offset-put_value v w wr, byte_offset-put_values w vs (put_value v w wr).0)

pub put_values-Grows :
    (w m q : ℕ) (vs : List ℕ) (wr : Writer)
    → W.IsValid wr
    → w ≤ 32
    → All (λ v. v < 2 ^ w) vs
    → W.position wr ≡ 8 * q
    → w * length vs ≡ 8 * m
    → q + m ≤ wr.max_bytes
    → Grows wr (put_values w vs wr) (le_bytes m (packed w vs)) m
put_values-Grows w m q vs wr ok narrow small pos size room =
    let a = put_values_lem w vs wr ok narrow small (omega arith) in
    let here = aligned_contents q ok pos in
    let there : W.position (put_values w vs wr) ≡ 8 * (q + m) = omega (arith, a.position_eq) in
    let end = aligned_contents (q + m) a.valid there in
    let fits : packed w vs < 2 ^ (8 * m) =
      omega (arith, packed-lt w vs small, ap (λ (t : ℕ). 2 ^ t) size) in
    record {
      valid = a.valid;
      contents_eq =
          end.0
          ∙ ap (le_bytes (q + m))
              (a.value_eq ∙ ap (λ (t : ℕ). W.value wr + packed w vs * 2 ^ t) pos)
          ∙ le_bytes-sum q m (W.value wr) (packed w vs) here.1 fits
          ∙ ap (λ l. l ++ le_bytes m (packed w vs)) (sym here.0);
      position_eq = omega (arith, a.position_eq);
      behind = byte_offset-put_values w vs wr;
      max_eq = a.max_eq;
    }

-- The byte that `GetNextBytePtr` reserves.
pub record Reserves (wr next : Writer) (ptr : Option ℕ) (x : ℕ) : Type 0 where
  pub valid : W.IsValid next
  pub ptr_eq : ptr ≡ some (length (W.contents wr))
  pub contents_eq : W.contents next ≡ W.contents wr ++ (x ∷ [])
  pub position_eq : W.position next ≡ 8 * suc (length (W.contents wr))
  pub below : length (W.contents wr) < next.byte_offset
  pub max_eq : next.max_bytes ≡ wr.max_bytes

reserve_steps :
    (wr : Writer)
    → bytes_written wr + 1 ≤ wr.max_bytes
    → get_next_byte_ptr 1 wr
      ≡ (record (flush true wr) { byte_offset = bytes_written wr + 1 }, some (bytes_written wr))
unfolding get_next_byte_ptr bytes_written
reserve_steps wr room = rw (ge→ltb wr.max_bytes (wr.byte_offset + ceil wr.bit_offset 8 + 1) room)

take-suc :
    (n : ℕ) (xs : List ℕ) → n < length xs → take (suc n) xs ≡ take n xs ++ (get_or xs n 0 ∷ [])
take-suc n [] h = absurd (omega arith)
take-suc zero (x ∷ xs) h = refl
take-suc (suc n) (x ∷ xs) h = ap (λ l. x ∷ l) (take-suc n xs (omega arith))

reserved :
    (wr : Writer)
    → W.IsValid wr
    → bytes_written wr + 1 ≤ wr.max_bytes
    → Reserves wr
        (record (flush true wr) { byte_offset = bytes_written wr + 1 })
        (some (bytes_written wr))
        (get_or (flush true wr).buffer (bytes_written wr) 0)
unfolding flush ceil
reserved wr ok room =
    let len = W.length-contents ok in
    let f = flush-IsValid wr ok true in
    let one_more : bytes_written wr + 1 ≡ suc (bytes_written wr) = omega arith in
    record {
      valid = record {
        fits = f.fits;
        bytes = f.bytes;
        within = omega (arith, room);
        pending = omega arith;
        low = omega arith;
      };
      ptr_eq = ap (λ (t : ℕ). some t) (sym len);
      contents_eq =
          append-nil _
          ∙ ap (λ (t : ℕ). take t (flush true wr).buffer) one_more
          ∙ take-suc (bytes_written wr) (flush true wr).buffer (omega (arith, f.fits, room))
          ∙ ap (λ l. l ++ (get_or (flush true wr).buffer (bytes_written wr) 0 ∷ []))
              (flush-take wr ok true);
      position_eq = omega (arith, len);
      below = omega (arith, len);
      max_eq = refl;
    }

pub get_next_byte_ptr-Reserves :
    (wr : Writer)
    → W.IsValid wr
    → bytes_written wr + 1 ≤ wr.max_bytes
    → Reserves wr
        (get_next_byte_ptr 1 wr).0
        (get_next_byte_ptr 1 wr).1
        (get_or (flush true wr).buffer (bytes_written wr) 0)
get_next_byte_ptr-Reserves wr ok room = rw (reserve_steps wr room) (reserved wr ok room)

store-set : (ptr x : ℕ) (buf : List ℕ) → ptr < length buf → store buf ptr (x ∷ []) ≡ set buf ptr x
store-set ptr x [] h = absurd (omega arith)
store-set zero x (b ∷ buf) h = refl
store-set (suc ptr) x (b ∷ buf) h =
    let e : suc ptr + 1 ≡ suc (ptr + 1) = omega arith in
    ap (λ (t : ℕ). b ∷ (take ptr buf ++ (x ∷ drop t (b ∷ buf)))) e
    ∙ ap (λ l. b ∷ l) (store-set ptr x buf (omega arith))

take-set_inside :
    (n ptr x : ℕ) (buf : List ℕ) → ptr < n → take n (set buf ptr x) ≡ set (take n buf) ptr x
take-set_inside zero ptr x buf h = absurd (omega arith)
take-set_inside (suc n) ptr x [] h = refl
take-set_inside (suc n) zero x (b ∷ buf) h = refl
take-set_inside (suc n) (suc ptr) x (b ∷ buf) h =
    ap (λ l. b ∷ l) (take-set_inside n ptr x buf (omega arith))

set-append :
    (ptr x : ℕ) (xs ys : List ℕ) → ptr < length xs → set (xs ++ ys) ptr x ≡ set xs ptr x ++ ys
set-append ptr x [] ys h = absurd (omega arith)
set-append zero x (b ∷ xs) ys h = refl
set-append (suc ptr) x (b ∷ xs) ys h = ap (λ l. b ∷ l) (set-append ptr x xs ys (omega arith))

set_between : (x y : ℕ) (xs ys : List ℕ) → set (xs ++ (y ∷ ys)) (length xs) x ≡ xs ++ (x ∷ ys)
set_between x y [] ys = refl
set_between x y (b ∷ xs) ys = ap (λ l. b ∷ l) (set_between x y xs ys)

-- A byte stored below the buffered word replaces that byte of the stream.
pub store-contents :
    (x y : ℕ) (xs ys : List ℕ) (wr : Writer)
    → W.IsValid wr
    → x < 256
    → W.contents wr ≡ xs ++ (y ∷ ys)
    → length xs < wr.byte_offset
    → W.IsValid (record wr { buffer = store wr.buffer (length xs) (x ∷ []) })
      × (W.contents (record wr { buffer = store wr.buffer (length xs) (x ∷ []) }) ≡ xs ++ (x ∷ ys))
store-contents x y xs ys wr ok byte e inside =
    let room : length xs + 1 ≤ length wr.buffer = omega (arith, ok.fits, ok.within) in
    let low : length (take wr.byte_offset wr.buffer) ≡ wr.byte_offset =
      length-take wr.byte_offset wr.buffer (omega (arith, ok.fits, ok.within)) in
    let tail = le_bytes (ceil wr.bit_offset 8) wr.buffered_values in
    (
      record {
        fits = length-store wr.buffer (length xs) (x ∷ []) room ∙ ok.fits;
        bytes = All-store wr.buffer (length xs) (x ∷ []) ok.bytes (byte, tt);
        within = ok.within;
        pending = ok.pending;
        low = ok.low;
      },
      ap (λ l. take wr.byte_offset l ++ tail) (store-set (length xs) x wr.buffer (omega arith))
          ∙ ap (λ l. l ++ tail) (take-set_inside wr.byte_offset (length xs) x wr.buffer inside)
          ∙ sym (set-append (length xs) x (take wr.byte_offset wr.buffer) tail (omega (arith, low)))
          ∙ ap (λ l. set l (length xs) x) e
          ∙ set_between x y xs ys,
    )
