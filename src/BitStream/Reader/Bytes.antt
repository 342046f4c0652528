-- ===== src/BitStream/Reader/Bytes.antt =====
-- `GetAligned`: the stream as bytes.
use parquet_cpp.Common.{ℕ, ◌+◌, ◌-◌, ◌≤◌, ◌<◌, ◌≡◌, List, ◌++◌, length, take, drop, arith, refl}
use parquet_cpp.Common.{
  ap, ◌∙◌, sym, some, none, ge→ltb, lt→ltb, length-drop, length-append, take-append, drop-append,
  drop-drop,
}
use parquet_cpp.Common.Bytes.{le_value}
use parquet_cpp.BitUtil.{ceil}
use parquet_cpp.BitUtil.Rounding.{ceil-byte}
use parquet_cpp.BitStream.Reader.{Reader, refill, get_aligned}
use parquet_cpp.BitStream.Reader.Invariant.{IsValid, refill-IsLoaded}

-- The whole bytes that are left.
unfoldable pub rest_bytes : Reader → List ℕ
rest_bytes r = drop (r.byte_offset + ceil r.bit_offset 8) r.buffer

-- The reader stands at a byte boundary, before `more`.
pub record StandsBefore (r : Reader) (more : List ℕ) : Type 0 where
  pub valid : IsValid r
  pub rest_eq : rest_bytes r ≡ more

pub length-rest_bytes :
    {r : Reader}
    → IsValid r
    → length (rest_bytes r) ≡ r.max_bytes - (r.byte_offset + ceil r.bit_offset 8)
unfolding rest_bytes
length-rest_bytes {r} ok =
    omega (arith, length-drop (r.byte_offset + ceil r.bit_offset 8) r.buffer, ok.is_loaded.fits)

module _ (n : ℕ) (r : Reader) (ok : IsValid r) where
  abbrev behind : Reader
  behind = record r { byte_offset = r.byte_offset + ceil r.bit_offset 8 + n; bit_offset = 0 }

  rest_behind :
      (bs more : List ℕ)
      → rest_bytes r ≡ bs ++ more
      → length bs ≡ n
      → rest_bytes (refill behind) ≡ more
  unfolding rest_bytes refill ceil
  rest_behind bs more e len =
      let s : r.byte_offset + ceil r.bit_offset 8 + n + 0
          ≡ r.byte_offset + ceil r.bit_offset 8 + n =
        omega arith in
      ap (λ (k : ℕ). drop k r.buffer) s
      ∙ sym (drop-drop n (r.byte_offset + ceil r.bit_offset 8) r.buffer)
      ∙ ap (drop n) e
      ∙ drop-append n bs more (sym len)

  -- When the whole bytes left of a valid reader start with `n` bytes, `GetAligned` returns the number
  -- that they stand for, and the reader stands at the byte boundary behind them.
  pub get_aligned_lem :
      (bs more : List ℕ)
      → rest_bytes r ≡ bs ++ more
      → length bs ≡ n
      → (next : Reader) × (get_aligned n r ≡ some (le_value bs, next))
        × StandsBefore next more
        × (next.bit_offset ≡ 0)
        × (next.max_bytes ≡ r.max_bytes)
  unfolding get_aligned rest_bytes refill
  get_aligned_lem bs more e len =
      let size = length-drop (r.byte_offset + ceil r.bit_offset 8) r.buffer in
      let both = length-append bs more in
      let inside : r.byte_offset + ceil r.bit_offset 8 + n ≤ r.max_bytes =
        omega
          (arith, ok.within, ceil-byte r.bit_offset, size, both, ap length e, ok.is_loaded.fits) in
      let start : take n (bs ++ more) ≡ bs = take-append n bs more (sym len) in
      (
        refill behind,
        rw (ge→ltb r.max_bytes (r.byte_offset + ceil r.bit_offset 8 + n) inside, e, start),
        record {
          valid = record {
            is_loaded =
                refill-IsLoaded behind ok.is_loaded.fits ok.is_loaded.bytes ok.is_loaded.in_int
                  ok.is_loaded.word inside;
            pending = omega arith;
            within = omega (arith, inside);
          };
          rest_eq = rest_behind bs more e len;
        },
        refl,
        refl,
      )

  -- With fewer whole bytes left than asked for, `GetAligned` on a valid reader fails.
  pub get_aligned-none : length (rest_bytes r) < n → get_aligned n r ≡ none
  unfolding get_aligned
  get_aligned-none h = rw (
      lt→ltb r.max_bytes (r.byte_offset + ceil r.bit_offset 8 + n)
        (omega (arith, length-rest_bytes ok, h)))
