-- ===== src/BitStream/VlqRoundTrip.antt =====
-- Variable-length and zigzag numbers, written by BitWriter and read by BitReader.
use parquet_cpp.Common.{ℕ, ◌*◌, ◌^◌, ◌≤◌, ◌<◌, ◌≡◌, List, ◌++◌, length, drop, All, arith}
use parquet_cpp.Common.{true, ap, ◌∙◌, sym, some, take-append-drop}
use parquet_cpp.Common.Bytes.{IsByte}
use parquet_cpp.BitUtil.{ceil}
use parquet_cpp.BitStream.Writer.{
  Writer, make, flush, bytes_written, put_vlq_int, put_zigzag_vlq_int, zigzag,
}
use parquet_cpp.BitStream.Writer.Invariant as W
use parquet_cpp.BitStream.Writer.Bytes.{Extends, flush-take, flush-IsValid}
use parquet_cpp.BitStream.Reader.{Reader, reset, get_vlq_int, get_zigzag_vlq_int, unzigzag}
use parquet_cpp.BitStream.Reader.Invariant as R
use parquet_cpp.BitStream.Reader.Bytes.{rest_bytes}
use parquet_cpp.BitStream.RoundTrip.{make-IsValid}
use parquet_cpp.BitStream.Vlq.{vlq_bytes, put_vlq_int-Extends, length-vlq_bytes_le}
use parquet_cpp.BitStream.VlqRead.{get_vlq_int_lem, unzigzag-zigzag, zigzag-lt}

-- A new reader of the flushed buffer stands before what a new writer was given.
module _ (n old : ℕ) (buffer bs : List ℕ) (wr : Writer) (in_int : n * 8 < 2 ^ 31)
    (word : old < 2 ^ 64) (fits : length buffer ≡ n) (x : Extends (make buffer n) wr bs) where
  abbrev flushed : List ℕ
  flushed = (flush true wr).buffer

  flushed_size : length flushed ≡ n
  unfolding flush make
  flushed_size = (flush-IsValid wr x.valid true).fits ∙ x.max_eq

  new_contents : W.contents wr ≡ bs
  unfolding make ceil
  new_contents = x.contents_eq

  before_written : rest_bytes (reset old flushed n) ≡ bs ++ drop (bytes_written wr) flushed
  unfolding rest_bytes reset ceil
  before_written =
      sym (take-append-drop (bytes_written wr) flushed)
      ∙ ap (λ l. l ++ drop (bytes_written wr) flushed) (flush-take wr x.valid true ∙ new_contents)

  reader-IsValid : R.IsValid (reset old flushed n)
  reader-IsValid =
      R.reset-IsValid old flushed n flushed_size (flush-IsValid wr x.valid true).bytes in_int word

-- Room for five bytes is enough for every `uint32_t`.
writes_vlq :
    (v n : ℕ) (buffer : List ℕ)
    → v < 2 ^ 32
    → 5 ≤ n
    → length buffer ≡ n
    → All IsByte buffer
    → Extends (make buffer n) (put_vlq_int v (make buffer n)).0 (vlq_bytes 4 v)
unfolding make bytes_written ceil
writes_vlq v n buffer h room fits bytes =
    (put_vlq_int-Extends v (make buffer n) (make-IsValid buffer n fits bytes) h
      (omega (arith, length-vlq_bytes_le 4 v))).1

-- With a buffer of five bytes or more whose length in bits fits an `int`, `GetVlqInt` returns the
-- `uint32_t` that `PutVlqInt` wrote and `Flush` stored.
pub put_vlq_int-get_vlq_int :
    (v n old : ℕ) (buffer : List ℕ)
    → v < 2 ^ 32
    → 5 ≤ n
    → length buffer ≡ n
    → All IsByte buffer
    → n * 8 < 2 ^ 31
    → old < 2 ^ 64
    → (next : Reader) × (get_vlq_int
          (reset old (flush true (put_vlq_int v (make buffer n)).0).buffer n)
        ≡ (some v, next))
put_vlq_int-get_vlq_int v n old buffer h room fits bytes in_int word =
    let x = writes_vlq v n buffer h room fits bytes in
    let wr = (put_vlq_int v (make buffer n)).0 in
    let got =
      get_vlq_int_lem v (drop (bytes_written wr) (flush true wr).buffer)
        (reset old (flush true wr).buffer n)
        (reader-IsValid n old buffer (vlq_bytes 4 v) wr in_int word fits x) h
        (before_written n old buffer (vlq_bytes 4 v) wr in_int word fits x) in
    (got.next, got.returns)

get_zigzag_steps :
    {u : ℕ} (r : Reader) {next : Reader}
    → get_vlq_int r ≡ (some u, next)
    → get_zigzag_vlq_int r ≡ (some (unzigzag u), next)
unfolding get_zigzag_vlq_int
get_zigzag_steps r e = rw (e, get_zigzag_vlq_int)

-- With a buffer of five bytes or more whose length in bits fits an `int`, `GetZigZagVlqInt` returns
-- the `int32_t` that `PutZigZagVlqInt` wrote, as a bit pattern of 32 bits.
pub put_zigzag_vlq_int-get_zigzag_vlq_int :
    (v n old : ℕ) (buffer : List ℕ)
    → v < 2 ^ 32
    → 5 ≤ n
    → length buffer ≡ n
    → All IsByte buffer
    → n * 8 < 2 ^ 31
    → old < 2 ^ 64
    → (next : Reader) × (get_zigzag_vlq_int
          (reset old (flush true (put_zigzag_vlq_int v (make buffer n)).0).buffer n)
        ≡ (some v, next))
unfolding put_zigzag_vlq_int
put_zigzag_vlq_int-get_zigzag_vlq_int v n old buffer h room fits bytes in_int word =
    let (next, e) =
      put_vlq_int-get_vlq_int (zigzag v) n old buffer (zigzag-lt v) room fits bytes in_int word in
    (next, get_zigzag_steps _ e ∙ ap (λ (t : ℕ). (some t, next)) (unzigzag-zigzag v h))
