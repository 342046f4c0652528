-- ===== src/Levels/RoundTrip.antt =====
-- Levels that LevelEncoder writes in the RLE encoding, LevelDecoder reads back.
use parquet_cpp.Common.{
  ℕ, zero, suc, ◌+◌, ◌-◌, ◌*◌, ◌^◌, ◌≤◌, ◌<◌, ◌≡◌, ◌⊎◌, inl, inr, List, [], ◌∷◌, ◌++◌, length, take,
  drop, min, All, arith, refl,
}
use parquet_cpp.Common.{true, false, ap, ap₂, ◌∙◌, sym, some, drop-append, take-append}
use parquet_cpp.Common.Bytes.{IsByte, le_bytes, le_value, length-le_bytes, le_value-le_bytes}
use parquet_cpp.BitUtil.{log2}
use parquet_cpp.BitUtil.Positions.{log2_lem}
use parquet_cpp.Rle.Encoder.{Encoder, put_all, min_buffer_size}
use parquet_cpp.Rle.Encoder as RleEncoder
use parquet_cpp.Rle.Decoder.{Decoder, rle_get_batch}
use parquet_cpp.Rle.Decoder as RleDecoder
use parquet_cpp.Rle.RoundTrip.{put_all-Flushed, reads-Flushed}
use parquet_cpp.Levels.{
  rle, LevelEncoder, LevelDecoder, init, encode, encode_rle, set_data, decode, decode_rle,
}
use native.Mathlib.Nat.{mod-eq_of_lt, pow-le-pow_right}

-- The bit width that both coders take.
pub width_bounds :
    (max_level : ℕ)
    → 1 ≤ max_level
    → max_level < 2 ^ 15
    → (1 ≤ log2 (max_level + 1))
      × (log2 (max_level + 1) ≤ 32)
      × (max_level < 2 ^ log2 (max_level + 1))
width_bounds max_level some_level short =
    let (up, down) = log2_lem (max_level + 1) (omega arith) (omega arith) in
    (
      positive (log2 (max_level + 1)) (omega (arith, up, some_level)),
      below (log2 (max_level + 1)) down,
      omega (arith, up),
    )
  where
    positive : (w : ℕ) → 2 ≤ 2 ^ w → 1 ≤ w
    positive zero h = absurd (omega arith)
    positive (suc w) h = omega arith

    below : (w : ℕ) → (w ≡ 0) ⊎ (2 ^ (w - 1) < max_level + 1) → w ≤ 32
    below w (inl z) = omega arith
    below w (inr h) = ground (arith, pow-le-pow_right {n = 2} (omega arith) {i = 32} {j = w - 1})

All-below : (m w : ℕ) (vs : List ℕ) → m < 2 ^ w → All (λ v. v ≤ m) vs → All (λ v. v < 2 ^ w) vs
All-below m w [] h k = tt
All-below m w (v ∷ vs) h k = (omega (arith, k.0), All-below m w vs h k.1)

-- What the two coders do with levels `vs`, on a page that starts with the length of the levels.
pub record RoundTrips (max_level n old : ℕ) (data_ out vs more : List ℕ) (e : LevelEncoder)
    (d : LevelDecoder) : Type 0 where
  pub ready : LevelEncoder
  pub init_eq : init rle max_level (length vs) data_ n e ≡ some ready
  pub encoded : LevelEncoder
  pub taken : ℕ
  pub encode_eq : encode vs ready ≡ some (encoded, taken)
  pub coder : Encoder
  pub coder_eq : encoded.rle_encoder ≡ some coder
  pub all_or_full :
      (taken ≡ length vs)
      ⊎ ((put_all vs (RleEncoder.make data_ n (log2 (max_level + 1)))).0.buffer_full ≡ true)
  pub reader : LevelDecoder
  pub set_data_eq :
      set_data old rle max_level taken
        (le_bytes 4 encoded.rle_length ++ (take encoded.rle_length coder.bit_writer.buffer ++ more))
        d
      ≡ some (reader, 4 + encoded.rle_length)
  pub final : LevelDecoder
  pub decode_eq : decode taken out reader ≡ some (take taken vs, final)
  pub remaining_eq : final.num_values_remaining ≡ 0

page_lem :
    (len : ℕ) (block more : List ℕ)
    → len < 2 ^ 32
    → length block ≡ len
    → (le_value (take 4 (le_bytes 4 len ++ (block ++ more))) ≡ len)
      × (take len (drop 4 (le_bytes 4 len ++ (block ++ more))) ≡ block)
page_lem len block more h size = (
  ap le_value (take-append 4 (le_bytes 4 len) (block ++ more) (sym (length-le_bytes 4 len)))
      ∙ le_value-le_bytes 4 len
      ∙ mod-eq_of_lt h,
  ap (take len) (drop-append 4 (le_bytes 4 len) (block ++ more) (sym (length-le_bytes 4 len)))
      ∙ take-append len block more (sym size),
)

decode_steps :
    (k m : ℕ) (out vs : List ℕ) (coder : Decoder) {next : Decoder} (d : LevelDecoder)
    → m ≡ k
    → rle_get_batch false k out coder ≡ some (vs, next)
    → decode_rle m out coder d
      ≡ some (
        vs,
        record d {
          rle_decoder = some next;
          num_values_remaining = d.num_values_remaining - length vs;
        },
      )
unfolding decode_rle
decode_steps k m out vs coder d e h =
    let got : rle_get_batch false m out coder ≡ some (vs, _) =
      ap (λ (t : ℕ). rle_get_batch false t out coder) e ∙ h in
    rw (got, decode_rle)

-- Levels up to `max_level`, which is from 1 to 2 ^ 15 - 1, fewer than 2 ^ 30, and memory of the least
-- size of an RleEncoder or more whose length in bits fits an `int`: LevelEncoder in the RLE encoding
-- takes all of them or until its RleEncoder is full, and LevelDecoder gives back the levels taken, from
-- a page with their length and bytes and anything behind, and then has none to give.
pub encode-decode :
    (max_level n old : ℕ) (data_ out vs more : List ℕ) (e : LevelEncoder) (d : LevelDecoder)
    → 1 ≤ max_level
    → max_level < 2 ^ 15
    → All (λ v. v ≤ max_level) vs
    → length vs < 2 ^ 30
    → length data_ ≡ n
    → All IsByte data_
    → n * 8 < 2 ^ 31
    → min_buffer_size (log2 (max_level + 1)) ≤ n
    → old < 2 ^ 64
    → RoundTrips max_level n old data_ out vs more e d
unfolding init encode encode_rle set_data decode
encode-decode max_level n old data_ out vs more e d some_level short small few fits bytes in_int
      room word =
    let w : ℕ = log2 (max_level + 1) in
    let (positive, narrow, top) = width_bounds max_level some_level short in
    let p = put_all vs (RleEncoder.make data_ n w) in
    let (len, stops, f) =
      put_all-Flushed w n data_ vs positive narrow (All-below max_level w vs top small) few fits
        bytes in_int room in
    let fl = RleEncoder.flush p.0 in
    let block = take fl.1 fl.0.bit_writer.buffer in
    let (num_bytes, at_data) =
      page_lem fl.1 block more (omega (arith, f.in_int)) (ap length f.stream ∙ sym f.size_eq) in
    let (next, got) = reads-Flushed false w old p.1 fl.1 out (take p.1 vs) fl.0 f narrow word len in
    let reader : LevelDecoder = record d {
      bit_width = w;
      encoding = rle;
      num_values_remaining = p.1;
      rle_decoder = some (RleDecoder.make old block fl.1 w);
    } in
    record {
      ready = record e {
        bit_width = w;
        encoding = rle;
        rle_encoder = some (RleEncoder.make data_ n w);
      };
      init_eq = refl;
      encoded = record e {
        bit_width = w;
        encoding = rle;
        rle_encoder = some fl.0;
        rle_length = fl.1;
      };
      taken = p.1;
      encode_eq = refl;
      coder = fl.0;
      coder_eq = refl;
      all_or_full = stops;
      reader = reader;
      set_data_eq =
          ap₂
            (λ (k : ℕ) b.
              some (record reader { rle_decoder = some (RleDecoder.make old b k w) }, 4 + k))
            num_bytes
            (ap (λ (k : ℕ). take k (drop 4 (le_bytes 4 fl.1 ++ (block ++ more)))) num_bytes
              ∙ at_data);
      final = record reader {
        rle_decoder = some next;
        num_values_remaining = p.1 - length (take p.1 vs);
      };
      decode_eq =
          decode_steps p.1 (min p.1 p.1) out (take p.1 vs) (RleDecoder.make old block fl.1 w) reader
            (omega arith) got;
      remaining_eq = omega (arith, len);
    }
