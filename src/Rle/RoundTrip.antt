-- ===== src/Rle/RoundTrip.antt =====
-- What RleEncoder writes, RleDecoder reads back.
use parquet_cpp.Common.{
  ℕ, suc, ◌+◌, ◌*◌, ◌^◌, ◌≤◌, ◌<◌, ◌≡◌, ◌⊎◌, inl, inr, List, [], ◌∷◌, ◌++◌, length, replicate, take,
  All, arith, refl,
}
use parquet_cpp.Common.{
  Bool, true, ap, ◌∙◌, sym, subst, some, length-append, Bool-cases, take-append, length-take,
}
use parquet_cpp.Common.Bytes.{IsByte, All-take}
use parquet_cpp.Common.Pow.{two_pow_pos}
use parquet_cpp.BitStream.Writer as BitWriter
use parquet_cpp.BitStream.Writer.{Writer, bytes_written}
use parquet_cpp.BitStream.RoundTrip.{make-IsValid}
use parquet_cpp.Rle.Encoder.{Encoder, make, put, put_all, flush, min_buffer_size}
use parquet_cpp.Rle.Decoder as Decoder
use parquet_cpp.Rle.Decoder.{rle_get_batch}
use parquet_cpp.Rle.Decodes.{rle_get_batch-encoded}
use parquet_cpp.Rle.Format.{expand, encoded}
use parquet_cpp.Rle.Encodes.{Encodes}
use parquet_cpp.Rle.Put.{put-Encodes, put_full}
use parquet_cpp.Rle.Width.{put-bit_width}
use parquet_cpp.Rle.Flushed.{Flushed, flush-Flushed}
use mathlib.Core.List.{append_assoc, append-nil}

-- A new encoder stands for no values.
pub make-Encodes :
    (w n : ℕ) (buffer : List ℕ)
    → 1 ≤ w
    → w ≤ 32
    → length buffer ≡ n
    → All IsByte buffer
    → n * 8 < 2 ^ 31
    → min_buffer_size w ≤ n
    → Encodes (make buffer n w) []
unfolding make BitWriter.make parquet_cpp.BitUtil.ceil
make-Encodes w n buffer positive narrow fits bytes in_int room = record {
  runs = [];
  ls = [];
  g = 0;
  pending = [];
  base = record {
    stored = record {
      valid = make-IsValid buffer n fits bytes;
      aligned = omega arith;
      holds = (refl, refl);
    };
    positive = positive;
    narrow = narrow;
    in_int = in_int;
    run_size = refl;
    runs_ok = tt;
    size = refl;
    count = refl;
    few = omega arith;
    opened = inl refl;
    small = tt;
    current = two_pow_pos w;
  };
  values = refl;
  pending_small = tt;
  shape = inr (omega arith, refl, [], refl);
  room = inl (refl, omega (arith, room));
}

-- An encoder takes values until it is full.
pub record Takes (w : ℕ) (vs more : List ℕ) (result : Encoder × ℕ) : Type 0 where
  pub encodes : Encodes result.0 (vs ++ take result.1 more)
  pub at_most : result.1 ≤ length more
  pub stops : (result.1 ≡ length more) ⊎ (result.0.buffer_full ≡ true)
  pub width : result.0.bit_width ≡ w

put_all-Takes :
    (w : ℕ) (more vs : List ℕ) (e : Encoder)
    → Encodes e vs
    → e.bit_width ≡ w
    → All (λ v. v < 2 ^ w) more
    → length vs + length more < 2 ^ 30
    → Takes w vs more (put_all more e)
unfolding put_all
put_all-Takes w [] vs e h width small few = record {
  encodes = subst (Encodes e) (sym (append-nil vs)) h;
  at_most = omega arith;
  stops = inl refl;
  width = width;
}
put_all-Takes w (v ∷ more) vs e h width small few = elim (Bool-cases e.buffer_full) [
  | inl full ↦ rw (put_full v e full) (record {
    encodes = subst (Encodes e) (sym (append-nil vs)) h;
    at_most = omega arith;
    stops = inr full;
    width = width;
  })
  | inr free ↦
      let (done, one) =
        put-Encodes v e vs h free (subst (λ (t : ℕ). v < 2 ^ t) (sym width) small.0)
          (omega (arith, few)) in
      let rest =
        put_all-Takes w more (vs ++ (v ∷ [])) (put v e).0 one (put-bit_width v e ∙ width) small.1
          (omega (arith, few, length-append vs (v ∷ []))) in
      rw done (record {
        encodes =
            subst (Encodes (put_all more (put v e).0).0)
              (append_assoc vs (v ∷ []) (take (put_all more (put v e).0).1 more)) rest.encodes;
        at_most = omega (arith, rest.at_most);
        stops = one_more rest.stops;
        width = rest.width;
      })
]
  where
    one_more : {n m : ℕ} {b : Bool} → (n ≡ m) ⊎ (b ≡ true) → (suc n ≡ suc m) ⊎ (b ≡ true)
    one_more (inl e) = inl (ap suc e)
    one_more (inr f) = inr f

-- A decoder of a flushed block.
pub reads-Flushed :
    (four_bytes : Bool) (w old k size : ℕ) (out vs : List ℕ) (e : Encoder)
    → Flushed w vs e size
    → w ≤ 32
    → old < 2 ^ 64
    → length vs ≡ k
    → (next : Decoder.Decoder) × (rle_get_batch four_bytes k out
          (Decoder.make old (take size e.bit_writer.buffer) size w)
        ≡ some (vs, next))
reads-Flushed four_bytes w old k size out vs e f narrow word len =
    let block = encoded w f.runs ++ [] in
    let block_eq : take size e.bit_writer.buffer ≡ block =
      f.stream ∙ sym (append-nil (encoded w f.runs)) in
    let enough : k ≤ length (expand f.runs) =
      omega (arith, len, ap length f.values, length-append vs (replicate f.padding 0)) in
    let d =
      rle_get_batch-encoded four_bytes old w size k out f.runs [] narrow f.runs_ok
        (ap length (append-nil (encoded w f.runs)) ∙ sym f.size_eq)
        (subst (All IsByte) block_eq (All-take size e.bit_writer.buffer f.bytes)) f.in_int word
        enough in
    (
      d.next,
      ap (λ b. rle_get_batch four_bytes k out (Decoder.make old b size w)) block_eq
          ∙ d.returns
          ∙ ap (λ l. some (l, d.next))
              (ap (take k) f.values ∙ take-append k vs (replicate f.padding 0) (sym len)),
    )

-- A new encoder after `put_all` and `Flush`.
pub put_all-Flushed :
    (w n : ℕ) (buffer vs : List ℕ)
    → 1 ≤ w
    → w ≤ 32
    → All (λ v. v < 2 ^ w) vs
    → length vs < 2 ^ 30
    → length buffer ≡ n
    → All IsByte buffer
    → n * 8 < 2 ^ 31
    → min_buffer_size w ≤ n
    → (length (take (put_all vs (make buffer n w)).1 vs) ≡ (put_all vs (make buffer n w)).1)
      × (((put_all vs (make buffer n w)).1 ≡ length vs)
          ⊎ ((put_all vs (make buffer n w)).0.buffer_full ≡ true))
      × Flushed w
          (take (put_all vs (make buffer n w)).1 vs)
          (flush (put_all vs (make buffer n w)).0).0
          (flush (put_all vs (make buffer n w)).0).1
put_all-Flushed w n buffer vs positive narrow small few fits bytes in_int room =
    let t =
      put_all-Takes w vs [] (make buffer n w)
        (make-Encodes w n buffer positive narrow fits bytes in_int room) (make_width buffer n w)
        small (omega (arith, few)) in
    let p = put_all vs (make buffer n w) in
    let len : length (take p.1 vs) ≡ p.1 = length-take p.1 vs t.at_most in
    (
      len,
      t.stops,
      subst (λ (u : ℕ). Flushed u (take p.1 vs) (flush p.0).0 (flush p.0).1) t.width
          (flush-Flushed p.0 (take p.1 vs) t.encodes (omega (arith, len, few, t.at_most))),
    )
  where
    make_width : (buffer : List ℕ) (n w : ℕ) → (make buffer n w).bit_width ≡ w
    make_width buffer n w = unfold make in refl

-- A new RleEncoder of a width from 1 to 32, on a buffer of the least size or more whose length in
-- bits fits an `int`, takes values that fit the width, fewer than 2 ^ 30, all of them or until it is
-- full. After `Flush`, RleDecoder reads from the bytes written all the values that were taken, in order, for both sizes of `T`,
-- whatever the buffer, the reader's word and the output held before.
pub put_all-rle_get_batch :
    (four_bytes : Bool) (w n old : ℕ) (buffer out vs : List ℕ)
    → 1 ≤ w
    → w ≤ 32
    → All (λ v. v < 2 ^ w) vs
    → length vs < 2 ^ 30
    → length buffer ≡ n
    → All IsByte buffer
    → n * 8 < 2 ^ 31
    → min_buffer_size w ≤ n
    → old < 2 ^ 64
    → (((put_all vs (make buffer n w)).1 ≡ length vs)
        ⊎ ((put_all vs (make buffer n w)).0.buffer_full ≡ true))
      × (next : Decoder.Decoder) × (rle_get_batch four_bytes (put_all vs (make buffer n w)).1 out (
            Decoder.make old
              (take
                (flush (put_all vs (make buffer n w)).0).1
                (flush (put_all vs (make buffer n w)).0).0.bit_writer.buffer)
              (flush (put_all vs (make buffer n w)).0).1
              w)
          ≡ some (take (put_all vs (make buffer n w)).1 vs, next))
put_all-rle_get_batch four_bytes w n old buffer out vs positive narrow small few fits bytes in_int
      room word =
    let p = put_all vs (make buffer n w) in
    let (len, stops, f) =
      put_all-Flushed w n buffer vs positive narrow small few fits bytes in_int room in
    let (next, e) =
      reads-Flushed four_bytes w old p.1 (flush p.0).1 out (take p.1 vs) (flush p.0).0 f narrow word
        len in
    (stops, next, e)
