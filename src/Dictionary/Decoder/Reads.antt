-- ===== src/Dictionary/Decoder/Reads.antt =====
-- `SetData` and `Decode` on what the RLE encoding of indices has written.
use parquet_cpp.Common.{
  ℕ, suc, ◌+◌, ◌-◌, ◌^◌, ◌≤◌, ◌<◌, ◌≡◌, refl, ◌∙◌, sym, ap, subst, arith, false, some, List, [],
  ◌∷◌, ◌++◌, length, length-append, get_elem?, All, take, replicate, ◌==◌, ne→==, eq→==, min,
}
use parquet_cpp.Common.Bytes.{IsByte}
use parquet_cpp.Rle.Encoder as Rle
use parquet_cpp.Rle.Decoder as RleDecoder
use parquet_cpp.Rle.Flushed.{Flushed}
use parquet_cpp.Rle.Format.{expand, encoded}
use parquet_cpp.Rle.Decodes.{make-Denotes}
use parquet_cpp.Common.Bytes.{All-take}
use parquet_cpp.Common.{take-append}
use mathlib.Core.List.{append-nil}
use parquet_cpp.Dictionary.Decoder.{DictionaryDecoder, set_data, decode, get_batch_with_dict}
use parquet_cpp.Dictionary.Decoder.Decodes.{
  LooksUp, LooksUp-append, LooksUp-replicate, LooksUp-length, get_batch_with_dict_lem,
}
use parquet_cpp.Rle.Encoder.{min_buffer_size}

module _ {ℓ} {A : Type ℓ} where
  set_data_lem :
      (old k size w : ℕ) (bytes : List ℕ) (d : DictionaryDecoder A)
      → set_data old k (take (1 + size) (w ∷ bytes)) (1 + size) d
        ≡ record d { num_values = k; idx_decoder = RleDecoder.make old (take size bytes) size w }
  unfolding set_data
  set_data_lem old k size w bytes d =
      let one : 1 + size ≡ suc size = omega arith in
      let less : suc size - 1 ≡ size = omega arith in
      let test : (suc size == 0) ≡ false = ne→== (suc size) 0 (omega arith) in
      rw (one, less, test) refl

  decode_lem :
      (k : ℕ) (indices : List ℕ) (d : DictionaryDecoder A) (us : List A) (end : RleDecoder.Decoder)
      → get_batch_with_dict d.dictionary k indices d.idx_decoder ≡ some (us, end)
      → d.num_values ≡ k
      → length us ≡ k
      → (next : DictionaryDecoder A) × (decode k indices d ≡ some (us, next))
  unfolding decode
  decode_lem k indices d us end got all len =
      let m : min k d.num_values ≡ k = omega (arith, all) in
      (
        record d { num_values = d.num_values - k; idx_decoder = end },
        rw (decode, m, got, m, eq→== (length us) k len) refl,
      )

  -- What the RLE encoding of indices has written, DictionaryDecoder decodes to their values.
  pub decode-Flushed :
      (w old size : ℕ) (is indices buffer : List ℕ) (vs : List A) (e : Rle.Encoder) (u : A)
      (decoder : DictionaryDecoder A)
      → Flushed w is e size
      → w ≤ 32
      → old < 2 ^ 64
      → LooksUp decoder.dictionary is vs
      → get_elem? decoder.dictionary 0 ≡ some u
      → (next : DictionaryDecoder A) × (decode (length vs) indices (
            set_data old (length vs) (take (1 + size) (w ∷ e.bit_writer.buffer)) (1 + size) decoder)
          ≡ some (vs, next))
  decode-Flushed w old size is indices buffer vs e u decoder f narrow word look zeroth =
      let block = encoded w f.runs ++ [] in
      let block_eq : take size e.bit_writer.buffer ≡ block =
        f.stream ∙ sym (append-nil (encoded w f.runs)) in
      let h =
        make-Denotes old w size f.runs [] narrow f.runs_ok
          (ap length (append-nil (encoded w f.runs)) ∙ sym f.size_eq)
          (subst (All IsByte) block_eq (All-take size e.bit_writer.buffer f.bytes)) f.in_int word in
      let padded =
        LooksUp-append decoder.dictionary is (replicate f.padding 0) vs (replicate f.padding u) look
          (LooksUp-replicate decoder.dictionary f.padding 0 u zeroth) in
      let found =
        subst (λ l. LooksUp decoder.dictionary l (vs ++ replicate f.padding u)) (sym f.values)
          padded in
      let len = LooksUp-length decoder.dictionary is vs look in
      let (end, got) =
        get_batch_with_dict_lem decoder.dictionary (length vs) indices
          (RleDecoder.make old block size w) f.runs (expand f.runs) (vs ++ replicate f.padding u) h
          found
          (omega (arith, len, ap length f.values, length-append is (replicate f.padding 0))) in
      let first = take-append (length vs) vs (replicate f.padding u) refl in
      let ready = record decoder {
        num_values = length vs;
        idx_decoder = RleDecoder.make old (take size e.bit_writer.buffer) size w;
      } in
      let (next, done) =
        decode_lem (length vs) indices ready vs end
          (ap
              (λ b.
                get_batch_with_dict decoder.dictionary (length vs) indices
                  (RleDecoder.make old b size w))
              block_eq
            ∙ got
            ∙ ap (λ l. some (l, end)) first)
          refl refl in
      (
        next,
        ap (decode (length vs) indices)
              (set_data_lem old (length vs) size w e.bit_writer.buffer decoder)
            ∙ done,
      )
