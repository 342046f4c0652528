-- ===== src/Dictionary/Written.antt =====
-- From `Put` to `Decode`: what `WriteIndices` writes, DictionaryDecoder decodes.
use parquet_cpp.Common.{
  ℕ, ◌+◌, ◌-◌, ◌*◌, ◌^◌, ◌≤◌, ◌<◌, ◌≡◌, ◌⊎◌, inl, inr, refl, ◌∙◌, sym, ap, subst, arith, Bool, true,
  false, none, some, List, [], ◌∷◌, length, get_elem?, All, take, drop, ◌==◌, Bool-cases, eq→==,
  ==→eq, ==→ne,
}
use parquet_cpp.Common.Bytes.{IsByte}
use parquet_cpp.Rle.Encoder as Rle
use parquet_cpp.Rle.Flushed.{Flushed}
use parquet_cpp.Rle.RoundTrip.{put_all-Flushed}
use parquet_cpp.Common.Bytes.{All-drop}
use parquet_cpp.Common.{take-all, length-drop}
use parquet_cpp.Dictionary.Decoder.{DictionaryDecoder, set_data, decode}
use parquet_cpp.Dictionary.Decoder.Decodes.{LooksUp, LooksUp-length}
use parquet_cpp.Dictionary.Slots.{in_range, some-injective, All-map}
use parquet_cpp.Dictionary.Sound.{IsSound}
use parquet_cpp.Dictionary.Indices.{
  make-IsSound, AllStand, no_values, AllStand-LooksUp, put_all-Result,
}
use parquet_cpp.Rle.Encoder.{min_buffer_size}
use parquet_cpp.Dictionary.{DictEncoder, make, put_all, write_indices, bit_width, clear_indices}
use parquet_cpp.Dictionary.Width.{bit_width_lem}
use parquet_cpp.Dictionary.Decoder.Reads.{decode-Flushed}

-- A result of `WriteIndices` that the buffer took.
module _ {ℓ} {A : Type ℓ} (buffer : List ℕ) (n : ℕ) (d : DictEncoder A) where
  abbrev pub started : Rle.Encoder × ℕ
  started = Rle.put_all d.buffered_indices (Rle.make (drop 1 buffer) (n - 1) (bit_width d))

  write_indices_all :
      started.1 ≡ length d.buffered_indices
      → write_indices buffer n d ≡ (
        bit_width d ∷ (Rle.flush started.0).0.bit_writer.buffer,
        (clear_indices d, some (1 + (Rle.flush started.0).1)),
      )
  unfolding write_indices
  write_indices_all e = rw (eq→== started.1 (length d.buffered_indices) e) refl

  write_indices_some :
      (started.1 == length d.buffered_indices) ≡ false → (write_indices buffer n d).1.1 ≡ none
  unfolding write_indices
  write_indices_some e = rw e refl

module _ {ℓ} {A : Type ℓ} (differs : A → A → Bool) (hash : A → ℕ) (value_size : ℕ) where
  -- A new encoder after `Put` of each of `vs`.
  record IsFilled (vs : List A) (d : DictEncoder A) : Type ℓ where
    sound : IsSound value_size d
    stand : AllStand differs d.uniques d.buffered_indices vs
    room : length d.uniques ≤ length vs

  filled :
      (vs : List A) (d : DictEncoder A)
      → put_all differs hash value_size vs make ≡ some d
      → 10 * length vs ≤ 7 * 2 ^ 30
      → IsFilled vs d
  unfolding make
  filled vs d e few =
      let r =
        put_all-Result differs hash value_size vs [] make (make-IsSound value_size) no_values
          (omega (arith, few)) in
      let same : r.takes.0 ≡ d = some-injective r.takes.0 d (sym r.takes.1 ∙ e) in
      subst (IsFilled vs) same
        (record { sound = r.sound; stand = r.stand; room = omega (arith, r.room) })

  -- What the encoder's state gives to the encoding of its indices.
  record IsReady (vs : List A) (d : DictEncoder A) : Type ℓ where
    width : (1 ≤ bit_width d) × (bit_width d ≤ 32)
    small : All (λ i. i < 2 ^ bit_width d) d.buffered_indices
    look : LooksUp d.uniques d.buffered_indices vs
    zeroth : A
    has_zeroth : get_elem? d.uniques 0 ≡ some zeroth

  ready :
      (vs : List A) (d : DictEncoder A)
      → ((v u : A) → differs v u ≡ false → u ≡ v)
      → 0 < length vs
      → 10 * length vs ≤ 7 * 2 ^ 30
      → IsFilled vs d
      → IsReady vs d
  ready vs d same some_value few f =
      let look = AllStand-LooksUp differs same d.uniques d.buffered_indices vs f.stand in
      let len = LooksUp-length d.uniques d.buffered_indices vs look in
      let entries : 0 < length d.uniques =
        some_entry d.buffered_indices (omega (arith, len, some_value)) f.sound.indices in
      let (positive, narrow, reach) = bit_width_lem d entries (omega (arith, f.room, few)) in
      let (zeroth, has_zeroth) = in_range d.uniques 0 entries in
      record {
        width = (positive, narrow);
        small =
            All-map (λ i. i < length d.uniques) (λ i. i < 2 ^ bit_width d)
              (λ i h. omega (arith, h, reach)) d.buffered_indices f.sound.indices;
        look = look;
        zeroth = zeroth;
        has_zeroth = has_zeroth;
      }
    where
      some_entry : {n : ℕ} (is : List ℕ) → 0 < length is → All (λ i. i < n) is → 0 < n
      some_entry [] h k = absurd (omega arith)
      some_entry (i ∷ is) h k = omega (arith, k.0)

  taken_all :
      (vs : List A) (d : DictEncoder A) (n old : ℕ) (buffer indices : List ℕ)
      (decoder : DictionaryDecoder A)
      → IsReady vs d
      → decoder.dictionary ≡ d.uniques
      → old < 2 ^ 64
      → (started buffer n d).1 ≡ length d.buffered_indices
      → Flushed
          (bit_width d)
          d.buffered_indices
          (Rle.flush (started buffer n d).0).0
          (Rle.flush (started buffer n d).0).1
      → (size : ℕ) × ((write_indices buffer n d).1.1 ≡ some size)
        × ((next : DictionaryDecoder A) × (decode
                (length vs)
                indices
                (set_data old (length vs) (take size (write_indices buffer n d).0) size decoder)
              ≡ some (vs, next)))
  taken_all vs d n old buffer indices decoder q dict word e f =
      let flushed = Rle.flush (started buffer n d).0 in
      let whole = write_indices_all buffer n d e in
      let (next, got) =
        decode-Flushed (bit_width d) old flushed.1 d.buffered_indices indices buffer vs flushed.0
          q.zeroth decoder f q.width.1 word
          (subst (λ t. LooksUp t d.buffered_indices vs) (sym dict) q.look)
          (ap (λ t. get_elem? t 0) dict ∙ q.has_zeroth) in
      (
        1 + flushed.1,
        ap (λ r. r.1.1) whole,
        (
          next,
          ap
                (λ r.
                  decode (length vs) indices
                    (set_data old (length vs) (take (1 + flushed.1) r.0) (1 + flushed.1) decoder))
                whole
              ∙ got,
        ),
      )

  -- A new DictEncoder after `Put` of each of `vs`, at least one and at most 0.7 * 2 ^ 30 values:
  -- `WriteIndices` to a buffer of bytes that has room for the width and the least size of the RLE
  -- encoding, and whose length in bits fits an `int`, returns -1 only when the RLE encoder is full.
  -- Otherwise, when `differs` is false of equal values only, a DictionaryDecoder that has the
  -- encoder's dictionary decodes what was written, after `SetData`, to the values `vs`, whatever the
  -- hash function, the reader's word and the array of indices held before.
  pub put_all-decode :
      (vs : List A) (d : DictEncoder A) (n old : ℕ) (buffer indices : List ℕ)
      (decoder : DictionaryDecoder A)
      → ((v u : A) → differs v u ≡ false → u ≡ v)
      → put_all differs hash value_size vs make ≡ some d
      → decoder.dictionary ≡ d.uniques
      → 0 < length vs
      → 10 * length vs ≤ 7 * 2 ^ 30
      → length buffer ≡ n
      → All IsByte buffer
      → n * 8 < 2 ^ 31
      → min_buffer_size (bit_width d) < n
      → old < 2 ^ 64
      → (((write_indices buffer n d).1.1 ≡ none) × ((started buffer n d).0.buffer_full ≡ true))
        ⊎ ((size : ℕ) × ((write_indices buffer n d).1.1 ≡ some size)
            × ((next : DictionaryDecoder A) × (decode
                    (length vs)
                    indices
                    (set_data old (length vs) (take size (write_indices buffer n d).0) size decoder)
                  ≡ some (vs, next))))
  put_all-decode vs d n old buffer indices decoder same puts dict some_value few fits bytes in_int
        room word =
      let is = d.buffered_indices in
      let q = ready vs d same some_value few (filled vs d puts few) in
      let len = LooksUp-length d.uniques is vs q.look in
      let (taken, stops, flushed) =
        put_all-Flushed (bit_width d) (n - 1) (drop 1 buffer) is q.width.0 q.width.1 q.small
          (omega (arith, len, few)) (length-drop 1 buffer ∙ ap (λ (k : ℕ). k - 1) fits)
          (All-drop 1 buffer bytes) (omega (arith, in_int)) (omega (arith, room)) in
      elim (Bool-cases ((started buffer n d).1 == length is)) [
        | inl all ↦
            let e = ==→eq (started buffer n d).1 (length is) all in
            inr (
              taken_all vs d n old buffer indices decoder q dict word e (
                subst
                  (λ l.
                    Flushed (bit_width d) l (Rle.flush (started buffer n d).0).0
                      (Rle.flush (started buffer n d).0).1)
                  (take-all (started buffer n d).1 is (omega (arith, e))) flushed))
        | inr short ↦ inl (write_indices_some buffer n d short, full short stops)
      ]
    where
      full : {k m : ℕ} {b : Bool} → (k == m) ≡ false → (k ≡ m) ⊎ (b ≡ true) → b ≡ true
      full {k} {m} short (inl e) = absurd (==→ne k m short e)
      full short (inr e) = e
