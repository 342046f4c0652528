-- ===== src/Dictionary/Decoder.antt =====
-- `GetBatchWithDict` of RleDecoder (src/parquet/util/rle-encoding.h) and the class DictionaryDecoder
-- of src/parquet/encodings/dictionary-encoding.h. A result `none` is an exception, or a read outside
-- of the dictionary.
pub mod Decodes
pub mod Reads
use parquet_cpp.Common.{
  ℕ, zero, suc, ◌+◌, ◌-◌, min, true, false, Option, none, some, List, [], ◌∷◌, ◌++◌, length, get_or,
  get_elem?, drop, ltb, ◌==◌, if◌then◌else◌,
}
use parquet_cpp.Rle.Decoder as Rle
use parquet_cpp.Rle.Decoder.{Decoder, batch_step}

-- A repeated run gives all that is left, a literal run as many as the array of indices holds.
abbrev pub dict_batch : ℕ → Decoder → ℕ
dict_batch left d = if ltb 0 d.repeat_count then left else min left 1024

-- The array of indices, which a literal run is read into.
abbrev pub kept_indices : Decoder → List ℕ → List ℕ → List ℕ
kept_indices d is indices = if ltb 0 d.repeat_count then indices else is ++ drop (length is) indices

module _ {ℓ} {A : Type ℓ} where
  -- `values[i] = dictionary[indices[i]]`
  unfoldable pub lookup : List A → List ℕ → Option (List A)
  lookup dict [] = some []
  lookup dict (i ∷ is) = elim (get_elem? dict i) [
    | none ↦ none
    | some u ↦ elim (lookup dict is) [ none ↦ none | some us ↦ some (u ∷ us) ]
  ]

  unfoldable pub dict_loop : ℕ → List A → ℕ → List ℕ → Decoder → Option (List A × Decoder)
  unfolding lookup
  dict_loop zero dict left indices d = some ([], d)
  dict_loop (suc fuel) dict left indices d = elim (ltb 0 left) [
    | false ↦ some ([], d)
    | true ↦ elim (batch_step true (dict_batch left d) indices d) [
      | none ↦ none
      | some (is, (next, false)) ↦ some ([], next)
      | some (is, (next, true)) ↦ elim (lookup dict is) [
        | none ↦ none
        | some us ↦ elim (dict_loop fuel dict (left - length us) (kept_indices d is indices) next) [
          | none ↦ none
          | some (ws, end) ↦ some (us ++ ws, end)
        ]
      ]
    ]
  ]

  -- `indices` is what the static array held before.
  unfoldable pub get_batch_with_dict : List A → ℕ → List ℕ → Decoder → Option (List A × Decoder)
  get_batch_with_dict dict batch_size indices d =
      dict_loop (batch_size + suc d.bit_reader.max_bytes) dict batch_size indices d

pub record DictionaryDecoder {ℓ} (A : Type ℓ) : Type ℓ where
  pub num_values : ℕ
  pub dictionary : List A
  pub idx_decoder : Decoder

module _ {ℓ} {A : Type ℓ} where
  -- `old` is what the word of the new decoder's reader held before.
  unfoldable pub set_data : ℕ → ℕ → List ℕ → ℕ → DictionaryDecoder A → DictionaryDecoder A
  set_data old num_values bytes len d =
      if len == 0 then record d { num_values = num_values } else record d {
        num_values = num_values;
        idx_decoder = Rle.make old (drop 1 bytes) (len - 1) (get_or bytes 0 0);
      }

  unfoldable pub decode : ℕ → List ℕ → DictionaryDecoder A → Option (List A × DictionaryDecoder A)
  decode max_values indices d =
      let n = min max_values d.num_values in
      elim (get_batch_with_dict d.dictionary n indices d.idx_decoder) [
        | none ↦ none
        | some (us, next) ↦
            if length us == n
            then some (us, record d { num_values = d.num_values - n; idx_decoder = next })
            else none
      ]
