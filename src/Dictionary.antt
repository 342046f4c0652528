-- ===== src/Dictionary.antt =====
-- The class DictEncoder of src/parquet/encodings/dictionary-encoding.h for the types whose values
-- are stored in place: INT32, INT64, INT96, FLOAT and DOUBLE. The type of the values, `Hash`, the
-- `!=` that `SlotDifferent` calls and the size of a value are parameters. HASH_SLOT_EMPTY is `none`.
-- A counter of a loop is fuel, and the result is `none` where it runs out and where the `int` that
-- `DoubleTableSize` computes would overflow. `dict_encoded_size_` is the 32 bits of its `int`.
pub mod Slots
pub mod Probe
pub mod Table
pub mod Sound
pub mod Put
pub mod Indices
pub mod Decoder
pub mod Chain
pub mod Distinct
pub mod Hashed
pub mod Unique
pub mod Width
pub mod Written
pub mod Runs
use parquet_cpp.Common.{ℕ, zero, suc, ◌+◌, ◌-◌, ◌*◌, ◌%◌, ◌^◌, bit_and, Bool, true, false}
use parquet_cpp.Common.{
  Option, none, some, List, [], ◌∷◌, ◌++◌, length, get_or, get_elem?, set, replicate, drop,
}
use parquet_cpp.Common.{ltb, leb, ◌==◌, if◌then◌else◌}
use parquet_cpp.BitUtil.{log2}
use parquet_cpp.Rle.Encoder as Rle

pub record DictEncoder {ℓ} (A : Type ℓ) : Type ℓ where
  pub hash_table_size : ℕ
  pub mod_bitmask : ℕ
  pub hash_slots : List (Option ℕ)
  pub buffered_indices : List ℕ
  pub dict_encoded_size : ℕ
  pub uniques : List A

abbrev pub initial_hash_table_size : ℕ
initial_hash_table_size = 2 ^ 10

module _ {ℓ} {A : Type ℓ} where
  unfoldable pub make : DictEncoder A
  make = record {
    hash_table_size = initial_hash_table_size;
    mod_bitmask = initial_hash_table_size - 1;
    hash_slots = replicate initial_hash_table_size none;
    buffered_indices = [];
    dict_encoded_size = 0;
    uniques = [];
  }

  abbrev pub num_entries : DictEncoder A → ℕ
  num_entries d = length d.uniques

  unfoldable pub bit_width : DictEncoder A → ℕ
  bit_width d =
      if num_entries d == 0 then 0 else if num_entries d == 1 then 1 else log2 (num_entries d)

  abbrev pub clear_indices : DictEncoder A → DictEncoder A
  clear_indices d = record d { buffered_indices = [] }

  -- The buffer, the encoder and the result of `WriteIndices`, with `none` for -1.
  unfoldable pub write_indices : List ℕ → ℕ → DictEncoder A → List ℕ × (DictEncoder A × Option ℕ)
  write_indices buffer buffer_len d =
      let start = Rle.make (drop 1 buffer) (buffer_len - 1) (bit_width d) in
      let put = Rle.put_all d.buffered_indices start in
      let flushed = Rle.flush put.0 in
      if put.1 == length d.buffered_indices
      then (bit_width d ∷ flushed.0.bit_writer.buffer, (clear_indices d, some (1 + flushed.1)))
      else (bit_width d ∷ put.0.bit_writer.buffer, (d, none))

abbrev pub next_slot : ℕ → ℕ → ℕ
next_slot size j = if j + 1 == size then 0 else j + 1

module _ {ℓ} {A : Type ℓ} (differs : A → A → Bool) where
  -- An index that `uniques` does not have reads as a different value.
  unfoldable pub slot_different : List A → A → ℕ → Bool
  slot_different uniques v slot = elim (get_elem? uniques slot) [
    | none ↦ true
    | some u ↦ differs v u
  ]

  -- The condition of the loops over the slots.
  unfoldable pub keeps_probing : List A → A → Option ℕ → Bool
  unfolding slot_different
  keeps_probing uniques v none = false
  keeps_probing uniques v (some index) = slot_different uniques v index

  -- The loop itself, from the slot `j`: where it stops.
  unfoldable pub probe : ℕ → ℕ → List (Option ℕ) → List A → A → ℕ → Option ℕ
  probe zero size slots uniques v j = none
  probe (suc fuel) size slots uniques v j =
      let rest = probe fuel size slots uniques v (next_slot size j) in
      if keeps_probing uniques v (get_or slots j none) then rest else some j

  module _ (hash : A → ℕ) where
    abbrev pub find_slot : ℕ → List (Option ℕ) → List A → A → ℕ → Option ℕ
    find_slot size slots uniques v mask = probe size size slots uniques v (bit_and (hash v) mask)

    -- One index of the old table goes into the new one.
    unfoldable pub rehash_index : ℕ → List A → ℕ → List (Option ℕ) → Option (List (Option ℕ))
    rehash_index new_size uniques index slots = elim (get_elem? uniques index) [
      | none ↦ none
      | some v ↦ elim (find_slot new_size slots uniques v (new_size - 1)) [
        | none ↦ none
        | some j ↦ some (set slots j (some index))
      ]
    ]

    unfoldable pub rehash :
        ℕ → List A → List (Option ℕ) → List (Option ℕ) → Option (List (Option ℕ))
    rehash new_size uniques [] slots = some slots
    rehash new_size uniques (none ∷ old) slots = rehash new_size uniques old slots
    rehash new_size uniques (some index ∷ old) slots =
        elim (rehash_index new_size uniques index slots) [
          | none ↦ none
          | some more ↦ rehash new_size uniques old more
        ]

    unfoldable pub double_table_size : DictEncoder A → Option (DictEncoder A)
    double_table_size d =
        let new_size = d.hash_table_size * 2 in
        let new_slots = rehash new_size d.uniques d.hash_slots (replicate new_size none) in
        if leb (2 ^ 31) new_size then none else elim new_slots [
          | none ↦ none
          | some slots ↦ some (record d {
            hash_table_size = new_size;
            mod_bitmask = new_size - 1;
            hash_slots = slots;
          })
        ]

    module _ (value_size : ℕ) where
      abbrev pub add_dict_key : A → DictEncoder A → DictEncoder A
      add_dict_key v d = record d {
        uniques = d.uniques ++ v ∷ [];
        dict_encoded_size = (d.dict_encoded_size + value_size) % 2 ^ 32;
      }

      -- `uniques_.size() > hash_table_size_ * 0.7`
      abbrev pub is_loaded : DictEncoder A → Bool
      is_loaded d = ltb (7 * d.hash_table_size) (10 * length d.uniques)

      -- A value that is not in the table takes the empty slot `j`.
      unfoldable pub insert : ℕ → A → DictEncoder A → Option (DictEncoder A)
      insert j v d =
          let added =
            add_dict_key v
              (record d { hash_slots = set d.hash_slots j (some (length d.uniques)) }) in
          let doubled = double_table_size added in if is_loaded added then doubled else some added

      abbrev pub buffer_index : ℕ → DictEncoder A → DictEncoder A
      buffer_index index d = record d { buffered_indices = d.buffered_indices ++ index ∷ [] }

      unfoldable pub put_at : ℕ → A → DictEncoder A → Option ℕ → Option (DictEncoder A)
      put_at j v d (some index) = some (buffer_index index d)
      put_at j v d none = elim (insert j v d) [
        | none ↦ none
        | some added ↦ some (buffer_index (length d.uniques) added)
      ]

      unfoldable pub put : A → DictEncoder A → Option (DictEncoder A)
      unfolding put_at
      put v d = elim (find_slot d.hash_table_size d.hash_slots d.uniques v d.mod_bitmask) [
        | none ↦ none
        | some j ↦ put_at j v d (get_or d.hash_slots j none)
      ]

      unfoldable pub put_all : List A → DictEncoder A → Option (DictEncoder A)
      put_all [] d = some d
      put_all (v ∷ vs) d = elim (put v d) [ none ↦ none | some next ↦ put_all vs next ]
