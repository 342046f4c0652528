-- ===== src/Dictionary/Table.antt =====
-- What holds of the hash table, and `DoubleTableSize`.
use parquet_cpp.Common.{
  ℕ, suc, ◌+◌, ◌-◌, ◌*◌, ◌^◌, ◌≤◌, ◌<◌, ◌≡◌, refl, ◌∙◌, subst, arith, Bool, Option, none, some,
  List, [], ◌∷◌, length, length-set, length-replicate, set, replicate, All, bit_and, gt→leb,
}
use parquet_cpp.Common.Bits.{bit_and_mask}
use parquet_cpp.Common.Pow.{two_pow_pos}
use native.Mathlib.Nat.{mod-lt, pow-suc}
use parquet_cpp.Dictionary.{DictEncoder, rehash_index, rehash, double_table_size}
use parquet_cpp.Dictionary.Slots.{
  occupied, occupied-set, occupied-replicate, RefersBelow, in_range, All-set, All-replicate,
}
use parquet_cpp.Dictionary.Probe.{find_slot-Stops}

-- A table of `size` slots, at most `taken` of them with an index, each below `n`.
pub record IsTable (size n taken : ℕ) (slots : List (Option ℕ)) : Type 0 where
  pub fits : length slots ≡ size
  pub few : occupied slots ≤ taken
  pub refer : All (RefersBelow n) slots

pub empty-IsTable : (size n : ℕ) → IsTable size n 0 (replicate size none)
empty-IsTable size n = record {
  fits = length-replicate size none;
  few = omega (arith, occupied-replicate size);
  refer = All-replicate (RefersBelow n) size none tt;
}

pub set-IsTable :
    (size n taken j index : ℕ) (slots : List (Option ℕ))
    → IsTable size n taken slots
    → index < n
    → IsTable size n (suc taken) (set slots j (some index))
set-IsTable size n taken j index slots t below = record {
  fits = length-set slots j (some index) ∙ t.fits;
  few = omega (arith, t.few, occupied-set slots j index);
  refer = All-set (RefersBelow n) slots j (some index) t.refer below;
}

-- A hash of a table whose size is a power of two is the index of a slot.
pub masked-below : (k size h : ℕ) → size ≡ 2 ^ k → bit_and h (size - 1) < size
masked-below k size h e = rw (e, bit_and_mask k h) (mod-lt h (two_pow_pos k))

module _ {ℓ} {A : Type ℓ} (differs : A → A → Bool) (hash : A → ℕ) where
  module _ (k size : ℕ) (power : size ≡ 2 ^ k) (uniques : List A) where
    rehash_index-IsTable :
        (taken index : ℕ) (slots : List (Option ℕ))
        → IsTable size (length uniques) taken slots
        → taken < size
        → index < length uniques
        → (next : List (Option ℕ)) × (rehash_index differs hash size uniques index slots
            ≡ some next)
          × IsTable size (length uniques) (suc taken) next
    unfolding rehash_index
    rehash_index-IsTable taken index slots t free below =
        let (v, read) = in_range uniques index below in
        let s =
          find_slot-Stops differs size slots uniques v (bit_and (hash v) (size - 1)) t.fits
            (omega (arith, t.few)) (masked-below k size (hash v) power) in
        (
          set slots s.slot (some index),
          rw (rehash_index, read, s.returns) refl,
          set-IsTable size (length uniques) taken s.slot index slots t below,
        )

    rehash-IsTable :
        (taken : ℕ) (old slots : List (Option ℕ))
        → All (RefersBelow (length uniques)) old
        → IsTable size (length uniques) taken slots
        → taken + occupied old < size
        → (next : List (Option ℕ)) × (rehash differs hash size uniques old slots ≡ some next)
          × IsTable size (length uniques) (taken + occupied old) next
    unfolding rehash occupied
    rehash-IsTable taken [] slots refer t free =
        (slots, refl, subst (λ (m : ℕ). IsTable size (length uniques) m slots) (omega arith) t)
    rehash-IsTable taken (none ∷ old) slots refer t free =
        rehash-IsTable taken old slots refer.1 t free
    rehash-IsTable taken (some index ∷ old) slots refer t free =
        let (more, one, u) =
          rehash_index-IsTable taken index slots t (omega (arith, free)) refer.0 in
        let (next, rest, w) = rehash-IsTable (suc taken) old more refer.1 u (omega (arith, free)) in
        (
          next,
          rw (rehash, one) rest,
          subst (λ (m : ℕ). IsTable size (length uniques) m next) (omega arith) w,
        )

  -- Twice the slots, for the same values and the same indices.
  pub record Doubles (d : DictEncoder A) (result : Option (DictEncoder A)) : Type ℓ where
    pub slots : List (Option ℕ)
    pub returns :
        result
        ≡ some (record d {
          hash_table_size = d.hash_table_size * 2;
          mod_bitmask = d.hash_table_size * 2 - 1;
          hash_slots = slots;
        })
    pub table : IsTable (d.hash_table_size * 2) (length d.uniques) (occupied d.hash_slots) slots

  pub double_table_size-Doubles :
      (k : ℕ) (d : DictEncoder A)
      → d.hash_table_size ≡ 2 ^ k
      → IsTable d.hash_table_size (length d.uniques) (length d.uniques) d.hash_slots
      → length d.uniques ≤ d.hash_table_size
      → d.hash_table_size < 2 ^ 30
      → Doubles d (double_table_size differs hash d)
  unfolding double_table_size
  double_table_size-Doubles k d power t light in_int =
      let size = d.hash_table_size * 2 in
      let twice : size ≡ 2 ^ suc k = omega (arith, power, pow-suc 2 k) in
      let (slots, e, w) =
        rehash-IsTable (suc k) size twice d.uniques 0 d.hash_slots (replicate size none) t.refer
          (empty-IsTable size (length d.uniques))
          (omega (arith, t.few, light, power, two_pow_pos k)) in
      record {
        slots = slots;
        returns = rw (gt→leb (2 ^ 31) size (omega (arith, in_int)), e) refl;
        table = subst (λ (m : ℕ). IsTable size (length d.uniques) m slots) (omega arith) w;
      }
