-- ===== src/Dictionary/Hashed.antt =====
-- Every value of the dictionary is found from its hash: with a new value, and in twice the slots.
use parquet_cpp.Common.{
  ℕ, zero, suc, ◌-◌, ◌*◌, ◌^◌, ◌≤◌, ◌<◌, ◌≡◌, ◌≢◌, ◌⊎◌, inl, inr, refl, ap, ◌∙◌, sym, subst, arith,
  Bool, false, none, some, List, [], ◌∷◌, ◌++◌, length, get_or, get_elem?, set, replicate, bit_and,
  gt→leb,
}
use native.Mathlib.Nat.{pow-suc}
use parquet_cpp.Common.Pow.{two_pow_pos}
use parquet_cpp.Dictionary.{DictEncoder, add_dict_key, double_table_size, find_slot}
use parquet_cpp.Dictionary.Slots.{some-injective}
use parquet_cpp.Dictionary.Table.{IsTable, empty-IsTable}
use parquet_cpp.Dictionary.Chain.{
  Chain, Chain-Keeps, Chain-occurs, set-Keeps, get_or-set, probe-Chain, Chain-probe,
}
use parquet_cpp.Dictionary.Distinct.{IsDistinct, rehash-Rehashes}

module _ {ℓ} {A : Type ℓ} where
  -- A place of a list with one more element.
  snoc_cases :
      (xs : List A) (v u : A) (i : ℕ)
      → get_elem? (xs ++ v ∷ []) i ≡ some u
      → (get_elem? xs i ≡ some u) ⊎ ((i ≡ length xs) × (v ≡ u))
  snoc_cases [] v u zero e = inr (refl, some-injective v u e)
  snoc_cases [] v u (suc i) e = absurd (ground (arith, e))
  snoc_cases (x ∷ xs) v u zero e = inl e
  snoc_cases (x ∷ xs) v u (suc i) e = elim (snoc_cases xs v u i e) [
    | inl old ↦ inl old
    | inr (at, same) ↦ inr (ap suc at, same)
  ]

  IsDistinct-snoc :
      (xs : List A) (v : A)
      → IsDistinct xs
      → ((i : ℕ) → get_elem? xs i ≢ some v)
      → IsDistinct (xs ++ v ∷ [])
  IsDistinct-snoc xs v distinct fresh i j u e f = elim (snoc_cases xs v u i e) [
    | inl old ↦ elim (snoc_cases xs v u j f) [
      | inl old2 ↦ distinct i j u old old2
      | inr (at, same) ↦ absurd (fresh i (old ∙ ap some (sym same)))
    ]
    | inr (at, same) ↦ elim (snoc_cases xs v u j f) [
      | inl old ↦ absurd (fresh j (old ∙ ap some (sym same)))
      | inr (at2, same2) ↦ at ∙ sym at2
    ]
  ]

module _ {ℓ} {A : Type ℓ} (differs : A → A → Bool) (hash : A → ℕ) where
  -- No value stands twice, and every value is found from its hash.
  pub record IsHashed (d : DictEncoder A) : Type ℓ where
    pub distinct : IsDistinct d.uniques
    pub chains :
        (i : ℕ) (u : A)
        → get_elem? d.uniques i ≡ some u
        → Chain d.hash_table_size d.hash_slots i (bit_and (hash u) d.mod_bitmask)

  module _ (exact : (v u : A) → differs v u ≡ false → u ≡ v)
      (reflexive : (v : A) → differs v v ≡ false) where
    pub double_table_size-IsHashed :
        (k : ℕ) (d next : DictEncoder A)
        → d.hash_table_size ≡ 2 ^ k
        → IsTable d.hash_table_size (length d.uniques) (length d.uniques) d.hash_slots
        → length d.uniques ≤ d.hash_table_size
        → d.hash_table_size < 2 ^ 30
        → IsHashed d
        → double_table_size differs hash d ≡ some next
        → IsHashed next
    unfolding double_table_size
    double_table_size-IsHashed k d next power t light in_int h e =
        let size = d.hash_table_size * 2 in
        let twice : size ≡ 2 ^ suc k = omega (arith, power, pow-suc 2 k) in
        let r =
          rehash-Rehashes differs hash exact (suc k) size twice d.uniques h.distinct 0 d.hash_slots
            (replicate size none) t.refer (empty-IsTable size (length d.uniques))
            (omega (arith, t.few, light, power, two_pow_pos k)) in
        let doubled = record d {
          hash_table_size = size;
          mod_bitmask = size - 1;
          hash_slots = r.next;
        } in
        let returned : double_table_size differs hash d ≡ some doubled =
          rw (gt→leb (2 ^ 31) size (omega (arith, in_int)), r.returns) refl in
        subst IsHashed (some-injective doubled next (sym returned ∙ e)) (record {
          distinct = h.distinct;
          chains = λ i u read. r.chains i u read (
              Chain-occurs d.hash_table_size d.hash_slots i (bit_and (hash u) d.mod_bitmask)
                (h.chains i u read));
        })

    module _ (value_size : ℕ) where
      -- The encoder with a new value in the empty slot `j`.
      abbrev pub added : ℕ → A → DictEncoder A → DictEncoder A
      added j v d =
          add_dict_key differs hash value_size v
            (record d { hash_slots = set d.hash_slots j (some (length d.uniques)) })

      pub added-IsHashed :
          (j : ℕ) (v : A) (d : DictEncoder A)
          → IsHashed d
          → find_slot differs hash d.hash_table_size d.hash_slots d.uniques v d.mod_bitmask ≡ some j
          → get_or d.hash_slots j none ≡ none
          → j < length d.hash_slots
          → IsHashed (added j v d)
      added-IsHashed j v d h found empty below =
          let n = length d.uniques in
          let start = bit_and (hash v) d.mod_bitmask in
          let slots = set d.hash_slots j (some n) in
          let keeps = set-Keeps d.hash_slots j n (inl empty) in
          let new : Chain d.hash_table_size slots n start =
            probe-Chain differs d.hash_table_size d.hash_slots d.uniques v slots d.hash_table_size
              start n j keeps found (get_or-set d.hash_slots j n below) in
          record {
            distinct = IsDistinct-snoc d.uniques v h.distinct (λ i read.
                Chain-probe differs d.hash_table_size d.hash_slots d.uniques v d.hash_table_size
                  start i j v (h.chains i v read) read (reflexive v) found empty);
            chains = λ i u read. elim (snoc_cases d.uniques v u i read) [
              | inl old ↦
                  Chain-Keeps d.hash_table_size d.hash_slots slots i
                    (bit_and (hash u) d.mod_bitmask) keeps (h.chains i u old)
              | inr (at, same) ↦
                  subst (λ w. Chain d.hash_table_size slots i (bit_and (hash w) d.mod_bitmask)) same
                    (subst (λ (t : ℕ). Chain d.hash_table_size slots t start) (sym at) new)
            ];
          }
