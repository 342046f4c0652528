-- ===== src/Dictionary/Unique.antt =====
-- `Put` keeps the dictionary free of repeated values.
use parquet_cpp.Common.{
  ℕ, suc, ◌+◌, ◌*◌, ◌^◌, ◌≤◌, ◌<◌, ◌≡◌, inl, inr, refl, ◌∙◌, sym, subst, arith, Bool, true, false,
  Option, none, some, List, [], ◌∷◌, length, length-append, get_or, bit_and, ltb→lt, Bool-cases,
}
use parquet_cpp.Dictionary.{
  DictEncoder, make, is_loaded, double_table_size, insert, buffer_index, put_at, put, put_all,
  find_slot,
}
use parquet_cpp.Dictionary.Slots.{some-injective}
use parquet_cpp.Dictionary.Probe.{find_slot-Stops}
use parquet_cpp.Dictionary.Table.{masked-below}
use parquet_cpp.Dictionary.Sound.{IsSound, added-IsTable}
use parquet_cpp.Dictionary.Distinct.{IsDistinct}
use parquet_cpp.Dictionary.Hashed.{IsHashed, double_table_size-IsHashed, added, added-IsHashed}
use parquet_cpp.Dictionary.Put.{put-Puts}
use parquet_cpp.Dictionary.Indices.{put-room, make-IsSound}

module _ {ℓ} {A : Type ℓ} (differs : A → A → Bool) (hash : A → ℕ) where
  module _ (exact : (v u : A) → differs v u ≡ false → u ≡ v)
      (reflexive : (v : A) → differs v v ≡ false) where
    module _ (value_size : ℕ) where
      insert_loaded :
          (j : ℕ) (v : A) (d : DictEncoder A)
          → is_loaded differs hash value_size (added differs hash exact reflexive value_size j v d)
            ≡ true
          → insert differs hash value_size j v d
            ≡ double_table_size differs hash (added differs hash exact reflexive value_size j v d)
      unfolding insert
      insert_loaded j v d loaded = rw loaded refl

      insert_room :
          (j : ℕ) (v : A) (d : DictEncoder A)
          → is_loaded differs hash value_size (added differs hash exact reflexive value_size j v d)
            ≡ false
          → insert differs hash value_size j v d
            ≡ some (added differs hash exact reflexive value_size j v d)
      unfolding insert
      insert_room j v d room = rw room refl

      insert-IsHashed :
          (j : ℕ) (v : A) (d next : DictEncoder A)
          → IsSound value_size d
          → 10 * suc (length d.uniques) ≤ 7 * 2 ^ 30
          → IsHashed differs hash (added differs hash exact reflexive value_size j v d)
          → insert differs hash value_size j v d ≡ some next
          → IsHashed differs hash next
      insert-IsHashed j v d next s in_int h e =
          let more = added differs hash exact reflexive value_size j v d in
          let one : length more.uniques ≡ suc (length d.uniques) =
            length-append d.uniques (v ∷ []) ∙ omega arith in
          elim (Bool-cases (is_loaded differs hash value_size more)) [
            | inl loaded ↦
                double_table_size-IsHashed differs hash exact reflexive s.exponent more next s.power
                  (added-IsTable differs hash value_size j v d s)
                  (omega (arith, one, s.light, s.large))
                  (omega (arith, one, in_int, ltb→lt _ _ loaded)) h
                  (sym (insert_loaded j v d loaded) ∙ e)
            | inr room ↦
                subst (IsHashed differs hash)
                  (some-injective more next (sym (insert_room j v d room) ∙ e)) h
          ]

      put_at-IsHashed :
          (j : ℕ) (v : A) (d next : DictEncoder A) (o : Option ℕ)
          → IsSound value_size d
          → 10 * suc (length d.uniques) ≤ 7 * 2 ^ 30
          → IsHashed differs hash d
          → find_slot differs hash d.hash_table_size d.hash_slots d.uniques v d.mod_bitmask ≡ some j
          → get_or d.hash_slots j none ≡ o
          → j < length d.hash_slots
          → put_at differs hash value_size j v d o ≡ some next
          → IsHashed differs hash next
      unfolding put_at
      put_at-IsHashed j v d next (some index) s in_int h found slot below e =
          subst (IsHashed differs hash)
            (some-injective (buffer_index differs hash value_size index d) next e)
            (record { distinct = h.distinct; chains = h.chains })
      put_at-IsHashed j v d next none s in_int h found empty below e =
          answer (insert differs hash value_size j v d) refl e
        where
          answer :
              (r : Option (DictEncoder A))
              → insert differs hash value_size j v d ≡ r
              → elim r [
                | none ↦ none
                | some w ↦ some (buffer_index differs hash value_size (length d.uniques) w)
              ]
                ≡ some next
              → IsHashed differs hash next
          answer none f g = absurd (grind arith)
          answer (some w) f g =
              let k =
                insert-IsHashed j v d w s in_int
                  (added-IsHashed differs hash exact reflexive value_size j v d h found empty below)
                  f in
              subst (IsHashed differs hash)
                (some-injective (buffer_index differs hash value_size (length d.uniques) w) next g)
                (record { distinct = k.distinct; chains = k.chains })

      put-put_at :
          (j : ℕ) (v : A) (d : DictEncoder A)
          → find_slot differs hash d.hash_table_size d.hash_slots d.uniques v d.mod_bitmask ≡ some j
          → put differs hash value_size v d
            ≡ put_at differs hash value_size j v d (get_or d.hash_slots j none)
      unfolding put
      put-put_at j v d found = rw (put, found) refl

      pub put-IsHashed :
          (v : A) (d next : DictEncoder A)
          → IsSound value_size d
          → 10 * suc (length d.uniques) ≤ 7 * 2 ^ 30
          → IsHashed differs hash d
          → put differs hash value_size v d ≡ some next
          → IsHashed differs hash next
      put-IsHashed v d next s in_int h e =
          let start = bit_and (hash v) d.mod_bitmask in
          let q =
            find_slot-Stops differs d.hash_table_size d.hash_slots d.uniques v start s.table.fits
              (omega (arith, s.table.few, s.light, s.large))
              (subst (λ (m : ℕ). bit_and (hash v) m < d.hash_table_size) (sym s.mask)
                (masked-below s.exponent d.hash_table_size (hash v) s.power)) in
          put_at-IsHashed q.slot v d next (get_or d.hash_slots q.slot none) s in_int h q.returns
            refl (omega (arith, q.below, s.table.fits)) (sym (put-put_at q.slot v d q.returns) ∙ e)

      pub put_all-IsHashed :
          (vs : List A) (d next : DictEncoder A)
          → IsSound value_size d
          → 10 * (length d.uniques + length vs) ≤ 7 * 2 ^ 30
          → IsHashed differs hash d
          → put_all differs hash value_size vs d ≡ some next
          → IsHashed differs hash next
      unfolding put_all
      put_all-IsHashed [] d next s few h e =
          subst (IsHashed differs hash) (some-injective d next e) h
      put_all-IsHashed (v ∷ vs) d next s few h e =
          let (one, f, p) = put-Puts differs hash value_size v d s (omega (arith, few)) in
          let step : put_all differs hash value_size (v ∷ vs) d
              ≡ put_all differs hash value_size vs one =
            rw (put_all, f) refl in
          put_all-IsHashed vs one next p.sound
            (omega (arith, few, put-room differs hash value_size v d one p))
            (put-IsHashed v d one s (omega (arith, few)) h f) (sym step ∙ e)

      -- A new DictEncoder after `Put` of at most 0.7 * 2 ^ 30 values, when `differs` is false exactly
      -- of equal values: no value stands at two places of its dictionary, whatever the hash
      -- function, through collisions and through every doubling of the table.
      pub put_all-IsDistinct :
          (vs : List A) (d : DictEncoder A)
          → 10 * length vs ≤ 7 * 2 ^ 30
          → put_all differs hash value_size vs make ≡ some d
          → IsDistinct d.uniques
      put_all-IsDistinct vs d few e =
          let h =
            put_all-IsHashed vs make d (make-IsSound value_size) (omega (arith, few, empty)) start
              e in
          h.distinct
        where
          empty : length (make {A = A}).uniques ≡ 0
          empty = unfold make in refl

          start : IsHashed differs hash make
          start =
              unfold make in
              record {
                distinct = λ i j u read other. absurd (ground (arith, read));
                chains = λ i u read. absurd (ground (arith, read));
              }
