-- ===== src/Dictionary/Put.antt =====
-- `Put`: the table stays well formed, a value always finds its place, and the index that is buffered
-- refers to the value.
use parquet_cpp.Common.{
  ℕ, suc, ◌*◌, ◌^◌, ◌≤◌, ◌<◌, ◌≡◌, ◌⊎◌, inl, inr, refl, ◌∙◌, sym, ap, subst, arith, Bool, false,
  Option, none, some, List, [], ◌∷◌, ◌++◌, length, length-append, get_or, get_elem?, bit_and,
}
use parquet_cpp.Dictionary.{DictEncoder, buffer_index, put_at, put, keeps_probing, slot_different}
use parquet_cpp.Dictionary.Slots.{refers, in_range, get_elem?-append_at}
use parquet_cpp.Dictionary.Probe.{find_slot-Stops}
use parquet_cpp.Dictionary.Table.{masked-below}
use parquet_cpp.Dictionary.Sound.{IsSound, buffer_index-IsSound, insert-Inserts}

module _ {ℓ} {A : Type ℓ} (differs : A → A → Bool) where
  -- A buffered index stands for a value: the one put, or one that is not different from it.
  abbrev pub Stands : A → A → Type ℓ
  Stands v u = (u ≡ v) ⊎ (differs v u ≡ false)

  -- The encoder after a value was put: the index that it has buffered, and what it refers to.
  pub record Puts (value_size : ℕ) (v : A) (d next : DictEncoder A) : Type ℓ where
    pub sound : IsSound value_size next
    pub index : ℕ
    pub buffered : next.buffered_indices ≡ d.buffered_indices ++ index ∷ []
    pub value : A
    pub read : get_elem? next.uniques index ≡ some value
    pub stands : Stands v value
    pub added : (next.uniques ≡ d.uniques) ⊎ (next.uniques ≡ d.uniques ++ v ∷ [])

  -- A slot where the loop stopped and that is not empty has an equal value.
  found-equal :
      (uniques : List A) (v u : A) (index : ℕ)
      → get_elem? uniques index ≡ some u
      → keeps_probing differs uniques v (some index) ≡ false
      → differs v u ≡ false
  unfolding keeps_probing slot_different
  found-equal uniques v u index read stop = ground (arith, read)

  module _ (hash : A → ℕ) (value_size : ℕ) where
    -- A value that the table has.
    found-Puts :
        (v : A) (d : DictEncoder A) (index : ℕ)
        → IsSound value_size d
        → index < length d.uniques
        → keeps_probing differs d.uniques v (some index) ≡ false
        → Puts value_size v d (buffer_index differs hash value_size index d)
    found-Puts v d index s below stop =
        let (u, read) = in_range d.uniques index below in
        record {
          sound = buffer_index-IsSound differs hash value_size index d s below;
          index = index;
          buffered = refl;
          value = u;
          read = read;
          stands = inr (found-equal d.uniques v u index read stop);
          added = inl refl;
        }

    new-Puts :
        (v : A) (d next : DictEncoder A)
        → IsSound value_size next
        → next.uniques ≡ d.uniques ++ v ∷ []
        → next.buffered_indices ≡ d.buffered_indices
        → Puts value_size v d (buffer_index differs hash value_size (length d.uniques) next)
    new-Puts v d next s values buffered =
        let n = length d.uniques in
        let below : n < length next.uniques =
          omega (arith, ap length values, length-append d.uniques (v ∷ [])) in
        record {
          sound = buffer_index-IsSound differs hash value_size n next s below;
          index = n;
          buffered = ap (λ t. t ++ n ∷ []) buffered;
          value = v;
          read = ap (λ t. get_elem? t n) values ∙ get_elem?-append_at d.uniques [] v;
          stands = inl refl;
          added = inr values;
        }

    put_at-Puts :
        (j : ℕ) (v : A) (d : DictEncoder A)
        → IsSound value_size d
        → 10 * suc (length d.uniques) ≤ 7 * 2 ^ 30
        → keeps_probing differs d.uniques v (get_or d.hash_slots j none) ≡ false
        → (next : DictEncoder A) × (put_at differs hash value_size j v d
              (get_or d.hash_slots j none)
            ≡ some next)
          × Puts value_size v d next
    unfolding put_at
    put_at-Puts j v d s in_int stop = answer (get_or d.hash_slots j none) refl stop
      where
        answer :
            (o : Option ℕ)
            → get_or d.hash_slots j none ≡ o
            → keeps_probing differs d.uniques v o ≡ false
            → (next : DictEncoder A) × (put_at differs hash value_size j v d o ≡ some next)
              × Puts value_size v d next
        answer (some index) e stop = (
          buffer_index differs hash value_size index d,
          refl,
          found-Puts v d index s (refers (length d.uniques) d.hash_slots j index s.table.refer e)
              stop,
        )
        answer none e stop =
            let i = insert-Inserts differs hash value_size j v d s in_int in
            (
              buffer_index differs hash value_size (length d.uniques) i.next,
              rw (put_at, i.returns) refl,
              new-Puts v d i.next i.sound i.values i.buffered,
            )

    pub put-Puts :
        (v : A) (d : DictEncoder A)
        → IsSound value_size d
        → 10 * suc (length d.uniques) ≤ 7 * 2 ^ 30
        → (next : DictEncoder A) × (put differs hash value_size v d ≡ some next)
          × Puts value_size v d next
    unfolding put
    put-Puts v d s in_int =
        let q =
          find_slot-Stops differs d.hash_table_size d.hash_slots d.uniques v
            (bit_and (hash v) d.mod_bitmask) s.table.fits
            (omega (arith, s.table.few, s.light, s.large))
            (subst (λ (m : ℕ). bit_and (hash v) m < d.hash_table_size) (sym s.mask)
              (masked-below s.exponent d.hash_table_size (hash v) s.power)) in
        let (next, e, p) = put_at-Puts q.slot v d s in_int q.settled in
        (next, rw (put, q.returns) e, p)
