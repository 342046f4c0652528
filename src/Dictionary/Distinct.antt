-- ===== src/Dictionary/Distinct.antt =====
-- The dictionary has no value twice: every value can be found from its hash, also in a table of
-- twice the size.
use parquet_cpp.Common.{
  ℕ, zero, suc, ◌+◌, ◌-◌, ◌^◌, ◌<◌, ◌≡◌, ◌⊎◌, inl, inr, refl, ap, ◌∙◌, sym, subst, arith, Bool,
  true, false, Option, none, some, List, [], ◌∷◌, length, get_or, get_elem?, set, bit_and,
}
use parquet_cpp.Dictionary.{keeps_probing, slot_different, rehash_index, rehash}
use parquet_cpp.Dictionary.Slots.{occupied, RefersBelow, in_range, some-injective}
use parquet_cpp.Dictionary.Probe.{find_slot-Stops}
use parquet_cpp.Dictionary.Table.{IsTable, set-IsTable, masked-below}
use parquet_cpp.Dictionary.Chain.{Chain, Keeps, Chain-Keeps, set-Keeps, get_or-set, probe-Chain}
use parquet_cpp.Common.{All}

-- No value stands at two places of a list.
abbrev pub IsDistinct {ℓ} : {A : Type ℓ} → List A → Type ℓ
IsDistinct uniques =
    (i j : ℕ) (u : _) → get_elem? uniques i ≡ some u → get_elem? uniques j ≡ some u → i ≡ j

module _ {ℓ} {A : Type ℓ} (differs : A → A → Bool) (hash : A → ℕ)
    (exact : (v u : A) → differs v u ≡ false → u ≡ v) where
  -- Where the loop stops for a value of the dictionary, the slot is empty or has its index.
  own_slot :
      (uniques : List A) (v : A) (index : ℕ) (o : Option ℕ)
      → IsDistinct uniques
      → get_elem? uniques index ≡ some v
      → keeps_probing differs uniques v o ≡ false
      → (o ≡ none) ⊎ (o ≡ some index)
  unfolding keeps_probing slot_different
  own_slot uniques v index none distinct read stop = inl refl
  own_slot uniques v index (some k) distinct read stop =
      inr (answer (get_elem? uniques k) refl stop)
    where
      answer :
          (r : Option A)
          → get_elem? uniques k ≡ r
          → elim r [ none ↦ true | some u ↦ differs v u ] ≡ false
          → some k ≡ some index
      answer none e h = absurd (ground (arith, h))
      answer (some u) e h = ap some (distinct k index v (e ∙ ap some (exact v u h)) read)

  -- One index of the old table: all else stays, and its value is found.
  record Places (size n taken index start : ℕ) (slots : List (Option ℕ))
      (result : Option (List (Option ℕ))) : Type 0 where
    next : List (Option ℕ)
    returns : result ≡ some next
    table : IsTable size n (suc taken) next
    keeps : Keeps slots next
    chain : Chain size next index start

  module _ (k size : ℕ) (power : size ≡ 2 ^ k) (uniques : List A)
      (distinct : IsDistinct uniques) where
    place :
        (taken index : ℕ) (v : A) (slots : List (Option ℕ))
        → IsTable size (length uniques) taken slots
        → taken < size
        → index < length uniques
        → get_elem? uniques index ≡ some v
        → Places size
            (length uniques)
            taken
            index
            (bit_and (hash v) (size - 1))
            slots
            (rehash_index differs hash size uniques index slots)
    unfolding rehash_index
    place taken index v slots t free below read =
        let start = bit_and (hash v) (size - 1) in
        let s =
          find_slot-Stops differs size slots uniques v start t.fits (omega (arith, t.few, free))
            (masked-below k size (hash v) power) in
        let next = set slots s.slot (some index) in
        let keeps =
          set-Keeps slots s.slot index
            (own_slot uniques v index (get_or slots s.slot none) distinct read s.settled) in
        record {
          next = next;
          returns = rw (rehash_index, read, s.returns) refl;
          table = set-IsTable size (length uniques) taken s.slot index slots t below;
          keeps = keeps;
          chain =
              probe-Chain differs size slots uniques v next size start index s.slot keeps s.returns
                (get_or-set slots s.slot index (omega (arith, s.below, t.fits)));
        }

    -- The indices of the old table, and those that the new one has already.
    abbrev pub Finds : List (Option ℕ) → ℕ → Type 0
    Finds old i = (j : ℕ) × (get_or old j none ≡ some i)

    -- Every index of `old` that stands for a value is found in `next`.
    abbrev pub AllFound : List (Option ℕ) → List (Option ℕ) → Type ℓ
    AllFound old next =
        (i : ℕ) (u : A)
        → get_elem? uniques i ≡ some u
        → Finds old i
        → Chain size next i (bit_and (hash u) (size - 1))

    one_more :
        (index : ℕ) (v : A) (old next : List (Option ℕ))
        → get_elem? uniques index ≡ some v
        → Chain size next index (bit_and (hash v) (size - 1))
        → AllFound old next
        → AllFound (some index ∷ old) next
    one_more index v old next at c rest i u read (suc j, e) = rest i u read (j, e)
    one_more index v old next at c rest i u read (zero, e) =
        let same : index ≡ i = some-injective index i e in
        let value : v ≡ u = some-injective v u (sym at ∙ ap (get_elem? uniques) same ∙ read) in
        subst (λ (t : ℕ). Chain size next t (bit_and (hash u) (size - 1))) same
          (subst (λ w. Chain size next index (bit_and (hash w) (size - 1))) value c)

    pub record Rehashes (old slots : List (Option ℕ)) (result : Option (List (Option ℕ)))
        : Type ℓ where
      pub next : List (Option ℕ)
      pub returns : result ≡ some next
      pub keeps : Keeps slots next
      pub chains : AllFound old next

    pub rehash-Rehashes :
        (taken : ℕ) (old slots : List (Option ℕ))
        → All (RefersBelow (length uniques)) old
        → IsTable size (length uniques) taken slots
        → taken + occupied old < size
        → Rehashes old slots (rehash differs hash size uniques old slots)
    unfolding rehash occupied
    rehash-Rehashes taken [] slots refer t free = record {
      next = slots;
      returns = refl;
      keeps = λ j k e. e;
      chains = λ i u read f. absurd (ground (arith, f.1));
    }
    rehash-Rehashes taken (none ∷ old) slots refer t free =
        let r = rehash-Rehashes taken old slots refer.1 t free in
        record {
          next = r.next;
          returns = r.returns;
          keeps = r.keeps;
          chains = λ i u read f. r.chains i u read (behind_none i f);
        }
      where
        behind_none : (i : ℕ) → Finds (none ∷ old) i → Finds old i
        behind_none i (zero, e) = absurd (ground (arith, e))
        behind_none i (suc j, e) = (j, e)
    rehash-Rehashes taken (some index ∷ old) slots refer t free =
        let (v, at) = in_range uniques index refer.0 in
        let p = place taken index v slots t (omega (arith, free)) refer.0 at in
        let r = rehash-Rehashes (suc taken) old p.next refer.1 p.table (omega (arith, free)) in
        record {
          next = r.next;
          returns = rw (rehash, p.returns) r.returns;
          keeps = λ j k e. r.keeps j k (p.keeps j k e);
          chains =
              one_more index v old r.next at
                (Chain-Keeps size p.next r.next index (bit_and (hash v) (size - 1)) r.keeps p.chain)
                r.chains;
        }
