-- ===== src/Dictionary/Chain.antt =====
-- The slots that a value's probing passes on the way to its index.
use parquet_cpp.Common.{
  ℕ, zero, suc, ◌<◌, ◌≡◌, ◌≢◌, ◌⊎◌, inl, inr, refl, ◌∙◌, sym, subst, arith, Bool, true, false,
  Option, none, some, List, [], ◌∷◌, length, get_or, get_elem?, set, Bool-cases,
}
use parquet_cpp.Dictionary.{next_slot, keeps_probing, probe, slot_different}
use parquet_cpp.Dictionary.Slots.{some-injective}

-- From the slot `j` on, no slot is empty up to one that has the index `i`.
pub data Chain (size : ℕ) (slots : List (Option ℕ)) (i : ℕ) : ℕ → Type 0 where
  at_slot : {j : ℕ} → get_or slots j none ≡ some i → Chain size slots i j
  past :
      {j k : ℕ}
      → get_or slots j none ≡ some k
      → Chain size slots i (next_slot size j)
      → Chain size slots i j

-- A table that has all that another has, in the same slots.
abbrev pub Keeps : List (Option ℕ) → List (Option ℕ) → Type 0
Keeps slots more = (j k : ℕ) → get_or slots j none ≡ some k → get_or more j none ≡ some k

pub Chain-Keeps :
    (size : ℕ) (slots more : List (Option ℕ)) (i j : ℕ)
    → Keeps slots more
    → Chain size slots i j
    → Chain size more i j
Chain-Keeps size slots more i j keeps (at_slot e) = at_slot (keeps j i e)
Chain-Keeps size slots more i j keeps (past {k} e c) =
    past (keeps j k e) (Chain-Keeps size slots more i (next_slot size j) keeps c)

-- An index on a chain stands in the table.
pub Chain-occurs :
    (size : ℕ) (slots : List (Option ℕ)) (i j : ℕ)
    → Chain size slots i j
    → (k : ℕ) × (get_or slots k none ≡ some i)
Chain-occurs size slots i j (at_slot e) = (j, e)
Chain-occurs size slots i j (past e c) = Chain-occurs size slots i (next_slot size j) c

-- A write to an empty slot, or of what the slot has, keeps the others.
pub set-Keeps :
    (slots : List (Option ℕ)) (j i : ℕ)
    → (get_or slots j none ≡ none) ⊎ (get_or slots j none ≡ some i)
    → Keeps slots (set slots j (some i))
set-Keeps [] j i h n k e = e
set-Keeps (x ∷ slots) zero i h zero k e = ground (arith, e)
set-Keeps (x ∷ slots) zero i h (suc n) k e = e
set-Keeps (x ∷ slots) (suc j) i h zero k e = e
set-Keeps (x ∷ slots) (suc j) i h (suc n) k e = set-Keeps slots j i h n k e

pub get_or-set :
    (slots : List (Option ℕ)) (j i : ℕ)
    → j < length slots
    → get_or (set slots j (some i)) j none ≡ some i
get_or-set [] j i h = absurd (omega arith)
get_or-set (x ∷ slots) zero i h = refl
get_or-set (x ∷ slots) (suc j) i h = get_or-set slots j i (omega arith)

module _ {ℓ} {A : Type ℓ} (differs : A → A → Bool) (size : ℕ) (slots : List (Option ℕ))
    (uniques : List A) (v : A) where
  -- A slot that the loop passes has an index.
  passed :
      (j : ℕ)
      → keeps_probing differs uniques v (get_or slots j none) ≡ true
      → (k : ℕ) × (get_or slots j none ≡ some k)
  unfolding keeps_probing
  passed j h = answer (get_or slots j none) h
    where
      answer : (o : Option ℕ) → keeps_probing differs uniques v o ≡ true → (k : ℕ) × (o ≡ some k)
      answer none h = absurd (ground arith)
      answer (some k) h = (k, refl)

  no_fuel : (j stop : ℕ) → probe differs zero size slots uniques v j ≢ some stop
  unfolding probe
  no_fuel j stop e = absurd (ground (arith, e))

  probe_passes :
      (fuel j : ℕ)
      → keeps_probing differs uniques v (get_or slots j none) ≡ true
      → probe differs (suc fuel) size slots uniques v j
        ≡ probe differs fuel size slots uniques v (next_slot size j)
  unfolding probe
  probe_passes fuel j h = rw h refl

  probe_stops :
      (fuel j stop : ℕ)
      → keeps_probing differs uniques v (get_or slots j none) ≡ false
      → probe differs (suc fuel) size slots uniques v j ≡ some stop
      → j ≡ stop
  unfolding probe
  probe_stops fuel j stop h e = some-injective j stop (rw (← e, h) refl)

  equal_stops :
      (j i : ℕ) (u : A)
      → get_or slots j none ≡ some i
      → get_elem? uniques i ≡ some u
      → differs v u ≡ false
      → keeps_probing differs uniques v (get_or slots j none) ≡ false
  unfolding keeps_probing slot_different
  equal_stops j i u here read equal = rw (here, keeps_probing, slot_different, read) equal

  not_empty :
      (j k stop : ℕ) → j ≡ stop → get_or slots j none ≡ some k → get_or slots stop none ≢ none
  not_empty j k stop e here empty =
      absurd (grind (arith, subst (λ (t : ℕ). get_or slots t none ≡ some k) e here))

  -- Where the loop stops, the chain of what the slot has begins at its start.
  pub probe-Chain :
      (more : List (Option ℕ)) (fuel j i stop : ℕ)
      → Keeps slots more
      → probe differs fuel size slots uniques v j ≡ some stop
      → get_or more stop none ≡ some i
      → Chain size more i j
  probe-Chain more zero j i stop keeps e here = absurd (no_fuel j stop e)
  probe-Chain more (suc fuel) j i stop keeps e here =
      elim (Bool-cases (keeps_probing differs uniques v (get_or slots j none))) [
        | inl full ↦
            let (k, read) = passed j full in
            past (keeps j k read) (
              probe-Chain more fuel (next_slot size j) i stop keeps
                (sym (probe_passes fuel j full) ∙ e) here)
        | inr stay ↦ at_slot (
            subst (λ (t : ℕ). get_or more t none ≡ some i) (sym (probe_stops fuel j stop stay e))
              here)
      ]

  -- A chain that leads to an equal value makes the loop stop before an empty slot.
  pub Chain-probe :
      (fuel j i stop : ℕ) (u : A)
      → Chain size slots i j
      → get_elem? uniques i ≡ some u
      → differs v u ≡ false
      → probe differs fuel size slots uniques v j ≡ some stop
      → get_or slots stop none ≢ none
  Chain-probe zero j i stop u c read equal e = absurd (no_fuel j stop e)
  Chain-probe (suc fuel) j i stop u (at_slot here) read equal e =
      not_empty j i stop (probe_stops fuel j stop (equal_stops j i u here read equal) e) here
  Chain-probe (suc fuel) j i stop u (past {k} here c) read equal e =
      elim (Bool-cases (keeps_probing differs uniques v (get_or slots j none))) [
        | inl full ↦
            Chain-probe fuel (next_slot size j) i stop u c read equal
              (sym (probe_passes fuel j full) ∙ e)
        | inr stay ↦ not_empty j k stop (probe_stops fuel j stop stay e) here
      ]
