-- ===== src/Dictionary/Probe.antt =====
-- Linear probing: the loop stops where a slot is empty, at a slot of the table.
use parquet_cpp.Common.{
  ℕ, zero, suc, ◌+◌, ◌-◌, ◌<◌, ◌≡◌, ◌≢◌, inl, inr, refl, ap, ◌∙◌, arith, Bool, true, false, Option,
  none, some, List, length, get_or, Bool-cases, ltb,
}
use parquet_cpp.Dictionary.{next_slot, keeps_probing, probe}
use parquet_cpp.Dictionary.Slots.{occupied, empty_slot}

-- The steps from the slot `j` to the slot `k`, past the end of the table if need be.
abbrev steps_to : ℕ → ℕ → ℕ → ℕ
steps_to size k j = elim (ltb k j) [ true ↦ size - j + k | false ↦ k - j ]

next_slot-below : (size j : ℕ) → j < size → next_slot size j < size
next_slot-below size j h = ground arith

next_slot-nearer :
    (size k j : ℕ)
    → j < size
    → k < size
    → j ≢ k
    → suc (steps_to size k (next_slot size j)) ≡ steps_to size k j
next_slot-nearer size k j h below other = ground arith

module _ {ℓ} {A : Type ℓ} (differs : A → A → Bool) where
  abbrev stays : List A → A → List (Option ℕ) → ℕ → Bool
  stays uniques v slots j = keeps_probing differs uniques v (get_or slots j none)

  -- Where the loop stops: a slot of the table that is empty or has an equal value.
  pub record Stops (size : ℕ) (slots : List (Option ℕ)) (uniques : List A) (v : A)
      (result : Option ℕ) : Type ℓ where
    pub slot : ℕ
    pub returns : result ≡ some slot
    pub below : slot < size
    pub settled : keeps_probing differs uniques v (get_or slots slot none) ≡ false

  stays_full :
      (uniques : List A) (v : A) (slots : List (Option ℕ)) (j k : ℕ)
      → get_or slots k none ≡ none
      → stays uniques v slots j ≡ true
      → j ≢ k
  unfolding keeps_probing
  stays_full uniques v slots j k empty full same =
      let here : get_or slots j none ≡ none = ap (λ (i : ℕ). get_or slots i none) same ∙ empty in
      absurd (ground (arith, here, full))

  module _ (size : ℕ) (slots : List (Option ℕ)) (uniques : List A) (v : A) where
    probe-Stops :
        (fuel j k : ℕ)
        → get_or slots k none ≡ none
        → k < size
        → j < size
        → steps_to size k j < fuel
        → Stops size slots uniques v (probe differs fuel size slots uniques v j)
    unfolding probe
    probe-Stops zero j k empty below h enough = absurd (omega arith)
    probe-Stops (suc fuel) j k empty below h enough = elim (Bool-cases (stays uniques v slots j)) [
      | inl full ↦
          let other = stays_full uniques v slots j k empty full in
          rw full (
            probe-Stops fuel (next_slot size j) k empty below (next_slot-below size j h)
              (omega (arith, next_slot-nearer size k j h below other)))
      | inr stop ↦ rw stop (record { slot = j; returns = refl; below = h; settled = stop })
    ]

    -- As many steps as there are slots are enough when a slot is empty.
    pub find_slot-Stops :
        (j : ℕ)
        → length slots ≡ size
        → occupied slots < size
        → j < size
        → Stops size slots uniques v (probe differs size size slots uniques v j)
    find_slot-Stops j len free h =
        let (k, below, empty) = empty_slot slots (omega (arith, len)) in
        probe-Stops size j k empty (omega (arith, len)) h (ground arith)
