-- ===== src/Dictionary/Slots.antt =====
-- The slots of the hash table: reads after a write, and how many are taken.
use parquet_cpp.Common.{
  ℕ, zero, suc, ◌≤◌, ◌<◌, ◌≡◌, refl, arith, Option, none, some, List, [], ◌∷◌, ◌++◌, length, get_or,
  get_elem?, set, replicate, All,
}

module _ {ℓ} {A : Type ℓ} where
  pub get_elem?-append_left :
      (xs ys : List A) (i : ℕ) → i < length xs → get_elem? (xs ++ ys) i ≡ get_elem? xs i
  get_elem?-append_left [] ys i h = absurd (omega arith)
  get_elem?-append_left (x ∷ xs) ys zero h = refl
  get_elem?-append_left (x ∷ xs) ys (suc i) h = get_elem?-append_left xs ys i (omega arith)

  pub get_elem?-append_at : (xs ys : List A) (x : A) → get_elem? (xs ++ x ∷ ys) (length xs) ≡ some x
  get_elem?-append_at [] ys x = refl
  get_elem?-append_at (y ∷ xs) ys x = get_elem?-append_at xs ys x

  pub some-injective : (a b : A) → some a ≡ some b → a ≡ b
  some-injective a b h = cc

  -- An element of a list that is long enough.
  pub in_range : (xs : List A) (i : ℕ) → i < length xs → (x : A) × (get_elem? xs i ≡ some x)
  in_range [] i h = absurd (omega arith)
  in_range (x ∷ xs) zero h = (x, refl)
  in_range (x ∷ xs) (suc i) h = in_range xs i (omega arith)

  pub All-set {κ} :
      (P : A → Type κ) (xs : List A) (i : ℕ) (x : A) → All P xs → P x → All P (set xs i x)
  All-set P [] i x h p = h
  All-set P (y ∷ xs) zero x h p = (p, h.1)
  All-set P (y ∷ xs) (suc i) x h p = (h.0, All-set P xs i x h.1 p)

  pub All-replicate {κ} : (P : A → Type κ) (n : ℕ) (x : A) → P x → All P (replicate n x)
  All-replicate P zero x p = tt
  All-replicate P (suc n) x p = (p, All-replicate P n x p)

  pub All-map {κ μ} :
      (P : A → Type κ) (Q : A → Type μ)
      → ((x : A) → P x → Q x)
      → (xs : List A) → All P xs
      → All Q xs
  All-map P Q f [] h = tt
  All-map P Q f (x ∷ xs) h = (f x h.0, All-map P Q f xs h.1)

-- The number of slots that are not empty.
unfoldable pub occupied : List (Option ℕ) → ℕ
occupied [] = 0
occupied (none ∷ slots) = occupied slots
occupied (some index ∷ slots) = suc (occupied slots)

pub occupied-set :
    (slots : List (Option ℕ)) (j index : ℕ)
    → occupied (set slots j (some index)) ≤ suc (occupied slots)
unfolding occupied
occupied-set [] j index = omega arith
occupied-set (none ∷ slots) zero index = omega arith
occupied-set (some x ∷ slots) zero index = omega arith
occupied-set (none ∷ slots) (suc j) index = occupied-set slots j index
occupied-set (some x ∷ slots) (suc j) index = omega (arith, occupied-set slots j index)

pub occupied-replicate : (n : ℕ) → occupied (replicate n none) ≡ 0
unfolding occupied
occupied-replicate zero = refl
occupied-replicate (suc n) = occupied-replicate n

-- When fewer slots are taken than there are, one is empty.
pub empty_slot :
    (slots : List (Option ℕ))
    → occupied slots < length slots
    → (k : ℕ) × (k < length slots) × (get_or slots k none ≡ none)
unfolding occupied
empty_slot [] h = absurd (omega arith)
empty_slot (none ∷ slots) h = (0, omega arith, refl)
empty_slot (some index ∷ slots) h =
    let (k, below, empty) = empty_slot slots (omega arith) in (suc k, omega (arith, below), empty)

-- A slot that is not empty refers to one of `n` values.
abbrev pub RefersBelow : ℕ → Option ℕ → Type 0
RefersBelow n none = Unit
RefersBelow n (some index) = index < n

pub refers :
    (n : ℕ) (slots : List (Option ℕ)) (j index : ℕ)
    → All (RefersBelow n) slots
    → get_or slots j none ≡ some index
    → index < n
refers n [] j index h e = absurd (grind arith)
refers n (none ∷ slots) zero index h e = absurd (grind arith)
refers n (some x ∷ slots) zero index h e = grind arith
refers n (x ∷ slots) (suc j) index h e = refers n slots j index h.1 e
