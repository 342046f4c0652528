-- ===== src/MemPool/Scan.antt =====
-- Lists of chunks: a store at an index, the exchange of two chunks, and what they keep.
use parquet_cpp.Common.{
  ℕ, zero, suc, ◌+◌, ◌≤◌, ◌<◌, ◌≡◌, refl, ap, subst, sym, ◌∙◌, Option, none, some, List, [], ◌∷◌,
  ◌++◌,
}
use parquet_cpp.Common.{
  length, length-set, get_or, set, take, drop, All, leb, Bool, true, false, if◌then◌else◌, arith,
  leb→le,
}
use parquet_cpp.MemPool.{ChunkInfo, no_chunk, scan, swap}

unfoldable pub sum_of : (ChunkInfo → ℕ) → List ChunkInfo → ℕ
sum_of f [] = 0
sum_of f (c ∷ cs) = f c + sum_of f cs

pub sum_of-set :
    (f : ChunkInfo → ℕ) (cs : List ChunkInfo) (i : ℕ) (v : ChunkInfo)
    → i < length cs
    → sum_of f (set cs i v) + f (get_or cs i no_chunk) ≡ sum_of f cs + f v
unfolding sum_of
sum_of-set f [] i v h = absurd (omega arith)
sum_of-set f (c ∷ cs) zero v h = omega arith
sum_of-set f (c ∷ cs) (suc i) v h = omega (arith, sum_of-set f cs i v (omega arith))

pub sum_of-append :
    (f : ChunkInfo → ℕ) (cs ds : List ChunkInfo) → sum_of f (cs ++ ds) ≡ sum_of f cs + sum_of f ds
unfolding sum_of
sum_of-append f [] ds = omega arith
sum_of-append f (c ∷ cs) ds = omega (arith, sum_of-append f cs ds)

pub get_or-set :
    (cs : List ChunkInfo) (i j : ℕ)
    → get_or (set cs i (get_or cs j no_chunk)) j no_chunk ≡ get_or cs j no_chunk
get_or-set [] i j = refl
get_or-set (c ∷ cs) zero zero = refl
get_or-set (c ∷ cs) zero (suc j) = refl
get_or-set (c ∷ cs) (suc i) zero = refl
get_or-set (c ∷ cs) (suc i) (suc j) = get_or-set cs i j

pub get_or-set_same :
    (cs : List ChunkInfo) (i : ℕ) (v : ChunkInfo)
    → i < length cs
    → get_or (set cs i v) i no_chunk ≡ v
get_or-set_same [] i v h = absurd (omega arith)
get_or-set_same (c ∷ cs) zero v h = refl
get_or-set_same (c ∷ cs) (suc i) v h = get_or-set_same cs i v (omega arith)

set-get_or : (cs : List ChunkInfo) (i : ℕ) → set cs i (get_or cs i no_chunk) ≡ cs
set-get_or [] i = refl
set-get_or (c ∷ cs) zero = refl
set-get_or (c ∷ cs) (suc i) = ap (λ t. c ∷ t) (set-get_or cs i)

pub swap_same : (cs : List ChunkInfo) (i : ℕ) → swap cs i i ≡ cs
unfolding swap
swap_same cs i = rw (set-get_or cs i, set-get_or cs i) refl

pub length-swap : (cs : List ChunkInfo) (i j : ℕ) → length (swap cs i j) ≡ length cs
unfolding swap
length-swap cs i j = length-set (set cs i _) j _ ∙ length-set cs i _

pub sum_of-swap :
    (f : ChunkInfo → ℕ) (cs : List ChunkInfo) (i j : ℕ)
    → i < length cs
    → j < length cs
    → sum_of f (swap cs i j) ≡ sum_of f cs
unfolding swap
sum_of-swap f cs i j h k =
    let ci = get_or cs i no_chunk in
    let cj = get_or cs j no_chunk in
    omega (
      arith,
      sum_of-set f cs i cj h,
      sum_of-set f (set cs i cj) j ci (omega (arith, length-set cs i cj)),
      ap f (get_or-set cs i j),
    )

pub drop-set :
    (n k : ℕ) (cs : List ChunkInfo) (v : ChunkInfo)
    → drop n (set cs (n + k) v) ≡ set (drop n cs) k v
drop-set zero k cs v = ap (λ (i : ℕ). set cs i v) (omega arith)
drop-set (suc n) k [] v = refl
drop-set (suc n) k (c ∷ cs) v =
    let e : suc n + k ≡ suc (n + k) = omega arith in
    ap (λ (i : ℕ). drop (suc n) (set (c ∷ cs) i v)) e ∙ drop-set n k cs v

pub drop-get_or :
    (n k : ℕ) (cs : List ChunkInfo) → get_or cs (n + k) no_chunk ≡ get_or (drop n cs) k no_chunk
drop-get_or zero k cs = ap (λ (i : ℕ). get_or cs i no_chunk) (omega arith)
drop-get_or (suc n) k [] = refl
drop-get_or (suc n) k (c ∷ cs) =
    let e : suc n + k ≡ suc (n + k) = omega arith in
    ap (λ (i : ℕ). get_or (c ∷ cs) i no_chunk) e ∙ drop-get_or n k cs

-- A store in front of the part that is left, and the exchange of two chunks in it.
pub drop-set_front :
    (n i : ℕ) (cs : List ChunkInfo) (v : ChunkInfo) → i < n → drop n (set cs i v) ≡ drop n cs
drop-set_front zero i cs v h = absurd (omega arith)
drop-set_front (suc n) i [] v h = refl
drop-set_front (suc n) zero (c ∷ cs) v h = refl
drop-set_front (suc n) (suc i) (c ∷ cs) v h = drop-set_front n i cs v (omega arith)

pub drop-swap : (n k : ℕ) (cs : List ChunkInfo) → drop n (swap cs (n + k) n) ≡ swap (drop n cs) k 0
unfolding swap
drop-swap n k cs =
    let at : n + 0 ≡ n = omega arith in
    let cn = ap (λ (i : ℕ). get_or cs i no_chunk) (sym at) ∙ drop-get_or n 0 cs in
    let ck = drop-get_or n k cs in
    ap
      (λ (i : ℕ).
        drop n (set (set cs (n + k) (get_or cs n no_chunk)) i (get_or cs (n + k) no_chunk)))
      (sym at)
    ∙ drop-set n 0 (set cs (n + k) (get_or cs n no_chunk)) (get_or cs (n + k) no_chunk)
    ∙ ap (λ (l : List ChunkInfo). set l 0 (get_or cs (n + k) no_chunk))
        (drop-set n k cs (get_or cs n no_chunk))
    ∙ ap (λ (c : ChunkInfo). set (set (drop n cs) k (get_or cs n no_chunk)) 0 c) ck
    ∙ ap (λ (c : ChunkInfo). set (set (drop n cs) k c) 0 (get_or (drop n cs) k no_chunk)) cn

some_inj : (a b : ℕ) → some a ≡ some b → a ≡ b
some_inj a b h = cc

Found : ℕ → List ChunkInfo → ℕ → Type 0
Found min_size cs k = (k < length cs) × (min_size ≤ (get_or cs k no_chunk).size)

scan_step :
    (min_size : ℕ) (c : ChunkInfo) (cs : List ChunkInfo) (b : Bool) (r : Option ℕ) (k : ℕ)
    → leb min_size c.size ≡ b
    → ((j : ℕ) → r ≡ some j → Found min_size cs j)
    → (if b then some 0 else (elim r [ none ↦ none | some j ↦ some (suc j) ])) ≡ some k
    → Found min_size (c ∷ cs) k
unfolding Found
scan_step min_size c cs true r k e ih h =
    subst (λ (i : ℕ). Found min_size (c ∷ cs) i) (some_inj 0 k h)
      (omega arith, leb→le min_size c.size e)
scan_step min_size c cs false none k e ih h = cc
scan_step min_size c cs false (some j) k e ih h =
    subst (λ (i : ℕ). Found min_size (c ∷ cs) i) (some_inj (suc j) k h)
      (omega (arith, (ih j refl).0), (ih j refl).1)

-- The chunk that the scan finds is there and is big enough.
pub scan-some :
    (min_size : ℕ) (cs : List ChunkInfo) (k : ℕ)
    → scan min_size cs ≡ some k
    → (k < length cs) × (min_size ≤ (get_or cs k no_chunk).size)
unfolding scan Found
scan-some min_size [] k h = cc
scan-some min_size (c ∷ cs) k h =
    scan_step min_size c cs (leb min_size c.size) (scan min_size cs) k refl
      (λ j e. scan-some min_size cs j e) h

module _ (P : ChunkInfo → Type 0) where
  pub All-set : (cs : List ChunkInfo) (i : ℕ) (v : ChunkInfo) → All P cs → P v → All P (set cs i v)
  All-set [] i v h k = h
  All-set (c ∷ cs) zero v h k = (k, h.1)
  All-set (c ∷ cs) (suc i) v h k = (h.0, All-set cs i v h.1 k)

  pub All-get_or :
      (cs : List ChunkInfo) (i : ℕ) → All P cs → i < length cs → P (get_or cs i no_chunk)
  All-get_or [] i h k = absurd (omega arith)
  All-get_or (c ∷ cs) zero h k = h.0
  All-get_or (c ∷ cs) (suc i) h k = All-get_or cs i h.1 (omega arith)

  pub All-swap :
      (cs : List ChunkInfo) (i j : ℕ)
      → All P cs
      → i < length cs
      → j < length cs
      → All P (swap cs i j)
  unfolding swap
  All-swap cs i j h k l =
      All-set (set cs i _) j _ (All-set cs i _ h (All-get_or cs j h l)) (All-get_or cs i h k)

  pub All-drop : (n : ℕ) (cs : List ChunkInfo) → All P cs → All P (drop n cs)
  All-drop zero cs h = h
  All-drop (suc n) [] h = h
  All-drop (suc n) (c ∷ cs) h = All-drop n cs h.1

  pub All-take : (n : ℕ) (cs : List ChunkInfo) → All P cs → All P (take n cs)
  All-take zero cs h = tt
  All-take (suc n) [] h = h
  All-take (suc n) (c ∷ cs) h = (h.0, All-take n cs h.1)
