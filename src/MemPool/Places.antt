-- ===== src/MemPool/Places.antt =====
-- Where the chunks of a pool stand after `FindChunk`, and that their memory does not overlap.
use parquet_cpp.Common.{
  ℕ, zero, suc, ◌+◌, ◌-◌, ◌≤◌, ◌<◌, ◌≡◌, ◌≢◌, ◌⊎◌, inl, inr, refl, ap, subst, sym, ◌∙◌, List, [],
  ◌∷◌,
}
use parquet_cpp.Common.{
  length, length-set, length-append, length-take, length-drop, get_or, set, take, drop, Bool, true,
  false, ltb, ◌==◌, if◌then◌else◌, arith, ltb→ge, ltb→lt, ge→ltb, ne→==, ==→eq, ==→ne,
}
use parquet_cpp.MemPool.{ChunkInfo, no_chunk, swap}
use parquet_cpp.MemPool.Scan.{length-swap}
use parquet_cpp.MemPool.Find.{inserted}

-- The memory of two chunks does not overlap.
abbrev pub Apart : ChunkInfo → ChunkInfo → Type 0
Apart c d = (c.data_ptr + c.size ≤ d.data_ptr) ⊎ (d.data_ptr + d.size ≤ c.data_ptr)

abbrev pub chunk_at : List ChunkInfo → ℕ → ChunkInfo
chunk_at cs i = get_or cs i no_chunk

unfoldable pub Distinct : List ChunkInfo → Type 0
Distinct cs =
    (i j : ℕ) → i < length cs → j < length cs → i ≢ j → Apart (chunk_at cs i) (chunk_at cs j)

-- Every chunk of the first list is one of the second.
unfoldable pub Includes : List ChunkInfo → List ChunkInfo → Type 0
Includes cs ds =
    (i : ℕ) → i < length cs → (j : ℕ) × (j < length ds) × (chunk_at ds j ≡ chunk_at cs i)

pub get_or-set_at :
    (cs : List ChunkInfo) (i k : ℕ) (v : ChunkInfo)
    → i < length cs
    → chunk_at (set cs i v) k ≡ (if i == k then v else chunk_at cs k)
get_or-set_at [] i k v h = absurd (omega arith)
get_or-set_at (c ∷ cs) zero zero v h = ground arith
get_or-set_at (c ∷ cs) zero (suc k) v h = ground arith
get_or-set_at (c ∷ cs) (suc i) zero v h = ground arith
get_or-set_at (c ∷ cs) (suc i) (suc k) v h = ground (arith, get_or-set_at cs i k v (omega arith))

exchange : ℕ → ℕ → ℕ → ℕ
exchange i j k = if j == k then i else if i == k then j else k

get_or-swap :
    (cs : List ChunkInfo) (i j k : ℕ)
    → i < length cs
    → j < length cs
    → chunk_at (swap cs i j) k ≡ chunk_at cs (exchange i j k)
unfolding swap exchange
get_or-swap cs i j k h l =
    get_or-set_at (set cs i (chunk_at cs j)) j k (chunk_at cs i)
      (omega (arith, length-set cs i (chunk_at cs j)))
    ∙ ap (λ (c : ChunkInfo). if j == k then chunk_at cs i else c)
        (get_or-set_at cs i k (chunk_at cs j) h)
    ∙ ground arith

exchange_twice : (i j k : ℕ) → exchange i j (exchange i j k) ≡ k
unfolding exchange
exchange_twice i j k = ground arith

exchange_below : (i j k n : ℕ) → i < n → j < n → k < n → exchange i j k < n
unfolding exchange
exchange_below i j k n h l m = ground arith

pub swap-Includes :
    (cs : List ChunkInfo) (i j : ℕ) → i < length cs → j < length cs → Includes cs (swap cs i j)
unfolding Includes
swap-Includes cs i j h l k m = (
  exchange i j k,
  omega (arith, exchange_below i j k (length cs) h l m, length-swap cs i j),
  get_or-swap cs i j (exchange i j k) h l ∙ ap (λ (x : ℕ). chunk_at cs x) (exchange_twice i j k),
)

pub swap-Distinct :
    (cs : List ChunkInfo) (i j : ℕ)
    → i < length cs
    → j < length cs
    → Distinct cs
    → Distinct (swap cs i j)
unfolding Distinct
swap-Distinct cs i j h l d a b m n ne =
    subst (λ (c : ChunkInfo). Apart c (chunk_at (swap cs i j) b)) (sym (get_or-swap cs i j a h l))
      (subst (λ (c : ChunkInfo). Apart (chunk_at cs (exchange i j a)) c)
        (sym (get_or-swap cs i j b h l))
        (d (exchange i j a) (exchange i j b)
          (exchange_below i j a (length cs) h l (omega (arith, length-swap cs i j)))
          (exchange_below i j b (length cs) h l (omega (arith, length-swap cs i j)))
          (λ e. ne (
            sym (exchange_twice i j a) ∙ ap (λ (x : ℕ). exchange i j x) e ∙ exchange_twice i j b))))

insert_at :
    (n : ℕ) (v : ChunkInfo) (cs : List ChunkInfo) (k : ℕ)
    → n ≤ length cs
    → chunk_at (inserted n v cs) k
      ≡ (if ltb k n then chunk_at cs k else if k == n then v else chunk_at cs (k - 1))
unfolding inserted
insert_at zero v cs zero h = ground arith
insert_at zero v cs (suc k) h = ground arith
insert_at (suc n) v [] k h = absurd (omega arith)
insert_at (suc n) v (c ∷ cs) zero h = ground arith
insert_at (suc n) v (c ∷ cs) (suc zero) h = ground (arith, insert_at n v cs zero (omega arith))
insert_at (suc n) v (c ∷ cs) (suc (suc k)) h =
    let e : suc (suc k) - 1 ≡ suc (suc k - 1) = omega arith in
    let back : chunk_at (c ∷ cs) (suc (suc k) - 1) ≡ chunk_at cs (suc k - 1) =
      ap (λ (x : ℕ). chunk_at (c ∷ cs) x) e in
    ground (arith, insert_at n v cs (suc k) (omega arith), back)

length-inserted :
    (n : ℕ) (v : ChunkInfo) (cs : List ChunkInfo)
    → n ≤ length cs
    → length (inserted n v cs) ≡ suc (length cs)
unfolding inserted
length-inserted n v cs h =
    omega (arith, length-append (take n cs) (v ∷ drop n cs), length-take n cs h, length-drop n cs)

-- The place of an old chunk after the insertion, and of a new one before it.
moved : ℕ → ℕ → ℕ
moved n i = if ltb i n then i else i + 1

insert_here :
    (n : ℕ) (v : ChunkInfo) (cs : List ChunkInfo) → n ≤ length cs → chunk_at (inserted n v cs) n ≡ v
insert_here n v cs h = insert_at n v cs n h ∙ ground arith

insert_moved :
    (n : ℕ) (v : ChunkInfo) (cs : List ChunkInfo) (i : ℕ)
    → n ≤ length cs
    → chunk_at (inserted n v cs) (moved n i) ≡ chunk_at cs i
unfolding moved
insert_moved n v cs i h = go (ltb i n) refl
  where
    go :
        (b : Bool)
        → ltb i n ≡ b
        → chunk_at (inserted n v cs) (if b then i else i + 1) ≡ chunk_at cs i
    go true e =
        insert_at n v cs i h
        ∙ ap (λ (b : Bool). if b then chunk_at cs i else if i == n then v else chunk_at cs (i - 1))
            e
    go false e =
        let past : n ≤ i = ltb→ge i n e in
        insert_at n v cs (i + 1) h
        ∙ ap
            (λ (b : Bool).
              if b then chunk_at cs (i + 1) else if i + 1 == n then v else chunk_at cs (i + 1 - 1))
            (ge→ltb (i + 1) n (omega arith))
        ∙ ap (λ (b : Bool). if b then v else chunk_at cs (i + 1 - 1))
            (ne→== (i + 1) n (omega arith))
        ∙ ap (λ (x : ℕ). chunk_at cs x) (omega arith)

place : (n k len : ℕ) → n ≤ len → k < suc len → (k ≡ n) ⊎ ((i : ℕ) × (i < len) × (k ≡ moved n i))
unfolding moved
place n k len h l = go (ltb k n) (k == n) refl refl
  where
    go :
        (b c : Bool)
        → ltb k n ≡ b
        → (k == n) ≡ c
        → (k ≡ n) ⊎ ((i : ℕ) × (i < len) × (k ≡ moved n i))
    go true c e f =
        inr (k, omega (arith, ltb→lt k n e), ap (λ (b : Bool). if b then k else k + 1) (sym e))
    go false true e f = inl (==→eq k n f)
    go false false e f =
        let past : n < k = omega (arith, ltb→ge k n e, ==→ne k n f) in
        inr (
          k - 1,
          omega (arith, past),
          (omega (arith, past))
              ∙ ap (λ (b : Bool). if b then k - 1 else k - 1 + 1)
                  (sym (ge→ltb (k - 1) n (omega (arith, past)))),
        )

moved-below : (n i len : ℕ) → i < len → moved n i < suc len
unfolding moved
moved-below n i len h = ground arith

pub inserted-Includes :
    (n : ℕ) (v : ChunkInfo) (cs : List ChunkInfo) → n ≤ length cs → Includes cs (inserted n v cs)
unfolding Includes
inserted-Includes n v cs h i k = (
  moved n i,
  omega (arith, moved-below n i (length cs) k, length-inserted n v cs h),
  insert_moved n v cs i h,
)

Apart-sym : (c d : ChunkInfo) → Apart c d → Apart d c
Apart-sym c d (inl h) = inr h
Apart-sym c d (inr h) = inl h

pub inserted-Distinct :
    (n : ℕ) (v : ChunkInfo) (cs : List ChunkInfo)
    → n ≤ length cs
    → ((i : ℕ) → i < length cs → Apart v (chunk_at cs i))
    → Distinct cs
    → Distinct (inserted n v cs)
unfolding Distinct
inserted-Distinct n v cs h fresh d a b l m ne =
    go (place n a (length cs) h (omega (arith, length-inserted n v cs h)))
      (place n b (length cs) h (omega (arith, length-inserted n v cs h)))
  where
    Old : ℕ → Type 0
    Old k = (i : ℕ) × (i < length cs) × (k ≡ moved n i)

    new : (k : ℕ) → k ≡ n → chunk_at (inserted n v cs) k ≡ v
    new k e = ap (λ (x : ℕ). chunk_at (inserted n v cs) x) e ∙ insert_here n v cs h

    old : (k i : ℕ) → k ≡ moved n i → chunk_at (inserted n v cs) k ≡ chunk_at cs i
    old k i e = ap (λ (x : ℕ). chunk_at (inserted n v cs) x) e ∙ insert_moved n v cs i h

    at : {c d c' d' : ChunkInfo} → c ≡ c' → d ≡ d' → Apart c' d' → Apart c d
    at {c} {d} {c'} {d'} e f k =
        subst (λ (x : ChunkInfo). Apart x d) (sym e)
          (subst (λ (x : ChunkInfo). Apart c' x) (sym f) k)

    go :
        (a ≡ n) ⊎ Old a
        → (b ≡ n) ⊎ Old b
        → Apart (chunk_at (inserted n v cs) a) (chunk_at (inserted n v cs) b)
    go (inl e) (inl f) = absurd (ne (e ∙ sym f))
    go (inl e) (inr (j, l', f)) = at (new a e) (old b j f) (fresh j l')
    go (inr (i, k', e)) (inl f) =
        at (old a i e) (new b f) (Apart-sym v (chunk_at cs i) (fresh i k'))
    go (inr (i, k', e)) (inr (j, l', f)) =
        at (old a i e) (old b j f)
          (d i j k' l' (λ (q : i ≡ j). ne (e ∙ ap (λ (x : ℕ). moved n x) q ∙ sym f)))
