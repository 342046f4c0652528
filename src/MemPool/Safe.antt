-- ===== src/MemPool/Safe.antt =====
-- The memory that one step of `Allocate` hands out.
use parquet_cpp.Common.{ℕ, ◌+◌, ◌-◌, ◌≤◌, ◌<◌, ◌≡◌, ◌⊎◌, inl, inr, refl, ap, subst, ◌∙◌, List}
use parquet_cpp.Common.{
  length, length-set, set, Bool, true, false, ◌==◌, if◌then◌else◌, arith, ==→eq, ==→ne,
}
use parquet_cpp.MemPool.{Answer, thrown, null, memory, ChunkInfo, MemPool, current_chunk, bump}
use parquet_cpp.MemPool.Scan.{get_or-set_same, All-get_or}
use parquet_cpp.MemPool.Sound.{InPlace, IsSound, HasRoom}
use parquet_cpp.MemPool.Places.{Apart, chunk_at, Distinct, Includes, get_or-set_at}

-- The `m` bytes from `b` on are allocated.
unfoldable pub IsLive : MemPool → ℕ → ℕ → Type 0
IsLive p b m =
    (i : ℕ) × (i < length p.chunks)
    × ((chunk_at p.chunks i).data_ptr ≤ b)
    × (b + m ≤ (chunk_at p.chunks i).data_ptr + (chunk_at p.chunks i).allocated_bytes)

pub Includes-IsLive :
    (p q : MemPool) (b m : ℕ) → Includes p.chunks q.chunks → IsLive p b m → IsLive q b m
unfolding Includes IsLive
Includes-IsLive p q b m k (i, h, lo, hi) =
    let (j, l, e) = k i h in
    let start = ap (λ (c : ChunkInfo). c.data_ptr) e in
    let filled = ap (λ (c : ChunkInfo). c.allocated_bytes) e in
    (j, l, omega (arith, lo, start), omega (arith, hi, start, filled))

-- What `Allocate` promises of `n` bytes, in a pool that was `p`.
unfoldable pub IsSafe : ℕ → MemPool → MemPool × Answer → Type 0
IsSafe n p (q, thrown) = Unit
IsSafe n p (q, null) = Unit
IsSafe n p (q, memory a) =
    IsLive q a n
    × Distinct q.chunks
    × ((b m : ℕ) → IsLive p b m → IsLive q b m × ((b + m ≤ a) ⊎ (a + n ≤ b)))

-- The chunks after `n` bytes more of the chunk `x` are allocated.
raised : List ChunkInfo → ℕ → ℕ → List ChunkInfo
raised cs x n =
    set cs x (record (chunk_at cs x) { allocated_bytes = (chunk_at cs x).allocated_bytes + n })

raised_lem :
    (cs : List ChunkInfo) (x n k : ℕ)
    → x < length cs
    → ((chunk_at (raised cs x n) k).data_ptr ≡ (chunk_at cs k).data_ptr)
      × ((chunk_at (raised cs x n) k).size ≡ (chunk_at cs k).size)
      × ((chunk_at cs k).allocated_bytes ≤ (chunk_at (raised cs x n) k).allocated_bytes)
unfolding raised
raised_lem cs x n k h = go (x == k) refl
  where
    v : ChunkInfo
    v = record (chunk_at cs x) { allocated_bytes = (chunk_at cs x).allocated_bytes + n }

    there : (b : Bool) → (x == k) ≡ b → chunk_at (set cs x v) k ≡ (if b then v else chunk_at cs k)
    there b e = get_or-set_at cs x k v h ∙ ap (λ (t : Bool). if t then v else chunk_at cs k) e

    parts :
        {c d : ChunkInfo}
        → c ≡ d
        → (c.data_ptr ≡ d.data_ptr) × (c.size ≡ d.size) × (c.allocated_bytes ≡ d.allocated_bytes)
    parts e = (
      ap (λ (c : ChunkInfo). c.data_ptr) e,
      ap (λ (c : ChunkInfo). c.size) e,
      ap (λ (c : ChunkInfo). c.allocated_bytes) e,
    )

    go :
        (b : Bool)
        → (x == k) ≡ b
        → ((chunk_at (set cs x v) k).data_ptr ≡ (chunk_at cs k).data_ptr)
          × ((chunk_at (set cs x v) k).size ≡ (chunk_at cs k).size)
          × ((chunk_at cs k).allocated_bytes ≤ (chunk_at (set cs x v) k).allocated_bytes)
    go true e =
        let (d, s, a) = parts (there true e) in
        let (d', s', a') = parts (ap (λ (i : ℕ). chunk_at cs i) (==→eq x k e)) in
        (d ∙ d', s ∙ s', omega (arith, a, a'))
    go false e = let (d, s, a) = parts (there false e) in (d, s, omega (arith, a))

Apart-raised :
    (cs : List ChunkInfo) (x n i j : ℕ)
    → x < length cs
    → Apart (chunk_at cs i) (chunk_at cs j)
    → Apart (chunk_at (raised cs x n) i) (chunk_at (raised cs x n) j)
Apart-raised cs x n i j h (inl k) =
    let a = raised_lem cs x n i h in
    let b = raised_lem cs x n j h in inl (omega (arith, k, a.0, a.1, b.0))
Apart-raised cs x n i j h (inr k) =
    let a = raised_lem cs x n i h in
    let b = raised_lem cs x n j h in inr (omega (arith, k, a.0, b.1, b.0))

-- Memory of a chunk, and memory behind what the chunk `x` has filled.
clear_of :
    (cs : List ChunkInfo) (x n i b m : ℕ)
    → (i ≡ x) ⊎ Apart (chunk_at cs i) (chunk_at cs x)
    → (chunk_at cs i).data_ptr ≤ b
    → b + m ≤ (chunk_at cs i).data_ptr + (chunk_at cs i).allocated_bytes
    → (chunk_at cs i).allocated_bytes ≤ (chunk_at cs i).size
    → (chunk_at cs x).allocated_bytes + n ≤ (chunk_at cs x).size
    → (b + m ≤ (chunk_at cs x).data_ptr + (chunk_at cs x).allocated_bytes)
      ⊎ ((chunk_at cs x).data_ptr + (chunk_at cs x).allocated_bytes + n ≤ b)
clear_of cs x n i b m (inl e) lo hi ok room =
    inl (subst (λ (k : ℕ). b + m ≤ (chunk_at cs k).data_ptr + (chunk_at cs k).allocated_bytes) e hi)
clear_of cs x n i b m (inr (inl h)) lo hi ok room = inl (omega (arith, h, hi, ok))
clear_of cs x n i b m (inr (inr h)) lo hi ok room = inr (omega (arith, h, lo, room))

pub bump-IsSafe :
    (n : ℕ) (p : MemPool) → IsSound p → HasRoom n p → Distinct p.chunks → IsSafe n p (bump n p)
unfolding bump IsSafe IsLive Distinct raised
bump-IsSafe n p h room d =
    let cs = p.chunks in
    let x = p.used_chunks - 1 in
    let inside : x < length cs = omega (arith, h.within, room.0) in
    let len =
      length-set cs x
        (record (current_chunk p) { allocated_bytes = (current_chunk p).allocated_bytes + n }) in
    let here =
      get_or-set_same cs x
        (record (current_chunk p) { allocated_bytes = (current_chunk p).allocated_bytes + n })
        inside in
    (
      (
        x,
        omega (arith, inside, len),
        omega (arith, ap (λ (c : ChunkInfo). c.data_ptr) here),
        omega (
          arith,
          ap (λ (c : ChunkInfo). c.data_ptr) here,
          ap (λ (c : ChunkInfo). c.allocated_bytes) here,
        ),
      ),
      (λ i j l m ne.
          Apart-raised cs x n i j inside
            (d i j (omega (arith, l, len)) (omega (arith, m, len)) ne)),
      λ b m live. old b m live,
    )
  where
    x : ℕ
    x = p.used_chunks - 1

    inside : x < length p.chunks
    inside = omega (arith, h.within, room.0)

    other :
        (i : ℕ)
        → i < length p.chunks
        → (b : Bool) → (i == x) ≡ b
        → (i ≡ x) ⊎ Apart (chunk_at p.chunks i) (chunk_at p.chunks x)
    other i l true e = inl (==→eq i x e)
    other i l false e = inr (d i x l inside (==→ne i x e))

    old :
        (b m : ℕ)
        → IsLive p b m
        → IsLive (bump n p).0 b m
          × ((b + m ≤ (current_chunk p).data_ptr + (current_chunk p).allocated_bytes)
              ⊎ ((current_chunk p).data_ptr + (current_chunk p).allocated_bytes + n ≤ b))
    old b m (i, l, lo, hi) =
        let r = raised_lem p.chunks x n i inside in
        (
          (
            i,
            omega (
              arith,
              l,
              length-set p.chunks x (record (current_chunk p) {
                allocated_bytes = (current_chunk p).allocated_bytes + n;
              }),
            ),
            omega (arith, lo, r.0),
            omega (arith, hi, r.0, r.2),
          ),
          clear_of p.chunks x n i b m (other i l (i == x) refl) lo hi
              (All-get_or InPlace p.chunks i h.in_place l).1 room.1,
        )
