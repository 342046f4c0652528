-- ===== src/MemPool/Acquire.antt =====
-- What `AcquireData` takes from the source.
use parquet_cpp.Common.{
  ℕ, zero, suc, ◌+◌, ◌-◌, ◌≤◌, ◌<◌, ◌≡◌, ◌≢◌, refl, ap, sym, ◌∙◌, List, [], ◌∷◌,
}
use parquet_cpp.Common.{
  length, get_or, take, drop, take-append-drop, All, Bool, true, false, ◌==◌, if◌then◌else◌, arith,
  ==→eq, ne→==,
}
use parquet_cpp.MemPool.{ChunkInfo, no_chunk, MemPool, current_chunk, get_total_chunk_sizes}
use parquet_cpp.MemPool.Exact.{free_offset, num_taken}
use parquet_cpp.MemPool.Scan.{sum_of, sum_of-append}
use parquet_cpp.MemPool.Sound.{IsFree, allocated_of, size_of, IsSound}

pub sum_of-free : (cs : List ChunkInfo) → All IsFree cs → sum_of allocated_of cs ≡ 0
unfolding sum_of
sum_of-free [] h = refl
sum_of-free (c ∷ cs) h = omega (arith, h.0, sum_of-free cs h.1)

pub sum_of-parts :
    (f : ChunkInfo → ℕ) (n : ℕ) (cs : List ChunkInfo)
    → sum_of f (take n cs) + sum_of f (drop n cs) ≡ sum_of f cs
sum_of-parts f n cs = omega (
  arith,
  sum_of-append f (take n cs) (drop n cs),
  ap (λ (l : List ChunkInfo). sum_of f l) (take-append-drop n cs),
)

pub total_sizes : (cs : List ChunkInfo) → get_total_chunk_sizes cs ≡ sum_of size_of cs
unfolding get_total_chunk_sizes sum_of
total_sizes [] = refl
total_sizes (c ∷ cs) = omega (arith, total_sizes cs)

drop-current :
    (n : ℕ) (cs : List ChunkInfo)
    → n < length cs
    → drop n cs ≡ get_or cs n no_chunk ∷ drop (n + 1) cs
drop-current n [] h = absurd (omega arith)
drop-current zero (c ∷ cs) h = refl
drop-current (suc n) (c ∷ cs) h =
    let e : suc n + 1 ≡ suc (n + 1) = omega arith in
    drop-current n cs (omega arith) ∙ ap (λ (k : ℕ). get_or cs n no_chunk ∷ drop k (c ∷ cs)) (sym e)

-- The chunks that stay, and the bytes that are allocated in them.
pub sum_of-left :
    (p : MemPool)
    → IsSound p
    → 0 < p.used_chunks
    → sum_of allocated_of (drop (p.used_chunks - 1) p.chunks) ≡ (current_chunk p).allocated_bytes
unfolding sum_of
sum_of-left p h used =
    let n = p.used_chunks - 1 in
    let back : n + 1 ≡ p.used_chunks = omega (arith, used) in
    omega (
      arith,
      ap (λ (l : List ChunkInfo). sum_of allocated_of l)
          (drop-current n p.chunks (omega (arith, used, h.within))
            ∙ ap (λ (k : ℕ). current_chunk p ∷ drop k p.chunks) back),
      sum_of-free (drop p.used_chunks p.chunks) h.unused,
    )

-- The number of chunks that `AcquireData` takes, and what it leaves.
unfoldable pub Takes : MemPool → Bool → ℕ → Type 0
Takes src keep n =
    (n ≤ src.used_chunks)
    × ((keep ≡ true) → n < length src.chunks)
    × (sum_of allocated_of (drop n src.chunks)
        ≡ (if keep then (get_or (drop n src.chunks) 0 no_chunk).allocated_bytes else 0))

pub first_left :
    (src : MemPool)
    → IsSound src
    → 0 < src.used_chunks
    → get_or (drop (src.used_chunks - 1) src.chunks) 0 no_chunk ≡ current_chunk src
first_left src h used =
    ap (λ (l : List ChunkInfo). get_or l 0 no_chunk)
      (drop-current (src.used_chunks - 1) src.chunks (omega (arith, used, h.within)))

pub free_offset-current :
    (p : MemPool) → 0 < p.used_chunks → free_offset p ≡ (current_chunk p).allocated_bytes
unfolding free_offset
free_offset-current p used =
    ap (λ (b : Bool). if b then 0 else (current_chunk p).allocated_bytes)
      (ne→== p.used_chunks 0 (omega (arith, used)))

leave-Takes :
    (src : MemPool) (b : Bool)
    → IsSound src
    → (free_offset src == 0) ≡ b
    → (if b then src.used_chunks - 1 else src.used_chunks) ≢ 0
    → Takes src false (if b then src.used_chunks - 1 else src.used_chunks)
unfolding Takes
leave-Takes src true h e some =
    let used : 0 < src.used_chunks = omega (arith, some) in
    (
      omega arith,
      λ k. cc,
      omega (
        arith,
        sum_of-left src h used,
        free_offset-current src used,
        ==→eq (free_offset src) 0 e,
      ),
    )
leave-Takes src false h e some =
    (omega arith, λ k. cc, sum_of-free (drop src.used_chunks src.chunks) h.unused)

pub num_taken-Takes :
    (src : MemPool) (keep : Bool)
    → IsSound src
    → num_taken src keep ≢ 0
    → Takes src keep (num_taken src keep)
unfolding num_taken Takes
num_taken-Takes src true h some = keep_Takes
  where
    used : 0 < src.used_chunks
    used = omega (arith, some)

    keep_Takes : Takes src true (src.used_chunks - 1)
    keep_Takes = (
      omega arith,
      λ k. omega (arith, used, h.within),
      sum_of-left src h used
          ∙ ap (λ (c : ChunkInfo). c.allocated_bytes) (sym (first_left src h used)),
    )
num_taken-Takes src false h some = leave-Takes src (free_offset src == 0) h refl some
