-- ===== src/MemPool/Allocated.antt =====
-- The memory that `Allocate` hands out.
use parquet_cpp.Common.{ℕ, ◌+◌, ◌≤◌, ◌≡◌, ◌⊎◌, inl, inr, refl, subst, Option, none, some}
use parquet_cpp.Common.{Bool, true, false, ltb, ◌==◌, ◌||◌, if◌then◌else◌, arith}
use parquet_cpp.BitUtil.{round_up}
use parquet_cpp.BitUtil.Rounding.{round_up_lem}
use parquet_cpp.MemPool.{
  Answer, thrown, null, memory, MemPool, current_chunk, find_chunk, bump, bump_found, allocate,
}
use parquet_cpp.MemPool.Sound.{IsSound}
use parquet_cpp.MemPool.Find.{Finds, find_chunk-Finds}
use parquet_cpp.MemPool.Keeps.{room_or_find}
use parquet_cpp.MemPool.Places.{Distinct}
use parquet_cpp.MemPool.Kept.{IsFresh, Kept, find_chunk-Kept}
use parquet_cpp.MemPool.Safe.{IsLive, Includes-IsLive, IsSafe, bump-IsSafe}

after_find :
    (n : ℕ) (p q : MemPool) (r : MemPool × Answer)
    → Kept p.chunks q.chunks
    → IsSafe n q r
    → IsSafe n p r
unfolding IsSafe
after_find n p q (q', thrown) k h = tt
after_find n p q (q', null) k h = tt
after_find n p q (q', memory a) k (live, d, old) =
    (live, d, λ b m l. old b m (Includes-IsLive p q b m k.1 l))

bump_found-IsSafe :
    (n : ℕ) (p : MemPool) (r : MemPool × Option Bool)
    → Kept p.chunks r.0.chunks
    → Finds n r
    → IsSafe n p (bump_found n r)
unfolding bump_found IsSafe
bump_found-IsSafe n p (q, some true) k h =
    after_find n p q (bump n q) k (bump-IsSafe n q h.0 h.1 k.0)
bump_found-IsSafe n p (q, some false) k h = tt
bump_found-IsSafe n p (q, none) k h = tt

-- Fewer bytes of the memory.
fewer :
    (size n : ℕ) (p : MemPool) (r : MemPool × Answer) → size ≤ n → IsSafe n p r → IsSafe size p r
unfolding IsSafe IsLive
fewer size n p (q, thrown) le h = tt
fewer size n p (q, null) le h = tt
fewer size n p (q, memory a) le ((i, l, lo, hi), d, old) = (
  (i, l, lo, omega (arith, hi, le)),
  d,
  λ b m live. let (kept, apart) = old b m live in (kept, closer b m apart),
)
  where
    closer : (b m : ℕ) → (b + m ≤ a) ⊎ (a + n ≤ b) → (b + m ≤ a) ⊎ (a + size ≤ b)
    closer b m (inl x) = inl x
    closer b m (inr x) = inr (omega (arith, x, le))

no_pointer : (n : ℕ) (p q : MemPool) → IsSafe n p (q, null)
unfolding IsSafe
no_pointer n p q = tt

allocate-IsSafe :
    (malloc : ℕ → Answer) (size : ℕ) (p : MemPool)
    → IsSound p
    → IsFresh malloc p
    → Distinct p.chunks
    → IsSafe size p (allocate malloc size p)
unfolding allocate
allocate-IsSafe malloc size p h fresh d = empty (size == 0)
  where
    n : ℕ
    n = round_up size 8

    le : size ≤ n
    le = (round_up_lem size 8 (omega arith)).0

    find :
        (b : Bool)
        → (p.used_chunks == 0 || ltb (current_chunk p).size (n + (current_chunk p).allocated_bytes))
          ≡ b
        → IsSafe size p (if b then bump_found n (find_chunk malloc n p) else bump n p)
    find true e = fewer size n p _ le (
        bump_found-IsSafe n p (find_chunk malloc n p) (find_chunk-Kept malloc n p h fresh d)
          (find_chunk-Finds malloc n p h))
    find false e = fewer size n p _ le (bump-IsSafe n p h (room_or_find n p e) d)

    empty :
        (b : Bool)
        → IsSafe size p (
            if b
            then (p, null)
            else if p.used_chunks == 0
                || ltb (current_chunk p).size (n + (current_chunk p).allocated_bytes)
            then bump_found n (find_chunk malloc n p)
            else bump n p)
    empty true = no_pointer size p p
    empty false = find _ refl

-- Where the chunks of the pool do not overlap and `Malloc` returns memory that overlaps none of them,
-- a pointer that `Allocate` returns is to `size` bytes of allocated memory of a chunk; the chunks still
-- do not overlap; and memory that was allocated before stays allocated and has no byte in common with
-- the new memory.
pub allocate-safe :
    (malloc : ℕ → Answer) (size : ℕ) (p q : MemPool) (a : ℕ)
    → IsSound p
    → IsFresh malloc p
    → Distinct p.chunks
    → allocate malloc size p ≡ (q, memory a)
    → IsLive q a size
      × Distinct q.chunks
      × ((b m : ℕ) → IsLive p b m → IsLive q b m × ((b + m ≤ a) ⊎ (a + size ≤ b)))
unfolding IsSafe
allocate-safe malloc size p q a h fresh d e =
    subst (λ (r : MemPool × Answer). IsSafe size p r) e (allocate-IsSafe malloc size p h fresh d)
