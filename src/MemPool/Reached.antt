-- ===== src/MemPool/Reached.antt =====
-- The pools that a program can reach by calls of the class, and that an allocation comes to an end
-- with a pointer where `Malloc` does.
use parquet_cpp.Common.{
  ℕ, ◌+◌, ◌^◌, ◌≤◌, ◌<◌, ◌≡◌, ◌≢◌, ◌⊎◌, arith, refl, ap, ◌∙◌, Option, none, some, Bool, true, false,
  max, ltb, ◌==◌, ◌||◌, if◌then◌else◌, ne→==, drop, length,
}
use parquet_cpp.BitUtil.{round_up}
use parquet_cpp.MemPool.{
  Answer, thrown, null, memory, MemPool, make, current_chunk, return_partial_allocation, clear,
  free_all, allocate, acquire_data, find_chunk, leave_loop, new_chunk, use_free_chunk, add_chunk,
  scan, bump, bump_found,
}
use parquet_cpp.MemPool.Sound.{IsSound}
use parquet_cpp.MemPool.Find.{leave_loop-new_chunk}
use parquet_cpp.MemPool.Keeps.{
  make-IsSound, allocate-IsSound, clear-IsSound, free_all-IsSound,
  return_partial_allocation-IsSound,
}
use parquet_cpp.MemPool.Acquired.{acquire_data-IsSound}
use parquet_cpp.MemPool.Places.{Distinct}
use parquet_cpp.MemPool.Kept.{IsFresh}
use parquet_cpp.MemPool.Safe.{IsLive}
use parquet_cpp.MemPool.Allocated.{allocate-safe}

-- One constructor for each operation. Each call of `Allocate` meets an allocator of its own, and
-- returns: its `Malloc` does not throw. `ReturnPartialAllocation` is called where its DCHECKs hold,
-- and `AcquireData` where the free offset of the source is an `int` and the bytes of both pools are an
-- `int64_t`. Both pools of an `AcquireData` are reached before it, and both after it.
pub data IsReached : MemPool → Type 0 where
  made : IsReached make
  allocated :
      (malloc : ℕ → Answer) (size : ℕ) {p : MemPool}
      → (allocate malloc size p).1 ≢ thrown
      → IsReached p
      → IsReached (allocate malloc size p).0
  returned :
      (n : ℕ) {p : MemPool}
      → 0 < p.used_chunks
      → n ≤ (current_chunk p).allocated_bytes
      → IsReached p
      → IsReached (return_partial_allocation n p)
  cleared : {p : MemPool} → IsReached p → IsReached (clear p)
  freed : {p : MemPool} → IsReached p → IsReached (free_all p).0
  acquired :
      (keep : Bool) {p src : MemPool}
      → (current_chunk src).allocated_bytes < 2 ^ 31
      → p.total_allocated_bytes + src.total_allocated_bytes < 2 ^ 63
      → IsReached p
      → IsReached src
      → IsReached (acquire_data src keep p).0
  acquired_from :
      (keep : Bool) {p src : MemPool}
      → (current_chunk src).allocated_bytes < 2 ^ 31
      → p.total_allocated_bytes + src.total_allocated_bytes < 2 ^ 63
      → IsReached p
      → IsReached src
      → IsReached (acquire_data src keep p).1

-- In every pool that calls of the class lead to, none of which ends in an exception of `Malloc`, and
-- each transfer of which finds a free offset that is an `int` and byte counts that are an `int64_t`
-- (allocations that fail with NULL are among them): the chunks behind the current one are free, no chunk is filled over its size, the counts of
-- allocated and of reserved bytes are those of the chunks, the peak is no less than the allocated
-- bytes, and the size of the next chunk is between the initial and the maximum chunk size.
pub IsReached-IsSound : {p : MemPool} → IsReached p → IsSound p
IsReached-IsSound made = make-IsSound
IsReached-IsSound (allocated malloc size {p} returns r) =
    allocate-IsSound malloc size p (IsReached-IsSound r) returns
IsReached-IsSound (returned n {p} used fits r) =
    return_partial_allocation-IsSound n p (IsReached-IsSound r) used fits
IsReached-IsSound (cleared {p} r) = clear-IsSound p (IsReached-IsSound r)
IsReached-IsSound (freed {p} r) = free_all-IsSound p
IsReached-IsSound (acquired keep {p} {src} small sum r s) =
    (acquire_data-IsSound src keep p (IsReached-IsSound r) (IsReached-IsSound s) small sum).0
IsReached-IsSound (acquired_from keep {p} {src} small sum r s) =
    (acquire_data-IsSound src keep p (IsReached-IsSound r) (IsReached-IsSound s) small sum).1

-- `Malloc` answers with memory for every size but 0.
abbrev pub NeverFails : (ℕ → Answer) → Type 0
NeverFails malloc = (size : ℕ) → 0 < size → (buf : ℕ) × (malloc size ≡ memory buf)

Served : MemPool × Answer → Type 0
Served r = (a : ℕ) × (r.1 ≡ memory a)

bump-Served : (n : ℕ) (p : MemPool) → Served (bump n p)
unfolding bump Served
bump-Served n p = (_, refl)

bump_found-Served : (n : ℕ) (r : MemPool × Option Bool) → r.1 ≡ some true → Served (bump_found n r)
unfolding bump_found
bump_found-Served n (q, some true) h = bump-Served n q
bump_found-Served n (q, some false) h = cc
bump_found-Served n (q, none) h = cc

new_chunk-found :
    (malloc : ℕ → Answer) (n : ℕ) (p : MemPool)
    → IsSound p
    → NeverFails malloc
    → (new_chunk malloc n p).1 ≡ some true
unfolding new_chunk
new_chunk-found malloc n p s h =
    ap
      (λ (r : Answer).
        (elim r as (λ (x : Answer). MemPool × Option Bool) [
          | thrown ↦ (record p { used_chunks = length p.chunks + 1 }, none)
          | null ↦ (record p { used_chunks = length p.chunks }, some false)
          | memory buf ↦ (add_chunk (max n p.next_chunk_size) buf p, some true)
        ]).1)
      (h (max n p.next_chunk_size) (omega (arith, s.growth.0))).1

find_chunk-found :
    (malloc : ℕ → Answer) (n : ℕ) (p : MemPool)
    → IsSound p
    → NeverFails malloc
    → (find_chunk malloc n p).1 ≡ some true
unfolding find_chunk
find_chunk-found malloc n p s h = answer (scan n (drop p.used_chunks p.chunks))
  where
    answer :
        (r : Option ℕ)
        → (elim r as (λ (x : Option ℕ). MemPool × Option Bool) [
          | none ↦ leave_loop malloc n p
          | some k ↦ (use_free_chunk k p, some true)
        ]).1
          ≡ some true
    answer none =
        ap (λ (r : MemPool × Option Bool). r.1) (leave_loop-new_chunk malloc n p s.within)
        ∙ new_chunk-found malloc n p s h
    answer (some k) = refl

allocate-Served :
    (malloc : ℕ → Answer) (size : ℕ) (p : MemPool)
    → IsSound p
    → NeverFails malloc
    → size ≢ 0
    → Served (allocate malloc size p)
unfolding allocate Served
allocate-Served malloc size p s h ne =
    let (a, e) =
      find (
        p.used_chunks == 0 || ltb (current_chunk p).size (n + (current_chunk p).allocated_bytes)) in
    (
      a,
      ap
            (λ (b : Bool).
              (if b
                then (p, null)
                else if p.used_chunks == 0
                    || ltb (current_chunk p).size (n + (current_chunk p).allocated_bytes)
                then bump_found n (find_chunk malloc n p)
                else bump n p).1)
            (ne→== size 0 ne)
          ∙ e,
    )
  where
    n : ℕ
    n = round_up size 8

    find : (b : Bool) → Served (if b then bump_found n (find_chunk malloc n p) else bump n p)
    find true = bump_found-Served n (find_chunk malloc n p) (find_chunk-found malloc n p s h)
    find false = bump-Served n p

-- Where `Malloc` answers every size but 0 with memory that overlaps no chunk of the pool, and the
-- chunks do not overlap, `Allocate` returns a pointer for every size but 0: to `size` bytes of
-- allocated memory of a chunk, which have no byte in common with the memory that was allocated before
-- and stays allocated; and the pool keeps its invariants.
pub allocate-succeeds :
    (malloc : ℕ → Answer) (size : ℕ) (p : MemPool)
    → IsSound p
    → IsFresh malloc p
    → Distinct p.chunks
    → NeverFails malloc
    → size ≢ 0
    → (q : MemPool) × (a : ℕ) × (allocate malloc size p ≡ (q, memory a))
      × IsSound q
      × Distinct q.chunks
      × IsLive q a size
      × ((b m : ℕ) → IsLive p b m → IsLive q b m × ((b + m ≤ a) ⊎ (a + size ≤ b)))
unfolding Served
allocate-succeeds malloc size p s fresh d h ne =
    let (a, e) = allocate-Served malloc size p s h ne in
    let q = (allocate malloc size p).0 in
    let returns : allocate malloc size p ≡ (q, memory a) = ap (λ (r : Answer). (q, r)) e in
    let (live, apart, old) = allocate-safe malloc size p q a s fresh d returns in
    (q, a, returns, allocate-IsSound malloc size p s (λ t. cc), apart, live, old)
