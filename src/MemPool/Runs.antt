-- ===== src/MemPool/Runs.antt =====
-- Runs of the pool on concrete calls, and the theorems at concrete inputs.
use parquet_cpp.Common.{
  ℕ, zero, suc, ◌+◌, ◌-◌, ◌*◌, ◌^◌, ◌≤◌, ◌≡◌, ◌⊎◌, inr, refl, ap, Bool, some, true, false, [], ◌∷◌,
  arith, ◌==◌, ne→==, if◌then◌else◌,
}
use parquet_cpp.BitUtil.{round_up}
use parquet_cpp.MemPool.{
  find_chunk, Answer, thrown, null, memory, MemPool, make, return_partial_allocation, clear,
  allocate, acquire_data, check_integrity,
}
use parquet_cpp.MemPool.Scan.{sum_of}
use parquet_cpp.MemPool.Sound.{IsSound}
use parquet_cpp.MemPool.Keeps.{make-IsSound}
use parquet_cpp.MemPool.Places.{Distinct}
use parquet_cpp.MemPool.Kept.{IsFresh}
use parquet_cpp.MemPool.Safe.{IsLive}
use parquet_cpp.MemPool.Allocated.{allocate-safe}
use parquet_cpp.MemPool.Acquired.{acquire_data-Conserves, Conserves}
use parquet_cpp.MemPool.Reached.{
  made, allocated, acquired_from, IsReached-IsSound, NeverFails, allocate-succeeds,
}

-- As `TrackingAllocator::Malloc`, NULL for no bytes; with memory, without, and out of memory.
abbrev give : ℕ → ℕ → Answer
give buf size = if size == 0 then null else memory buf

abbrev refuse : ℕ → Answer
refuse size = null

abbrev out_of_memory : ℕ → Answer
out_of_memory size = if size == 0 then null else thrown

abbrev first : MemPool
first = record {
  used_chunks = 1;
  next_chunk_size = 8192;
  total_allocated_bytes = 16;
  peak_allocated_bytes = 16;
  total_reserved_bytes = 4096;
  chunks = record { data_ptr = 1000; size = 4096; allocated_bytes = 16 } ∷ [];
}

-- Ten bytes take sixteen of a chunk of 4096.
allocates : allocate (give 1000) 10 make ≡ (first, memory 1000)
unfolding allocate round_up
allocates = refl

-- What does not fit makes a second chunk, of the next size.
grows : (allocate (give 9000) 5000 first).1 ≡ memory 9000
unfolding allocate round_up
grows = refl

-- The chunks of a pool that is cleared are used again, the big one first.
reuses : (allocate refuse 5000 (clear (allocate (give 9000) 5000 first).0)).1 ≡ memory 9000
unfolding allocate round_up clear
reuses = refl

abbrev with_free_chunk : MemPool
with_free_chunk = record {
  used_chunks = 1;
  next_chunk_size = 16384;
  total_allocated_bytes = 4096;
  peak_allocated_bytes = 9096;
  total_reserved_bytes = 12288;
  chunks =
      record { data_ptr = 1000; size = 4096; allocated_bytes = 4096 }
      ∷ record { data_ptr = 9000; size = 8192; allocated_bytes = 0 }
      ∷ [];
}

free_chunk_integrity : check_integrity false with_free_chunk ≡ true
unfolding check_integrity
free_chunk_integrity = refl

-- A failed allocation makes the last free chunk the current one, which has no data then.
failure_breaks_integrity : check_integrity false (allocate refuse 10000 with_free_chunk).0 ≡ false
unfolding allocate round_up check_integrity
failure_breaks_integrity = refl

-- So does the return of the whole of the only allocation of a chunk.
return_breaks_integrity : check_integrity false (return_partial_allocation 16 first) ≡ false
unfolding return_partial_allocation check_integrity
return_breaks_integrity = refl

-- After part of an allocation is returned, the next pointer is not aligned.
unaligned : (allocate refuse 8 (return_partial_allocation 3 first)).1 ≡ memory 1013
unfolding allocate round_up return_partial_allocation
unaligned = refl

-- An exception of `Malloc` leaves an index behind the chunks.
throw_leaves_index : allocate out_of_memory 5000 first ≡ (record first { used_chunks = 2 }, thrown)
unfolding allocate round_up
throw_leaves_index = refl

-- The next call that the read behind the chunks gives no room moves the index on, and `FindChunk` says
-- that it found a chunk.
throw_then_found :
    find_chunk (give 9000) 5000 (record first { used_chunks = 2 })
    ≡ (record first { used_chunks = 3 }, some true)
unfolding find_chunk
throw_then_found = refl

abbrev two_gigabytes : MemPool
two_gigabytes = record {
  used_chunks = 1;
  next_chunk_size = 1048576;
  total_allocated_bytes = 2147483648;
  peak_allocated_bytes = 2147483648;
  total_reserved_bytes = 2147483648;
  chunks = record { data_ptr = 1000; size = 2147483648; allocated_bytes = 2147483648 } ∷ [];
}

-- The largest `int`, rounded up, fills a chunk that no `int` measures.
fills : allocate (give 1000) 2147483647 make ≡ (two_gigabytes, memory 1000)
unfolding allocate round_up
fills = refl

abbrev one_more : MemPool
one_more = (allocate (give 9000000000) 2147483647 two_gigabytes).0

-- Its negative free offset stays with the source, and as many bytes too many go to the other pool.
loses_count :
    ((acquire_data one_more true make).1.total_allocated_bytes ≡ 2 ^ 64 - 2 ^ 31)
    × ((acquire_data one_more true make).0.total_allocated_bytes ≡ 3 * 2 ^ 31)
unfolding allocate round_up acquire_data
loses_count = (refl, refl)

first-IsSound : IsSound first
unfolding sum_of
first-IsSound = record {
  within = omega arith;
  in_place = ((omega arith, omega arith), tt);
  unused = tt;
  allocated = refl;
  reserved = refl;
  peak = omega arith;
  growth = (omega arith, omega arith);
}

first-Distinct : Distinct first.chunks
unfolding Distinct
first-Distinct i j h l ne = absurd (ne (omega (arith, h, l)))

give-address : (size a b : ℕ) → give a size ≡ memory b → a ≡ b
give-address size a b e = nonzero (size == 0) e
  where
    nonzero : (z : Bool) → (if z then null else memory a) ≡ memory b → a ≡ b
    nonzero true e = cc
    nonzero false e = cc

give-IsFresh : IsFresh (give 9000) first
give-IsFresh size buf e zero h = inr (omega (arith, give-address size 9000 buf e))
give-IsFresh size buf e (suc i) h = absurd (omega (arith, h))

give-NeverFails : NeverFails (give 9000)
give-NeverFails size h =
    (9000, ap (λ (b : Bool). if b then null else memory 9000) (ne→== size 0 (omega (arith, h))))

IsReached-IsSound_example :
    IsSound
      (acquire_data (allocate (give 1000) 10 make).0 true (allocate (give 9000) 5000 make).0).1
unfolding allocate round_up
IsReached-IsSound_example = IsReached-IsSound (
    acquired_from true (omega arith) (omega arith) (allocated (give 9000) 5000 (λ e. cc) made)
      (allocated (give 1000) 10 (λ e. cc) made))

allocate-safe_example :
    IsLive (allocate (give 9000) 5000 first).0 9000 5000
    × Distinct (allocate (give 9000) 5000 first).0.chunks
    × ((b m : ℕ)
        → IsLive first b m
        → IsLive (allocate (give 9000) 5000 first).0 b m × ((b + m ≤ 9000) ⊎ (9000 + 5000 ≤ b)))
unfolding allocate round_up
allocate-safe_example =
    allocate-safe (give 9000) 5000 first (allocate (give 9000) 5000 first).0 9000 first-IsSound
      give-IsFresh first-Distinct refl

allocate-succeeds_example :
    (q : MemPool) × (a : ℕ) × (allocate (give 9000) 5000 first ≡ (q, memory a))
    × IsSound q
    × Distinct q.chunks
    × IsLive q a 5000
    × ((b m : ℕ) → IsLive first b m → IsLive q b m × ((b + m ≤ a) ⊎ (a + 5000 ≤ b)))
allocate-succeeds_example =
    allocate-succeeds (give 9000) 5000 first first-IsSound give-IsFresh first-Distinct
      give-NeverFails (omega arith)

acquire_data-Conserves_example : Conserves make first (acquire_data first false make)
acquire_data-Conserves_example =
    acquire_data-Conserves first false make make-IsSound first-IsSound (omega arith) (omega arith)
