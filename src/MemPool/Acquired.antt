-- ===== src/MemPool/Acquired.antt =====
-- `AcquireData` as a whole.
use parquet_cpp.Common.{ℕ, ◌+◌, ◌-◌, ◌^◌, ◌≤◌, ◌<◌, ◌≡◌, ◌≢◌, refl, ap, subst, sym, ◌∙◌, List}
use parquet_cpp.Common.{
  take, drop, All, Bool, true, false, ◌==◌, if◌then◌else◌, arith, ==→eq, ==→ne,
}
use parquet_cpp.MemPool.{
  current_chunk, get_free_offset, settle, ChunkInfo, MemPool, get_total_chunk_sizes, free_all,
  transfer, release, acquire_data,
}
use parquet_cpp.MemPool.Exact.{
  get_free_offset-free_offset, num_acquired_chunks-num_taken, settle-settle_exactly, free_offset,
  num_taken, settle_exactly,
}
use parquet_cpp.MemPool.Scan.{sum_of}
use parquet_cpp.MemPool.Sound.{IsFree, allocated_of, size_of, IsSound}
use parquet_cpp.MemPool.Keeps.{free_all-IsSound}
use parquet_cpp.MemPool.Acquire.{
  first_left, sum_of-free, sum_of-parts, total_sizes, sum_of-left, free_offset-current,
  num_taken-Takes, Takes,
}
use parquet_cpp.MemPool.Settled.{free_offset-kept, settled, settled-IsSound, kept-IsSound}

AreSound : MemPool × MemPool × List ChunkInfo → Type 0
AreSound (p, src, freed) = IsSound p × IsSound src

acquire-AreSound :
    (src : MemPool) (keep : Bool) (p : MemPool) (b : Bool)
    → IsSound p
    → IsSound src
    → (num_taken src keep == 0) ≡ b
    → AreSound (
        if b then release keep (p, src) else release keep (settled keep (num_taken src keep) p src))
unfolding AreSound num_taken
acquire-AreSound src true p true h k e = (h, k)
acquire-AreSound src false p true h k e = (h, free_all-IsSound src)
acquire-AreSound src true p false h k e =
    let n = num_taken src true in
    let some = ==→ne n 0 e in
    let t = num_taken-Takes src true k some in
    (settled-IsSound true n p src h k t, kept-IsSound n p src k t (omega (arith, some)))
acquire-AreSound src false p false h k e =
    let n = num_taken src false in
    let t = num_taken-Takes src false k (==→ne n 0 e) in
    (settled-IsSound false n p src h k t, free_all-IsSound (settled false n p src).1)

-- `AcquireData` where no count wraps.
unfoldable acquired_exactly : MemPool → Bool → MemPool → MemPool × MemPool × List ChunkInfo
acquired_exactly src keep p =
    if num_taken src keep == 0
    then release keep (p, src)
    else release keep (settled keep (num_taken src keep) p src)

same_offset :
    (src : MemPool) (keep : Bool) (p : MemPool)
    → IsSound src
    → num_taken src keep ≢ 0
    → (current_chunk src).allocated_bytes < 2 ^ 31
    → get_free_offset
        (record (transfer (num_taken src keep) p src).1 { used_chunks = if keep then 1 else 0 })
      ≡ free_offset
          (record (transfer (num_taken src keep) p src).1 { used_chunks = if keep then 1 else 0 })
unfolding transfer num_taken get_free_offset free_offset
same_offset src true p k some h =
    get_free_offset-free_offset (record (transfer (num_taken src true) p src).1 { used_chunks = 1 })
      (omega (
        arith,
        h,
        ap (λ (c : ChunkInfo). c.allocated_bytes) (first_left src k (omega (arith, some))),
      ))
same_offset src false p k some h = refl

few_left :
    (src : MemPool) (keep : Bool) (p : MemPool)
    → IsSound src
    → num_taken src keep ≢ 0
    → free_offset
        (record (transfer (num_taken src keep) p src).1 { used_chunks = if keep then 1 else 0 })
      ≤ (transfer (num_taken src keep) p src).1.total_allocated_bytes
unfolding transfer Takes
few_left src keep p k some =
    let n = num_taken src keep in
    omega (
      arith,
      free_offset-kept keep (transfer n p src).1,
      (num_taken-Takes src keep k some).2,
      sum_of-parts allocated_of n src.chunks,
      k.allocated,
    )

acquire_data-exactly :
    (src : MemPool) (keep : Bool) (p : MemPool)
    → IsSound src
    → (current_chunk src).allocated_bytes < 2 ^ 31
    → p.total_allocated_bytes + src.total_allocated_bytes < 2 ^ 63
    → acquire_data src keep p ≡ acquired_exactly src keep p
unfolding acquire_data acquired_exactly settled transfer
acquire_data-exactly src keep p k h sum =
    ap
      (λ (n : ℕ).
        if n == 0
        then release keep (p, src)
        else release keep (settle keep (transfer n p src).0 (transfer n p src).1))
      (num_acquired_chunks-num_taken src keep h)
    ∙ count (num_taken src keep == 0) refl
  where
    count :
        (b : Bool)
        → (num_taken src keep == 0) ≡ b
        → (if b
            then release keep (p, src)
            else release keep (
                settle keep
                  (transfer (num_taken src keep) p src).0
                  (transfer (num_taken src keep) p src).1))
          ≡ (if b
              then release keep (p, src)
              else release keep (settled keep (num_taken src keep) p src))
    count true e = refl
    count false e =
        let n = num_taken src keep in
        let some = ==→ne n 0 e in
        ap (λ (r : MemPool × MemPool). release keep r)
          (settle-settle_exactly keep (transfer n p src).0 (transfer n p src).1
            (same_offset src keep p k some h) (few_left src keep p k some) sum)

-- `AcquireData` keeps the invariants of both pools, whether the source keeps its current chunk or not,
-- where an `int` holds the allocated bytes of that chunk and an `int64_t` those of both pools.
pub acquire_data-IsSound :
    (src : MemPool) (keep : Bool) (p : MemPool)
    → IsSound p
    → IsSound src
    → (current_chunk src).allocated_bytes < 2 ^ 31
    → p.total_allocated_bytes + src.total_allocated_bytes < 2 ^ 63
    → IsSound (acquire_data src keep p).0 × IsSound (acquire_data src keep p).1
unfolding AreSound acquired_exactly
acquire_data-IsSound src keep p h k small sum =
    subst (λ (r : MemPool × MemPool × List ChunkInfo). AreSound r)
      (sym (acquire_data-exactly src keep p k small sum))
      (acquire-AreSound src keep p (num_taken src keep == 0) h k refl)

-- A source from which nothing is taken, and which does not keep its chunk, has no data.
nothing_used :
    (src : MemPool) → IsSound src → src.used_chunks ≡ 0 → sum_of allocated_of src.chunks ≡ 0
nothing_used src k e =
    sum_of-free src.chunks (subst (λ (i : ℕ). All IsFree (drop i src.chunks)) e k.unused)

nothing_in_first :
    (src : MemPool)
    → IsSound src
    → src.used_chunks ≡ 1
    → free_offset src ≡ 0
    → sum_of allocated_of src.chunks ≡ 0
nothing_in_first src k e z =
    let used : 0 < src.used_chunks = omega (arith, e) in
    let first : src.used_chunks - 1 ≡ 0 = omega (arith, e) in
    ap (λ (i : ℕ). sum_of allocated_of (drop i src.chunks)) (sym first)
    ∙ sum_of-left src k used
    ∙ sym (free_offset-current src used)
    ∙ z

nothing_taken :
    (src : MemPool) (b c : Bool)
    → IsSound src
    → (free_offset src == 0) ≡ b
    → (src.used_chunks == 0) ≡ c
    → (if b then src.used_chunks - 1 else src.used_chunks) ≡ 0
    → sum_of allocated_of src.chunks ≡ 0
nothing_taken src b true k e u z = nothing_used src k (==→eq src.used_chunks 0 u)
nothing_taken src true false k e u z =
    nothing_in_first src k (omega (arith, z, ==→ne src.used_chunks 0 u))
      (==→eq (free_offset src) 0 e)
nothing_taken src false false k e u z = absurd (==→ne src.used_chunks 0 u z)

pub Conserves : MemPool → MemPool → MemPool × MemPool × List ChunkInfo → Type 0
Conserves p src (p', src', freed) =
    (p'.total_allocated_bytes + src'.total_allocated_bytes
      ≡ p.total_allocated_bytes + src.total_allocated_bytes)
    × (p'.total_reserved_bytes + (src'.total_reserved_bytes + get_total_chunk_sizes freed)
        ≡ p.total_reserved_bytes + src.total_reserved_bytes)
    × (sum_of allocated_of freed ≡ 0)

acquire-Conserves :
    (src : MemPool) (keep : Bool) (p : MemPool) (b : Bool)
    → IsSound p
    → IsSound src
    → (num_taken src keep == 0) ≡ b
    → Conserves p src (
        if b then release keep (p, src) else release keep (settled keep (num_taken src keep) p src))
unfolding Conserves settled settle_exactly transfer Takes free_all num_taken get_total_chunk_sizes
    free_offset sum_of
acquire-Conserves src true p true h k e = (refl, omega arith, refl)
acquire-Conserves src false p true h k e =
    let none =
      nothing_taken src (free_offset src == 0) (src.used_chunks == 0) k refl refl
        (==→eq (num_taken src false) 0 e) in
    (omega (arith, none, k.allocated), omega (arith, total_sizes src.chunks, k.reserved), none)
acquire-Conserves src true p false h k e =
    let n = num_taken src true in
    let t = num_taken-Takes src true k (==→ne n 0 e) in
    (
      omega (arith, t.2, sum_of-parts allocated_of n src.chunks, k.allocated),
      omega (arith, sum_of-parts size_of n src.chunks, total_sizes (take n src.chunks), k.reserved),
      refl,
    )
acquire-Conserves src false p false h k e =
    let n = num_taken src false in
    let t = num_taken-Takes src false k (==→ne n 0 e) in
    (
      omega arith,
      omega (
        arith,
        sum_of-parts size_of n src.chunks,
        total_sizes (take n src.chunks),
        total_sizes (drop n src.chunks),
        k.reserved,
      ),
      t.2,
    )

-- Where an `int` holds the allocated bytes of the source's current chunk, and an `int64_t` those of
-- both pools, `AcquireData` loses no data: the bytes allocated in the two pools are together as many
-- as before, so are the bytes reserved in the two pools and in the chunks that are freed, and no byte
-- is allocated in a chunk that is freed.
pub acquire_data-Conserves :
    (src : MemPool) (keep : Bool) (p : MemPool)
    → IsSound p
    → IsSound src
    → (current_chunk src).allocated_bytes < 2 ^ 31
    → p.total_allocated_bytes + src.total_allocated_bytes < 2 ^ 63
    → Conserves p src (acquire_data src keep p)
unfolding acquired_exactly
acquire_data-Conserves src keep p h k small sum =
    subst (λ (r : MemPool × MemPool × List ChunkInfo). Conserves p src r)
      (sym (acquire_data-exactly src keep p k small sum))
      (acquire-Conserves src keep p (num_taken src keep == 0) h k refl)
