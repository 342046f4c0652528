-- ===== src/MemPool/Keeps.antt =====
-- The operations on one pool keep its invariant.
use parquet_cpp.Common.{
  ℕ, ◌+◌, ◌-◌, ◌≤◌, ◌<◌, ◌≡◌, ◌≢◌, refl, subst, sym, ◌∙◌, Option, none, some, List, [], ◌∷◌, map,
}
use parquet_cpp.Common.{
  length, length-set, All, Bool, true, false, ltb, ◌==◌, ◌||◌, if◌then◌else◌, arith, ==→ne, ltb→ge,
}
use parquet_cpp.BitUtil.{round_up}
use parquet_cpp.MemPool.{
  Answer, thrown, null, memory, ChunkInfo, MemPool, make, current_chunk, return_partial_allocation,
  clear, free_all, find_chunk, bump, bump_found, allocate,
}
use parquet_cpp.MemPool.Scan.{sum_of, sum_of-set, drop-set_front, All-set, All-get_or}
use parquet_cpp.MemPool.Sound.{
  InPlace, IsFree, allocated_of, size_of, IsSound, HasRoom, bump-IsSound,
}
use parquet_cpp.MemPool.Find.{Finds, find_chunk-Finds}

-- What `Allocate` promises of the pool where it returns.
abbrev Returns : MemPool × Answer → Type 0
Returns (q, thrown) = Unit
Returns (q, null) = IsSound q
Returns (q, memory a) = IsSound q

Returns-IsSound : (r : MemPool × Answer) → Returns r → r.1 ≢ thrown → IsSound r.0
Returns-IsSound (q, thrown) h ne = absurd (ne refl)
Returns-IsSound (q, null) h ne = h
Returns-IsSound (q, memory a) h ne = h

bump-Returns : (n : ℕ) (p : MemPool) → IsSound p → HasRoom n p → Returns (bump n p)
unfolding bump
bump-Returns n p h room = bump-IsSound n p h room

bump_found-Returns : (n : ℕ) (r : MemPool × Option Bool) → Finds n r → Returns (bump_found n r)
unfolding bump_found
bump_found-Returns n (q, some true) h = bump-Returns n q h.0 h.1
bump_found-Returns n (q, some false) h = h
bump_found-Returns n (q, none) h = tt

-- The test of `Allocate` for a new chunk.
pub room_or_find :
    (n : ℕ) (p : MemPool)
    → (p.used_chunks == 0 || ltb (current_chunk p).size (n + (current_chunk p).allocated_bytes))
      ≡ false
    → HasRoom n p
room_or_find n p h = (
  omega (arith, ==→ne p.used_chunks 0 (left _ _ h)),
  omega
      (arith, ltb→ge (current_chunk p).size (n + (current_chunk p).allocated_bytes) (right _ _ h)),
)
  where
    left : (a b : Bool) → (a || b) ≡ false → a ≡ false
    left a b h = ground arith

    right : (a b : Bool) → (a || b) ≡ false → b ≡ false
    right a b h = ground arith

allocate-Returns :
    (malloc : ℕ → Answer) (size : ℕ) (p : MemPool) → IsSound p → Returns (allocate malloc size p)
unfolding allocate
allocate-Returns malloc size p h = empty (size == 0)
  where
    n : ℕ
    n = round_up size 8

    find :
        (b : Bool)
        → (p.used_chunks == 0 || ltb (current_chunk p).size (n + (current_chunk p).allocated_bytes))
          ≡ b
        → Returns (if b then bump_found n (find_chunk malloc n p) else bump n p)
    find true e = bump_found-Returns n (find_chunk malloc n p) (find_chunk-Finds malloc n p h)
    find false e = bump-Returns n p h (room_or_find n p e)

    empty :
        (b : Bool)
        → Returns (
            if b
            then (p, null)
            else if p.used_chunks == 0
                || ltb (current_chunk p).size (n + (current_chunk p).allocated_bytes)
            then bump_found n (find_chunk malloc n p)
            else bump n p)
    empty true = h
    empty false = find _ refl

-- `Allocate` keeps the invariant of the pool for every size, and where `Malloc` answers NULL, unless
-- `Malloc` throws.
pub allocate-IsSound :
    (malloc : ℕ → Answer) (size : ℕ) (p : MemPool)
    → IsSound p
    → (allocate malloc size p).1 ≢ thrown
    → IsSound (allocate malloc size p).0
allocate-IsSound malloc size p h ne =
    Returns-IsSound (allocate malloc size p) (allocate-Returns malloc size p h) ne

pub make-IsSound : IsSound make
unfolding sum_of
make-IsSound = record {
  within = omega arith;
  in_place = tt;
  unused = tt;
  allocated = refl;
  reserved = refl;
  peak = omega arith;
  growth = (omega arith, omega arith);
}

pub free_all-IsSound : (p : MemPool) → IsSound (free_all p).0
unfolding free_all sum_of
free_all-IsSound p = record {
  within = omega arith;
  in_place = tt;
  unused = tt;
  allocated = refl;
  reserved = refl;
  peak = omega arith;
  growth = (omega arith, omega arith);
}

abbrev emptied : ChunkInfo → ChunkInfo
emptied c = record c { allocated_bytes = 0 }

emptied-InPlace : (cs : List ChunkInfo) → All InPlace cs → All InPlace (map emptied cs)
emptied-InPlace [] h = tt
emptied-InPlace (c ∷ cs) h = ((h.0.0, omega arith), emptied-InPlace cs h.1)

emptied-IsFree : (cs : List ChunkInfo) → All IsFree (map emptied cs)
emptied-IsFree [] = tt
emptied-IsFree (c ∷ cs) = (refl, emptied-IsFree cs)

emptied-allocated : (cs : List ChunkInfo) → sum_of allocated_of (map emptied cs) ≡ 0
unfolding sum_of
emptied-allocated [] = refl
emptied-allocated (c ∷ cs) = omega (arith, emptied-allocated cs)

emptied-size : (cs : List ChunkInfo) → sum_of size_of (map emptied cs) ≡ sum_of size_of cs
unfolding sum_of
emptied-size [] = refl
emptied-size (c ∷ cs) = omega (arith, emptied-size cs)

pub clear-IsSound : (p : MemPool) → IsSound p → IsSound (clear p)
unfolding clear
clear-IsSound p h = record {
  within = omega arith;
  in_place = emptied-InPlace p.chunks h.in_place;
  unused = emptied-IsFree p.chunks;
  allocated = emptied-allocated p.chunks;
  reserved = emptied-size p.chunks ∙ h.reserved;
  peak = omega arith;
  growth = h.growth;
}

-- `ReturnPartialAllocation` keeps the invariant where its two DCHECKs hold: there is a current chunk,
-- and it has the bytes that are returned.
pub return_partial_allocation-IsSound :
    (n : ℕ) (p : MemPool)
    → IsSound p
    → 0 < p.used_chunks
    → n ≤ (current_chunk p).allocated_bytes
    → IsSound (return_partial_allocation n p)
unfolding return_partial_allocation
return_partial_allocation-IsSound n p h used fits =
    let v : ChunkInfo = record (current_chunk p) {
      allocated_bytes = (current_chunk p).allocated_bytes - n;
    } in
    let i = p.used_chunks - 1 in
    let inside : i < length p.chunks = omega (arith, h.within, used) in
    let here = All-get_or InPlace p.chunks i h.in_place inside in
    record {
      within = omega (arith, h.within, length-set p.chunks i v);
      in_place = All-set InPlace p.chunks i v h.in_place (here.0, omega (arith, here.1));
      unused =
          subst (λ (l : List ChunkInfo). All IsFree l)
            (sym (drop-set_front p.used_chunks i p.chunks v (omega (arith, used)))) h.unused;
      allocated = omega (arith, sum_of-set allocated_of p.chunks i v inside, h.allocated);
      reserved = omega (arith, sum_of-set size_of p.chunks i v inside, h.reserved);
      peak = omega (arith, h.peak);
      growth = h.growth;
    }
