-- ===== src/MemPool/Settled.antt =====
-- The two pools after the chunks have changed hands.
use parquet_cpp.Common.{ℕ, ◌+◌, ◌≤◌, ◌≡◌, refl, ap, subst, sym, ◌∙◌, List, ◌++◌}
use parquet_cpp.Common.{
  length, length-append, length-take, length-drop, get_or, take, drop, drop-append, drop-drop, All,
  All-append, Bool, true, false, if◌then◌else◌, arith,
}
use parquet_cpp.MemPool.{ChunkInfo, no_chunk, MemPool, transfer}
use parquet_cpp.MemPool.Exact.{free_offset, settle_exactly}
use parquet_cpp.MemPool.Scan.{sum_of, sum_of-append, All-take, All-drop}
use parquet_cpp.MemPool.Sound.{InPlace, IsFree, allocated_of, size_of, IsSound}
use parquet_cpp.MemPool.Acquire.{sum_of-parts, total_sizes, Takes}

-- The pool that receives `n` chunks, before and after the counts are settled.
unfoldable pub received : (n : ℕ) (p src : MemPool) → List ChunkInfo
received n p src = take p.used_chunks p.chunks ++ (take n src.chunks ++ drop p.used_chunks p.chunks)

pub sum_of-received :
    (f : ChunkInfo → ℕ) (n : ℕ) (p src : MemPool)
    → sum_of f (received n p src) ≡ sum_of f p.chunks + sum_of f (take n src.chunks)
unfolding received
sum_of-received f n p src = omega (
  arith,
  sum_of-append f (take p.used_chunks p.chunks) (take n src.chunks ++ drop p.used_chunks p.chunks),
  sum_of-append f (take n src.chunks) (drop p.used_chunks p.chunks),
  sum_of-parts f p.used_chunks p.chunks,
)

drop-received :
    (n : ℕ) (p src : MemPool)
    → p.used_chunks ≤ length p.chunks
    → n ≤ length src.chunks
    → drop (p.used_chunks + n) (received n p src) ≡ drop p.used_chunks p.chunks
unfolding received
drop-received n p src h k =
    let u = p.used_chunks in
    let tail = take n src.chunks ++ drop u p.chunks in
    sym (drop-drop n u (take u p.chunks ++ tail))
    ∙ ap (λ (l : List ChunkInfo). drop n l)
        (drop-append u (take u p.chunks) tail (sym (length-take u p.chunks h)))
    ∙ drop-append n (take n src.chunks) (drop u p.chunks) (sym (length-take n src.chunks k))

pub free_offset-kept :
    (keep : Bool) (q : MemPool)
    → free_offset (record q { used_chunks = if keep then 1 else 0 })
      ≡ (if keep then (get_or q.chunks 0 no_chunk).allocated_bytes else 0)
unfolding free_offset
free_offset-kept true q = refl
free_offset-kept false q = refl

unfoldable pub settled : Bool → ℕ → MemPool → MemPool → MemPool × MemPool
settled keep n p src = settle_exactly keep (transfer n p src).0 (transfer n p src).1

-- The counts after the transfer are those of the chunks.
pub settled-IsSound :
    (keep : Bool) (n : ℕ) (p src : MemPool)
    → IsSound p
    → IsSound src
    → Takes src keep n
    → IsSound (settled keep n p src).0
unfolding settled settle_exactly transfer Takes received
settled-IsSound keep n p src h k t =
    let left = free_offset-kept keep (transfer n p src).1 in
    let parts = sum_of-parts allocated_of n src.chunks in
    let inside : n ≤ length src.chunks = omega (arith, t.0, k.within) in
    record {
      within = omega (
        arith,
        h.within,
        inside,
        length-append (take p.used_chunks p.chunks)
            (take n src.chunks ++ drop p.used_chunks p.chunks),
        length-append (take n src.chunks) (drop p.used_chunks p.chunks),
        length-take p.used_chunks p.chunks h.within,
        length-take n src.chunks inside,
      );
      in_place =
          All-append InPlace (take p.used_chunks p.chunks)
            (take n src.chunks ++ drop p.used_chunks p.chunks)
            (All-take InPlace p.used_chunks p.chunks h.in_place)
            (All-append InPlace (take n src.chunks) (drop p.used_chunks p.chunks)
              (All-take InPlace n src.chunks k.in_place)
              (All-drop InPlace p.used_chunks p.chunks h.in_place));
      unused =
          subst (λ (l : List ChunkInfo). All IsFree l) (sym (drop-received n p src h.within inside))
            h.unused;
      allocated =
          omega (
            arith,
            sum_of-received allocated_of n p src,
            left,
            parts,
            t.2,
            h.allocated,
            k.allocated,
          );
      reserved =
          omega
            (arith, sum_of-received size_of n p src, total_sizes (take n src.chunks), h.reserved);
      peak = omega arith;
      growth = h.growth;
    }

pub kept-IsSound :
    (n : ℕ) (p src : MemPool)
    → IsSound src
    → Takes src true n
    → src.used_chunks ≡ n + 1
    → IsSound (settled true n p src).1
unfolding settled settle_exactly transfer Takes
kept-IsSound n p src k t e =
    let left = free_offset-kept true (transfer n p src).1 in
    record {
      within = omega (arith, t.1 refl, length-drop n src.chunks);
      in_place = All-drop InPlace n src.chunks k.in_place;
      unused =
          subst (λ (l : List ChunkInfo). All IsFree l)
            (ap (λ (i : ℕ). drop i src.chunks) e ∙ sym (drop-drop 1 n src.chunks)) k.unused;
      allocated = t.2 ∙ sym left;
      reserved =
          omega
            (arith, sum_of-parts size_of n src.chunks, total_sizes (take n src.chunks), k.reserved);
      peak = omega (arith, left, t.2, sum_of-parts allocated_of n src.chunks, k.allocated, k.peak);
      growth = k.growth;
    }
