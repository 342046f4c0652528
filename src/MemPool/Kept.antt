-- ===== src/MemPool/Kept.antt =====
-- `FindChunk` keeps every chunk, and the memory of the chunks apart.
use parquet_cpp.Common.{ℕ, ◌+◌, ◌<◌, ◌≡◌, refl, subst, sym, Option, none, some, List, max}
use parquet_cpp.Common.{length, length-drop, drop, Bool, true, false, arith}
use parquet_cpp.MemPool.{
  Answer, thrown, null, memory, ChunkInfo, make_chunk, MemPool, scan, use_free_chunk, add_chunk,
  new_chunk, leave_loop, find_chunk,
}
use parquet_cpp.MemPool.Scan.{scan-some}
use parquet_cpp.MemPool.Sound.{IsSound}
use parquet_cpp.MemPool.Find.{leave_loop-new_chunk, use_free_chunk-chunks, add_chunk-chunks}
use parquet_cpp.MemPool.Places.{
  Apart, chunk_at, Distinct, Includes, swap-Includes, swap-Distinct, inserted-Includes,
  inserted-Distinct,
}

-- What `Malloc` returns does not overlap the memory that the pool has.
abbrev pub IsFresh : (ℕ → Answer) → MemPool → Type 0
IsFresh malloc p =
    (size buf : ℕ)
    → malloc size ≡ memory buf
    → (i : ℕ) → i < length p.chunks
    → Apart (make_chunk size buf) (chunk_at p.chunks i)

abbrev pub Kept : List ChunkInfo → List ChunkInfo → Type 0
Kept cs ds = Distinct ds × Includes cs ds

pub Kept-refl : (cs : List ChunkInfo) → Distinct cs → Kept cs cs
unfolding Includes
Kept-refl cs d = (d, λ i h. (i, h, refl))

Kept-eq : (cs ds es : List ChunkInfo) → ds ≡ es → Kept cs es → Kept cs ds
Kept-eq cs ds es e h = subst (λ (l : List ChunkInfo). Kept cs l) (sym e) h

use_free_chunk-Kept :
    (k : ℕ) (p : MemPool)
    → IsSound p
    → k < length (drop p.used_chunks p.chunks)
    → Distinct p.chunks
    → Kept p.chunks (use_free_chunk k p).chunks
use_free_chunk-Kept k p h inside d =
    let u = p.used_chunks in
    let first : u + k < length p.chunks = omega (arith, length-drop u p.chunks, h.within, inside) in
    let second : u < length p.chunks = omega (arith, first) in
    Kept-eq p.chunks _ _ (use_free_chunk-chunks k p) (
      swap-Distinct p.chunks (u + k) u first second d,
      swap-Includes p.chunks (u + k) u first second,
    )

add_chunk-Kept :
    (size buf : ℕ) (p : MemPool)
    → IsSound p
    → ((i : ℕ) → i < length p.chunks → Apart (make_chunk size buf) (chunk_at p.chunks i))
    → Distinct p.chunks
    → Kept p.chunks (add_chunk size buf p).chunks
add_chunk-Kept size buf p h fresh d = Kept-eq p.chunks _ _ (add_chunk-chunks size buf p h.within) (
  inserted-Distinct p.used_chunks (make_chunk size buf) p.chunks h.within fresh d,
  inserted-Includes p.used_chunks (make_chunk size buf) p.chunks h.within,
)

new_chunk-Kept :
    (malloc : ℕ → Answer) (n : ℕ) (p : MemPool)
    → IsSound p
    → IsFresh malloc p
    → Distinct p.chunks
    → Kept p.chunks (new_chunk malloc n p).0.chunks
unfolding new_chunk
new_chunk-Kept malloc n p h fresh d = answer (malloc (max n p.next_chunk_size)) refl
  where
    answer :
        (r : Answer)
        → malloc (max n p.next_chunk_size) ≡ r
        → Kept p.chunks
            (elim r as (λ (x : Answer). MemPool × Option Bool) [
              | thrown ↦ (record p { used_chunks = length p.chunks + 1 }, none)
              | null ↦ (record p { used_chunks = length p.chunks }, some false)
              | memory buf ↦ (add_chunk (max n p.next_chunk_size) buf p, some true)
            ]).0.chunks
    answer thrown e = Kept-refl p.chunks d
    answer null e = Kept-refl p.chunks d
    answer (memory buf) e = add_chunk-Kept (max n p.next_chunk_size) buf p h (fresh _ buf e) d

pub find_chunk-Kept :
    (malloc : ℕ → Answer) (n : ℕ) (p : MemPool)
    → IsSound p
    → IsFresh malloc p
    → Distinct p.chunks
    → Kept p.chunks (find_chunk malloc n p).0.chunks
unfolding find_chunk
find_chunk-Kept malloc n p h fresh d = answer (scan n (drop p.used_chunks p.chunks)) refl
  where
    answer :
        (r : Option ℕ)
        → scan n (drop p.used_chunks p.chunks) ≡ r
        → Kept p.chunks
            (elim r as (λ (x : Option ℕ). MemPool × Option Bool) [
              | none ↦ leave_loop malloc n p
              | some k ↦ (use_free_chunk k p, some true)
            ]).0.chunks
    answer none e =
        subst (λ (r : MemPool × Option Bool). Kept p.chunks r.0.chunks)
          (sym (leave_loop-new_chunk malloc n p h.within)) (new_chunk-Kept malloc n p h fresh d)
    answer (some k) e =
        use_free_chunk-Kept k p h (scan-some n (drop p.used_chunks p.chunks) k e).0 d
