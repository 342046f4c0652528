-- ===== src/MemPool/Sound.antt =====
-- The invariant of a pool.
use parquet_cpp.Common.{ℕ, ◌+◌, ◌-◌, ◌≤◌, ◌<◌, ◌≡◌, subst, sym, List}
use parquet_cpp.Common.{length, length-set, drop, All, arith}
use parquet_cpp.MemPool.{
  ChunkInfo, MemPool, initial_chunk_size, max_chunk_size, current_chunk, bump,
}
use parquet_cpp.MemPool.Scan.{sum_of, sum_of-set, drop-set_front, All-set, All-get_or}

abbrev pub InPlace : ChunkInfo → Type 0
InPlace c = (0 < c.size) × (c.allocated_bytes ≤ c.size)

abbrev pub IsFree : ChunkInfo → Type 0
IsFree c = c.allocated_bytes ≡ 0

abbrev pub allocated_of : ChunkInfo → ℕ
allocated_of c = c.allocated_bytes

abbrev pub size_of : ChunkInfo → ℕ
size_of c = c.size

-- What holds between two calls: the chunks behind the current one are free, no chunk is filled over
-- its size, the counts are those of the chunks, and the next chunk is neither too small nor too big.
pub record IsSound (p : MemPool) : Type 0 where
  pub within : p.used_chunks ≤ length p.chunks
  pub in_place : All InPlace p.chunks
  pub unused : All IsFree (drop p.used_chunks p.chunks)
  pub allocated : sum_of allocated_of p.chunks ≡ p.total_allocated_bytes
  pub reserved : sum_of size_of p.chunks ≡ p.total_reserved_bytes
  pub peak : p.total_allocated_bytes ≤ p.peak_allocated_bytes
  pub growth : (initial_chunk_size ≤ p.next_chunk_size) × (p.next_chunk_size ≤ max_chunk_size)

-- The current chunk exists and has room for `n` more bytes.
abbrev pub HasRoom : ℕ → MemPool → Type 0
HasRoom n p = (0 < p.used_chunks) × ((current_chunk p).allocated_bytes + n ≤ (current_chunk p).size)

pub bump-IsSound : (n : ℕ) (p : MemPool) → IsSound p → HasRoom n p → IsSound (bump n p).0
unfolding bump
bump-IsSound n p h room =
    let v : ChunkInfo = record (current_chunk p) {
      allocated_bytes = (current_chunk p).allocated_bytes + n;
    } in
    let i = p.used_chunks - 1 in
    let inside : i < length p.chunks = omega (arith, h.within, room.0) in
    record {
      within = omega (arith, h.within, length-set p.chunks i v);
      in_place =
          All-set InPlace p.chunks i v h.in_place
            ((All-get_or InPlace p.chunks i h.in_place inside).0, room.1);
      unused =
          subst (λ (l : List ChunkInfo). All IsFree l)
            (sym (drop-set_front p.used_chunks i p.chunks v (omega (arith, room.0)))) h.unused;
      allocated = omega (arith, sum_of-set allocated_of p.chunks i v inside, h.allocated);
      reserved = omega (arith, sum_of-set size_of p.chunks i v inside, h.reserved);
      peak = omega (arith, h.peak);
      growth = h.growth;
    }
