-- ===== src/MemPool.antt =====
-- The class MemPool of src/parquet/util/mem-pool.h. A pointer is an address, and the allocator is a
-- parameter: what one call of its `Malloc` answers for a size, which is memory, NULL or an exception;
-- what `Free` is called on is returned, and `Free` throws nothing. Sizes are not negative.
-- `used_chunks` is `current_chunk_idx_ + 1`, so that the index -1 is 0. Counts of bytes are taken
-- where an `int64_t` holds them, a negative one as its 64 bits. A DCHECK does nothing, as in a release
-- build; those of `CheckIntegrity` are `check_integrity`.
pub mod Scan
pub mod Sound
pub mod Find
pub mod Keeps
pub mod Acquire
pub mod Settled
pub mod Exact
pub mod Acquired
pub mod Places
pub mod Kept
pub mod Safe
pub mod Allocated
pub mod Reached
pub mod Runs
use parquet_cpp.Common.{
  ℕ, zero, suc, ◌+◌, ◌-◌, ◌*◌, ◌%◌, ◌^◌, min, max, Bool, true, false, ◌&&◌, ◌||◌, not,
}
use parquet_cpp.Common.{
  Option, none, some, List, [], ◌∷◌, ◌++◌, map, length, get_or, set, take, drop,
}
use parquet_cpp.Common.{ltb, leb, ◌==◌, if◌then◌else◌}
use parquet_cpp.BitUtil.{round_up}

-- What a call that answers with a pointer comes to: `Malloc`, and `Allocate`.
pub data Answer : Type 0 where
  thrown : Answer
  null : Answer
  memory : ℕ → Answer

pub record ChunkInfo : Type 0 where
  pub data_ptr : ℕ
  pub size : ℕ
  pub allocated_bytes : ℕ

abbrev pub make_chunk : ℕ → ℕ → ChunkInfo
make_chunk size buf = record { data_ptr = buf; size = size; allocated_bytes = 0 }

-- `ChunkInfo()`, which stands here for what an index out of range would read.
abbrev pub no_chunk : ChunkInfo
no_chunk = record { data_ptr = 0; size = 0; allocated_bytes = 0 }

pub record MemPool : Type 0 where
  pub used_chunks : ℕ
  pub next_chunk_size : ℕ
  pub total_allocated_bytes : ℕ
  pub peak_allocated_bytes : ℕ
  pub total_reserved_bytes : ℕ
  pub chunks : List ChunkInfo

abbrev pub initial_chunk_size : ℕ
initial_chunk_size = 4 * 1024

abbrev pub max_chunk_size : ℕ
max_chunk_size = 1024 * 1024

abbrev pub make : MemPool
make = record {
  used_chunks = 0;
  next_chunk_size = initial_chunk_size;
  total_allocated_bytes = 0;
  peak_allocated_bytes = 0;
  total_reserved_bytes = 0;
  chunks = [];
}

abbrev pub current_chunk : MemPool → ChunkInfo
current_chunk p = get_or p.chunks (p.used_chunks - 1) no_chunk

-- An `int64_t` returned as an `int` and used as an `int64_t`, as 64 bits.
unfoldable pub through_int : ℕ → ℕ
through_int n = let low = n % 2 ^ 32 in if ltb low (2 ^ 31) then low else low + (2 ^ 64 - 2 ^ 32)

unfoldable pub get_free_offset : MemPool → ℕ
unfolding through_int
get_free_offset p = if p.used_chunks == 0 then 0 else through_int (current_chunk p).allocated_bytes

abbrev pub set_current : MemPool → ChunkInfo → List ChunkInfo
set_current p chunk = set p.chunks (p.used_chunks - 1) chunk

unfoldable pub return_partial_allocation : ℕ → MemPool → MemPool
return_partial_allocation byte_size p = record p {
  chunks = set_current p (record (current_chunk p) {
    allocated_bytes = (current_chunk p).allocated_bytes - byte_size;
  });
  total_allocated_bytes = p.total_allocated_bytes - byte_size;
}

unfoldable pub clear : MemPool → MemPool
clear p = record p {
  used_chunks = 0;
  chunks = map (λ (c : ChunkInfo). record c { allocated_bytes = 0 }) p.chunks;
  total_allocated_bytes = 0;
}

-- The pool, and the chunks that `Free` is called on.
unfoldable pub free_all : MemPool → MemPool × List ChunkInfo
free_all p = (
  record p {
    chunks = [];
    next_chunk_size = initial_chunk_size;
    used_chunks = 0;
    total_allocated_bytes = 0;
    total_reserved_bytes = 0;
  },
  p.chunks,
)

unfoldable pub get_total_chunk_sizes : List ChunkInfo → ℕ
get_total_chunk_sizes [] = 0
get_total_chunk_sizes (c ∷ cs) = c.size + get_total_chunk_sizes cs

-- The while loop of `FindChunk`: how many free chunks stand before the first that is big enough.
unfoldable pub scan : ℕ → List ChunkInfo → Option ℕ
scan min_size [] = none
scan min_size (c ∷ cs) =
    let rest = scan min_size cs in
    if leb min_size c.size then some 0 else (elim rest [ none ↦ none | some k ↦ some (suc k) ])

-- `std::swap` of two elements.
unfoldable pub swap : List ChunkInfo → ℕ → ℕ → List ChunkInfo
swap cs i j = set (set cs i (get_or cs j no_chunk)) j (get_or cs i no_chunk)

unfoldable pub use_free_chunk : ℕ → MemPool → MemPool
unfolding swap
use_free_chunk k p =
    let first_free_idx = p.used_chunks in
    record p {
      chunks = if k == 0 then p.chunks else swap p.chunks (first_free_idx + k) first_free_idx;
      used_chunks = first_free_idx + 1;
    }

unfoldable pub add_chunk : ℕ → ℕ → MemPool → MemPool
add_chunk chunk_size buf p =
    let first_free_idx = p.used_chunks in
    record p {
      chunks =
          if first_free_idx == length p.chunks
          then p.chunks ++ make_chunk chunk_size buf ∷ []
          else take first_free_idx p.chunks
            ++ make_chunk chunk_size buf ∷ drop first_free_idx p.chunks;
      used_chunks = first_free_idx + 1;
      total_reserved_bytes = p.total_reserved_bytes + chunk_size;
      next_chunk_size = min (chunk_size * 2) max_chunk_size;
    }

-- The part of `FindChunk` that calls `Malloc`, and what it returns, where an exception is `none`: the
-- index is then the number of chunks.
unfoldable pub new_chunk : (ℕ → Answer) → ℕ → MemPool → MemPool × Option Bool
unfolding add_chunk
new_chunk malloc min_size p =
    let chunk_size = max min_size p.next_chunk_size in
    elim (malloc chunk_size) [
      | thrown ↦ (record p { used_chunks = length p.chunks + 1 }, none)
      | null ↦ (record p { used_chunks = length p.chunks }, some false)
      | memory buf ↦ (add_chunk chunk_size buf p, some true)
    ]

-- The part of `FindChunk` after its loop found no chunk. Only an index in front of the end, at most,
-- comes to the end then: one that an exception left behind the end moves on.
unfoldable pub leave_loop : (ℕ → Answer) → ℕ → MemPool → MemPool × Option Bool
unfolding new_chunk
leave_loop malloc min_size p =
    if leb p.used_chunks (length p.chunks)
    then new_chunk malloc min_size p
    else (record p { used_chunks = p.used_chunks + 1 }, some true)

unfoldable pub find_chunk : (ℕ → Answer) → ℕ → MemPool → MemPool × Option Bool
unfolding scan use_free_chunk leave_loop
find_chunk malloc min_size p = elim (scan min_size (drop p.used_chunks p.chunks)) [
  | none ↦ leave_loop malloc min_size p
  | some k ↦ (use_free_chunk k p, some true)
]

-- The part of `Allocate` after a chunk is found.
unfoldable pub bump : ℕ → MemPool → MemPool × Answer
bump num_bytes p =
    let info = current_chunk p in
    let total = p.total_allocated_bytes + num_bytes in
    (
      record p {
        chunks = set_current p (record info { allocated_bytes = info.allocated_bytes + num_bytes });
        total_allocated_bytes = total;
        peak_allocated_bytes = max total p.peak_allocated_bytes;
      },
      memory (info.data_ptr + info.allocated_bytes),
    )

unfoldable pub bump_found : ℕ → MemPool × Option Bool → MemPool × Answer
unfolding bump
bump_found num_bytes (p, none) = (p, thrown)
bump_found num_bytes (p, some false) = (p, null)
bump_found num_bytes (p, some true) = bump num_bytes p

unfoldable pub allocate : (ℕ → Answer) → ℕ → MemPool → MemPool × Answer
unfolding find_chunk bump bump_found
allocate malloc size p =
    let num_bytes = round_up size 8 in
    if size == 0
    then (p, null)
    else if p.used_chunks == 0
        || ltb (current_chunk p).size (num_bytes + (current_chunk p).allocated_bytes)
    then bump_found num_bytes (find_chunk malloc num_bytes p)
    else bump num_bytes p

-- `num_acquired_chunks`, where a negative number is 0.
unfoldable pub num_acquired_chunks : MemPool → Bool → ℕ
unfolding get_free_offset
num_acquired_chunks src keep_current =
    if keep_current
    then src.used_chunks - 1
    else if get_free_offset src == 0
    then src.used_chunks - 1
    else src.used_chunks

-- The chunks that change hands, and the counts of reserved bytes.
unfoldable pub transfer : ℕ → MemPool → MemPool → MemPool × MemPool
unfolding get_total_chunk_sizes
transfer n p src =
    let acquired = take n src.chunks in
    let total_transfered_bytes = get_total_chunk_sizes acquired in
    (
      record p {
        total_reserved_bytes = p.total_reserved_bytes + total_transfered_bytes;
        chunks = take p.used_chunks p.chunks ++ (acquired ++ drop p.used_chunks p.chunks);
        used_chunks = p.used_chunks + n;
      },
      record src {
        total_reserved_bytes = src.total_reserved_bytes - total_transfered_bytes;
        chunks = drop n src.chunks;
      },
    )

-- `std::max` of an `int64_t` of 64 bits and one that is not negative.
unfoldable pub max_int64 : ℕ → ℕ → ℕ
max_int64 total peak = if ltb total (2 ^ 63) then max total peak else peak

-- The counts of allocated bytes after the transfer.
unfoldable pub settle : Bool → MemPool → MemPool → MemPool × MemPool
unfolding get_free_offset max_int64
settle keep_current p src =
    let kept = record src { used_chunks = if keep_current then 1 else 0 } in
    let left = get_free_offset kept in
    let moved = (src.total_allocated_bytes + (2 ^ 64 - left)) % 2 ^ 64 in
    let total = (p.total_allocated_bytes + moved) % 2 ^ 64 in
    (
      record p {
        total_allocated_bytes = total;
        peak_allocated_bytes = max_int64 total p.peak_allocated_bytes;
      },
      record kept { total_allocated_bytes = left },
    )

abbrev release : Bool → MemPool × MemPool → MemPool × MemPool × List ChunkInfo
release keep_current (p, src) =
    if keep_current then (p, src, []) else (p, (free_all src).0, (free_all src).1)

-- The pool, the source, and the chunks that `Free` is called on.
unfoldable pub acquire_data : MemPool → Bool → MemPool → MemPool × MemPool × List ChunkInfo
unfolding num_acquired_chunks transfer settle free_all
acquire_data src keep_current p =
    let n = num_acquired_chunks src keep_current in
    if n == 0
    then release keep_current (p, src)
    else release keep_current (settle keep_current (transfer n p src).0 (transfer n p src).1)

abbrev pub chunk_ok : ℕ → Bool → ℕ → ChunkInfo → Bool
chunk_ok used_chunks current_chunk_empty i c =
    ltb 0 c.size
    && (if ltb (i + 1) used_chunks
        then ltb 0 c.allocated_bytes
        else if i + 1 == used_chunks
        then (if current_chunk_empty then c.allocated_bytes == 0 else ltb 0 c.allocated_bytes)
        else c.allocated_bytes == 0)

-- The loop of `CheckIntegrity` from the chunk `i` on.
unfoldable pub check_chunks : ℕ → Bool → ℕ → List ChunkInfo → Bool
check_chunks used_chunks current_chunk_empty i [] = true
check_chunks used_chunks current_chunk_empty i (c ∷ cs) =
    chunk_ok used_chunks current_chunk_empty i c
    && check_chunks used_chunks current_chunk_empty (i + 1) cs

unfoldable pub total_allocated : List ChunkInfo → ℕ
total_allocated [] = 0
total_allocated (c ∷ cs) = c.allocated_bytes + total_allocated cs

unfoldable pub check_integrity : Bool → MemPool → Bool
unfolding check_chunks total_allocated
check_integrity current_chunk_empty p =
    leb p.used_chunks (length p.chunks)
    && (check_chunks p.used_chunks current_chunk_empty 0 p.chunks
        && (total_allocated p.chunks == p.total_allocated_bytes))
