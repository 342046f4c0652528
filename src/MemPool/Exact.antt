-- ===== src/MemPool/Exact.antt =====
-- `AcquireData` where an `int` holds the bytes of the current chunk of the source, and an `int64_t` the
-- bytes of both pools: nothing wraps.
use parquet_cpp.Common.{
  ℕ, ◌+◌, ◌-◌, ◌%◌, ◌^◌, ◌≤◌, ◌<◌, ◌≡◌, ap, ◌∙◌, max, Bool, ltb, ◌==◌, if◌then◌else◌, arith, lt→ltb,
}
use parquet_cpp.MemPool.{
  MemPool, current_chunk, through_int, get_free_offset, num_acquired_chunks, max_int64, settle,
}

-- `GetFreeOffset` without its cast.
unfoldable pub free_offset : MemPool → ℕ
free_offset p = if p.used_chunks == 0 then 0 else (current_chunk p).allocated_bytes

through_int-small : (n : ℕ) → n < 2 ^ 31 → through_int n ≡ n
unfolding through_int
through_int-small n h = go (n % 2 ^ 32) (omega (arith, h))
  where
    go : (low : ℕ) → low ≡ n → (if ltb low (2 ^ 31) then low else low + (2 ^ 64 - 2 ^ 32)) ≡ n
    go low e =
        ap (λ (b : Bool). if b then low else low + (2 ^ 64 - 2 ^ 32))
          (lt→ltb low (2 ^ 31) (omega (arith, e, h)))
        ∙ e

pub get_free_offset-free_offset :
    (p : MemPool) → (current_chunk p).allocated_bytes < 2 ^ 31 → get_free_offset p ≡ free_offset p
unfolding get_free_offset free_offset
get_free_offset-free_offset p h =
    ap (λ (n : ℕ). if p.used_chunks == 0 then 0 else n)
      (through_int-small (current_chunk p).allocated_bytes h)

unfoldable pub num_taken : MemPool → Bool → ℕ
num_taken src keep =
    if keep
    then src.used_chunks - 1
    else if free_offset src == 0
    then src.used_chunks - 1
    else src.used_chunks

pub num_acquired_chunks-num_taken :
    (src : MemPool) (keep : Bool)
    → (current_chunk src).allocated_bytes < 2 ^ 31
    → num_acquired_chunks src keep ≡ num_taken src keep
unfolding num_acquired_chunks num_taken
num_acquired_chunks-num_taken src keep h =
    ap
      (λ (n : ℕ).
        if keep
        then src.used_chunks - 1
        else if n == 0
        then src.used_chunks - 1
        else src.used_chunks)
      (get_free_offset-free_offset src h)

-- `settle` without what wraps.
unfoldable pub settle_exactly : Bool → MemPool → MemPool → MemPool × MemPool
unfolding free_offset
settle_exactly keep p src =
    let kept = record src { used_chunks = if keep then 1 else 0 } in
    let left = free_offset kept in
    let total = p.total_allocated_bytes + (src.total_allocated_bytes - left) in
    (
      record p {
        total_allocated_bytes = total;
        peak_allocated_bytes = max total p.peak_allocated_bytes;
      },
      record kept { total_allocated_bytes = left },
    )

moved_total :
    (p src left : ℕ)
    → left ≤ src
    → p + src < 2 ^ 63
    → (p + (src + (2 ^ 64 - left)) % 2 ^ 64) % 2 ^ 64 ≡ p + (src - left)
moved_total p src left le h = omega (arith, le, h)

max_int64-max : (total peak : ℕ) → total < 2 ^ 63 → max_int64 total peak ≡ max total peak
unfolding max_int64
max_int64-max total peak h =
    ap (λ (b : Bool). if b then max total peak else peak) (lt→ltb total (2 ^ 63) h)

-- A source whose first chunk an `int` measures, if it stays the current one.
pub settle-settle_exactly :
    (keep : Bool) (p src : MemPool)
    → get_free_offset (record src { used_chunks = if keep then 1 else 0 })
      ≡ free_offset (record src { used_chunks = if keep then 1 else 0 })
    → free_offset (record src { used_chunks = if keep then 1 else 0 }) ≤ src.total_allocated_bytes
    → p.total_allocated_bytes + src.total_allocated_bytes < 2 ^ 63
    → settle keep p src ≡ settle_exactly keep p src
unfolding settle settle_exactly
settle-settle_exactly keep p src same le sum =
    let kept : MemPool = record src { used_chunks = if keep then 1 else 0 } in
    let build : ℕ → ℕ → ℕ → MemPool × MemPool = λ total peak left. (
      record p { total_allocated_bytes = total; peak_allocated_bytes = peak },
      record kept { total_allocated_bytes = left },
    ) in
    let pa = p.total_allocated_bytes in
    let sa = src.total_allocated_bytes in
    let with_left : ℕ → MemPool × MemPool = λ left.
      let total = (pa + (sa + (2 ^ 64 - left)) % 2 ^ 64) % 2 ^ 64 in
      build total (max_int64 total p.peak_allocated_bytes) left in
    let left = free_offset kept in
    ap with_left same
    ∙ ap (λ (total : ℕ). build total (max_int64 total p.peak_allocated_bytes) left)
        (moved_total pa sa left le sum)
    ∙ ap (λ (peak : ℕ). build (pa + (sa - left)) peak left)
        (max_int64-max (pa + (sa - left)) p.peak_allocated_bytes (omega (arith, sum)))
