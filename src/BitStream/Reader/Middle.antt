-- ===== src/BitStream/Reader/Middle.antt =====
-- The middle of `GetBatch`: whole groups of 32 values by `unpack32`, at a byte boundary.
use parquet_cpp.Common.{
  ℕ, zero, suc, ◌+◌, ◌-◌, ◌*◌, ◌/◌, ◌^◌, ◌≤◌, ◌<◌, ◌≡◌, List, [], ◌++◌, length, drop, All, arith,
  refl, min,
}
use parquet_cpp.Common.{
  Bool, true, false, ap, ◌∙◌, sym, ◌==◌, Bool-cases, inl, inr, ==→eq, ==→ne, ◌⊎◌, ◌≢◌, Option, some,
}
use parquet_cpp.Common.Bytes.{IsByte, le_value, le_value-drop, All-drop}
use parquet_cpp.Common.Slices.{slices, length-slices}
use native.Mathlib.Nat.{mul-le-mul_left}
use parquet_cpp.BitPacking.Slices.{unpack32_lem}
use parquet_cpp.BitStream.Reader.{Reader, refill, unpack_at, unpack_chunks, unpack_middle}
use parquet_cpp.BitStream.Reader.Invariant.{IsValid, position, rest_of, refill-IsLoaded}
use parquet_cpp.BitStream.Reader.Loops.{fields, fields_behind}

-- A reader whose word may be stale.
pub record IsPlaced (r : Reader) : Type 0 where
  pub fits : length r.buffer ≡ r.max_bytes
  pub bytes : All IsByte r.buffer
  pub in_int : r.max_bytes * 8 < 2 ^ 31
  pub word : r.buffered_values < 2 ^ 64
  pub pending : r.bit_offset < 64
  pub within : 8 * r.byte_offset + r.bit_offset ≤ 8 * r.max_bytes

pub IsValid-IsPlaced : {r : Reader} → IsValid r → IsPlaced r
IsValid-IsPlaced ok = record {
  fits = ok.is_loaded.fits;
  bytes = ok.is_loaded.bytes;
  in_int = ok.is_loaded.in_int;
  word = ok.is_loaded.word;
  pending = ok.pending;
  within = ok.within;
}

pub refill-IsValid : {r : Reader} → IsPlaced r → IsValid (refill r)
unfolding refill
refill-IsValid {r} p = record {
  is_loaded = refill-IsLoaded r p.fits p.bytes p.in_int p.word (omega arith);
  pending = p.pending;
  within = p.within;
}

-- `count` fields read, and the reader behind them.
pub record Unpacks (w left : ℕ) (r : Reader) (result : Option (List ℕ × Reader)) : Type 0 where
  pub count : ℕ
  pub next : Reader
  pub returns : result ≡ some (fields w count r, next)
  pub count-le : count ≤ left
  pub placed : IsPlaced next
  pub position_eq : position next ≡ position r + w * count
  pub buffer_eq : next.buffer ≡ r.buffer
  pub max_eq : next.max_bytes ≡ r.max_bytes
  pub bit_eq : next.bit_offset ≡ r.bit_offset

abbrev groups : ℕ → ℕ
groups n = n / 32 * 32

-- Groups of 32 values end at a byte boundary.
group_bytes : (n w : ℕ) → 8 * (groups n * w / 8) ≡ w * groups n
group_bytes n w = omega arith

groups_mono : (n w : ℕ) → w * groups n ≤ w * n
groups_mono n w = mul-le-mul_left w (omega arith)

-- What `unpack32` sees from the current byte on is what the reader has left.
from_here :
    (w n : ℕ) (r : Reader)
    → All IsByte r.buffer
    → (n ≡ 0) ⊎ (r.bit_offset ≡ 0)
    → slices w (groups n) (le_value (drop r.byte_offset r.buffer)) ≡ fields w (groups n) r
from_here w n r h (inl z) = rw z refl
from_here w n r h (inr z) =
    let e : 8 * r.byte_offset ≡ position r = omega arith in
    ap (slices w (groups n)) (le_value-drop r.byte_offset r.buffer h ∙ ap (rest_of r.buffer) e)

nothing : (w n : ℕ) (r : Reader) → IsPlaced r → Unpacks w n r (some ([], r))
nothing w n r p = record {
  count = 0;
  next = r;
  returns = refl;
  count-le = omega arith;
  placed = p;
  position_eq = omega arith;
  buffer_eq = refl;
  max_eq = refl;
  bit_eq = refl;
}

fewer : (m n b : ℕ) → m ≤ n → (n ≡ 0) ⊎ (b ≡ 0) → (m ≡ 0) ⊎ (b ≡ 0)
fewer m n b h (inl e) = inl (omega arith)
fewer m n b h (inr e) = inr e

-- One round of the chunk loop, on each branch.
module _ (fuel n w : ℕ) (r : Reader) where
  chunks_done : n ≡ 0 → unpack_chunks (suc fuel) n w r ≡ some ([], r)
  unfolding unpack_chunks
  chunks_done z = ground arith

  chunks_stop :
      {vs : List ℕ} {next : Reader}
      → 0 < n
      → unpack_at (min 1024 n) w r ≡ some (vs, next)
      → length vs ≡ 0
      → unpack_chunks (suc fuel) n w r ≡ some ([], r)
  unfolding unpack_chunks
  chunks_stop more e z = ground arith

  chunks_more_at :
      {vs ws : List ℕ} {next end : Reader}
      → 0 < n
      → unpack_at (min 1024 n) w r ≡ some (vs, next)
      → length vs ≢ 0
      → unpack_chunks fuel (n - length vs) w next ≡ some (ws, end)
      → unpack_chunks (suc fuel) n w r ≡ some (vs ++ ws, end)
  unfolding unpack_chunks
  chunks_more_at more e nz d = ground arith

  chunks_more :
      {vs ws : List ℕ} {next end : Reader} (c : ℕ)
      → 0 < n
      → unpack_at (min 1024 n) w r ≡ some (vs, next)
      → length vs ≡ c
      → c ≢ 0
      → unpack_chunks fuel (n - c) w next ≡ some (ws, end)
      → unpack_chunks (suc fuel) n w r ≡ some (vs ++ ws, end)
  unfolding unpack_chunks
  chunks_more c more e len nz d = chunks_more_at more e (λ z. nz (sym len ∙ z)) (rw len d)

module _ (w : ℕ) (narrow : w ≤ 32) where
  -- At a byte boundary, or with nothing to read.
  pub unpack_at_lem :
      (n : ℕ) (r : Reader)
      → IsPlaced r
      → (n ≡ 0) ⊎ (r.bit_offset ≡ 0)
      → position r + w * n ≤ 8 * r.max_bytes
      → Unpacks w n r (unpack_at n w r)
  unfolding unpack_at
  unpack_at_lem n r p at_byte room = record {
    count = groups n;
    next = record r { byte_offset = r.byte_offset + groups n * w / 8 };
    returns = rw (
      unpack32_lem (drop r.byte_offset r.buffer) n w narrow
          (All-drop r.byte_offset r.buffer p.bytes),
      unpack_at,
      from_here w n r p.bytes at_byte,
      length-slices w (groups n) (rest_of r.buffer (position r)),
    );
    count-le = omega arith;
    placed = record {
      fits = p.fits;
      bytes = p.bytes;
      in_int = p.in_int;
      word = p.word;
      pending = p.pending;
      within = omega (arith, group_bytes n w, groups_mono n w);
    };
    position_eq = omega (arith, group_bytes n w);
    buffer_eq = refl;
    max_eq = refl;
    bit_eq = refl;
  }

  left_room :
      (c n : ℕ) (next r : Reader)
      → c ≤ min 1024 n
      → position next ≡ position r + w * c
      → next.max_bytes ≡ r.max_bytes
      → position r + w * n ≤ 8 * r.max_bytes
      → position next + w * (n - c) ≤ 8 * next.max_bytes
  left_room c n next r h e m room =
      let s : c + (n - c) ≡ n = omega arith in omega (arith, ap (λ (t : ℕ). w * t) s)

  joined :
      (n : ℕ) (r : Reader) {first second : Option (List ℕ × Reader)}
      (u : Unpacks w (min 1024 n) r first) (v : Unpacks w (n - u.count) u.next second)
      → Unpacks w n r (some (fields w u.count r ++ fields w v.count u.next, v.next))
  joined n r u v = record {
    count = u.count + v.count;
    next = v.next;
    returns =
        ap (λ t. some (t, v.next))
          (fields_behind w u.count v.count r u.next u.position_eq u.buffer_eq);
    count-le = omega (arith, u.count-le, v.count-le);
    placed = v.placed;
    position_eq = omega (arith, u.position_eq, v.position_eq);
    buffer_eq = v.buffer_eq ∙ u.buffer_eq;
    max_eq = v.max_eq ∙ u.max_eq;
    bit_eq = v.bit_eq ∙ u.bit_eq;
  }

  -- One round that reads a chunk, before the rounds behind it.
  chunk_round :
      (fuel n : ℕ) (r : Reader)
      → IsPlaced r
      → (n ≡ 0) ⊎ (r.bit_offset ≡ 0)
      → position r + w * n ≤ 8 * r.max_bytes
      → 0 < n
      → Unpacks w (min 1024 n) r (unpack_at (min 1024 n) w r)
      → ((m : ℕ) (s : Reader)
          → IsPlaced s
          → (m ≡ 0) ⊎ (s.bit_offset ≡ 0)
          → position s + w * m ≤ 8 * s.max_bytes
          → Unpacks w m s (unpack_chunks fuel m w s))
      → Unpacks w n r (unpack_chunks (suc fuel) n w r)
  chunk_round fuel n r p at_byte room pos u behind =
      let len = length-slices w u.count (rest_of r.buffer (position r)) in
      elim (Bool-cases (u.count == 0)) [
        | inl z ↦
            rw (chunks_stop fuel n w r pos u.returns (len ∙ ==→eq u.count 0 z)) (nothing w n r p)
        | inr nz ↦
            let rest =
              behind (n - u.count) u.next u.placed
                (rw u.bit_eq (fewer (n - u.count) n r.bit_offset (omega arith) at_byte))
                (left_room u.count n u.next r u.count-le u.position_eq u.max_eq room) in
            rw (chunks_more fuel n w r u.count pos u.returns len (==→ne u.count 0 nz) rest.returns)
              (joined n r u rest)
      ]

  -- The chunks of 1024 values; the fuel may be any.
  pub unpack_chunks_lem :
      (fuel n : ℕ) (r : Reader)
      → IsPlaced r
      → (n ≡ 0) ⊎ (r.bit_offset ≡ 0)
      → position r + w * n ≤ 8 * r.max_bytes
      → Unpacks w n r (unpack_chunks fuel n w r)
  unfolding unpack_chunks
  unpack_chunks_lem zero n r p at_byte room = nothing w n r p
  unpack_chunks_lem (suc fuel) n r p at_byte room = elim (Bool-cases (n == 0)) [
    | inl z ↦ rw (chunks_done fuel n w r (==→eq n 0 z)) (nothing w n r p)
    | inr more ↦
        chunk_round fuel n r p at_byte room (omega (arith, ==→ne n 0 more))
          (unpack_at_lem (min 1024 n) r p (fewer (min 1024 n) n r.bit_offset (omega arith) at_byte)
            (omega (arith, mul-le-mul_left {m = min 1024 n} {n = n} w (omega arith))))
          (unpack_chunks_lem fuel)
  ]

  -- Both branches of `if (sizeof(T) == 4)`.
  pub unpack_middle_lem :
      (four_bytes : Bool) (n : ℕ) (r : Reader)
      → IsPlaced r
      → (n ≡ 0) ⊎ (r.bit_offset ≡ 0)
      → position r + w * n ≤ 8 * r.max_bytes
      → Unpacks w n r (unpack_middle four_bytes n w r)
  unfolding unpack_middle
  unpack_middle_lem true n r p at_byte room = unpack_at_lem n r p at_byte room
  unpack_middle_lem false n r p at_byte room = unpack_chunks_lem n n r p at_byte room
