-- ===== src/MemPool/Find.antt =====
-- `FindChunk` keeps the invariant and finds room.
use parquet_cpp.Common.{
  ℕ, zero, suc, ◌+◌, ◌-◌, ◌≤◌, ◌<◌, ◌≡◌, refl, ap, subst, sym, ◌∙◌, max, Option, none, some, List,
  [], ◌∷◌, ◌++◌,
}
use parquet_cpp.Common.{
  length, length-set, length-append, length-take, length-drop, drop-drop, get_or, set, take, drop,
  All, Bool, true, false, ◌==◌, if◌then◌else◌, arith, take-append-drop, drop-append, All-append,
  ne→==, le→leb,
}
use parquet_cpp.MemPool.{
  Answer, thrown, null, memory, ChunkInfo, make_chunk, no_chunk, MemPool, initial_chunk_size,
  current_chunk, scan, swap, use_free_chunk, add_chunk, new_chunk, leave_loop, find_chunk,
}
use parquet_cpp.MemPool.Sound.{InPlace, IsFree, allocated_of, size_of, IsSound, HasRoom}
use parquet_cpp.MemPool.Scan.{
  sum_of, sum_of-append, sum_of-swap, length-swap, drop-get_or, swap_same, get_or-set_same,
  drop-swap, scan-some, All-get_or, All-swap, All-drop, All-take,
}

-- The chunks after a free chunk is put in front of the others.
use_free-swap :
    (cs : List ChunkInfo) (n k : ℕ) → (if k == 0 then cs else swap cs (n + k) n) ≡ swap cs (n + k) n
use_free-swap cs n zero = sym (ap (λ (i : ℕ). swap cs i n) (omega arith) ∙ swap_same cs n)
use_free-swap cs n (suc k) =
    ap (λ (b : Bool). if b then cs else swap cs (n + suc k) n) (ne→== (suc k) 0 (omega arith))

pub use_free_chunk-chunks :
    (k : ℕ) (p : MemPool)
    → (use_free_chunk k p).chunks ≡ swap p.chunks (p.used_chunks + k) p.used_chunks
unfolding use_free_chunk
use_free_chunk-chunks k p = use_free-swap p.chunks p.used_chunks k

swap-current :
    (cs : List ChunkInfo) (i j : ℕ)
    → j < length cs
    → get_or (swap cs i j) j no_chunk ≡ get_or cs i no_chunk
unfolding swap
swap-current cs i j h =
    get_or-set_same (set cs i _) j _ (omega (arith, length-set cs i (get_or cs j no_chunk)))

use_free_chunk-IsSound :
    (n k : ℕ) (p : MemPool)
    → IsSound p
    → k < length (drop p.used_chunks p.chunks)
    → n ≤ (get_or (drop p.used_chunks p.chunks) k no_chunk).size
    → IsSound (use_free_chunk k p) × HasRoom n (use_free_chunk k p)
unfolding use_free_chunk
use_free_chunk-IsSound n k p h inside fits =
    let u = p.used_chunks in
    let cs = p.chunks in
    let e = use_free_chunk-chunks k p in
    let len : u + k < length cs = omega (arith, length-drop u cs, h.within) in
    let len' : u < length cs = omega arith in
    let at : u + 1 - 1 ≡ u = omega arith in
    let found = drop-get_or u k cs in
    let cur : current_chunk (use_free_chunk k p) ≡ get_or (drop u cs) k no_chunk =
      ap (λ (i : ℕ). get_or (use_free_chunk k p).chunks i no_chunk) at
      ∙ ap (λ (l : List ChunkInfo). get_or l u no_chunk) e
      ∙ swap-current cs (u + k) u len'
      ∙ found in
    let free : (get_or (drop u cs) k no_chunk).allocated_bytes ≡ 0 =
      All-get_or IsFree (drop u cs) k h.unused inside in
    let rest : All IsFree (drop (u + 1) (swap cs (u + k) u)) =
      subst (λ (l : List ChunkInfo). All IsFree l)
        (ap (λ (l : List ChunkInfo). drop 1 l) (sym (drop-swap u k cs))
          ∙ drop-drop 1 u (swap cs (u + k) u))
        (All-drop IsFree 1 (swap (drop u cs) k 0)
          (All-swap IsFree (drop u cs) k 0 h.unused inside (omega arith))) in
    (
      record {
        within = omega (arith, ap (λ (l : List ChunkInfo). length l) e, length-swap cs (u + k) u);
        in_place =
            subst (λ (l : List ChunkInfo). All InPlace l) (sym e)
              (All-swap InPlace cs (u + k) u h.in_place len len');
        unused = subst (λ (l : List ChunkInfo). All IsFree (drop (u + 1) l)) (sym e) rest;
        allocated =
            ap (λ (l : List ChunkInfo). sum_of allocated_of l) e
            ∙ sum_of-swap allocated_of cs (u + k) u len len'
            ∙ h.allocated;
        reserved =
            ap (λ (l : List ChunkInfo). sum_of size_of l) e
            ∙ sum_of-swap size_of cs (u + k) u len len'
            ∙ h.reserved;
        peak = h.peak;
        growth = h.growth;
      },
      (
        omega arith,
        omega (
          arith,
          fits,
          free,
          ap (λ (c : ChunkInfo). c.size) cur,
          ap (λ (c : ChunkInfo). c.allocated_bytes) cur,
        ),
      ),
    )

-- The chunks after a new one is put behind those that are used.
insert_chunk :
    (cs : List ChunkInfo) (n : ℕ) (v : ChunkInfo)
    → n ≤ length cs
    → (if n == length cs then cs ++ v ∷ [] else take n cs ++ v ∷ drop n cs)
      ≡ take n cs ++ v ∷ drop n cs
insert_chunk [] zero v h = refl
insert_chunk [] (suc n) v h = absurd (omega arith)
insert_chunk (c ∷ cs) zero v h =
    ap (λ (b : Bool). if b then c ∷ cs ++ v ∷ [] else v ∷ c ∷ cs)
      (ne→== 0 (suc (length cs)) (omega arith))
insert_chunk (c ∷ cs) (suc n) v h =
    ap (λ (b : Bool). if b then c ∷ cs ++ v ∷ [] else c ∷ (take n cs ++ v ∷ drop n cs))
      (suc_eq n (length cs))
    ∙ push c (n == length cs) (cs ++ v ∷ []) (take n cs ++ v ∷ drop n cs)
    ∙ ap (λ t. c ∷ t) (insert_chunk cs n v (omega arith))
  where
    suc_eq : (a b : ℕ) → (suc a == suc b) ≡ (a == b)
    suc_eq a b = ground arith

    push :
        (x : ChunkInfo) (b : Bool) (l m : List ChunkInfo)
        → (if b then x ∷ l else x ∷ m) ≡ x ∷ (if b then l else m)
    push x true l m = refl
    push x false l m = refl

unfoldable pub inserted : ℕ → ChunkInfo → List ChunkInfo → List ChunkInfo
inserted n v cs = take n cs ++ v ∷ drop n cs

pub add_chunk-chunks :
    (size buf : ℕ) (p : MemPool)
    → p.used_chunks ≤ length p.chunks
    → (add_chunk size buf p).chunks ≡ inserted p.used_chunks (make_chunk size buf) p.chunks
unfolding add_chunk inserted
add_chunk-chunks size buf p h = insert_chunk p.chunks p.used_chunks (make_chunk size buf) h

sum_of-inserted :
    (f : ChunkInfo → ℕ) (n : ℕ) (v : ChunkInfo) (cs : List ChunkInfo)
    → sum_of f (inserted n v cs) ≡ sum_of f cs + f v
unfolding sum_of inserted
sum_of-inserted f n v cs = omega (
  arith,
  sum_of-append f (take n cs) (v ∷ drop n cs),
  sum_of-append f (take n cs) (drop n cs),
  ap (λ (l : List ChunkInfo). sum_of f l) (take-append-drop n cs),
)

pub drop-inserted :
    (n : ℕ) (v : ChunkInfo) (cs : List ChunkInfo)
    → n ≤ length cs
    → drop n (inserted n v cs) ≡ v ∷ drop n cs
unfolding inserted
drop-inserted n v cs h = drop-append n (take n cs) (v ∷ drop n cs) (sym (length-take n cs h))

pub add_chunk-current :
    (size buf : ℕ) (p : MemPool)
    → p.used_chunks ≤ length p.chunks
    → current_chunk (add_chunk size buf p) ≡ make_chunk size buf
unfolding add_chunk
add_chunk-current size buf p h =
    let u = p.used_chunks in
    let v = make_chunk size buf in
    let at : u + 1 - 1 ≡ u + 0 = omega arith in
    ap (λ (i : ℕ). get_or (add_chunk size buf p).chunks i no_chunk) at
    ∙ ap (λ (l : List ChunkInfo). get_or l (u + 0) no_chunk) (add_chunk-chunks size buf p h)
    ∙ drop-get_or u 0 (inserted u v p.chunks)
    ∙ ap (λ (l : List ChunkInfo). get_or l 0 no_chunk) (drop-inserted u v p.chunks h)

add_chunk-IsSound :
    (n size buf : ℕ) (p : MemPool)
    → IsSound p
    → n ≤ size
    → initial_chunk_size ≤ size
    → IsSound (add_chunk size buf p) × HasRoom n (add_chunk size buf p)
unfolding add_chunk inserted
add_chunk-IsSound n size buf p h fits large =
    let u = p.used_chunks in
    let cs = p.chunks in
    let v = make_chunk size buf in
    let e = add_chunk-chunks size buf p h.within in
    let cur = add_chunk-current size buf p h.within in
    let rest : All IsFree (drop (u + 1) (inserted u v cs)) =
      subst (λ (l : List ChunkInfo). All IsFree l)
        (ap (λ (l : List ChunkInfo). drop 1 l) (sym (drop-inserted u v cs h.within))
          ∙ drop-drop 1 u (inserted u v cs))
        h.unused in
    (
      record {
        within = omega (
          arith,
          h.within,
          ap (λ (l : List ChunkInfo). length l) e,
          length-append (take u cs) (v ∷ drop u cs),
          length-take u cs h.within,
        );
        in_place =
            subst (λ (l : List ChunkInfo). All InPlace l) (sym e)
              (All-append InPlace (take u cs) (v ∷ drop u cs) (All-take InPlace u cs h.in_place)
                ((omega arith, omega arith), All-drop InPlace u cs h.in_place));
        unused = subst (λ (l : List ChunkInfo). All IsFree (drop (u + 1) l)) (sym e) rest;
        allocated = omega (
          arith,
          ap (λ (l : List ChunkInfo). sum_of allocated_of l) e,
          sum_of-inserted allocated_of u v cs,
          h.allocated,
        );
        reserved = omega (
          arith,
          ap (λ (l : List ChunkInfo). sum_of size_of l) e,
          sum_of-inserted size_of u v cs,
          h.reserved,
        );
        peak = h.peak;
        growth = (omega arith, omega arith);
      },
      (
        omega arith,
        omega (
          arith,
          fits,
          ap (λ (c : ChunkInfo). c.size) cur,
          ap (λ (c : ChunkInfo). c.allocated_bytes) cur,
        ),
      ),
    )

-- A pool that a failed `Malloc` leaves: every chunk counts as used.
fail-IsSound : (p : MemPool) → IsSound p → IsSound (record p { used_chunks = length p.chunks })
fail-IsSound p h = record {
  within = omega arith;
  in_place = h.in_place;
  unused = subst (λ (l : List ChunkInfo). All IsFree l) (sym (drop-all p.chunks)) tt;
  allocated = h.allocated;
  reserved = h.reserved;
  peak = h.peak;
  growth = h.growth;
}
  where
    drop-all : (cs : List ChunkInfo) → drop (length cs) cs ≡ []
    drop-all [] = refl
    drop-all (c ∷ cs) = drop-all cs

-- What `FindChunk` promises for `n` bytes where it returns.
abbrev pub Finds : ℕ → MemPool × Option Bool → Type 0
Finds n (q, some true) = IsSound q × HasRoom n q
Finds n (q, some false) = IsSound q
Finds n (q, none) = Unit

new_chunk-Finds :
    (malloc : ℕ → Answer) (n : ℕ) (p : MemPool) → IsSound p → Finds n (new_chunk malloc n p)
unfolding new_chunk
new_chunk-Finds malloc n p h = answer (malloc (max n p.next_chunk_size))
  where
    answer :
        (r : Answer)
        → Finds n (elim r [
          | thrown ↦ (record p { used_chunks = length p.chunks + 1 }, none)
          | null ↦ (record p { used_chunks = length p.chunks }, some false)
          | memory buf ↦ (add_chunk (max n p.next_chunk_size) buf p, some true)
        ])
    answer thrown = tt
    answer null = fail-IsSound p h
    answer (memory buf) =
        add_chunk-IsSound n (max n p.next_chunk_size) buf p h (omega arith)
          (omega (arith, h.growth.0))

pub leave_loop-new_chunk :
    (malloc : ℕ → Answer) (n : ℕ) (p : MemPool)
    → p.used_chunks ≤ length p.chunks
    → leave_loop malloc n p ≡ new_chunk malloc n p
unfolding leave_loop
leave_loop-new_chunk malloc n p h =
    ap
      (λ (b : Bool).
        if b
        then new_chunk malloc n p
        else (record p { used_chunks = p.used_chunks + 1 }, some true))
      (le→leb p.used_chunks (length p.chunks) h)

pub find_chunk-Finds :
    (malloc : ℕ → Answer) (n : ℕ) (p : MemPool) → IsSound p → Finds n (find_chunk malloc n p)
unfolding find_chunk
find_chunk-Finds malloc n p h = answer (scan n (drop p.used_chunks p.chunks)) refl
  where
    answer :
        (r : Option ℕ)
        → scan n (drop p.used_chunks p.chunks) ≡ r
        → Finds n
            (elim r [ none ↦ leave_loop malloc n p | some k ↦ (use_free_chunk k p, some true) ])
    answer none e =
        subst (λ (r : MemPool × Option Bool). Finds n r)
          (sym (leave_loop-new_chunk malloc n p h.within)) (new_chunk-Finds malloc n p h)
    answer (some k) e =
        let (inside, fits) = scan-some n (drop p.used_chunks p.chunks) k e in
        use_free_chunk-IsSound n k p h inside fits
