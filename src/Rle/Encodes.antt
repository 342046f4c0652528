-- ===== src/Rle/Encodes.antt =====
-- What the state of an RleEncoder stands for: the values put so far.
use parquet_cpp.Common.{
  ℕ, ◌+◌, ◌*◌, ◌^◌, ◌≤◌, ◌<◌, ◌≡◌, ◌⊎◌, inl, inr, List, [], ◌∷◌, ◌++◌, length, replicate, All,
  arith, refl,
}
use parquet_cpp.Common.{true, false, none, ltb, Bool-cases, ltb→ge}
use parquet_cpp.BitUtil.{ceil}
use parquet_cpp.BitUtil.Rounding.{ceil-byte}
use parquet_cpp.BitStream.Writer.{bytes_written}
use parquet_cpp.Rle.Encoder.{Encoder, min_buffer_size, check_buffer_full}
use parquet_cpp.Rle.Format.{Run, IsRun, expand, encoded}
use parquet_cpp.Rle.Stored.{Stored}

-- The written part: whole runs, and the literals `ls` of an open run of `g` groups.
pub record Base (e : Encoder) (runs : List Run) (ls : List ℕ) (g : ℕ) : Type 0 where
  pub stored : Stored e.bit_width e.literal_indicator_byte runs ls e.bit_writer
  pub positive : 1 ≤ e.bit_width
  pub narrow : e.bit_width ≤ 32
  pub in_int : e.bit_writer.max_bytes * 8 < 2 ^ 31
  pub run_size : e.max_run_byte_size ≡ min_buffer_size e.bit_width
  pub runs_ok : All (IsRun e.bit_width) runs
  pub size : length ls ≡ g * 8
  pub count : e.literal_count ≡ g * 8
  pub few : g < 63
  pub opened : (e.literal_indicator_byte ≡ none) ⊎ (0 < g)
  pub small : All (λ v. v < 2 ^ e.bit_width) ls
  pub current : e.current_value < 2 ^ e.bit_width

abbrev pub stored_bytes : Encoder → List Run → ℕ
stored_bytes e runs = length (encoded e.bit_width runs)

-- The values behind the written part are a repeated run, or the buffered values, of which the last
-- `repeat_count` are the current one.
abbrev pub Repeats : Encoder → ℕ → List ℕ → Type 0
Repeats e g pending =
    (8 ≤ e.repeat_count)
    × (e.buffered_values ≡ [])
    × (g ≡ 0)
    × (pending ≡ replicate e.repeat_count e.current_value)

abbrev pub Buffers : Encoder → List ℕ → Type 0
Buffers e pending =
    (length e.buffered_values < 8)
    × (pending ≡ e.buffered_values)
    × (before : List ℕ) × (e.buffered_values ≡ before ++ replicate e.repeat_count e.current_value)

-- There is room for any run, or the encoder is full and there is room for what it has buffered.
abbrev pub Free : Encoder → List Run → Type 0
Free e runs =
    (e.buffer_full ≡ false)
    × (stored_bytes e runs + min_buffer_size e.bit_width ≤ e.bit_writer.max_bytes)

abbrev pub Full : Encoder → List Run → ℕ → List ℕ → Type 0
Full e runs g pending =
    (e.buffer_full ≡ true)
    × (g ≡ 0)
    × (e.repeat_count ≤ 8)
    × (pending ≡ replicate e.repeat_count e.current_value)
    × ((e.repeat_count ≡ 0)
        ⊎ (stored_bytes e runs + 1 + ceil e.bit_width 8 ≤ e.bit_writer.max_bytes))

pub record Encodes (e : Encoder) (vs : List ℕ) : Type 0 where
  pub runs : List Run
  pub ls : List ℕ
  pub g : ℕ
  pub pending : List ℕ
  pub base : Base e runs ls g
  pub values : vs ≡ expand runs ++ (ls ++ pending)
  pub pending_small : All (λ v. v < 2 ^ e.bit_width) pending
  pub shape : Repeats e g pending ⊎ Buffers e pending
  pub room : Free e runs ⊎ Full e runs g pending

pub min_buffer_size-bounds :
    (w : ℕ)
    → 1 ≤ w
    → (1 + 64 * w ≤ min_buffer_size w) × (5 + ceil w 8 ≤ min_buffer_size w) × (1 + ceil w 8 ≤ 2 * w)
unfolding min_buffer_size
min_buffer_size-bounds w h =
    (omega (arith, ceil-byte (2 ^ 6 * 8 * w)), omega arith, omega (arith, ceil-byte w))

-- No literal run is open when there are no literals.
pub no_indicator :
    {e : Encoder} {runs : List Run} {ls : List ℕ} {g : ℕ}
    → Base e runs ls g
    → g ≡ 0
    → (e.literal_indicator_byte ≡ none) × (ls ≡ [])
no_indicator {e = e} {ls = ls} {g = g} b z = (closed b.opened, nothing ls (omega (arith, b.size)))
  where
    closed : (e.literal_indicator_byte ≡ none) ⊎ (0 < g) → e.literal_indicator_byte ≡ none
    closed (inl n) = n
    closed (inr l) = absurd (omega arith)

    nothing : (l : List ℕ) → length l ≡ 0 → l ≡ []
    nothing [] h = refl
    nothing (x ∷ l) h = absurd (omega arith)

-- `CheckBufferFull` leaves the encoder as it is, with room for any run, or marks it full.
pub check_buffer_full_lem :
    (e : Encoder)
    → ((check_buffer_full e ≡ e)
        × (bytes_written e.bit_writer + e.max_run_byte_size ≤ e.bit_writer.max_bytes))
      ⊎ (check_buffer_full e ≡ record e { buffer_full = true })
unfolding check_buffer_full
check_buffer_full_lem e =
    elim (Bool-cases
      (ltb e.bit_writer.max_bytes (bytes_written e.bit_writer + e.max_run_byte_size))) [
        | inl full ↦ inr (rw full)
        | inr room ↦ inl (rw room (refl, ltb→ge e.bit_writer.max_bytes _ room))
      ]
