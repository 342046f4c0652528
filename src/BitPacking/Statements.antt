-- ===== src/BitPacking/Statements.antt =====
-- The statements of which the functions unpack1_32 to unpack32_32 consist. The pointer `in` is the
-- list of the bytes from it on: `*in` is a little-endian `uint32_t`, `++in` drops four bytes.
use parquet_cpp.Common.{ℕ, ◌-◌, ◌*◌, ◌/◌, ◌%◌, ◌^◌, bit_and, bit_or}
use parquet_cpp.Common.{List, [], ◌∷◌, take, drop}
use parquet_cpp.Common.Bytes.{le_value}

pub data Statement : Type 0 where
  -- *out = ((*in) >> s) & 1; out++;
  bit : ℕ → Statement
  -- *out = ((*in) >> s) % (1U << width); out++;
  field : ℕ → Statement
  -- *out = ((*in) >> s); ++in; out++;
  last : ℕ → Statement
  -- *out = ((*in) >> s); ++in; *out |= ((*in) % (1U << b)) << (width - b); out++;
  cross : ℕ → ℕ → Statement

abbrev pub deref : List ℕ → ℕ
deref in_ = le_value (take 4 in_)

abbrev pub next : List ℕ → List ℕ
next in_ = drop 4 in_

-- What the statements store at `out`, in order.
unfoldable pub run : ℕ → List Statement → List ℕ → List ℕ
run width [] in_ = []
run width (bit s ∷ rest) in_ = bit_and (deref in_ / 2 ^ s) 1 ∷ run width rest in_
run width (field s ∷ rest) in_ = (deref in_ / 2 ^ s % 2 ^ width) ∷ run width rest in_
run width (last s ∷ rest) in_ = (deref in_ / 2 ^ s) ∷ run width rest (next in_)
run width (cross s b ∷ rest) in_ =
    bit_or (deref in_ / 2 ^ s) (deref (next in_) % 2 ^ b * 2 ^ (width - b) % 2 ^ 32)
    ∷ run width rest (next in_)

-- Where the statements leave `in`: the pointer that the function returns.
unfoldable pub advance : List Statement → List ℕ → List ℕ
advance [] in_ = in_
advance (bit s ∷ rest) in_ = advance rest in_
advance (field s ∷ rest) in_ = advance rest in_
advance (last s ∷ rest) in_ = advance rest (next in_)
advance (cross s b ∷ rest) in_ = advance rest (next in_)
