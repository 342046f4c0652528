-- ===== src/BitStream/Writer/Bytes.antt =====
-- `Flush` and `PutAligned`: the stream as bytes.
use parquet_cpp.Common.{ℕ, ◌+◌, ◌≤◌, ◌<◌, ◌≡◌, List, ◌++◌, length, take, arith, refl}
use parquet_cpp.Common.{if◌then◌else◌, Bool, true, false, ap, ◌∙◌, sym, ge→ltb, lt→ltb}
use parquet_cpp.Common.Bytes.{le_bytes, le_value, store, take-store_end, length-store, All-store}
use parquet_cpp.Common.Bytes.{le_bytes-IsByte, length-le_bytes}
use mathlib.Core.List.{append-nil}
use parquet_cpp.BitUtil.{ceil}
use parquet_cpp.BitStream.Writer.{Writer, flush, bytes_written, put_aligned}
use parquet_cpp.BitStream.Writer.Invariant.{
  IsValid, value, le_value-contents, contents, bytes_written-le,
}

-- `bs` stand at the end of the stream, and the writer is at a byte boundary.
pub record Extends (wr next : Writer) (bs : List ℕ) : Type 0 where
  pub valid : IsValid next
  pub contents_eq : contents next ≡ contents wr ++ bs
  pub aligned : next.bit_offset ≡ 0
  pub max_eq : next.max_bytes ≡ wr.max_bytes

module _ (wr : Writer) (ok : IsValid wr) where
  abbrev tail_bytes : List ℕ
  tail_bytes = le_bytes (ceil wr.bit_offset 8) wr.buffered_values

  tail_fits : wr.byte_offset + length tail_bytes ≤ length wr.buffer
  tail_fits =
      unfold bytes_written in
      omega (arith, length-le_bytes (ceil wr.bit_offset 8) wr.buffered_values, bytes_written-le ok)

  stored_tail : take (bytes_written wr) (store wr.buffer wr.byte_offset tail_bytes) ≡ contents wr
  unfolding bytes_written
  stored_tail =
      ap (λ (t : ℕ). take (wr.byte_offset + t) (store wr.buffer wr.byte_offset tail_bytes))
        (sym (length-le_bytes (ceil wr.bit_offset 8) wr.buffered_values))
      ∙ take-store_end wr.buffer wr.byte_offset tail_bytes (omega (arith, tail_fits))

  -- After a flush of a valid writer the first `bytes_written` bytes of the buffer are the contents of
  -- the stream: the stored words and then the bytes of the buffered value.
  pub flush-take : (align : Bool) → take (bytes_written wr) (flush align wr).buffer ≡ contents wr
  unfolding flush
  flush-take true = stored_tail
  flush-take false = stored_tail

  pub flush-IsValid : (align : Bool) → IsValid (flush align wr)
  unfolding flush bytes_written
  flush-IsValid true = record {
    fits = length-store wr.buffer wr.byte_offset tail_bytes tail_fits ∙ ok.fits;
    bytes =
        All-store wr.buffer wr.byte_offset tail_bytes ok.bytes
          (le_bytes-IsByte (ceil wr.bit_offset 8) wr.buffered_values);
    within = omega (arith, bytes_written-le ok);
    pending = omega arith;
    low = omega arith;
  }
  flush-IsValid false = record {
    fits = length-store wr.buffer wr.byte_offset tail_bytes tail_fits ∙ ok.fits;
    bytes =
        All-store wr.buffer wr.byte_offset tail_bytes ok.bytes
          (le_bytes-IsByte (ceil wr.bit_offset 8) wr.buffered_values);
    within = ok.within;
    pending = ok.pending;
    low = ok.low;
  }

  -- `Flush` of a valid writer, aligned or not, keeps the invariant and stores the stream in the
  -- buffer: the number that the first bytes_written() bytes of the buffer stand for is that of the
  -- bits written before it, those in the word among them. With `align` the word is empty after it and
  -- the writer stands at the byte boundary behind these bytes; without, the writer stands where it
  -- stood and goes on with the same word.
  pub flush-stores :
      (align : Bool)
      → IsValid (flush align wr)
        × (le_value (take (bytes_written wr) (flush align wr).buffer) ≡ value wr)
        × (bytes_written (flush align wr) ≡ bytes_written wr)
        × ((flush align wr).byte_offset ≡ (if align then bytes_written wr else wr.byte_offset))
        × ((flush align wr).bit_offset ≡ (if align then 0 else wr.bit_offset))
        × ((flush align wr).buffered_values ≡ (if align then 0 else wr.buffered_values))
  unfolding flush bytes_written ceil
  flush-stores align =
      let (same, byte, bit, word) = rest align in
      (
        flush-IsValid align,
        ap le_value (flush-take align) ∙ le_value-contents ok,
        same,
        byte,
        bit,
        word,
      )
    where
      rest :
          (align : Bool)
          → (bytes_written (flush align wr) ≡ bytes_written wr)
            × ((flush align wr).byte_offset ≡ (if align then bytes_written wr else wr.byte_offset))
            × ((flush align wr).bit_offset ≡ (if align then 0 else wr.bit_offset))
            × ((flush align wr).buffered_values ≡ (if align then 0 else wr.buffered_values))
      rest true = (omega arith, refl, refl, refl)
      rest false = (refl, refl, refl, refl)

  module _ (val n : ℕ) (room : bytes_written wr + n ≤ wr.max_bytes) where
    abbrev at_boundary : Writer
    at_boundary = flush true wr

    abbrev placed : Writer
    placed = record at_boundary {
      buffer = store (flush true wr).buffer (flush true wr).byte_offset (le_bytes n val);
      byte_offset = (flush true wr).byte_offset + n;
    }

    boundary :
        ((flush true wr).byte_offset ≡ bytes_written wr)
        × ((flush true wr).max_bytes ≡ wr.max_bytes)
        × ((flush true wr).bit_offset ≡ 0)
    unfolding flush bytes_written
    boundary = (refl, refl, refl)

    put_aligned_steps : put_aligned val n wr ≡ (placed, true)
    unfolding put_aligned bytes_written
    put_aligned_steps = rw (ge→ltb wr.max_bytes (wr.byte_offset + ceil wr.bit_offset 8 + n) room)

    boundary_room :
        (flush true wr).byte_offset + length (le_bytes n val) ≤ length (flush true wr).buffer
    boundary_room =
        omega
          (arith, boundary.0, boundary.1, length-le_bytes n val, (flush-IsValid true).fits, room)

    placed-IsValid : IsValid placed
    placed-IsValid = record {
      fits =
          length-store (flush true wr).buffer (flush true wr).byte_offset (le_bytes n val)
            boundary_room
          ∙ (flush-IsValid true).fits;
      bytes =
          All-store (flush true wr).buffer (flush true wr).byte_offset (le_bytes n val)
            (flush-IsValid true).bytes (le_bytes-IsByte n val);
      within = omega (arith, boundary.0, boundary.1, boundary.2, room);
      pending = (flush-IsValid true).pending;
      low = (flush-IsValid true).low;
    }

    placed-contents : contents placed ≡ contents wr ++ le_bytes n val
    unfolding flush ceil bytes_written
    placed-contents =
        append-nil _
        ∙ ap (λ (t : ℕ). take ((flush true wr).byte_offset + t) placed.buffer)
            (sym (length-le_bytes n val))
        ∙ take-store_end (flush true wr).buffer (flush true wr).byte_offset (le_bytes n val)
            (omega (arith, boundary_room))
        ∙ ap (λ t. t ++ le_bytes n val) (flush-take true)

    -- On a valid writer with room for `n` bytes, `PutAligned` succeeds, keeps the invariant, and the
    -- bytes of the stream grow by the `n` little-endian bytes of the value.
    pub put_aligned-Extends :
        ((put_aligned val n wr).1 ≡ true) × Extends wr (put_aligned val n wr).0 (le_bytes n val)
    put_aligned-Extends = rw put_aligned_steps (
      refl,
      record {
        valid = placed-IsValid;
        contents_eq = placed-contents;
        aligned = boundary.2;
        max_eq = boundary.1;
      },
    )

  -- Without room for `n` bytes, `PutAligned` on a valid writer fails, and only aligns the stream.
  pub put_aligned_full :
      (val n : ℕ)
      → wr.max_bytes < bytes_written wr + n
      → put_aligned val n wr ≡ (flush true wr, false)
  unfolding put_aligned bytes_written
  put_aligned_full val n h = rw (lt→ltb wr.max_bytes (wr.byte_offset + ceil wr.bit_offset 8 + n) h)
