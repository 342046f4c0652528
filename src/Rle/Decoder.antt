-- ===== src/Rle/Decoder.antt =====
-- The class RleDecoder of src/parquet/util/rle-encoding.h. `four_bytes` tells whether the type `T`
-- of the values has four bytes, which BitReader asks for.
use parquet_cpp.Common.{ℕ, zero, suc, ◌+◌, ◌-◌, ◌*◌, ◌/◌, ◌%◌, ◌^◌, bit_and, min}
use parquet_cpp.Common.{Bool, true, false, Option, none, some, List, [], ◌∷◌, ◌++◌}
use parquet_cpp.Common.{length, take, drop, replicate, ltb, leb, ◌==◌, if◌then◌else◌}
use parquet_cpp.Common.Bytes.{le_bytes, load_over}
use parquet_cpp.BitUtil.{ceil}
use parquet_cpp.BitStream.Reader.{Reader, reset, get_batch, get_vlq_int, get_aligned}

pub record Decoder : Type 0 where
  pub bit_reader : Reader
  pub bit_width : ℕ
  pub current_value : ℕ
  pub repeat_count : ℕ
  pub literal_count : ℕ

-- The constructor and `Reset`; `old` is the word that the reader held.
unfoldable pub make : ℕ → List ℕ → ℕ → ℕ → Decoder
make old buffer buffer_len bit_width = record {
  bit_reader = reset old buffer buffer_len;
  bit_width = bit_width;
  current_value = 0;
  repeat_count = 0;
  literal_count = 0;
}

-- `indicator_value >> 1` of an `int32_t`, on bit patterns.
unfoldable pub half : ℕ → ℕ
half u = u / 2 + (if leb (2 ^ 31) u then 2 ^ 31 else 0)

-- `GetAligned<T>(n, reinterpret_cast<T*>(&current_value_))`: the `n` low bytes of the word. A
-- failure, which only a DCHECK sees, leaves all as it was.
unfoldable pub read_current : ℕ → Decoder → Decoder
read_current n d = elim (get_aligned n d.bit_reader) [
  | none ↦ d
  | some (v, next) ↦ record d {
    bit_reader = next;
    current_value = load_over d.current_value (le_bytes n v);
  }
]

-- `NextCounts` behind the read of the indicator.
unfoldable pub start_run : ℕ → Decoder → Decoder
start_run indicator d =
    if bit_and indicator 1 == 1
    then record d { literal_count = half indicator * 8 % 2 ^ 32 }
    else read_current (ceil d.bit_width 8) (record d { repeat_count = half indicator })

unfoldable pub next_counts : Decoder → Decoder × Bool
next_counts d =
    let (indicator, next) = get_vlq_int d.bit_reader in
    elim indicator [
      | none ↦ (record d { bit_reader = next }, false)
      | some u ↦ (start_run u (record d { bit_reader = next }), true)
    ]

-- The values that a repeated run gives to `values`, where its count is not negative as an `int`.
unfoldable pub repeat_run : ℕ → Decoder → List ℕ × Decoder
repeat_run left d =
    let repeat_batch = min left d.repeat_count in
    (
      replicate repeat_batch d.current_value,
      record d { repeat_count = d.repeat_count - repeat_batch },
    )

-- `static_cast<int>` of a count.
abbrev pub is_negative : ℕ → Bool
is_negative count = leb (2 ^ 31) count

-- `none` is a count that is negative as an `int`: the code then fills a batch of a negative size, which
-- leads outside of `values`.
unfoldable pub repeat_step : ℕ → Decoder → Option (List ℕ × Decoder)
unfolding repeat_run
repeat_step left d = if is_negative d.repeat_count then none else some (repeat_run left d)

-- The values that a literal run gives to `values`, whose memory held `out`: what `GetBatch` of the
-- reader stores, and the old memory where it stores less. `none` is the exception of `unpack32`, and a
-- count that is negative as an `int`.
unfoldable pub literal_step : Bool → ℕ → List ℕ → Decoder → Option (List ℕ × Decoder)
literal_step four_bytes left out d =
    let literal_batch = min left d.literal_count in
    if is_negative d.literal_count
    then none
    else elim (get_batch four_bytes d.bit_width literal_batch d.bit_reader) [
      | none ↦ none
      | some (vs, next) ↦ some (
        vs ++ drop (length vs) (take literal_batch out),
        record d { bit_reader = next; literal_count = d.literal_count - literal_batch },
      )
    ]

-- One pass of `while (values_read < batch_size)` with `left` values to come; no values and `false`
-- is the early return.
unfoldable pub batch_step : Bool → ℕ → List ℕ → Decoder → Option (List ℕ × (Decoder × Bool))
batch_step four_bytes left out d = elim (ltb 0 d.repeat_count) [
  | true ↦ elim (repeat_step left d) [ none ↦ none | some (vs, next) ↦ some (vs, (next, true)) ]
  | false ↦ elim (ltb 0 d.literal_count) [
    | true ↦ elim (literal_step four_bytes left out d) [
      | none ↦ none
      | some (vs, next) ↦ some (vs, (next, true))
    ]
    | false ↦ some ([], next_counts d)
  ]
]

-- The loop. Each pass reads a value at least or a byte of the stream.
unfoldable pub batch_loop : ℕ → Bool → ℕ → List ℕ → Decoder → Option (List ℕ × Decoder)
batch_loop zero four_bytes left out d = some ([], d)
batch_loop (suc fuel) four_bytes left out d = elim (ltb 0 left) [
  | false ↦ some ([], d)
  | true ↦ elim (batch_step four_bytes left out d) [
    | none ↦ none
    | some (vs, (next, false)) ↦ some (vs, next)
    | some (vs, (next, true)) ↦
        elim (batch_loop fuel four_bytes (left - length vs) (drop (length vs) out) next) [
          | none ↦ none
          | some (ws, end) ↦ some (vs ++ ws, end)
        ]
  ]
]

-- `GetBatch`: the values stored at `values`; their number is the result.
unfoldable pub rle_get_batch : Bool → ℕ → List ℕ → Decoder → Option (List ℕ × Decoder)
rle_get_batch four_bytes batch_size out d =
    batch_loop (batch_size + suc d.bit_reader.max_bytes) four_bytes batch_size out d

-- `Get`: whether one value was read, and the value.
unfoldable pub rle_get : Bool → ℕ → Decoder → Option (List ℕ × (Decoder × Bool))
rle_get four_bytes old d = elim (rle_get_batch four_bytes 1 (old ∷ []) d) [
  | none ↦ none
  | some (vs, next) ↦ some (vs, (next, length vs == 1))
]
