-- ===== src/Lib.antt =====
-- A model of the core of parquet-cpp: the code that turns columns of numbers and levels into packed
-- bytes and back, the schema with its conversion to and from file metadata, and the memory pool.
--
-- Parts and files:
--   * BitUtil: the class BitUtil of src/parquet/util/bit-util.h. One function per static method, in
--     snake case (RoundUp is `round_up`); BitUtil/Rounding, Counting and Positions hold the proofs.
--   * BitPacking: src/parquet/util/bpacking.h. Each of the 32 unrolled functions unpackN_32 is the
--     list of its statements in source order (BitPacking/Narrow, Middle, Wide, Widest); `run` is
--     what they store, `advance` is the pointer they return; Dispatch has `unpack32`.
--   * BitStream/Writer and BitStream/Reader: the classes BitWriter and BitReader of
--     src/parquet/util/bit-stream-utils.h and bit-stream-utils.inline.h. A record holds the members,
--     and each method is a function on it: PutValue is `put_value`, Flush is `flush`,
--     GetNextBytePtr is `get_next_byte_ptr`, PutAligned is `put_aligned`, PutVlqInt is
--     `put_vlq_int`; GetValue_ is `get_value_step`, GetBatch is `get_batch` with its loops
--     `lead_loop`, `unpack_middle` and `value_loop`, GetAligned is `get_aligned`, GetVlqInt is
--     `get_vlq_int`. The writer's stream is a number of `position` bits; the reader's is the rest of
--     the buffer from a bit on.
--   * BitStream/RoundTrip, Vlq, VlqRead, VlqRoundTrip: writer and reader together.
--   * Rle/Decoder: the class RleDecoder of src/parquet/util/rle-encoding.h; GetBatch is
--     `rle_get_batch`, NextCounts is `next_counts`. Rle/Encoder: its class RleEncoder; each method
--     keeps its name, the parts of Put are `put_same`, `put_other` and `buffer_value`, and `put_all`
--     is the loop over Put of LevelEncoder::Encode in src/parquet/column/levels.cc.
--     Rle/Format is the format of that file's comment, apart from the code: a list of runs, their
--     values and their bytes. Rle/Denotes says which values a decoder is to give, Rle/Encodes which
--     values an encoder has taken; RunStart, Next, Passes and Decodes follow the decoder, and Stored,
--     LiteralRun, RepeatedRun, Groups, Buffered, PutSame, Put, Flush, Flushed and RoundTrip the
--     encoder.
--   * Levels: the classes LevelEncoder and LevelDecoder of src/parquet/column/levels.h and levels.cc,
--     for both encodings; Init is `init`, MaxBufferSize is `level_buffer_size`, Encode is `encode`,
--     SetData is `set_data`, Decode is `decode`.
--   * Types: the enumerations of src/parquet/types.h and their names in types.cc; Types/Thrift has the
--     conversions of src/parquet/thrift/util.h.
--   * Schema/Node: the nodes of src/parquet/schema/types.h and the constructor of PrimitiveNode in
--     types.cc, `make_primitive`, with its switch `check_logical_type`. Schema/Element: ToParquet and
--     FromParquet of one node. Schema/Equals: Equals and EqualsInternal. Schema/ColumnPath: the class
--     ColumnPath.
--   * Schema/Converter: src/parquet/schema/converter.cc. Convert, NextNode and Next of
--     FlatSchemaConverter are `convert`, `next_node` and `next`; the SchemaVisitor of SchemaFlattener
--     is `visit`, and ToParquet of a schema is `flatten`.
--   * Schema/Descriptor: src/parquet/schema/descriptor.cc. Init, BuildTree, Column, GetColumnRoot and
--     path are `init`, `build_tree`, `column`, `get_column_root` and `path`; FromParquet of
--     converter.cc is `from_parquet`. Columns, Paths, Roots and FromParquet hold the proofs.
--   * MemPool: the class MemPool of src/parquet/util/mem-pool.h and mem-pool.cc; each method keeps its
--     name. Scan has the lists of chunks, Sound the invariant, Find and Keeps that the operations keep
--     it; Acquire, Settled, Exact and Acquired are about AcquireData (Exact without casts); Places, Kept, Safe and Allocated about
--     the memory handed out, and Reached about sequences of calls.
--   * Dictionary: the class DictEncoder of src/parquet/encodings/dictionary-encoding.h. Put is `put`
--     with its loop `probe`, DoubleTableSize is `double_table_size` with `rehash`, WriteIndices is
--     `write_indices`. Dictionary/Decoder: GetBatchWithDict of RleDecoder, `get_batch_with_dict`, and
--     the class DictionaryDecoder. Slots, Probe, Table and Sound have the invariant of the table, Put
--     and Indices what the buffered indices stand for, Chain, Distinct, Hashed and Unique that every
--     value is found from its hash, and Width, Decoder/Decodes, Decoder/Reads and Written the way
--     from `Put` to `Decode`.
--   * Common: lists, powers of two, little-endian bytes and `memcpy`, digits of bit operations.
--   * The Runs modules: concrete runs.
--
-- How the parts interact: BitReader calls `unpack32` for the values from a byte boundary on, and
-- TrailingBits for single ones; BitWriter and BitReader size their bytes by Ceil. RleDecoder reads
-- indicators by GetVlqInt, repeated values by GetAligned and literals by GetBatch of its BitReader;
-- RleEncoder reserves an indicator byte by GetNextBytePtr and writes literals by PutValue, repeated
-- runs by PutVlqInt and PutAligned of its BitWriter. The level coders take their width from Log2 and
-- hold an RLE or a bit coder. The converter calls the node constructors for each element and the
-- descriptor walks the tree that it returns. The pool rounds sizes up by RoundUp. DictEncoder takes
-- the width of its indices from Log2 and writes them by RleEncoder; DictionaryDecoder reads them by
-- RleDecoder.
--
-- Machine numbers: a `uint32_t` or `uint64_t` is a natural number, with `% 2 ^ 32` or `% 2 ^ 64`
-- where the code can wrap; a signed number that the code uses as a bit pattern is that pattern. The
-- `int` counts and offsets are taken where they do not overflow: a valid reader has fewer than
-- 2 ^ 31 bits, and the theorems on whole streams ask for the same. The DCHECKs, which a release build
-- drops, are hypotheses (widths of at most 32, values that fit them). The machine is little-endian.
-- Where a product, a sum or a cast can leave its `int` in calls that the code does not rule out, the
-- model has the cut: the size of a batch in BitReader::GetBatch, the encoded size of a dictionary, the
-- free offset of a pool. RleDecoder's counts are cast to `int`; where the cast is negative the code
-- writes outside of its output, and the model's GetBatch gives nothing. RoundUp is taken for values
-- that are not negative, and its theorem for sums that an `int64_t` holds.
--
-- A level of a column, an `int16_t`, is its 16 bits. An `int` of a schema element is a ℤ of the
-- module Common/Ints; the counts of bytes in the pool, of type `int64_t`, are natural numbers.
--
-- Objects: a schema node is a value without its parent pointer; where the code follows parents, the
-- model has the list of ancestors, and `init` takes those of its node, which need not be a root. A
-- thrown ParquetException is a value with what its text prints. Convert reads the first element of an
-- empty list; what that read gives is the argument `behind` of `convert`.
-- The allocator of the pool is a parameter, the answer of one call of Malloc: memory, NULL or an
-- exception, after which the index of the pool stands behind its chunks. That the memory overlaps
-- none of the pool is a hypothesis of the theorems that need it.
--
-- The dictionary encoding is that of the types stored in place (INT32, INT64, INT96, FLOAT, DOUBLE).
-- The type of the values, their `!=`, their hash function and their size are parameters; theorems
-- that need it ask that `!=` is false of equal values only, as it is for integers. An empty slot is
-- `none`. SetDict and WriteDict copy the dictionary, so a decoder is given the encoder's.
--
-- Memory: a buffer is the list of its bytes, a pointer into it is an offset, NULL is `none`. The
-- unpackers read zeros where their input ends too soon; GetBatch calls them where the buffer has the words.
-- Functions that return false and write through a pointer return an `Option`.
--
-- Fuel: each pass of RleDecoder::GetBatch reads a value or a byte; the loop of PutVlqInt has four
-- rounds before the last byte, since each drops seven of 32 bits; the loop of GetVlqInt reads a byte
-- in each round, so one round more than the buffer has bytes is enough; the loop over chunks takes at
-- least one value in each round or stops; the loops of PopcountNoHw, Log2 and NumRequiredBits run over
-- the 64 bits of their argument. The theorems give results, so none of these runs out. NextNode takes
-- an element in each call, so one more than the number of elements is enough. The probing of the hash
-- table has one step for each slot, and at least three tenths of the slots are empty.
--
-- Not modelled: the plain and delta encodings, dictionaries of byte arrays, the hash functions, the
-- printer of schemas, and the columns and files that stand on these parts; the compiler's byte-swap builtins, the SSE
-- instructions, and reads of a buffer that is longer in memory than its stated length. The code that
-- Thrift generates is taken as the struct of src/parquet/thrift/parquet.thrift, whose fields read as
-- zero, the first enumerator or the empty text where they are not set.
pub mod Common
pub mod BitUtil
pub mod BitPacking
pub mod BitStream
pub mod Rle
pub mod Schema
pub mod Types
pub mod Levels
pub mod MemPool
pub mod Dictionary
