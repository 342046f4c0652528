-- ===== src/Rle.antt =====
-- The run-length and bit-packing hybrid: src/parquet/util/rle-encoding.h.
pub mod Decoder
pub mod Format
pub mod Denotes
pub mod RunStart
pub mod Next
pub mod Passes
pub mod Decodes
pub mod Encoder
pub mod Stored
pub mod LiteralRun
pub mod Encodes
pub mod Groups
pub mod Buffered
pub mod RepeatedRun
pub mod PutSame
pub mod Put
pub mod Flush
pub mod Width
pub mod Flushed
pub mod RoundTrip
pub mod Runs
