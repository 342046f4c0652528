-- ===== src/BitStream.antt =====
-- BitWriter and BitReader: src/parquet/util/bit-stream-utils.h and bit-stream-utils.inline.h.
pub mod Writer
pub mod Reader
pub mod RoundTrip
pub mod Groups
pub mod Vlq
pub mod VlqRead
pub mod VlqRoundTrip
pub mod Runs
