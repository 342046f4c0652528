-- ===== src/BitPacking.antt =====
-- Unpacking of 32 values at a time: src/parquet/util/bpacking.h. `Statements` says what one
-- unrolled statement does, the four width modules hold the unrolled functions, `Dispatch` has
-- `unpack32`, and `Slices` proves what all of them compute.
pub mod Statements
pub mod Narrow
pub mod Middle
pub mod Wide
pub mod Widest
pub mod Dispatch
pub mod Slices
pub mod Runs
