-- ===== src/Schema.antt =====
-- The schema of src/parquet/schema: nodes with their checks and their conversion to and from the
-- flat list of Thrift elements, and the columns that a descriptor finds in them.
pub mod Node
pub mod Element
pub mod Converter
pub mod Equals
pub mod Descriptor
pub mod ColumnPath
pub mod Runs
