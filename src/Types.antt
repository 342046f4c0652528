-- ===== src/Types.antt =====
-- The enumerations of src/parquet/types.h and their names in src/parquet/types.cc. `PhysicalType`
-- is `Type::type`. A `code` is the number that the compiler gives the enumerator.
pub mod Thrift
use Prim.Native.String.{String}
use parquet_cpp.Common.{ℕ, Bool, true, false}

pub data PhysicalType : Type 0 where
  boolean int32 int64 int96 float double byte_array fixed_len_byte_array : PhysicalType

pub data LogicalType : Type 0 where
  none utf8 map map_key_value list enum decimal date time_millis time_micros : LogicalType
  timestamp_millis timestamp_micros uint_8 uint_16 uint_32 uint_64 : LogicalType
  int_8 int_16 int_32 int_64 json bson interval : LogicalType

pub data Repetition : Type 0 where
  required optional repeated : Repetition

unfoldable pub PhysicalType-discrete : Discrete PhysicalType
PhysicalType-discrete = hlevel

unfoldable pub LogicalType-discrete : Discrete LogicalType
LogicalType-discrete = hlevel

unfoldable pub Repetition-discrete : Discrete Repetition
Repetition-discrete = hlevel

abbrev pub decide {ℓ} : {A : Type ℓ} → Dec A → Bool
decide (yes a) = true
decide (no n) = false

abbrev pub logical_code : LogicalType → ℕ
logical_code LogicalType.none = 0
logical_code LogicalType.utf8 = 1
logical_code LogicalType.map = 2
logical_code LogicalType.map_key_value = 3
logical_code LogicalType.list = 4
logical_code LogicalType.enum = 5
logical_code LogicalType.decimal = 6
logical_code LogicalType.date = 7
logical_code LogicalType.time_millis = 8
logical_code LogicalType.time_micros = 9
logical_code LogicalType.timestamp_millis = 10
logical_code LogicalType.timestamp_micros = 11
logical_code LogicalType.uint_8 = 12
logical_code LogicalType.uint_16 = 13
logical_code LogicalType.uint_32 = 14
logical_code LogicalType.uint_64 = 15
logical_code LogicalType.int_8 = 16
logical_code LogicalType.int_16 = 17
logical_code LogicalType.int_32 = 18
logical_code LogicalType.int_64 = 19
logical_code LogicalType.json = 20
logical_code LogicalType.bson = 21
logical_code LogicalType.interval = 22

unfoldable pub type_to_string : PhysicalType → String
type_to_string PhysicalType.boolean = "BOOLEAN"
type_to_string PhysicalType.int32 = "INT32"
type_to_string PhysicalType.int64 = "INT64"
type_to_string PhysicalType.int96 = "INT96"
type_to_string PhysicalType.float = "FLOAT"
type_to_string PhysicalType.double = "DOUBLE"
type_to_string PhysicalType.byte_array = "BYTE_ARRAY"
type_to_string PhysicalType.fixed_len_byte_array = "FIXED_LEN_BYTE_ARRAY"

-- `MAP` has no case of its own.
unfoldable pub logical_type_to_string : LogicalType → String
logical_type_to_string LogicalType.none = "NONE"
logical_type_to_string LogicalType.utf8 = "UTF8"
logical_type_to_string LogicalType.map_key_value = "MAP_KEY_VALUE"
logical_type_to_string LogicalType.list = "LIST"
logical_type_to_string LogicalType.enum = "ENUM"
logical_type_to_string LogicalType.decimal = "DECIMAL"
logical_type_to_string LogicalType.date = "DATE"
logical_type_to_string LogicalType.time_millis = "TIME_MILLIS"
logical_type_to_string LogicalType.time_micros = "TIME_MICROS"
logical_type_to_string LogicalType.timestamp_millis = "TIMESTAMP_MILLIS"
logical_type_to_string LogicalType.timestamp_micros = "TIMESTAMP_MICROS"
logical_type_to_string LogicalType.uint_8 = "UINT_8"
logical_type_to_string LogicalType.uint_16 = "UINT_16"
logical_type_to_string LogicalType.uint_32 = "UINT_32"
logical_type_to_string LogicalType.uint_64 = "UINT_64"
logical_type_to_string LogicalType.int_8 = "INT_8"
logical_type_to_string LogicalType.int_16 = "INT_16"
logical_type_to_string LogicalType.int_32 = "INT_32"
logical_type_to_string LogicalType.int_64 = "INT_64"
logical_type_to_string LogicalType.json = "JSON"
logical_type_to_string LogicalType.bson = "BSON"
logical_type_to_string LogicalType.interval = "INTERVAL"
logical_type_to_string _ = "UNKNOWN"
