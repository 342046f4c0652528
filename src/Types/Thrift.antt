-- ===== src/Types/Thrift.antt =====
-- The conversions of src/parquet/thrift/util.h between `LogicalType` and the `ConvertedType` of
-- src/parquet/thrift/parquet.thrift, which has no `NONE`. `Type` and `FieldRepetitionType` have in
-- both places the same enumerators with the same numbers, so that their casts are the identity and
-- one type stands for both. A cast between enumerations keeps the number; `converted_code` is that
-- of Thrift.
use parquet_cpp.Common.{ℕ, Option, none, some}
use parquet_cpp.Types.{LogicalType}

pub data ConvertedType : Type 0 where
  utf8 map map_key_value list enum decimal date time_millis time_micros : ConvertedType
  timestamp_millis timestamp_micros uint_8 uint_16 uint_32 uint_64 : ConvertedType
  int_8 int_16 int_32 int_64 json bson interval : ConvertedType

abbrev pub converted_code : ConvertedType → ℕ
converted_code ConvertedType.utf8 = 0
converted_code ConvertedType.map = 1
converted_code ConvertedType.map_key_value = 2
converted_code ConvertedType.list = 3
converted_code ConvertedType.enum = 4
converted_code ConvertedType.decimal = 5
converted_code ConvertedType.date = 6
converted_code ConvertedType.time_millis = 7
converted_code ConvertedType.time_micros = 8
converted_code ConvertedType.timestamp_millis = 9
converted_code ConvertedType.timestamp_micros = 10
converted_code ConvertedType.uint_8 = 11
converted_code ConvertedType.uint_16 = 12
converted_code ConvertedType.uint_32 = 13
converted_code ConvertedType.uint_64 = 14
converted_code ConvertedType.int_8 = 15
converted_code ConvertedType.int_16 = 16
converted_code ConvertedType.int_32 = 17
converted_code ConvertedType.int_64 = 18
converted_code ConvertedType.json = 19
converted_code ConvertedType.bson = 20
converted_code ConvertedType.interval = 21

unfoldable pub from_thrift : ConvertedType → LogicalType
from_thrift ConvertedType.utf8 = LogicalType.utf8
from_thrift ConvertedType.map = LogicalType.map
from_thrift ConvertedType.map_key_value = LogicalType.map_key_value
from_thrift ConvertedType.list = LogicalType.list
from_thrift ConvertedType.enum = LogicalType.enum
from_thrift ConvertedType.decimal = LogicalType.decimal
from_thrift ConvertedType.date = LogicalType.date
from_thrift ConvertedType.time_millis = LogicalType.time_millis
from_thrift ConvertedType.time_micros = LogicalType.time_micros
from_thrift ConvertedType.timestamp_millis = LogicalType.timestamp_millis
from_thrift ConvertedType.timestamp_micros = LogicalType.timestamp_micros
from_thrift ConvertedType.uint_8 = LogicalType.uint_8
from_thrift ConvertedType.uint_16 = LogicalType.uint_16
from_thrift ConvertedType.uint_32 = LogicalType.uint_32
from_thrift ConvertedType.uint_64 = LogicalType.uint_64
from_thrift ConvertedType.int_8 = LogicalType.int_8
from_thrift ConvertedType.int_16 = LogicalType.int_16
from_thrift ConvertedType.int_32 = LogicalType.int_32
from_thrift ConvertedType.int_64 = LogicalType.int_64
from_thrift ConvertedType.json = LogicalType.json
from_thrift ConvertedType.bson = LogicalType.bson
from_thrift ConvertedType.interval = LogicalType.interval

-- `NONE`, which a DCHECK excludes, has no converted type.
unfoldable pub to_thrift : LogicalType → Option ConvertedType
to_thrift LogicalType.none = none
to_thrift LogicalType.utf8 = some ConvertedType.utf8
to_thrift LogicalType.map = some ConvertedType.map
to_thrift LogicalType.map_key_value = some ConvertedType.map_key_value
to_thrift LogicalType.list = some ConvertedType.list
to_thrift LogicalType.enum = some ConvertedType.enum
to_thrift LogicalType.decimal = some ConvertedType.decimal
to_thrift LogicalType.date = some ConvertedType.date
to_thrift LogicalType.time_millis = some ConvertedType.time_millis
to_thrift LogicalType.time_micros = some ConvertedType.time_micros
to_thrift LogicalType.timestamp_millis = some ConvertedType.timestamp_millis
to_thrift LogicalType.timestamp_micros = some ConvertedType.timestamp_micros
to_thrift LogicalType.uint_8 = some ConvertedType.uint_8
to_thrift LogicalType.uint_16 = some ConvertedType.uint_16
to_thrift LogicalType.uint_32 = some ConvertedType.uint_32
to_thrift LogicalType.uint_64 = some ConvertedType.uint_64
to_thrift LogicalType.int_8 = some ConvertedType.int_8
to_thrift LogicalType.int_16 = some ConvertedType.int_16
to_thrift LogicalType.int_32 = some ConvertedType.int_32
to_thrift LogicalType.int_64 = some ConvertedType.int_64
to_thrift LogicalType.json = some ConvertedType.json
to_thrift LogicalType.bson = some ConvertedType.bson
to_thrift LogicalType.interval = some ConvertedType.interval
