-- ===== src/Schema/Node.antt =====
-- The nodes of src/parquet/schema/types.h. A `NodeVector` is the vector of the fields of a group.
-- A node does not hold the pointer to its parent here: where the code follows it, the model has the
-- list of the ancestors. An exception is a value with what its text prints.
pub mod Built
pub mod Accepts
use Prim.Native.String.{String}
use text.Mathlib.Text.{◌==◌}
use parquet_cpp.Common.{ℕ, zero, suc, Bool, true, false, ◌&&◌, ◌||◌, not, if◌then◌else◌}
use parquet_cpp.Common.Ints.{ℤ, pos, negsuc, less, int_eq}
use parquet_cpp.Types.{
  PhysicalType, LogicalType, Repetition, PhysicalType-discrete, LogicalType-discrete,
  Repetition-discrete, decide,
}

pub data ParquetException : Type 0 where
  wrong_physical_type : LogicalType → ParquetException
  invalid_decimal_precision invalid_decimal_scale : ℤ → ParquetException
  scale_greater_than_precision : ℤ → ℤ → ParquetException
  not_primitive : LogicalType → ParquetException
  invalid_length : ℤ → ParquetException
  no_children not_enough_elements not_a_group : ParquetException

-- `out_of_fuel` is no behaviour of the code: the model has it where a recursion runs on fuel.
pub data Result {ℓ} (A : Type ℓ) : Type ℓ where
  ok : A → Result A
  throws : ParquetException → Result A
  out_of_fuel : Result A

infixl 5 ◌>>=◌
abbrev pub ◌>>=◌ {ℓ κ} : {A : Type ℓ} {B : Type κ} → Result A → (A → Result B) → Result B
ok a >>= f = f a
throws e >>= f = throws e
out_of_fuel >>= f = out_of_fuel

-- The members of the class `Node`; its `type_` is the constructor of `Node` below.
pub record NodeBase : Type 0 where
  pub name : String
  pub repetition : Repetition
  pub logical_type : LogicalType
  pub id : ℤ

pub record DecimalMetadata : Type 0 where
  pub isset : Bool
  pub scale : ℤ
  pub precision : ℤ

pub record PrimitiveNode : Type 0 where
  pub base : NodeBase
  pub physical_type : PhysicalType
  pub type_length : ℤ
  pub decimal_metadata : DecimalMetadata

mutual
  pub data Node : Type 0 where
    primitive : PrimitiveNode → Node
    group : NodeBase → NodeVector → Node

  pub data NodeVector : Type 0 where
    no_fields : NodeVector
    field : Node → NodeVector → NodeVector

unfoldable pub is_optional : NodeBase → Bool
is_optional b = decide (Repetition-discrete b.repetition Repetition.optional)

unfoldable pub is_repeated : NodeBase → Bool
is_repeated b = decide (Repetition-discrete b.repetition Repetition.repeated)

unfoldable pub field_count : NodeVector → ℕ
field_count no_fields = zero
field_count (field n fs) = suc (field_count fs)

abbrev pub is_type : PhysicalType → PhysicalType → Bool
is_type t u = decide (PhysicalType-discrete t u)

-- What the constructor leaves in `decimal_metadata_` where it stores no scale and no precision; the
-- code has there whatever the memory held, and does not read it.
abbrev pub unset_metadata : DecimalMetadata
unset_metadata = record { isset = false; scale = pos 0; precision = pos 0 }

abbrev pub set_metadata : ℤ → ℤ → DecimalMetadata
set_metadata precision scale = record { isset = true; scale = scale; precision = precision }

abbrev require : Bool → LogicalType → Result DecimalMetadata
require holds logical_type =
    if holds then ok unset_metadata else throws (wrong_physical_type logical_type)

unfoldable pub check_decimal : PhysicalType → ℤ → ℤ → Result DecimalMetadata
check_decimal type precision scale =
    if is_type type PhysicalType.int32
      || (is_type type PhysicalType.int64
          || (is_type type PhysicalType.byte_array
              || is_type type PhysicalType.fixed_len_byte_array))
    then (if not (less (pos 0) precision)
        then throws (invalid_decimal_precision precision)
        else if less scale (pos 0)
        then throws (invalid_decimal_scale scale)
        else if less precision scale
        then throws (scale_greater_than_precision scale precision)
        else ok (set_metadata precision scale))
    else throws (wrong_physical_type LogicalType.decimal)

-- The switch on the logical type.
unfoldable pub check_logical_type : PhysicalType → LogicalType → ℤ → ℤ → ℤ → Result DecimalMetadata
unfolding check_decimal
check_logical_type type LogicalType.none length precision scale = ok (set_metadata precision scale)
check_logical_type type LogicalType.utf8 length precision scale =
    require (is_type type PhysicalType.byte_array) LogicalType.utf8
check_logical_type type LogicalType.json length precision scale =
    require (is_type type PhysicalType.byte_array) LogicalType.json
check_logical_type type LogicalType.bson length precision scale =
    require (is_type type PhysicalType.byte_array) LogicalType.bson
check_logical_type type LogicalType.decimal length precision scale =
    check_decimal type precision scale
check_logical_type type LogicalType.date length precision scale =
    require (is_type type PhysicalType.int32) LogicalType.date
check_logical_type type LogicalType.time_millis length precision scale =
    require (is_type type PhysicalType.int32) LogicalType.time_millis
check_logical_type type LogicalType.uint_8 length precision scale =
    require (is_type type PhysicalType.int32) LogicalType.uint_8
check_logical_type type LogicalType.uint_16 length precision scale =
    require (is_type type PhysicalType.int32) LogicalType.uint_16
check_logical_type type LogicalType.uint_32 length precision scale =
    require (is_type type PhysicalType.int32) LogicalType.uint_32
check_logical_type type LogicalType.int_8 length precision scale =
    require (is_type type PhysicalType.int32) LogicalType.int_8
check_logical_type type LogicalType.int_16 length precision scale =
    require (is_type type PhysicalType.int32) LogicalType.int_16
check_logical_type type LogicalType.int_32 length precision scale =
    require (is_type type PhysicalType.int32) LogicalType.int_32
check_logical_type type LogicalType.time_micros length precision scale =
    require (is_type type PhysicalType.int64) LogicalType.time_micros
check_logical_type type LogicalType.timestamp_millis length precision scale =
    require (is_type type PhysicalType.int64) LogicalType.timestamp_millis
check_logical_type type LogicalType.timestamp_micros length precision scale =
    require (is_type type PhysicalType.int64) LogicalType.timestamp_micros
check_logical_type type LogicalType.uint_64 length precision scale =
    require (is_type type PhysicalType.int64) LogicalType.uint_64
check_logical_type type LogicalType.int_64 length precision scale =
    require (is_type type PhysicalType.int64) LogicalType.int_64
check_logical_type type LogicalType.interval length precision scale =
    require (is_type type PhysicalType.fixed_len_byte_array && int_eq length (pos 12))
      LogicalType.interval
check_logical_type type LogicalType.enum length precision scale =
    require (is_type type PhysicalType.byte_array) LogicalType.enum
check_logical_type type logical_type length precision scale = throws (not_primitive logical_type)

unfoldable pub check_length : PhysicalType → ℤ → Result (Unit {0})
check_length type length =
    if is_type type PhysicalType.fixed_len_byte_array && not (less (pos 0) length)
    then throws (invalid_length length)
    else ok tt

unfoldable pub make_primitive :
    String → Repetition → PhysicalType → LogicalType → ℤ → ℤ → ℤ → ℤ → Result PrimitiveNode
unfolding check_logical_type check_length
make_primitive name repetition type logical_type length precision scale id =
    check_logical_type type logical_type length precision scale >>= λ metadata.
    check_length type length >>= λ checked. ok (record {
      base = record { name = name; repetition = repetition; logical_type = logical_type; id = id };
      physical_type = type;
      type_length = length;
      decimal_metadata = metadata;
    })
