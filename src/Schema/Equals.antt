-- ===== src/Schema/Equals.antt =====
-- `Equals` and `EqualsInternal` of src/parquet/schema/types.cc. The casts of `Equals` stand behind
-- the test of `type_`, which is the first pair of constructors here. The early return of a group for
-- two equal pointers is left out: a node equals itself.
pub mod Primitives
pub mod Structural
use Prim.Native.String.{String}
use text.Mathlib.Text as Text
use parquet_cpp.Common.{ℕ, Bool, true, false, ◌&&◌, ◌||◌, not, if◌then◌else◌, ◌==◌}
use parquet_cpp.Common.Ints.{ℤ, pos, int_eq}
use parquet_cpp.Types.{
  PhysicalType, LogicalType, Repetition, PhysicalType-discrete, LogicalType-discrete,
  Repetition-discrete, decide,
}
use parquet_cpp.Schema.Node.{
  NodeBase, DecimalMetadata, PrimitiveNode, Node, NodeVector, primitive, group, no_fields, field,
  field_count, is_type, unset_metadata,
}

abbrev pub is_logical : LogicalType → LogicalType → Bool
is_logical l k = decide (LogicalType-discrete l k)

abbrev pub is_repetition : Repetition → Repetition → Bool
is_repetition r s = decide (Repetition-discrete r s)

unfoldable pub base_equals : NodeBase → NodeBase → Bool
base_equals b c =
    (Text.◌==◌ b.name c.name)
    && (is_repetition b.repetition c.repetition && is_logical b.logical_type c.logical_type)

unfoldable pub primitive_equals : PrimitiveNode → PrimitiveNode → Bool
primitive_equals p q =
    if not (is_type p.physical_type q.physical_type)
      || not (is_logical p.base.logical_type q.base.logical_type)
    then false
    else ((if is_logical p.base.logical_type LogicalType.decimal
          then int_eq p.decimal_metadata.precision q.decimal_metadata.precision
            && int_eq p.decimal_metadata.scale q.decimal_metadata.scale
          else true)
        && (if is_type p.physical_type PhysicalType.fixed_len_byte_array
            then int_eq p.type_length q.type_length
            else true))

unfoldable mutual
  unfolding base_equals primitive_equals field_count

  pub equals : Node → Node → Bool
  equals (primitive p) (primitive q) = base_equals p.base q.base && primitive_equals p q
  equals (primitive p) (group c gs) = false
  equals (group b fs) (primitive q) = false
  equals (group b fs) (group c gs) =
      base_equals b c && (field_count fs == field_count gs && equals_fields fs gs)

  -- The loop over the fields of a group, up to the count of the first.
  pub equals_fields : NodeVector → NodeVector → Bool
  equals_fields no_fields gs = true
  equals_fields (field n fs) no_fields = false
  equals_fields (field n fs) (field m gs) = equals n m && equals_fields fs gs
