-- ===== src/Schema/Element.antt =====
-- `SchemaElement` of src/parquet/thrift/parquet.thrift, and the conversion of one node to it and
-- from it in src/parquet/schema/types.cc. A field that is not set reads as the default of the class
-- that Thrift generates: zero, the enumerator with the number 0, and the empty text.
pub mod Kept
use Prim.Native.String.{String}
use parquet_cpp.Common.{ℕ, Bool, Option, none, some, if◌then◌else◌}
use parquet_cpp.Common.Ints.{ℤ, pos, negsuc}
use parquet_cpp.Types.{PhysicalType, LogicalType, Repetition, LogicalType-discrete, decide}
use parquet_cpp.Types.Thrift.{ConvertedType, from_thrift, to_thrift}
use parquet_cpp.Schema.Node.{
  Result, NodeBase, PrimitiveNode, Node, NodeVector, primitive, group, field_count, make_primitive,
  ◌>>=◌, ok, throws, out_of_fuel,
}

pub record SchemaElement : Type 0 where
  pub type : Option PhysicalType
  pub type_length : Option ℤ
  pub repetition_type : Option Repetition
  pub name : String
  pub num_children : Option ℤ
  pub converted_type : Option ConvertedType
  pub scale : Option ℤ
  pub precision : Option ℤ
  pub field_id : Option ℤ

abbrev empty_element : SchemaElement
empty_element = record {
  type = none;
  type_length = none;
  repetition_type = none;
  name = "";
  num_children = none;
  converted_type = none;
  scale = none;
  precision = none;
  field_id = none;
}

abbrev pub value_or {ℓ} : {A : Type ℓ} → A → Option A → A
value_or d none = d
value_or d (some a) = a

-- `__set_converted_type` under the test for `NONE`.
unfoldable pub converted : LogicalType → Option ConvertedType
unfolding to_thrift
converted logical_type =
    if decide (LogicalType-discrete logical_type LogicalType.none)
    then none
    else to_thrift logical_type

unfoldable pub group_to_parquet : NodeBase → NodeVector → SchemaElement
unfolding converted field_count
group_to_parquet b fs = record empty_element {
  name = b.name;
  num_children = some (pos (field_count fs));
  repetition_type = some b.repetition;
  converted_type = converted b.logical_type;
}

unfoldable pub primitive_to_parquet : PrimitiveNode → SchemaElement
unfolding converted
primitive_to_parquet p = record empty_element {
  name = p.base.name;
  num_children = some (pos 0);
  repetition_type = some p.base.repetition;
  converted_type = converted p.base.logical_type;
  type = some p.physical_type;
  type_length = some p.type_length;
  precision = if p.decimal_metadata.isset then some p.decimal_metadata.precision else none;
  scale = if p.decimal_metadata.isset then some p.decimal_metadata.scale else none;
}

unfoldable pub to_parquet : Node → SchemaElement
unfolding primitive_to_parquet group_to_parquet
to_parquet (primitive p) = primitive_to_parquet p
to_parquet (group b fs) = group_to_parquet b fs

-- `GetNodeParams`: the repetition and the logical type of an element.
unfoldable pub element_repetition : SchemaElement → Repetition
element_repetition element = value_or Repetition.required element.repetition_type

unfoldable pub element_logical_type : SchemaElement → LogicalType
unfolding from_thrift
element_logical_type element = elim element.converted_type [
  | none ↦ LogicalType.none
  | some converted_type ↦ from_thrift converted_type
]

unfoldable pub group_from_parquet : SchemaElement → ℤ → NodeVector → Node
unfolding element_repetition element_logical_type
group_from_parquet element node_id fs =
    group
      (record {
        name = element.name;
        repetition = element_repetition element;
        logical_type = element_logical_type element;
        id = node_id;
      })
      fs

unfoldable pub primitive_from_parquet : SchemaElement → ℤ → Result Node
unfolding element_repetition element_logical_type make_primitive
primitive_from_parquet element node_id =
    make_primitive element.name (element_repetition element)
      (value_or PhysicalType.boolean element.type) (element_logical_type element)
      (value_or (pos 0) element.type_length) (value_or (pos 0) element.precision)
      (value_or (pos 0) element.scale) node_id
    >>= λ p. ok (primitive p)
