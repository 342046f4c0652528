-- ===== src/Schema/Element/Kept.antt =====
-- What an element keeps of a node.
use parquet_cpp.Common.{
  ◌≡◌, refl, ap, sym, Bool, true, false, Option, none, some, if◌then◌else◌, arith,
}
use parquet_cpp.Common.Ints.{ℤ, pos}
use parquet_cpp.Types.{LogicalType-discrete, LogicalType}
use parquet_cpp.Types.Thrift.{from_thrift, to_thrift}
use parquet_cpp.Schema.Node.{
  ok, NodeBase, DecimalMetadata, PrimitiveNode, NodeVector, primitive, group, unset_metadata,
}
use parquet_cpp.Schema.Node.Built.{Built, kept_metadata, remake}
use parquet_cpp.Schema.Element.{
  SchemaElement, converted, primitive_to_parquet, group_to_parquet, element_logical_type, value_or,
  element_repetition, primitive_from_parquet, group_from_parquet,
}

converted-logical :
    (element : SchemaElement) (l : LogicalType)
    → element.converted_type ≡ converted l
    → element_logical_type element ≡ l
unfolding element_logical_type converted to_thrift from_thrift LogicalType-discrete
converted-logical element l h = ground arith

-- A node whose field is set, or not set, reads back as it was.
pub group_from_parquet-to_parquet :
    (b : NodeBase) (fs : NodeVector) (fid : Option ℤ) (id : ℤ) (gs : NodeVector)
    → group_from_parquet (record (group_to_parquet b fs) { field_id = fid }) id gs
      ≡ group (record b { id = id }) gs
unfolding group_from_parquet group_to_parquet element_repetition
group_from_parquet-to_parquet b fs fid id gs =
    ap (λ (l : LogicalType). group (record b { id = id; logical_type = l }) gs)
      (converted-logical (record (group_to_parquet b fs) { field_id = fid }) b.logical_type refl)

read_back :
    (isset : Bool) (x : ℤ)
    → (isset ≡ false → x ≡ pos 0)
    → value_or (pos 0) (if isset then some x else none) ≡ x
read_back true x h = refl
read_back false x h = sym (h refl)

-- What `FromParquet` reads of the element of a node is that node, with the new id.
pub primitive_from_parquet-to_parquet :
    (p : PrimitiveNode) (fid : Option ℤ) (id : ℤ)
    → Built p
    → primitive_from_parquet (record (primitive_to_parquet p) { field_id = fid }) id
      ≡ ok (primitive (record p { base = record p.base { id = id } }))
unfolding primitive_from_parquet primitive_to_parquet element_repetition
primitive_from_parquet-to_parquet p fid id h =
    let m = p.decimal_metadata in
    let unset : m.isset ≡ false → m ≡ unset_metadata =
      kept_metadata p.physical_type p.base.logical_type p.type_length m h.0 in
    let precision =
      read_back m.isset m.precision λ k. ap (λ (x : DecimalMetadata). x.precision) (unset k) in
    let scale = read_back m.isset m.scale λ k. ap (λ (x : DecimalMetadata). x.scale) (unset k) in
    let logical =
      converted-logical (record (primitive_to_parquet p) { field_id = fid }) p.base.logical_type
        refl in
    let made =
      remake p.base.name p.base.repetition p.physical_type p.base.logical_type p.type_length m id
        h.0 h.1 in
    rw (precision, scale, logical, made) refl
