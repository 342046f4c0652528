-- ===== src/Schema/Converter.antt =====
-- `FlatSchemaConverter` and `SchemaFlattener` of src/parquet/schema/converter.cc. The converter has
-- the elements from `pos_` on as a list, so that `pos_ == length_` is an empty list.
pub mod Total
pub mod RoundTrip
use parquet_cpp.Common.{ℕ, zero, suc, ◌+◌, ◌==◌, Option, none, some, List, [], ◌∷◌, ◌++◌}
use parquet_cpp.Common.{Bool, length, get_or, if◌then◌else◌}
use parquet_cpp.Common.Ints.{ℤ, pos, negsuc, int_eq}
use parquet_cpp.Schema.Node.{
  ParquetException, no_children, not_enough_elements, Result, ok, throws, out_of_fuel, ◌>>=◌, Node,
  NodeVector, primitive, group, no_fields, field,
}
use parquet_cpp.Schema.Element.{
  SchemaElement, value_or, to_parquet, group_from_parquet, primitive_from_parquet,
}

pub record FlatSchemaConverter : Type 0 where
  pub elements : List SchemaElement
  pub current_id : ℕ

unfoldable pub make : List SchemaElement → FlatSchemaConverter
make elements = record { elements = elements; current_id = 0 }

unfoldable pub next_id : FlatSchemaConverter → ℕ × FlatSchemaConverter
next_id c = (c.current_id, record c { current_id = c.current_id + 1 })

unfoldable pub next : FlatSchemaConverter → Result (SchemaElement × FlatSchemaConverter)
next c = elim c.elements [
  | [] ↦ throws not_enough_elements
  | element ∷ rest ↦ ok (element, record c { elements = rest })
]

abbrev pub child_count : SchemaElement → ℤ
child_count element = value_or (pos 0) element.num_children

-- The rounds of `for (int i = 0; i < element.num_children; ++i)`.
abbrev pub rounds : ℤ → ℕ
rounds (pos n) = n
rounds (negsuc n) = 0

abbrev pub NextNode : Type 0
NextNode = FlatSchemaConverter → Result (Node × FlatSchemaConverter)

unfoldable pub next_fields :
    NextNode → ℕ → FlatSchemaConverter → Result (NodeVector × FlatSchemaConverter)
next_fields call zero c = ok (no_fields, c)
next_fields call (suc n) c =
    call c >>= λ (n', c'). next_fields call n c' >>= λ (fs, c''). ok (field n' fs, c'')

-- The two branches of `NextNode`, with its own call as a parameter.
unfoldable pub build_node :
    NextNode → SchemaElement → ℕ × FlatSchemaConverter → Result (Node × FlatSchemaConverter)
unfolding primitive_from_parquet group_from_parquet next_fields
build_node call element (node_id, c) =
    if int_eq (child_count element) (pos 0)
    then (primitive_from_parquet element (pos node_id) >>= λ n. ok (n, c))
    else (next_fields call (rounds (child_count element)) c >>= λ (fs, c').
        ok (group_from_parquet element (pos node_id) fs, c'))

-- The recursion of `NextNode` on fuel; each call takes one element.
unfoldable pub next_node : ℕ → NextNode
unfolding next next_id build_node
next_node zero c = out_of_fuel
next_node (suc fuel) c =
    let call = next_node fuel in next c >>= λ (element, c'). build_node call element (next_id c')

-- The code reads `elements_[0]` without a test of the length: `behind` is what the memory behind an
-- empty list reads as.
unfoldable pub convert : SchemaElement → List SchemaElement → Result Node
unfolding next_node make
convert behind elements =
    let root = get_or elements 0 behind in
    if int_eq (child_count root) (pos 0)
    then throws no_children
    else (next_node (suc (length elements)) (make elements) >>= λ (n, c). ok n)

-- `SchemaVisitor::Visit`, which numbers the elements by the size of the vector it adds to.
unfoldable mutual
  unfolding to_parquet

  pub visit : Node → List SchemaElement → List SchemaElement
  visit (primitive p) elements =
      elements ++ record (to_parquet (primitive p)) { field_id = some (pos (length elements)) } ∷ []
  visit (group b fs) elements = visit_fields fs (
      elements ++ record (to_parquet (group b fs)) { field_id = some (pos (length elements)) } ∷ [])

  pub visit_fields : NodeVector → List SchemaElement → List SchemaElement
  visit_fields no_fields elements = elements
  visit_fields (field n fs) elements = visit_fields fs (visit n elements)

-- `ToParquet` adds the elements of the schema to those of `out`.
unfoldable pub flatten : Node → List SchemaElement → List SchemaElement
unfolding visit
flatten schema out = visit schema out
