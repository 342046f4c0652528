-- ===== src/Schema/Runs.antt =====
-- A small schema through the converter and the descriptor, and the theorems at concrete inputs.
use Prim.Native.String.{String}
use text.Mathlib.TextEquality.{eq_iff}
use parquet_cpp.Common.{
  none, some, ℕ, suc, ◌≡◌, ◌≢◌, ◌↔◌, refl, true, [], ◌∷◌, map, length, get_elem?, arith,
}
use parquet_cpp.Common.Ints.{pos, negsuc}
use parquet_cpp.Types.{
  PhysicalType, LogicalType, Repetition, logical_type_to_string, LogicalType-discrete,
  PhysicalType-discrete,
}
use parquet_cpp.Schema.Node.{
  ok, throws, out_of_fuel, NodeBase, PrimitiveNode, Node, NodeVector, primitive, group, no_fields,
  field, field_count, unset_metadata, set_metadata, make_primitive, check_logical_type,
  check_length, not_enough_elements, no_children,
}
use parquet_cpp.Schema.Node.Accepts.{is_ok, accepts, make_primitive-accepts}
use parquet_cpp.Schema.Node.Built.{Built}
use parquet_cpp.Schema.Element.{SchemaElement}
use parquet_cpp.Schema.Converter.{convert, flatten}
use parquet_cpp.Schema.Converter.Total.{convert-terminates}
use parquet_cpp.Schema.Converter.RoundTrip.{IsSound, number, number_fields, convert-flatten}
use parquet_cpp.Schema.Equals.{equals}
use parquet_cpp.Schema.Equals.Structural.{essence, equals_lem}
use parquet_cpp.Schema.Descriptor.{
  SchemaDescriptor, init, empty_descriptor, path, get_column_root, from_parquet,
}
use parquet_cpp.Schema.Descriptor.Columns.{describe, paths_of_fields, init-columns}
use parquet_cpp.Schema.Descriptor.Paths.{names_of, path-init}
use parquet_cpp.Schema.Descriptor.Roots.{bases, get_column_root-init}
use parquet_cpp.Schema.Descriptor.FromParquet.{from_parquet-flatten}
use parquet_cpp.Schema.ColumnPath.{from_dot_string, to_dot_string}
use parquet_cpp.Schema.ColumnPath.RoundTrip.{from_dot_string-to_dot_string}

abbrev base : String → Repetition → LogicalType → NodeBase
base name r l = record { name = name; repetition = r; logical_type = l; id = negsuc 0 }

abbrev leaf : PrimitiveNode
leaf = record {
  base = base "b" Repetition.repeated LogicalType.decimal;
  physical_type = PhysicalType.int32;
  type_length = negsuc 0;
  decimal_metadata = set_metadata (pos 9) (pos 2);
}

abbrev body : PrimitiveNode
body = record {
  base = base "c" Repetition.required LogicalType.utf8;
  physical_type = PhysicalType.byte_array;
  type_length = negsuc 0;
  decimal_metadata = unset_metadata;
}

abbrev fields : NodeVector
fields =
    field (group (base "a" Repetition.optional LogicalType.none) (field (primitive leaf) no_fields))
      (field (primitive body) no_fields)

abbrev root : NodeBase
root = base "schema" Repetition.required LogicalType.none

abbrev hollow : Node
hollow = group root (
    field (group (base "a" Repetition.optional LogicalType.none) no_fields)
      (field (primitive body) no_fields))

-- The levels of the two columns, and the dot string of the first.
columns :
    map (describe (root ∷ []) (0, 0)) (paths_of_fields fields)
    ≡ record {
      primitive_node = leaf;
      parents = base "a" Repetition.optional LogicalType.none ∷ root ∷ [];
      max_definition_level = 2;
      max_repetition_level = 1;
    }
      ∷ record {
        primitive_node = body;
        parents = root ∷ [];
        max_definition_level = 0;
        max_repetition_level = 0;
      }
      ∷ []
unfolding describe paths_of_fields
columns = refl

trailing_dot : from_dot_string "a.b." ≡ "a" ∷ "b" ∷ []
unfolding from_dot_string
trailing_dot = refl

abbrev root_element : ℕ → SchemaElement
root_element n = record {
  type = none;
  type_length = none;
  repetition_type = none;
  name = "";
  num_children = some (pos n);
  converted_type = none;
  scale = none;
  precision = none;
  field_id = none;
}

-- `elements_[0]` of an empty list is not an element: the exception hangs on the memory behind it.
no_root : convert (root_element 1) [] ≡ throws not_enough_elements
unfolding convert
no_root = refl

no_root_no_children : convert (root_element 0) [] ≡ throws no_children
unfolding convert
no_root_no_children = refl

-- A group without fields is read back as a primitive node of the first type.
abbrev read_hollow : NodeVector
read_hollow =
    field
      (primitive (record {
        base = base "a" Repetition.optional LogicalType.none;
        physical_type = PhysicalType.boolean;
        type_length = pos 0;
        decimal_metadata = set_metadata (pos 0) (pos 0);
      }))
      (field (primitive body) no_fields)

hollow_is_read_as_primitive :
    convert (root_element 1) (flatten hollow []) ≡ ok (number 0 (group root read_hollow))
unfolding convert flatten number LogicalType-discrete PhysicalType-discrete
hollow_is_read_as_primitive = refl

-- The second `Init` of a descriptor keeps the bases of the first.
twice :
    get_column_root 0
      (init [] (group root read_hollow) (init [] (group root fields) empty_descriptor).0).0
    ≡ get_column_root 0 (init [] (group root fields) empty_descriptor).0
unfolding init get_column_root
twice = refl

map_is_unknown : logical_type_to_string LogicalType.map ≡ "UNKNOWN"
unfolding logical_type_to_string
map_is_unknown = refl

leaf-Built : Built leaf
unfolding check_logical_type check_length PhysicalType-discrete
leaf-Built = (refl, refl)

body-Built : Built body
unfolding check_logical_type check_length PhysicalType-discrete
body-Built = (refl, refl)

schema-IsSound : IsSound (group root fields)
unfolding IsSound field_count
schema-IsSound = (one_more 1, ((one_more 0, (leaf-Built, tt)), (body-Built, tt)))
  where
    one_more : (n : ℕ) → suc n ≢ 0
    one_more n = omega arith

make_primitive-accepts_example :
    is_ok (
      make_primitive "d" Repetition.optional PhysicalType.int32 LogicalType.decimal
        (negsuc 0)
        (pos 2)
        (pos 3)
        (negsuc 0))
    ≡ accepts PhysicalType.int32 LogicalType.decimal (negsuc 0) (pos 2) (pos 3)
make_primitive-accepts_example =
    make_primitive-accepts "d" Repetition.optional PhysicalType.int32 LogicalType.decimal (negsuc 0)
      (pos 2) (pos 3) (negsuc 0)

convert-terminates_example : convert (root_element 1) (flatten hollow []) ≢ out_of_fuel
convert-terminates_example = convert-terminates (root_element 1) (flatten hollow [])

convert-flatten_example :
    convert (root_element 1) (flatten (group root fields) []) ≡ ok (number 0 (group root fields))
convert-flatten_example = convert-flatten (root_element 1) root fields schema-IsSound

equals_lem_example :
    (equals (group root fields) hollow ≡ true) ↔ (essence (group root fields) ≡ essence hollow)
equals_lem_example = equals_lem (group root fields) hollow

init-columns_example :
    (init [] (group root fields) empty_descriptor).0.leaves
    ≡ map (describe (root ∷ []) (0, 0)) (paths_of_fields fields)
init-columns_example = init-columns [] root fields empty_descriptor

path-init_example :
    map path
      (init
        (root ∷ [])
        (group (base "s" Repetition.optional LogicalType.none) fields)
        empty_descriptor).0.leaves
    ≡ map (names_of (base "s" Repetition.optional LogicalType.none ∷ [])) (paths_of_fields fields)
path-init_example =
    path-init (root ∷ []) (base "s" Repetition.optional LogicalType.none ∷ [])
      (base "s" Repetition.optional LogicalType.none) root fields empty_descriptor refl

-- The name of the node of `Init` stands in the path where that node has a parent.
path_below_parent :
    map path
      (init
        (root ∷ [])
        (group (base "s" Repetition.optional LogicalType.none) (field (primitive leaf) no_fields))
        empty_descriptor).0.leaves
    ≡ ("s" ∷ "b" ∷ []) ∷ []
unfolding init path
path_below_parent = refl

get_column_root-init_example :
    (length (init [] (group root fields) empty_descriptor).0.leaves ≡ length (bases fields))
    × ((i : ℕ)
        → get_column_root i (init [] (group root fields) empty_descriptor).0
          ≡ get_elem? (bases fields) i)
get_column_root-init_example = get_column_root-init [] root fields empty_descriptor refl

from_parquet-flatten_example :
    (d : SchemaDescriptor) × (from_parquet (root_element 1) (flatten (group root fields) []) ≡ ok d)
    × (d.leaves
        ≡ map
            (describe (record root { id = pos 0 } ∷ []) (0, 0))
            (paths_of_fields (number_fields 1 fields)))
from_parquet-flatten_example = from_parquet-flatten (root_element 1) root fields schema-IsSound

from_dot_string-to_dot_string_example :
    from_dot_string (to_dot_string ("a" ∷ "" ∷ "b" ∷ [])) ≡ "a" ∷ "" ∷ "b" ∷ []
from_dot_string-to_dot_string_example =
    from_dot_string-to_dot_string ("a" ∷ "" ∷ "b" ∷ []) ((refl, tt), (tt, ((refl, tt), filled)))
  where
    filled : ◌≢◌ {A = String} "b" ""
    filled = ground (arith, eq_iff "b" "")
