-- ===== src/Schema/Descriptor.antt =====
-- The classes of src/parquet/schema/descriptor.h. A pointer to a primitive node is the node with the
-- list of its ancestors, the parent first and the root of the schema last. A level, an `int16_t`, is
-- its 16 bits.
pub mod Columns
pub mod FromParquet
pub mod Paths
pub mod Roots
use Prim.Native.String.{String}
use mathlib.Core.List.{reverse}
use parquet_cpp.Common.{
  ℕ, zero, suc, ◌+◌, ◌-◌, ◌%◌, ◌^◌, ◌==◌, Option, none, some, List, [], ◌∷◌, ◌++◌,
}
use parquet_cpp.Common.{Bool, true, false, length, get_elem?, if◌then◌else◌}
use parquet_cpp.Schema.Node.{
  ParquetException, not_a_group, Result, ok, throws, ◌>>=◌, NodeBase, PrimitiveNode, Node,
  NodeVector, primitive, group, no_fields, field, is_optional, is_repeated,
}
use parquet_cpp.Schema.Element.{SchemaElement}
use parquet_cpp.Schema.Converter.{convert}

-- The constructor's test for a primitive node is the pattern of its one call.
pub record ColumnDescriptor : Type 0 where
  pub primitive_node : PrimitiveNode
  pub parents : List NodeBase
  pub max_definition_level : ℕ
  pub max_repetition_level : ℕ

pub record SchemaDescriptor : Type 0 where
  pub schema : Option Node
  pub leaves : List ColumnDescriptor
  pub leaf_to_base : List (ℕ × Node)

abbrev pub empty_descriptor : SchemaDescriptor
empty_descriptor = record { schema = none; leaves = []; leaf_to_base = [] }

unfoldable pub find : ℕ → List (ℕ × Node) → Option Node
find k [] = none
find k ((j, n) ∷ m) = if j == k then some n else find k m

-- `emplace` of a map leaves a key that is there with its value.
unfoldable pub emplace : ℕ → Node → List (ℕ × Node) → List (ℕ × Node)
emplace k v [] = (k, v) ∷ []
emplace k v ((j, n) ∷ m) = if j == k then (j, n) ∷ m else (j, n) ∷ emplace k v m

-- `++max_def_level` and `++max_rep_level`.
abbrev pub increment : ℕ → ℕ
increment level = (level + 1) % 2 ^ 16

unfoldable pub next_levels : NodeBase → ℕ × ℕ → ℕ × ℕ
unfolding is_optional is_repeated
next_levels b (def, rep) =
    if is_optional b
    then (increment def, rep)
    else if is_repeated b
    then (increment def, increment rep)
    else (def, rep)

unfoldable pub add_leaf : ColumnDescriptor → Node → SchemaDescriptor → SchemaDescriptor
unfolding emplace
add_leaf column base d =
    let leaves = d.leaves ++ column ∷ [] in
    record d { leaves = leaves; leaf_to_base = emplace (length leaves - 1) base d.leaf_to_base }

-- `BuildTree`, with the ancestors of its node.
unfoldable mutual
  unfolding next_levels add_leaf

  pub build_tree : Node → List NodeBase → ℕ × ℕ → Node → SchemaDescriptor → SchemaDescriptor
  build_tree (primitive p) parents levels base d =
      let column : ColumnDescriptor = record {
        primitive_node = p;
        parents = parents;
        max_definition_level = (next_levels p.base levels).0;
        max_repetition_level = (next_levels p.base levels).1;
      } in
      add_leaf column base d
  build_tree (group b fs) parents levels base d =
      build_fields fs (b ∷ parents) (next_levels b levels) base d

  pub build_fields : NodeVector → List NodeBase → ℕ × ℕ → Node → SchemaDescriptor → SchemaDescriptor
  build_fields no_fields parents levels base d = d
  build_fields (field n fs) parents levels base d =
      build_fields fs parents levels base (build_tree n parents levels base d)

-- The loop of `Init` over the fields of its node, whose ancestors are `parents`.
unfoldable pub build_columns : NodeVector → List NodeBase → SchemaDescriptor → SchemaDescriptor
unfolding build_tree
build_columns no_fields parents d = d
build_columns (field n fs) parents d = build_columns fs parents (build_tree n parents (0, 0) n d)

-- `above` are the ancestors of the node, none if it is the root of its tree.
unfoldable pub init : List NodeBase → Node → SchemaDescriptor → SchemaDescriptor × Result (Unit {0})
unfolding build_columns
init above (primitive p) d = (record d { schema = some (primitive p) }, throws not_a_group)
init above (group b fs) d =
    (build_columns fs (b ∷ above) (record d { schema = some (group b fs); leaves = [] }), ok tt)

unfoldable pub column : ℕ → SchemaDescriptor → Option ColumnDescriptor
column i d = get_elem? d.leaves i

unfoldable pub get_column_root : ℕ → SchemaDescriptor → Option Node
unfolding find
get_column_root i d = find i d.leaf_to_base

-- The loop of `path`, from a node to the top; the node without a parent is left out.
unfoldable pub reversed_path : String → List NodeBase → List String
reversed_path name [] = []
reversed_path name (b ∷ parents) = name ∷ reversed_path b.name parents

unfoldable pub path : ColumnDescriptor → List String
unfolding reversed_path
path c = reverse (reversed_path c.primitive_node.base.name c.parents)

-- `FromParquet` of src/parquet/schema/converter.cc.
unfoldable pub from_parquet : SchemaElement → List SchemaElement → Result SchemaDescriptor
unfolding convert init
from_parquet behind elements = convert behind elements >>= λ root.
    (init [] root empty_descriptor).1 >>= λ done. ok (init [] root empty_descriptor).0
