-- ===== src/Schema/Descriptor/Columns.antt =====
-- The columns of a descriptor against the paths from the root to the leaves.
use mathlib.Core.List.{reverse_aux, map-map, map-append, append_assoc, append-nil}
use parquet_cpp.Common.{
  ℕ, ◌+◌, ◌%◌, ◌^◌, ◌≡◌, refl, ap, ap₂, ◌∙◌, sym, some, List, [], ◌∷◌, ◌++◌, map,
}
use parquet_cpp.Common.{Bool, if◌then◌else◌, arith}
use mathlib.Core.Path.{fun_ext}
use parquet_cpp.Types.{Repetition, Repetition-discrete, decide}
use parquet_cpp.Schema.Node.{
  NodeBase, PrimitiveNode, Node, NodeVector, primitive, group, no_fields, field,
}
use parquet_cpp.Schema.Descriptor.{
  ColumnDescriptor, SchemaDescriptor, increment, next_levels, add_leaf, build_tree, build_fields,
  build_columns, init,
}

-- A leaf with the groups above it, from the top down.
abbrev pub below : NodeBase → List NodeBase × PrimitiveNode → List NodeBase × PrimitiveNode
below b (bs, p) = (b ∷ bs, p)

unfoldable mutual
  pub paths : Node → List (List NodeBase × PrimitiveNode)
  paths (primitive p) = ([], p) ∷ []
  paths (group b fs) = map (below b) (paths_of_fields fs)

  pub paths_of_fields : NodeVector → List (List NodeBase × PrimitiveNode)
  paths_of_fields no_fields = []
  paths_of_fields (field n fs) = paths n ++ paths_of_fields fs

-- The nodes of a path that are not required, and those that are repeated.
abbrev definition_step : Repetition → ℕ
definition_step Repetition.required = 0
definition_step Repetition.optional = 1
definition_step Repetition.repeated = 1

abbrev repetition_step : Repetition → ℕ
repetition_step Repetition.required = 0
repetition_step Repetition.optional = 0
repetition_step Repetition.repeated = 1

unfoldable pub definition_levels : List NodeBase → ℕ
definition_levels [] = 0
definition_levels (b ∷ bs) = definition_step b.repetition + definition_levels bs

unfoldable pub repetition_levels : List NodeBase → ℕ
repetition_levels [] = 0
repetition_levels (b ∷ bs) = repetition_step b.repetition + repetition_levels bs

-- The column of a path below nodes that give the levels `def` and `rep`.
unfoldable pub describe : List NodeBase → ℕ × ℕ → List NodeBase × PrimitiveNode → ColumnDescriptor
unfolding definition_levels repetition_levels
describe parents (def, rep) (bs, p) = record {
  primitive_node = p;
  parents = reverse_aux bs parents;
  max_definition_level = (def + definition_levels (bs ++ p.base ∷ [])) % 2 ^ 16;
  max_repetition_level = (rep + repetition_levels (bs ++ p.base ∷ [])) % 2 ^ 16;
}

pair_eq : {a a' b b' : ℕ} → a ≡ a' → b ≡ b' → ◌≡◌ {A = ℕ × ℕ} (a, b) (a', b')
pair_eq e e' = ap₂ (λ (x y : ℕ). (x, y)) e e'

abbrev step : Bool → Bool → ℕ × ℕ → ℕ × ℕ
step optional repeated (def, rep) =
    if optional
    then (increment def, rep)
    else if repeated
    then (increment def, increment rep)
    else (def, rep)

levels_of :
    (r : Repetition) (def rep : ℕ)
    → step
        (decide (Repetition-discrete r Repetition.optional))
        (decide (Repetition-discrete r Repetition.repeated))
        (def % 2 ^ 16, rep % 2 ^ 16)
      ≡ ((def + definition_step r) % 2 ^ 16, (rep + repetition_step r) % 2 ^ 16)
unfolding Repetition-discrete
levels_of Repetition.required def rep = pair_eq (omega arith) (omega arith)
levels_of Repetition.optional def rep = pair_eq (omega arith) (omega arith)
levels_of Repetition.repeated def rep = pair_eq (omega arith) (omega arith)

next_levels-eq :
    (b : NodeBase) (def rep : ℕ)
    → next_levels b (def % 2 ^ 16, rep % 2 ^ 16) ≡ (
      (def + definition_step b.repetition) % 2 ^ 16,
      (rep + repetition_step b.repetition) % 2 ^ 16,
    )
unfolding next_levels
next_levels-eq b def rep = levels_of b.repetition def rep

add_leaf-leaves :
    (c : ColumnDescriptor) (base : Node) (d : SchemaDescriptor)
    → (add_leaf c base d).leaves ≡ d.leaves ++ c ∷ []
unfolding add_leaf
add_leaf-leaves c base d = refl

column_eq :
    (p : PrimitiveNode) (parents : List NodeBase) {x x' y y' : ℕ}
    → x ≡ x'
    → y ≡ y'
    → ◌≡◌ {A = ColumnDescriptor}
        (record {
          primitive_node = p;
          parents = parents;
          max_definition_level = x;
          max_repetition_level = y;
        })
        (record {
          primitive_node = p;
          parents = parents;
          max_definition_level = x';
          max_repetition_level = y';
        })
column_eq p parents e e' = cc (e, e')

describe-leaf :
    (p : PrimitiveNode) (parents : List NodeBase) (def rep : ℕ)
    → ◌≡◌ {A = ColumnDescriptor}
        (record {
          primitive_node = p;
          parents = parents;
          max_definition_level = (next_levels p.base (def % 2 ^ 16, rep % 2 ^ 16)).0;
          max_repetition_level = (next_levels p.base (def % 2 ^ 16, rep % 2 ^ 16)).1;
        })
        (describe parents (def, rep) ([], p))
unfolding describe definition_levels repetition_levels
describe-leaf p parents def rep =
    column_eq p parents (ap (λ (x : ℕ × ℕ). x.0) (next_levels-eq p.base def rep) ∙ omega arith)
      (ap (λ (x : ℕ × ℕ). x.1) (next_levels-eq p.base def rep) ∙ omega arith)

describe-below :
    (parents : List NodeBase) (def rep : ℕ) (b : NodeBase) (q : List NodeBase × PrimitiveNode)
    → describe
        (b ∷ parents)
        (def + definition_step b.repetition, rep + repetition_step b.repetition)
        q
      ≡ describe parents (def, rep) (below b q)
unfolding describe definition_levels repetition_levels
describe-below parents def rep b (bs, p) =
    column_eq p (reverse_aux bs (b ∷ parents)) (omega arith) (omega arith)

mutual
  unfolding build_tree paths

  build_tree-leaves :
      (n : Node) (parents : List NodeBase) (def rep : ℕ) (base : Node) (d : SchemaDescriptor)
      → (build_tree n parents (def % 2 ^ 16, rep % 2 ^ 16) base d).leaves
        ≡ d.leaves ++ map (describe parents (def, rep)) (paths n)
  build_tree-leaves (primitive p) parents def rep base d =
      ap (λ (c : ColumnDescriptor). d.leaves ++ c ∷ []) (describe-leaf p parents def rep)
  build_tree-leaves (group b fs) parents def rep base d =
      let below_b =
        describe (b ∷ parents)
          (def + definition_step b.repetition, rep + repetition_step b.repetition) in
      ap (λ (l : ℕ × ℕ). (build_fields fs (b ∷ parents) l base d).leaves) (next_levels-eq b def rep)
      ∙ build_fields-leaves fs (b ∷ parents) (def + definition_step b.repetition)
          (rep + repetition_step b.repetition) base d
      ∙ ap
          (λ (f : List NodeBase × PrimitiveNode → ColumnDescriptor).
            d.leaves ++ map f (paths_of_fields fs))
          (fun_ext (describe-below parents def rep b))
      ∙ ap (λ (cs : List ColumnDescriptor). d.leaves ++ cs)
          (sym (map-map (describe parents (def, rep)) (below b) (paths_of_fields fs)))

  build_fields-leaves :
      (fs : NodeVector) (parents : List NodeBase) (def rep : ℕ) (base : Node) (d : SchemaDescriptor)
      → (build_fields fs parents (def % 2 ^ 16, rep % 2 ^ 16) base d).leaves
        ≡ d.leaves ++ map (describe parents (def, rep)) (paths_of_fields fs)
  build_fields-leaves no_fields parents def rep base d = sym (append-nil d.leaves)
  build_fields-leaves (field n fs) parents def rep base d =
      rw
        (
          build_fields-leaves fs parents def rep base
              (build_tree n parents (def % 2 ^ 16, rep % 2 ^ 16) base d),
          build_tree-leaves n parents def rep base d,
          map-append (describe parents (def, rep)) (paths n) (paths_of_fields fs),
          append_assoc d.leaves (map (describe parents (def, rep)) (paths n))
              (map (describe parents (def, rep)) (paths_of_fields fs)),
        )
        refl

build_columns-leaves :
    (fs : NodeVector) (parents : List NodeBase) (d : SchemaDescriptor)
    → (build_columns fs parents d).leaves
      ≡ d.leaves ++ map (describe parents (0, 0)) (paths_of_fields fs)
unfolding build_columns paths
build_columns-leaves no_fields parents d = sym (append-nil d.leaves)
build_columns-leaves (field n fs) parents d =
    rw
      (
        build_columns-leaves fs parents (build_tree n parents (0, 0) n d),
        build_tree-leaves n parents 0 0 n d,
        map-append (describe parents (0, 0)) (paths n) (paths_of_fields fs),
        append_assoc d.leaves (map (describe parents (0, 0)) (paths n))
            (map (describe parents (0, 0)) (paths_of_fields fs)),
      )
      refl

-- `Init` with a group lists a column for each path from the root to a primitive node, from left to
-- right: the primitive node, its ancestors, those of the group among them, as maximum definition level
-- the number of the nodes of the path below the root that are not required, and as maximum repetition
-- level the number of those that are repeated, both modulo 2 ^ 16. The columns that the descriptor had
-- before are dropped.
pub init-columns :
    (above : List NodeBase) (b : NodeBase) (fs : NodeVector) (d : SchemaDescriptor)
    → (init above (group b fs) d).0.leaves ≡ map (describe (b ∷ above) (0, 0)) (paths_of_fields fs)
unfolding init
init-columns above b fs d =
    build_columns-leaves fs (b ∷ above) (record d { schema = some (group b fs); leaves = [] })
