-- ===== src/Schema/Descriptor/Roots.antt =====
-- The map from a column to the field of the root that holds it.
use mathlib.Core.List.{append-nil, append_assoc}
use parquet_cpp.Common.{
  ℕ, zero, suc, ◌-◌, ◌≡◌, refl, ap, subst, ◌∙◌, sym, Option, none, some, List, [], ◌∷◌, ◌++◌, map,
}
use parquet_cpp.Common.{
  Bool, ◌==◌, length, length-append, get_elem?, replicate, replicate-append, if◌then◌else◌, arith,
}
use parquet_cpp.Schema.Node.{NodeBase, Node, NodeVector, primitive, group, no_fields, field}
use parquet_cpp.Schema.Descriptor.{
  ColumnDescriptor, SchemaDescriptor, find, emplace, add_leaf, build_tree, build_fields,
  build_columns, init, get_column_root, next_levels,
}
use parquet_cpp.Schema.Descriptor.Columns.{below, paths, paths_of_fields}

-- For each path, the field of the root that it starts with.
pub bases : NodeVector → List Node
unfolding paths
bases no_fields = []
bases (field n fs) = replicate (length (paths n)) n ++ bases fs

-- The map has the values of `bs` at the columns, and at no other key.
abbrev IsIndexed : SchemaDescriptor → List Node → Type 0
IsIndexed d bs = (length d.leaves ≡ length bs) × ((i : ℕ) → find i d.leaf_to_base ≡ get_elem? bs i)

suc_eq : (a b : ℕ) → (a == b) ≡ (suc a == suc b)
suc_eq a b = ground arith

get_elem?-append :
    (bs : List Node) (b : Node) (i : ℕ)
    → get_elem? (bs ++ b ∷ []) i ≡ (if length bs == i then some b else get_elem? bs i)
get_elem?-append [] b zero = refl
get_elem?-append [] b (suc i) = ground arith
get_elem?-append (x ∷ bs) b zero = ground arith
get_elem?-append (x ∷ bs) b (suc i) =
    get_elem?-append bs b i
    ∙ ap (λ (t : Bool). if t then some b else get_elem? bs i) (suc_eq (length bs) i)

get_elem?-none : (bs : List Node) → get_elem? bs (length bs) ≡ none
get_elem?-none [] = refl
get_elem?-none (x ∷ bs) = get_elem?-none bs

find-emplace :
    (k i : ℕ) (v : Node) (m : List (ℕ × Node))
    → find k m ≡ none
    → find i (emplace k v m) ≡ (if k == i then some v else find i m)
unfolding find emplace
find-emplace k i v [] h = refl
find-emplace k i v ((j, n) ∷ m) h = ground (arith, find-emplace k i v m)

add_leaf-IsIndexed :
    (c : ColumnDescriptor) (base : Node) (d : SchemaDescriptor) (bs : List Node)
    → IsIndexed d bs
    → IsIndexed (add_leaf c base d) (bs ++ base ∷ [])
unfolding add_leaf
add_leaf-IsIndexed c base d bs (e, h) =
    (omega (arith, length-append d.leaves (c ∷ []), length-append bs (base ∷ [])), indexed)
  where
    last : length (d.leaves ++ c ∷ []) - 1 ≡ length bs
    last = omega (arith, length-append d.leaves (c ∷ []))

    indexed :
        (i : ℕ)
        → find i (emplace (length (d.leaves ++ c ∷ []) - 1) base d.leaf_to_base)
          ≡ get_elem? (bs ++ base ∷ []) i
    indexed i =
        ap (λ (k : ℕ). find i (emplace k base d.leaf_to_base)) last
        ∙ find-emplace (length bs) i base d.leaf_to_base (h (length bs) ∙ get_elem?-none bs)
        ∙ ap (λ (o : Option Node). if length bs == i then some base else o) (h i)
        ∙ sym (get_elem?-append bs base i)

length-map {ℓ κ} :
    {A : Type ℓ} {B : Type κ} (f : A → B) (xs : List A) → length (map f xs) ≡ length xs
length-map f [] = refl
length-map f (x ∷ xs) = ap suc (length-map f xs)

more :
    (d : SchemaDescriptor) (bs cs cs' : List Node)
    → cs ≡ cs'
    → IsIndexed d (bs ++ cs)
    → IsIndexed d (bs ++ cs')
more d bs cs cs' e h = subst (λ (x : List Node). IsIndexed d (bs ++ x)) e h

mutual
  unfolding build_tree paths

  build_tree-IsIndexed :
      (n : Node) (parents : List NodeBase) (levels : ℕ × ℕ) (base : Node) (d : SchemaDescriptor)
      (bs : List Node)
      → IsIndexed d bs
      → IsIndexed (build_tree n parents levels base d) (bs ++ replicate (length (paths n)) base)
  build_tree-IsIndexed (primitive p) parents levels base d bs h = add_leaf-IsIndexed _ base d bs h
  build_tree-IsIndexed (group b fs) parents levels base d bs h =
      more (build_fields fs (b ∷ parents) (next_levels b levels) base d) bs _ _
        (ap (λ (k : ℕ). replicate k base) (sym (length-map (below b) (paths_of_fields fs))))
        (build_fields-IsIndexed fs (b ∷ parents) (next_levels b levels) base d bs h)

  build_fields-IsIndexed :
      (fs : NodeVector) (parents : List NodeBase) (levels : ℕ × ℕ) (base : Node)
      (d : SchemaDescriptor) (bs : List Node)
      → IsIndexed d bs
      → IsIndexed
          (build_fields fs parents levels base d)
          (bs ++ replicate (length (paths_of_fields fs)) base)
  build_fields-IsIndexed no_fields parents levels base d bs h =
      subst (λ (x : List Node). IsIndexed d x) (sym (append-nil bs)) h
  build_fields-IsIndexed (field n fs) parents levels base d bs h =
      let here = replicate (length (paths n)) base in
      let there = replicate (length (paths_of_fields fs)) base in
      subst
        (λ (x : List Node).
          IsIndexed (build_fields fs parents levels base (build_tree n parents levels base d)) x)
        (append_assoc bs here there
          ∙ ap (λ (x : List Node). bs ++ x)
              (sym (replicate-append (length (paths n)) (length (paths_of_fields fs)) base)
                ∙ ap (λ (k : ℕ). replicate k base)
                    (sym (length-append (paths n) (paths_of_fields fs)))))
        (build_fields-IsIndexed fs parents levels base (build_tree n parents levels base d)
          (bs ++ here) (build_tree-IsIndexed n parents levels base d bs h))

build_columns-IsIndexed :
    (fs : NodeVector) (parents : List NodeBase) (d : SchemaDescriptor) (bs : List Node)
    → IsIndexed d bs
    → IsIndexed (build_columns fs parents d) (bs ++ bases fs)
unfolding build_columns bases
build_columns-IsIndexed no_fields parents d bs h =
    subst (λ (x : List Node). IsIndexed d x) (sym (append-nil bs)) h
build_columns-IsIndexed (field n fs) parents d bs h =
    let here = replicate (length (paths n)) n in
    subst
      (λ (x : List Node). IsIndexed (build_columns fs parents (build_tree n parents (0, 0) n d)) x)
      (append_assoc bs here (bases fs))
      (build_columns-IsIndexed fs parents (build_tree n parents (0, 0) n d) (bs ++ here)
        (build_tree-IsIndexed n parents (0, 0) n d bs h))

-- After `Init` of a descriptor whose map of bases is empty, `GetColumnRoot` of each column is the
-- field of the root below which the column stands, and there are as many columns as bases. (A second
-- `Init` of one descriptor has no such law: the map still has its old entries.)
pub get_column_root-init :
    (above : List NodeBase) (b : NodeBase) (fs : NodeVector) (d : SchemaDescriptor)
    → d.leaf_to_base ≡ []
    → (length (init above (group b fs) d).0.leaves ≡ length (bases fs))
      × ((i : ℕ) → get_column_root i (init above (group b fs) d).0 ≡ get_elem? (bases fs) i)
unfolding init get_column_root
get_column_root-init above b fs d h =
    build_columns-IsIndexed fs (b ∷ above) (record d { schema = some (group b fs); leaves = [] }) []
      (refl, λ i. ap (λ (m : List (ℕ × Node)). find i m) h)
