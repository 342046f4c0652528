-- ===== src/Schema/Descriptor/Paths.antt =====
-- The path of a column.
use Prim.Native.String.{String}
use mathlib.Core.List.{
  reverse, reverse_aux, reverse-cons, reverse_aux-eq, reverse-reverse, reverse-append, append_assoc,
  map-append, map-map,
}
use mathlib.Core.Path.{fun_ext}
use parquet_cpp.Common.{ℕ, ◌≡◌, refl, ap, sym, ◌∙◌, List, [], ◌∷◌, ◌++◌, map}
use parquet_cpp.Schema.Node.{NodeBase, PrimitiveNode, NodeVector, group}
use parquet_cpp.Schema.Descriptor.{SchemaDescriptor, init, path, reversed_path}
use parquet_cpp.Schema.Descriptor.Columns.{describe, paths_of_fields, init-columns}

abbrev pub name_of : NodeBase → String
name_of b = b.name

reversed_path-names :
    (name : String) (qs : List NodeBase) (root : NodeBase)
    → reversed_path name (qs ++ root ∷ []) ≡ name ∷ map name_of qs
unfolding reversed_path
reversed_path-names name [] root = refl
reversed_path-names name (q ∷ qs) root = ap (λ t. name ∷ t) (reversed_path-names q.name qs root)

map-reverse_aux :
    (bs qs : List NodeBase)
    → map name_of (reverse_aux bs qs) ≡ reverse_aux (map name_of bs) (map name_of qs)
map-reverse_aux [] qs = refl
map-reverse_aux (b ∷ bs) qs = map-reverse_aux bs (b ∷ qs)

-- The path of a column whose ancestors are known.
path-describe :
    (parents : List NodeBase) (root : NodeBase) (levels : ℕ × ℕ) (bs : List NodeBase)
    (p : PrimitiveNode)
    → path (describe (parents ++ root ∷ []) levels (bs, p))
      ≡ map name_of (reverse parents) ++ (map name_of bs ++ p.base.name ∷ [])
unfolding path describe
path-describe parents root levels bs p =
    ap (λ (x : List String). reverse x)
      (ap (λ (x : List NodeBase). reversed_path p.base.name x)
          (reverse_aux-eq bs (parents ++ root ∷ [])
            ∙ sym (append_assoc (reverse bs) parents (root ∷ [])))
        ∙ reversed_path-names p.base.name (reverse bs ++ parents) root)
    ∙ reverse-cons p.base.name (map name_of (reverse bs ++ parents))
    ∙ ap (λ (x : List String). x ++ p.base.name ∷ [])
        (sym (map-reverse_aux (reverse bs ++ parents) [])
          ∙ ap (map name_of) (
              reverse-append (reverse bs) parents
              ∙ ap (λ t. reverse parents ++ t) (reverse-reverse bs))
          ∙ map-append name_of (reverse parents) bs)
    ∙ append_assoc (map name_of (reverse parents)) (map name_of bs) (p.base.name ∷ [])

-- The names of a column's path, from below the root of the tree down to the leaf, where `parents` are
-- the nodes between that root and the children of Init's node, from below.
unfoldable pub names_of : List NodeBase → List NodeBase × PrimitiveNode → List String
names_of parents (bs, p) = map name_of (reverse parents) ++ (map name_of bs ++ p.base.name ∷ [])

-- The paths of the columns that `Init` lists, in their order. Where the node of `Init` and its
-- ancestors are `parents` and then the root of the tree, they are, for each path from the node of
-- `Init` to a primitive node, the names of all the nodes from below the root of the tree down to that
-- primitive node. The name of the root is not part of them, and the names of `parents` are; there are
-- none of these when `Init` is called with the root.
pub path-init :
    (above parents : List NodeBase) (b root : NodeBase) (fs : NodeVector) (d : SchemaDescriptor)
    → b ∷ above ≡ parents ++ root ∷ []
    → map path (init above (group b fs) d).0.leaves ≡ map (names_of parents) (paths_of_fields fs)
unfolding names_of
path-init above parents b root fs d e =
    ap (map path) (init-columns above b fs d)
    ∙ map-map path (describe (b ∷ above) (0, 0)) (paths_of_fields fs)
    ∙ ap (λ (f : List NodeBase × PrimitiveNode → List String). map f (paths_of_fields fs))
        (fun_ext named)
  where
    named :
        (x : List NodeBase × PrimitiveNode)
        → path (describe (b ∷ above) (0, 0) x) ≡ names_of parents x
    named (bs, p) =
        ap (λ (ps : List NodeBase). path (describe ps (0, 0) (bs, p))) e
        ∙ path-describe parents root (0, 0) bs p
