-- ===== src/Schema/Converter/RoundTrip.antt =====
-- The schema that `Convert` reads from the elements of `Flatten`.
use parquet_cpp.Common.{ℕ, zero, suc, ◌+◌, ◌≤◌, ◌≡◌, refl, ap, sym, ◌∙◌, ◌≢◌, List, [], ◌∷◌, ◌++◌}
use parquet_cpp.Common.{
  length, arith, length-append, Option, some, Bool, false, if◌then◌else◌, ne→==,
}
use parquet_cpp.Common.Ints.{ℤ, pos, int_eq}
use mathlib.Core.List.{append_assoc, append-nil}
use parquet_cpp.Schema.Node.{
  Result, ok, throws, no_children, ◌>>=◌, NodeBase, Node, NodeVector, primitive, group, no_fields,
  field, field_count,
}
use parquet_cpp.Schema.Node.Built.{Built}
use parquet_cpp.Schema.Element.{SchemaElement, to_parquet, group_to_parquet}
use parquet_cpp.Schema.Element.Kept.{
  group_from_parquet-to_parquet, primitive_from_parquet-to_parquet,
}
use parquet_cpp.Schema.Converter.{
  FlatSchemaConverter, make, next, next_id, next_fields, build_node, next_node, convert, visit,
  visit_fields, flatten, NextNode, child_count,
}

-- The number of nodes, and the nodes numbered in depth-first order from `i` on.
unfoldable mutual
  pub size : Node → ℕ
  size (primitive p) = 1
  size (group b fs) = suc (size_fields fs)

  pub size_fields : NodeVector → ℕ
  size_fields no_fields = 0
  size_fields (field n fs) = size n + size_fields fs

unfoldable mutual
  unfolding size

  pub number : ℕ → Node → Node
  number i (primitive p) = primitive (record p { base = record p.base { id = pos i } })
  number i (group b fs) = group (record b { id = pos i }) (number_fields (i + 1) fs)

  pub number_fields : ℕ → NodeVector → NodeVector
  number_fields i no_fields = no_fields
  number_fields i (field n fs) = field (number i n) (number_fields (i + size n) fs)

-- Every primitive node passes the checks of its constructor, and every group has a field.
unfoldable mutual
  pub IsSound : Node → Type 0
  IsSound (primitive p) = Built p
  IsSound (group b fs) = (field_count fs ≢ 0) × IsSoundFields fs

  pub IsSoundFields : NodeVector → Type 0
  IsSoundFields no_fields = Unit
  IsSoundFields (field n fs) = IsSound n × IsSoundFields fs

-- The elements of a node, the first of which has the field id `k`.
mutual
  unfolding to_parquet size

  elements_of : Node → ℕ → List SchemaElement
  elements_of (primitive p) k = record (to_parquet (primitive p)) { field_id = some (pos k) } ∷ []
  elements_of (group b fs) k =
      record (to_parquet (group b fs)) { field_id = some (pos k) } ∷ elements_of_fields fs (k + 1)

  elements_of_fields : NodeVector → ℕ → List SchemaElement
  elements_of_fields no_fields k = []
  elements_of_fields (field n fs) k = elements_of n k ++ elements_of_fields fs (k + size n)

mutual
  unfolding elements_of size

  length-elements_of : (n : Node) (k : ℕ) → length (elements_of n k) ≡ size n
  length-elements_of (primitive p) k = refl
  length-elements_of (group b fs) k = ap suc (length-elements_of_fields fs (k + 1))

  length-elements_of_fields :
      (fs : NodeVector) (k : ℕ) → length (elements_of_fields fs k) ≡ size_fields fs
  length-elements_of_fields no_fields k = refl
  length-elements_of_fields (field n fs) k = omega (
    arith,
    length-append (elements_of n k) (elements_of_fields fs (k + size n)),
    length-elements_of n k,
    length-elements_of_fields fs (k + size n),
  )

mutual
  unfolding visit elements_of

  visit-elements_of :
      (n : Node) (out : List SchemaElement) → visit n out ≡ out ++ elements_of n (length out)
  visit-elements_of (primitive p) out = refl
  visit-elements_of (group b fs) out =
      let e = record (to_parquet (group b fs)) { field_id = some (pos (length out)) } in
      rw
        (
          visit_fields-elements_of fs (out ++ e ∷ []),
          length-append out (e ∷ []),
          append_assoc out (e ∷ []) (elements_of_fields fs (length out + 1)),
        )
        refl

  visit_fields-elements_of :
      (fs : NodeVector) (out : List SchemaElement)
      → visit_fields fs out ≡ out ++ elements_of_fields fs (length out)
  visit_fields-elements_of no_fields out = sym (append-nil out)
  visit_fields-elements_of (field n fs) out =
      let es = elements_of n (length out) in
      rw
        (
          visit-elements_of n out,
          visit_fields-elements_of fs (out ++ es),
          length-append out es,
          length-elements_of n (length out),
          append_assoc out es (elements_of_fields fs (length out + size n)),
        )
        refl

at : List SchemaElement → ℕ → FlatSchemaConverter
at elements id = record { elements = elements; current_id = id }

build_node-group :
    (call : NextNode) (b : NodeBase) (fs gs : NodeVector) (fid : Option ℤ) (i : ℕ)
    (c c' : FlatSchemaConverter)
    → field_count fs ≢ 0
    → next_fields call (field_count fs) c ≡ ok (gs, c')
    → build_node call (record (group_to_parquet b fs) { field_id = fid }) (i, c)
      ≡ ok (group (record b { id = pos i }) gs, c')
unfolding build_node group_to_parquet
build_node-group call b fs gs fid i c c' h e =
    rw (ne→== (field_count fs) 0 h, e, group_from_parquet-to_parquet b fs fid (pos i) gs) refl

at_sum {ℓ} :
    {A : Type ℓ} (a : A) (rest : List SchemaElement) (i j : ℕ)
    → i ≡ j
    → ◌≡◌ {A = Result (A × FlatSchemaConverter)} (ok (a, at rest i)) (ok (a, at rest j))
at_sum a rest i j e = ap (λ (x : ℕ). ok (a, at rest x)) e

mutual
  unfolding next_node next next_id build_node next_fields elements_of number size field_count
      IsSound at

  next_node-elements_of :
      (n : Node) (k i fuel : ℕ) (rest : List SchemaElement)
      → IsSound n
      → size n ≤ fuel
      → next_node fuel (at (elements_of n k ++ rest) i) ≡ ok (number i n, at rest (i + size n))
  next_node-elements_of (primitive p) k i zero rest h le = absurd (omega arith)
  next_node-elements_of (primitive p) k i (suc fuel) rest h le =
      rw (primitive_from_parquet-to_parquet p (some (pos k)) (pos i) h) refl
  next_node-elements_of (group b fs) k i zero rest h le = absurd (omega arith)
  next_node-elements_of (group b fs) k i (suc fuel) rest h le =
      build_node-group (next_node fuel) b fs (number_fields (i + 1) fs) (some (pos k)) i _ _ h.0
        (next_fields-elements_of_fields fs (k + 1) (i + 1) fuel rest h.1 (omega arith))
      ∙ at_sum (number i (group b fs)) rest _ _ (omega arith)

  next_fields-elements_of_fields :
      (fs : NodeVector) (k i fuel : ℕ) (rest : List SchemaElement)
      → IsSoundFields fs
      → size_fields fs ≤ fuel
      → next_fields (next_node fuel) (field_count fs) (at (elements_of_fields fs k ++ rest) i)
        ≡ ok (number_fields i fs, at rest (i + size_fields fs))
  next_fields-elements_of_fields no_fields k i fuel rest h le =
      at_sum no_fields rest _ _ (omega arith)
  next_fields-elements_of_fields (field n fs) k i fuel rest h le =
      let more = elements_of_fields fs (k + size n) in
      rw
        (
          append_assoc (elements_of n k) more rest,
          next_node-elements_of n k i fuel (more ++ rest) h.0 (omega arith),
          next_fields-elements_of_fields fs (k + size n) (i + size n) fuel rest h.1 (omega arith),
        )
        (at_sum _ rest _ _ (omega arith))

convert_root :
    (behind root : SchemaElement) (rest : List SchemaElement) (n : Node) (c : FlatSchemaConverter)
    → int_eq (child_count root) (pos 0) ≡ false
    → next_node (suc (length (root ∷ rest))) (at (root ∷ rest) 0) ≡ ok (n, c)
    → convert behind (root ∷ rest) ≡ ok n
unfolding convert make at
convert_root behind root rest n c h e =
    ap
      (λ (b : Bool).
        if b
        then throws no_children
        else (next_node (suc (length (root ∷ rest))) (at (root ∷ rest) 0) >>= λ (m, d). ok m))
      h
    ∙ ap (λ (r : Result (Node × FlatSchemaConverter)). r >>= λ (m, d). ok m) e

convert-elements_of :
    (behind : SchemaElement) (b : NodeBase) (fs : NodeVector)
    → IsSound (group b fs)
    → convert behind (elements_of (group b fs) 0) ≡ ok (number 0 (group b fs))
unfolding elements_of group_to_parquet IsSound
convert-elements_of behind b fs h =
    let es = elements_of (group b fs) 0 in
    let read =
      next_node-elements_of (group b fs) 0 0 (suc (length es)) [] h
        (omega (arith, length-elements_of (group b fs) 0)) in
    let whole =
      ap (λ (x : List SchemaElement). next_node (suc (length es)) (at x 0)) (append-nil es) in
    convert_root behind _ _ _ _ (ne→== (field_count fs) 0 h.0) (sym whole ∙ read)

-- A schema whose primitive nodes pass the checks of their own constructor and whose groups, the
-- root among them, each have a field, comes back from its list of elements: `Convert` returns the
-- same tree, with the names, repetitions, types, lengths and decimal data of its nodes, and the
-- nodes numbered from 0 in depth-first order.
pub convert-flatten :
    (behind : SchemaElement) (b : NodeBase) (fs : NodeVector)
    → IsSound (group b fs)
    → convert behind (flatten (group b fs) []) ≡ ok (number 0 (group b fs))
unfolding convert flatten make
convert-flatten behind b fs h =
    ap (convert behind) (visit-elements_of (group b fs) []) ∙ convert-elements_of behind b fs h
