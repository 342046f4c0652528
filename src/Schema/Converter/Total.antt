-- ===== src/Schema/Converter/Total.antt =====
-- The fuel of `convert` is enough: each call of `NextNode` takes an element.
use Prim.Native.String.{String}
use parquet_cpp.Common.{ℕ, zero, suc, ◌+◌, ◌≤◌, ◌<◌, refl, ◌≢◌, List, [], ◌∷◌, true, false}
use parquet_cpp.Common.{length, arith, Bool, if◌then◌else◌}
use parquet_cpp.Common.Ints.{ℤ, pos, int_eq}
use parquet_cpp.Types.{PhysicalType, LogicalType, Repetition}
use parquet_cpp.Schema.Node.{
  ParquetException, check_decimal, check_logical_type, check_length, unset_metadata,
  wrong_physical_type, Result, ok, throws, out_of_fuel, ◌>>=◌, Node, make_primitive,
}
use parquet_cpp.Schema.Element.{SchemaElement, primitive_from_parquet}
use parquet_cpp.Schema.Converter.{
  FlatSchemaConverter, make, next, next_id, next_fields, build_node, next_node, convert,
  child_count, rounds, NextNode,
}

-- A result that is one of the code's, with at most `b` elements left.
abbrev Ends {ℓ} : {A : Type ℓ} → ℕ → Result (A × FlatSchemaConverter) → Type 0
Ends b (ok (a, c)) = length c.elements ≤ b
Ends b (throws e) = Unit
Ends b out_of_fuel = ⊥

Ends-bind {ℓ κ} :
    {A : Type ℓ} {B : Type κ} (b b' : ℕ) (r : Result (A × FlatSchemaConverter))
    (f : A × FlatSchemaConverter → Result (B × FlatSchemaConverter))
    → Ends b r
    → ((a : A) (c : FlatSchemaConverter) → length c.elements ≤ b → Ends b' (f (a, c)))
    → Ends b' (r >>= f)
Ends-bind b b' (ok (a, c)) f h k = k a c h
Ends-bind b b' (throws e) f h k = tt
Ends-bind b b' out_of_fuel f h k = absurd h

next_fields-Ends :
    (call : NextNode) (m : ℕ)
    → ((c : FlatSchemaConverter) → length c.elements ≤ m → Ends (length c.elements) (call c))
    → (n : ℕ) (c : FlatSchemaConverter) → length c.elements ≤ m
    → Ends (length c.elements) (next_fields call n c)
unfolding next_fields
next_fields-Ends call m h zero c k = omega arith
next_fields-Ends call m h (suc n) c k =
    Ends-bind (length c.elements) (length c.elements) (call c) _ (h c k) λ node c' le.
      Ends-bind (length c'.elements) (length c.elements) (next_fields call n c') _
        (next_fields-Ends call m h n c' (omega arith)) λ fs c'' le'. omega arith

Ends-if {ℓ} :
    {A : Type ℓ} (k : ℕ) (b : Bool) (r r' : Result (A × FlatSchemaConverter))
    → Ends k r
    → Ends k r'
    → Ends k (if b then r else r')
Ends-if k true r r' h h' = h
Ends-if k false r r' h h' = h'

require-total :
    (b : Bool) (l : LogicalType)
    → (if b then ok unset_metadata else throws (wrong_physical_type l)) ≢ out_of_fuel
require-total b l h = ground arith

check_decimal-total :
    (t : PhysicalType) (precision scale : ℤ) → check_decimal t precision scale ≢ out_of_fuel
unfolding check_decimal
check_decimal-total t precision scale h = ground arith

check_logical_type-total :
    (t : PhysicalType) (l : LogicalType) (len precision scale : ℤ)
    → check_logical_type t l len precision scale ≢ out_of_fuel
unfolding check_logical_type
check_logical_type-total t l len precision scale h = ground arith

bind-total {ℓ κ} :
    {A : Type ℓ} {B : Type κ} (r : Result A) (f : A → Result B)
    → r ≢ out_of_fuel
    → ((a : A) → f a ≢ out_of_fuel)
    → (r >>= f) ≢ out_of_fuel
bind-total (ok a) f h k e = k a e
bind-total (throws x) f h k e = cc
bind-total out_of_fuel f h k e = h refl

check_length-total : (t : PhysicalType) (len : ℤ) → check_length t len ≢ out_of_fuel
unfolding check_length
check_length-total t len h = ground arith

make_primitive-total :
    (name : String) (r : Repetition) (t : PhysicalType) (l : LogicalType)
    (len precision scale id : ℤ)
    → make_primitive name r t l len precision scale id ≢ out_of_fuel
unfolding make_primitive
make_primitive-total name r t l len precision scale id =
    bind-total (check_logical_type t l len precision scale) _
      (check_logical_type-total t l len precision scale)
      λ metadata. bind-total (check_length t len) _ (check_length-total t len) λ checked e. cc

Ends-total :
    (r : Result Node) (c : FlatSchemaConverter)
    → r ≢ out_of_fuel
    → Ends (length c.elements) (r >>= λ n. ok (n, c))
Ends-total (ok n) c h = omega arith
Ends-total (throws e) c h = tt
Ends-total out_of_fuel c h = absurd (h refl)

primitive_from_parquet-Ends :
    (element : SchemaElement) (id : ℤ) (c : FlatSchemaConverter)
    → Ends (length c.elements) (primitive_from_parquet element id >>= λ n. ok (n, c))
unfolding primitive_from_parquet
primitive_from_parquet-Ends element id c =
    Ends-total _ c (bind-total _ _ (make_primitive-total element.name _ _ _ _ _ _ id) λ p e. cc)

build_node-Ends :
    (call : NextNode) (m : ℕ)
    → ((c : FlatSchemaConverter) → length c.elements ≤ m → Ends (length c.elements) (call c))
    → (element : SchemaElement) (id : ℕ) (c : FlatSchemaConverter) → length c.elements ≤ m
    → Ends (length c.elements) (build_node call element (id, c))
unfolding build_node
build_node-Ends call m h element id c k =
    Ends-if (length c.elements) (int_eq (child_count element) (pos 0)) _ _
      (primitive_from_parquet-Ends element (pos id) c)
      (Ends-bind (length c.elements) (length c.elements)
        (next_fields call (rounds (child_count element)) c) _
        (next_fields-Ends call m h (rounds (child_count element)) c k) λ fs c' le. le)

next_node-Ends :
    (fuel : ℕ) (elements : List SchemaElement) (id : ℕ)
    → length elements < fuel
    → Ends (length elements) (next_node fuel (record { elements = elements; current_id = id }))
unfolding next_node next next_id
next_node-Ends zero elements id h = absurd (omega arith)
next_node-Ends (suc fuel) [] id h = tt
next_node-Ends (suc fuel) (element ∷ rest) id h = weaken _ (
    build_node-Ends (next_node fuel) (length rest)
      (λ c le. next_node-Ends fuel c.elements c.current_id (omega arith)) element id
      (record { elements = rest; current_id = id + 1 }) (omega arith))
  where
    weaken :
        (r : Result (Node × FlatSchemaConverter))
        → Ends (length rest) r
        → Ends (suc (length rest)) r
    weaken (ok (n, c)) le = omega arith
    weaken (throws e) le = tt
    weaken out_of_fuel le = absurd le

Ends→total {ℓ} :
    {A : Type ℓ} (b : ℕ) (r : Result (A × FlatSchemaConverter)) → Ends b r → r ≢ out_of_fuel
Ends→total b (ok (a, c)) h e = cc
Ends→total b (throws x) h e = cc
Ends→total b out_of_fuel h e = absurd h

convert_root-total :
    (b : Bool) (e : ParquetException) (r : Result Node)
    → r ≢ out_of_fuel
    → (if b then throws e else r) ≢ out_of_fuel
convert_root-total true e r h k = cc
convert_root-total false e r h k = h k

-- On any list of elements, well formed or not, empty or not, with any number of children written in
-- them, and whatever is read behind the end of an empty list, `Convert` comes to an end: it returns a node or throws, and the fuel of the model, one more than
-- the number of elements, is never used up.
pub convert-terminates :
    (behind : SchemaElement) (elements : List SchemaElement) → convert behind elements ≢ out_of_fuel
unfolding convert make
convert-terminates behind elements h =
    convert_root-total _ _ _
      (bind-total _ _
        (Ends→total _ _ (next_node-Ends (suc (length elements)) elements 0 (omega arith)))
        λ r e. cc)
      h
