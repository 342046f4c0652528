-- ===== src/Schema/Equals/Structural.antt =====
-- `Equals` against the equality of trees.
use parquet_cpp.Common.{suc, ◌≡◌, refl, ap, ap₂, ◌↔◌, true, arith, ==→eq, eq→==, and_both}
use parquet_cpp.Schema.Node.{
  NodeBase, PrimitiveNode, Node, NodeVector, primitive, group, no_fields, field, field_count,
}
use parquet_cpp.Schema.Equals.{equals, equals_fields}
use parquet_cpp.Schema.Equals.Primitives.{
  base_essence, primitive_essence, and_intro, base_equals→essence, essence→base_equals,
  primitive_equals→essence, essence→primitive_equals,
}

-- A tree without the ids, the lengths of types that have none of their own, and the decimal data of
-- types that are not `DECIMAL`.
mutual
  pub essence : Node → Node
  essence (primitive p) = primitive (primitive_essence p)
  essence (group b fs) = group (base_essence b) (essence_fields fs)

  pub essence_fields : NodeVector → NodeVector
  essence_fields no_fields = no_fields
  essence_fields (field n fs) = field (essence n) (essence_fields fs)

mutual
  unfolding equals field_count essence

  equals→essence : (n m : Node) → equals n m ≡ true → essence n ≡ essence m
  equals→essence (primitive p) (primitive q) h = ap primitive (primitive_equals→essence p q h)
  equals→essence (primitive p) (group c gs) h = cc
  equals→essence (group b fs) (primitive q) h = cc
  equals→essence (group b fs) (group c gs) h =
      let (hb, h') = and_both _ _ h in
      let (hc, hf) = and_both _ _ h' in
      ap₂ group (base_equals→essence b c hb)
        (equals_fields→essence fs gs (==→eq (field_count fs) (field_count gs) hc) hf)

  equals_fields→essence :
      (fs gs : NodeVector)
      → field_count fs ≡ field_count gs
      → equals_fields fs gs ≡ true
      → essence_fields fs ≡ essence_fields gs
  equals_fields→essence no_fields no_fields e h = refl
  equals_fields→essence no_fields (field m gs) e h = absurd (omega arith)
  equals_fields→essence (field n fs) no_fields e h = cc
  equals_fields→essence (field n fs) (field m gs) e h =
      let (hn, hf) = and_both _ _ h in
      ap₂ field (equals→essence n m hn) (equals_fields→essence fs gs (omega arith) hf)

primitive_inj : (p q : PrimitiveNode) → primitive p ≡ primitive q → p ≡ q
primitive_inj p q h = cc

group_inj : (b c : NodeBase) (fs gs : NodeVector) → group b fs ≡ group c gs → (b ≡ c) × (fs ≡ gs)
group_inj b c fs gs h = (cc, cc)

field_inj : (n m : Node) (fs gs : NodeVector) → field n fs ≡ field m gs → (n ≡ m) × (fs ≡ gs)
field_inj n m fs gs h = (cc, cc)

mutual
  unfolding equals field_count essence

  essence→equals : (n m : Node) → essence n ≡ essence m → equals n m ≡ true
  essence→equals (primitive p) (primitive q) h = essence→primitive_equals p q (primitive_inj _ _ h)
  essence→equals (primitive p) (group c gs) h = cc
  essence→equals (group b fs) (primitive q) h = cc
  essence→equals (group b fs) (group c gs) h =
      let (hb, hf) = group_inj _ _ _ _ h in
      let (hc, he) = essence→equals_fields fs gs hf in
      and_intro _ _ (essence→base_equals b c hb)
        (and_intro _ _ (eq→== (field_count fs) (field_count gs) hc) he)

  essence→equals_fields :
      (fs gs : NodeVector)
      → essence_fields fs ≡ essence_fields gs
      → (field_count fs ≡ field_count gs) × (equals_fields fs gs ≡ true)
  essence→equals_fields no_fields no_fields h = (refl, refl)
  essence→equals_fields no_fields (field m gs) h = cc
  essence→equals_fields (field n fs) no_fields h = cc
  essence→equals_fields (field n fs) (field m gs) h =
      let (hn, hf) = field_inj _ _ _ _ h in
      let (hc, he) = essence→equals_fields fs gs hf in
      (ap suc hc, and_intro _ _ (essence→equals n m hn) he)

-- `Equals` holds of two nodes exactly when their trees are the same but for the ids, the lengths of
-- types other than `FIXED_LEN_BYTE_ARRAY`, and the precision and scale of nodes that are not
-- `DECIMAL`.
pub equals_lem : (n m : Node) → (equals n m ≡ true) ↔ (essence n ≡ essence m)
equals_lem n m = (equals→essence n m, essence→equals n m)
