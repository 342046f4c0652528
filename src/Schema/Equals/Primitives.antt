-- ===== src/Schema/Equals/Primitives.antt =====
-- What `Equals` looks at in one node.
use text.Mathlib.TextEquality.{eq_iff}
use parquet_cpp.Common.{
  ◌≡◌, refl, ap, Bool, true, false, ◌&&◌, ◌||◌, not, if◌then◌else◌, arith, and_both,
}
use parquet_cpp.Common.Ints.{ℤ, pos, int_eq}
use parquet_cpp.Types.{
  PhysicalType, LogicalType, PhysicalType-discrete, LogicalType-discrete, Repetition-discrete,
  decide,
}
use parquet_cpp.Schema.Node.{NodeBase, DecimalMetadata, PrimitiveNode, is_type, unset_metadata}
use parquet_cpp.Schema.Equals.{is_logical, base_equals, primitive_equals}

-- What `Equals` looks at: a tree without the ids, without the length of a type that has none of its
-- own, and without the decimal data of a type that is not `DECIMAL`.
abbrev pub base_essence : NodeBase → NodeBase
base_essence b = record b { id = pos 0 }

abbrev pub primitive_essence : PrimitiveNode → PrimitiveNode
primitive_essence p = record {
  base = base_essence p.base;
  physical_type = p.physical_type;
  type_length =
      if is_type p.physical_type PhysicalType.fixed_len_byte_array then p.type_length else pos 0;
  decimal_metadata =
      if is_logical p.base.logical_type LogicalType.decimal
      then (record p.decimal_metadata { isset = true })
      else unset_metadata;
}

decide→eq {ℓ} : {A : Type ℓ} (x y : A) (d : Dec (x ≡ y)) → decide d ≡ true → x ≡ y
decide→eq x y (yes e) h = e
decide→eq x y (no n) h = cc

eq→decide {ℓ} : {A : Type ℓ} (x y : A) (d : Dec (x ≡ y)) → x ≡ y → decide d ≡ true
eq→decide x y (yes e) h = refl
eq→decide x y (no n) h = absurd (n h)

int_eq→eq : (x y : ℤ) → int_eq x y ≡ true → x ≡ y
int_eq→eq x y h = ground arith

eq→int_eq : (x y : ℤ) → x ≡ y → int_eq x y ≡ true
eq→int_eq x y h = ground arith

pub base_equals→essence :
    (b c : NodeBase) → base_equals b c ≡ true → base_essence b ≡ base_essence c
unfolding base_equals
base_equals→essence b c h =
    let (hn, h') = and_both _ _ h in
    let (hr, hl) = and_both _ _ h' in
    cc (
      (eq_iff b.name c.name).0 hn,
      decide→eq b.repetition c.repetition (Repetition-discrete _ _) hr,
      decide→eq b.logical_type c.logical_type (LogicalType-discrete _ _) hl,
    )

pub and_intro : (a b : Bool) → a ≡ true → b ≡ true → (a && b) ≡ true
and_intro a b h k = ground arith

pub essence→base_equals :
    (b c : NodeBase) → base_essence b ≡ base_essence c → base_equals b c ≡ true
unfolding base_equals
essence→base_equals b c h =
    and_intro _ _ ((eq_iff b.name c.name).1 (ap (λ (x : NodeBase). x.name) h)) (
      and_intro _ _
        (eq→decide b.repetition c.repetition (Repetition-discrete _ _)
          (ap (λ (x : NodeBase). x.repetition) h))
        (eq→decide b.logical_type c.logical_type (LogicalType-discrete _ _)
          (ap (λ (x : NodeBase). x.logical_type) h)))

guard_true :
    (a b x : Bool)
    → (if not a || not b then false else x) ≡ true
    → (a ≡ true) × (b ≡ true) × (x ≡ true)
guard_true true true x h = (refl, refl, h)
guard_true true false x h = cc
guard_true false b x h = cc

guard_intro :
    (a b x : Bool) → a ≡ true → b ≡ true → x ≡ true → (if not a || not b then false else x) ≡ true
guard_intro a b x ha hb hx = rw (ha, hb) hx

chosen_length :
    (f g : Bool) (x y : ℤ)
    → f ≡ g
    → (if f then int_eq x y else true) ≡ true
    → (if f then x else pos 0) ≡ (if g then y else pos 0)
chosen_length true true x y e h = int_eq→eq x y h
chosen_length false false x y e h = refl
chosen_length true false x y e h = cc
chosen_length false true x y e h = cc

length_chosen :
    (f g : Bool) (x y : ℤ)
    → f ≡ g
    → (if f then x else pos 0) ≡ (if g then y else pos 0)
    → (if f then int_eq x y else true) ≡ true
length_chosen true true x y e h = eq→int_eq x y h
length_chosen false g x y e h = refl
length_chosen true false x y e h = cc

abbrev shown : DecimalMetadata → DecimalMetadata
shown m = record m { isset = true }

chosen_metadata :
    (f g : Bool) (m n : DecimalMetadata)
    → f ≡ g
    → (if f then int_eq m.precision n.precision && int_eq m.scale n.scale else true) ≡ true
    → (if f then shown m else unset_metadata) ≡ (if g then shown n else unset_metadata)
chosen_metadata true true m n e h =
    let (hp, hs) = and_both _ _ h in
    cc (int_eq→eq m.precision n.precision hp, int_eq→eq m.scale n.scale hs)
chosen_metadata false false m n e h = refl
chosen_metadata true false m n e h = cc
chosen_metadata false true m n e h = cc

metadata_chosen :
    (f g : Bool) (m n : DecimalMetadata)
    → f ≡ g
    → (if f then shown m else unset_metadata) ≡ (if g then shown n else unset_metadata)
    → (if f then int_eq m.precision n.precision && int_eq m.scale n.scale else true) ≡ true
metadata_chosen true true m n e h =
    and_intro _ _ (eq→int_eq _ _ (ap (λ (x : DecimalMetadata). x.precision) h))
      (eq→int_eq _ _ (ap (λ (x : DecimalMetadata). x.scale) h))
metadata_chosen false g m n e h = refl
metadata_chosen true false m n e h = cc

pub primitive_equals→essence :
    (p q : PrimitiveNode)
    → (base_equals p.base q.base && primitive_equals p q) ≡ true
    → primitive_essence p ≡ primitive_essence q
unfolding primitive_equals
primitive_equals→essence p q h =
    let (hb, h') = and_both _ _ h in
    let (ht, hl, hx) = guard_true _ _ _ h' in
    let (hd, hf) = and_both _ _ hx in
    let t = decide→eq p.physical_type q.physical_type (PhysicalType-discrete _ _) ht in
    let l = decide→eq p.base.logical_type q.base.logical_type (LogicalType-discrete _ _) hl in
    let length =
      chosen_length _ _ p.type_length q.type_length
        (ap (λ (x : PhysicalType). is_type x PhysicalType.fixed_len_byte_array) t) hf in
    let metadata =
      chosen_metadata _ _ p.decimal_metadata q.decimal_metadata
        (ap (λ (x : LogicalType). is_logical x LogicalType.decimal) l) hd in
    rebuild (base_equals→essence p.base q.base hb) t length metadata
  where
    rebuild :
        {b c : NodeBase} {t u : PhysicalType} {x y : ℤ} {m n : DecimalMetadata}
        → b ≡ c
        → t ≡ u
        → x ≡ y
        → m ≡ n
        → ◌≡◌ {A = PrimitiveNode}
            (record { base = b; physical_type = t; type_length = x; decimal_metadata = m })
            (record { base = c; physical_type = u; type_length = y; decimal_metadata = n })
    rebuild hb ht hx hm = cc (hb, ht, hx, hm)

pub essence→primitive_equals :
    (p q : PrimitiveNode)
    → primitive_essence p ≡ primitive_essence q
    → (base_equals p.base q.base && primitive_equals p q) ≡ true
unfolding primitive_equals
essence→primitive_equals p q h =
    let t = ap (λ (x : PrimitiveNode). x.physical_type) h in
    let l = ap (λ (x : PrimitiveNode). x.base.logical_type) h in
    and_intro _ _ (essence→base_equals p.base q.base (ap (λ (x : PrimitiveNode). x.base) h)) (
      guard_intro _ _ _ (eq→decide _ _ (PhysicalType-discrete _ _) t)
        (eq→decide _ _ (LogicalType-discrete _ _) l)
        (and_intro _ _
          (metadata_chosen _ _ p.decimal_metadata q.decimal_metadata
            (ap (λ (x : LogicalType). is_logical x LogicalType.decimal) l)
            (ap (λ (x : PrimitiveNode). x.decimal_metadata) h))
          (length_chosen _ _ p.type_length q.type_length
            (ap (λ (x : PhysicalType). is_type x PhysicalType.fixed_len_byte_array) t)
            (ap (λ (x : PrimitiveNode). x.type_length) h))))
