-- ===== src/Schema/Node/Built.antt =====
-- The nodes that the constructor of src/parquet/schema/types.cc returns.
use Prim.Native.String.{String}
use parquet_cpp.Common.{
  ◌≡◌, refl, ap, subst, Bool, true, false, ◌⊎◌, inl, inr, arith, if◌then◌else◌,
}
use parquet_cpp.Common.Ints.{ℤ}
use parquet_cpp.Types.{PhysicalType, LogicalType, Repetition}
use parquet_cpp.Schema.Node.{
  Result, ok, throws, out_of_fuel, ◌>>=◌, DecimalMetadata, PrimitiveNode, unset_metadata,
  set_metadata, check_decimal, check_logical_type, check_length, make_primitive,
  wrong_physical_type,
}

-- The node passes the checks of its own constructor.
abbrev pub Built : PrimitiveNode → Type 0
Built p =
    (check_logical_type p.physical_type p.base.logical_type p.type_length
        p.decimal_metadata.precision p.decimal_metadata.scale
      ≡ ok p.decimal_metadata)
    × (check_length p.physical_type p.type_length ≡ ok tt)

>>=-eq-ok {ℓ κ} :
    {A : Type ℓ} {B : Type κ} (r : Result A) (f : A → Result B) (b : B)
    → (r >>= f) ≡ ok b
    → (a : A) × (r ≡ ok a) × (f a ≡ ok b)
>>=-eq-ok (ok a) f b h = (a, refl, h)
>>=-eq-ok (throws e) f b h = cc
>>=-eq-ok out_of_fuel f b h = cc

-- The metadata that the checks return is either the one given or none.
Either : ℤ → ℤ → DecimalMetadata → Type 0
Either precision scale m = (m ≡ unset_metadata) ⊎ (m ≡ set_metadata precision scale)

require-Either :
    (precision scale : ℤ) (b : Bool) (l : LogicalType) (m : DecimalMetadata)
    → (if b then ok unset_metadata else throws (wrong_physical_type l)) ≡ ok m
    → Either precision scale m
unfolding Either
require-Either precision scale true l m h = inl cc
require-Either precision scale false l m h = cc

check_decimal-eq :
    (t : PhysicalType) (precision scale : ℤ) (m : DecimalMetadata)
    → check_decimal t precision scale ≡ ok m
    → m ≡ set_metadata precision scale
unfolding check_decimal
check_decimal-eq t precision scale m h = ground arith

check_logical_type-Either :
    (t : PhysicalType) (l : LogicalType) (len precision scale : ℤ) (m : DecimalMetadata)
    → check_logical_type t l len precision scale ≡ ok m
    → Either precision scale m
unfolding check_logical_type Either
check_logical_type-Either t l len precision scale m h = ground arith

-- Metadata that the node does not set reads as zero; of a node that the checks let through, what an
-- element keeps of it is all of it.
pub kept_metadata :
    (t : PhysicalType) (l : LogicalType) (len : ℤ) (m : DecimalMetadata)
    → check_logical_type t l len m.precision m.scale ≡ ok m
    → m.isset ≡ false
    → m ≡ unset_metadata
unfolding Either
kept_metadata t l len m h k = elim (check_logical_type-Either t l len m.precision m.scale m h) [
  | inl e ↦ e
  | inr e ↦ cc (ap (λ (x : DecimalMetadata). x.isset) e)
]

-- The checks depend on the precision and the scale only where they keep them.
check_again :
    (t : PhysicalType) (l : LogicalType) (len precision scale : ℤ) (m : DecimalMetadata)
    → check_logical_type t l len precision scale ≡ ok m
    → check_logical_type t l len m.precision m.scale ≡ ok m
unfolding check_logical_type
check_again t l len precision scale m h = ground arith

-- A node that the constructor returns passes the checks of the constructor on its own fields.
pub make_primitive-Built :
    (name : String) (r : Repetition) (t : PhysicalType) (l : LogicalType)
    (len precision scale id : ℤ) (p : PrimitiveNode)
    → make_primitive name r t l len precision scale id ≡ ok p
    → Built p
unfolding make_primitive
make_primitive-Built name r t l len precision scale id p h =
    let (m, hm, h') = >>=-eq-ok (check_logical_type t l len precision scale) _ p h in
    let (u, hu, e) = >>=-eq-ok (check_length t len) _ p h' in
    let same : made m ≡ p = cc e in
    subst (λ (q : PrimitiveNode). Built q) same (check_again t l len precision scale m hm, hu)
  where
    made : DecimalMetadata → PrimitiveNode
    made m = record {
      base = record { name = name; repetition = r; logical_type = l; id = id };
      physical_type = t;
      type_length = len;
      decimal_metadata = m;
    }

pub remake :
    (name : String) (r : Repetition) (t : PhysicalType) (l : LogicalType) (len : ℤ)
    (m : DecimalMetadata) (id : ℤ)
    → check_logical_type t l len m.precision m.scale ≡ ok m
    → check_length t len ≡ ok tt
    → make_primitive name r t l len m.precision m.scale id
      ≡ ok (record {
        base = record { name = name; repetition = r; logical_type = l; id = id };
        physical_type = t;
        type_length = len;
        decimal_metadata = m;
      })
unfolding make_primitive
remake name r t l len m id h k = rw (h, k) refl
