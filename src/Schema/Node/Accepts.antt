-- ===== src/Schema/Node/Accepts.antt =====
-- The arguments that the constructor of a primitive node accepts.
use Prim.Native.String.{String}
use parquet_cpp.Common.{◌≡◌, refl, ◌∙◌, Bool, true, false, ◌&&◌, not, arith}
use parquet_cpp.Common.Ints.{ℤ, pos, less, int_eq}
use parquet_cpp.Types.{PhysicalType, LogicalType, Repetition, PhysicalType-discrete}
use parquet_cpp.Schema.Node.{
  Result, ok, throws, out_of_fuel, ◌>>=◌, check_logical_type, check_length, make_primitive,
}

abbrev pub is_ok {ℓ} : {A : Type ℓ} → Result A → Bool
is_ok (ok a) = true
is_ok (throws e) = false
is_ok out_of_fuel = false

-- The logical types that the storage types carry, as the Parquet format has them.
pub annotates : PhysicalType → LogicalType → Bool
annotates t LogicalType.none = true
annotates PhysicalType.int32 LogicalType.decimal = true
annotates PhysicalType.int32 LogicalType.date = true
annotates PhysicalType.int32 LogicalType.time_millis = true
annotates PhysicalType.int32 LogicalType.uint_8 = true
annotates PhysicalType.int32 LogicalType.uint_16 = true
annotates PhysicalType.int32 LogicalType.uint_32 = true
annotates PhysicalType.int32 LogicalType.int_8 = true
annotates PhysicalType.int32 LogicalType.int_16 = true
annotates PhysicalType.int32 LogicalType.int_32 = true
annotates PhysicalType.int64 LogicalType.decimal = true
annotates PhysicalType.int64 LogicalType.time_micros = true
annotates PhysicalType.int64 LogicalType.timestamp_millis = true
annotates PhysicalType.int64 LogicalType.timestamp_micros = true
annotates PhysicalType.int64 LogicalType.uint_64 = true
annotates PhysicalType.int64 LogicalType.int_64 = true
annotates PhysicalType.byte_array LogicalType.utf8 = true
annotates PhysicalType.byte_array LogicalType.enum = true
annotates PhysicalType.byte_array LogicalType.decimal = true
annotates PhysicalType.byte_array LogicalType.json = true
annotates PhysicalType.byte_array LogicalType.bson = true
annotates PhysicalType.fixed_len_byte_array LogicalType.decimal = true
annotates PhysicalType.fixed_len_byte_array LogicalType.interval = true
annotates t l = false

decimal_fits : LogicalType → ℤ → ℤ → Bool
decimal_fits LogicalType.decimal precision scale =
    less (pos 0) precision && (not (less scale (pos 0)) && not (less precision scale))
decimal_fits l precision scale = true

length_fits : PhysicalType → LogicalType → ℤ → Bool
length_fits PhysicalType.fixed_len_byte_array LogicalType.interval len = int_eq len (pos 12)
length_fits PhysicalType.fixed_len_byte_array l len = less (pos 0) len
length_fits t l len = true

-- What the constructor accepts.
pub accepts : PhysicalType → LogicalType → ℤ → ℤ → ℤ → Bool
unfolding annotates decimal_fits length_fits
accepts t l len precision scale =
    annotates t l && (decimal_fits l precision scale && length_fits t l len)

checks-accepts :
    (t : PhysicalType) (l : LogicalType) (len precision scale : ℤ)
    → (is_ok (check_logical_type t l len precision scale) && is_ok (check_length t len))
      ≡ accepts t l len precision scale
unfolding check_logical_type check_length accepts PhysicalType-discrete
checks-accepts t l len precision scale = ground arith

is_ok-bind {ℓ κ μ} :
    {A : Type ℓ} {B : Type κ} {C : Type μ} (r : Result A) (r' : Result B) (f : A → C)
    → is_ok (r >>= λ a. r' >>= λ b. ok (f a)) ≡ (is_ok r && is_ok r')
is_ok-bind (ok a) (ok b) f = refl
is_ok-bind (ok a) (throws e) f = refl
is_ok-bind (ok a) out_of_fuel f = refl
is_ok-bind (throws e) r' f = refl
is_ok-bind out_of_fuel r' f = refl

-- The constructor of a primitive node returns a node for the storage types and logical types that the
-- format pairs, a `DECIMAL` only with a positive precision and a scale between 0 and the precision,
-- an `INTERVAL` only with 12 bytes, and a `FIXED_LEN_BYTE_ARRAY` only with a positive length. For
-- all other arguments it throws.
pub make_primitive-accepts :
    (name : String) (r : Repetition) (t : PhysicalType) (l : LogicalType)
    (len precision scale id : ℤ)
    → is_ok (make_primitive name r t l len precision scale id) ≡ accepts t l len precision scale
unfolding make_primitive
make_primitive-accepts name r t l len precision scale id =
    is_ok-bind (check_logical_type t l len precision scale) (check_length t len) _
    ∙ checks-accepts t l len precision scale
