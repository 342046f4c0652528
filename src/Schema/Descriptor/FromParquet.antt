-- ===== src/Schema/Descriptor/FromParquet.antt =====
-- The descriptor that `FromParquet` builds from the elements of `ToParquet`.
use parquet_cpp.Common.{◌≡◌, ap, [], ◌∷◌, map}
use parquet_cpp.Common.Ints.{pos}
use parquet_cpp.Schema.Node.{Result, ok, ◌>>=◌, NodeBase, Node, NodeVector, group}
use parquet_cpp.Schema.Element.{SchemaElement}
use parquet_cpp.Schema.Converter.{flatten}
use parquet_cpp.Schema.Converter.RoundTrip.{IsSound, number, number_fields, convert-flatten}
use parquet_cpp.Schema.Descriptor.{SchemaDescriptor, init, empty_descriptor, from_parquet}
use parquet_cpp.Schema.Descriptor.Columns.{describe, paths_of_fields, init-columns}

-- A schema whose primitive nodes pass the checks of their constructor and whose groups each have a
-- field is written to elements from which `FromParquet` builds a descriptor, and the columns of that
-- descriptor are those of the schema: one for each path of the schema, whose nodes are numbered in
-- depth-first order, with its ancestors and its maximum levels.
pub from_parquet-flatten :
    (behind : SchemaElement) (b : NodeBase) (fs : NodeVector)
    → IsSound (group b fs)
    → (d : SchemaDescriptor) × (from_parquet behind (flatten (group b fs) []) ≡ ok d)
      × (d.leaves
          ≡ map
              (describe (record b { id = pos 0 } ∷ []) (0, 0))
              (paths_of_fields (number_fields 1 fs)))
unfolding from_parquet number
from_parquet-flatten behind b fs h = (
  _,
  ap
      (λ (r : Result Node). r >>= λ root.
        (init [] root empty_descriptor).1 >>= λ done. ok (init [] root empty_descriptor).0)
      (convert-flatten behind b fs h),
  init-columns [] (record b { id = pos 0 }) (number_fields 1 fs) empty_descriptor,
)
