-- ===== src/Schema/ColumnPath.antt =====
-- The class `ColumnPath` of src/parquet/schema/types.h, a list of names. A text is its characters;
-- the names of a Parquet file are UTF-8, where a dot is never part of another character.
pub mod RoundTrip
use Prim.Native.Char.{Char, code}
use Prim.Native.String.{String}
use Prim.Native.String as String
use parquet_cpp.Common.{ℕ, ◌==◌, Bool, List, [], ◌∷◌, ◌++◌, if◌then◌else◌}

abbrev pub is_dot : Char → Bool
is_dot c = code c == b'.'

-- The loop over `std::getline`, with the characters read since the last dot: `getline` fails at the
-- end of the text when it reads no character.
unfoldable pub split_dots : String → String → List String
split_dots String.[] String.[] = []
split_dots String.[] (String.◌∷◌ d item) = String.◌∷◌ d item ∷ []
split_dots (String.◌∷◌ c s) item =
    if is_dot c then item ∷ split_dots s "" else split_dots s (String.◌++◌ item (String.◌∷◌ c ""))

unfoldable pub from_dot_string : String → List String
unfolding split_dots
from_dot_string dotstring = split_dots dotstring ""

unfoldable pub extend : List String → String → List String
extend path node_name = path ++ node_name ∷ []

-- The loop of `ToDotString` after its first item.
unfoldable pub join_dots : List String → String
join_dots [] = ""
join_dots (item ∷ path) = String.◌++◌ "." (String.◌++◌ item (join_dots path))

unfoldable pub to_dot_string : List String → String
unfolding join_dots
to_dot_string [] = ""
to_dot_string (item ∷ path) = String.◌++◌ item (join_dots path)
