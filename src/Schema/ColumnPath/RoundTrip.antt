-- ===== src/Schema/ColumnPath/RoundTrip.antt =====
-- A path from its dot string.
use Prim.Native.String.{String}
use Prim.Native.String as String
use Prim.Native.String.append
use text.Mathlib.TextLemmas.{append-nil, append_assoc}
use parquet_cpp.Common.{if◌then◌else◌, ◌≡◌, refl, ap, ◌∙◌, sym, ◌≢◌, Bool, false, List, [], ◌∷◌}
use parquet_cpp.Schema.ColumnPath.{is_dot, split_dots, from_dot_string, join_dots, to_dot_string}

-- No character of the name is a dot.
abbrev pub NoDots : String → Type 0
NoDots String.[] = Unit
NoDots (String.◌∷◌ c s) = (is_dot c ≡ false) × NoDots s

-- The names have no dots, and the last of them has a character.
abbrev pub IsDotted : List String → Type 0
IsDotted [] = Unit
IsDotted (item ∷ []) = NoDots item × (item ≢ "")
IsDotted (item ∷ next ∷ path) = NoDots item × IsDotted (next ∷ path)

split_dots-item :
    (x rest item : String)
    → NoDots x
    → split_dots (String.◌++◌ x rest) item ≡ split_dots rest (String.◌++◌ item x)
unfolding split_dots
split_dots-item String.[] rest item h =
    ap (λ t. split_dots t item) (append.nil rest)
    ∙ ap (λ t. split_dots rest t) (sym (append-nil item))
split_dots-item (String.◌∷◌ c x) rest item h =
    let one = String.◌∷◌ c "" in
    ap (λ t. split_dots t item) (append.cons c x rest)
    ∙ ap
        (λ (b : Bool).
          if b
          then item ∷ split_dots (String.◌++◌ x rest) ""
          else split_dots (String.◌++◌ x rest) (String.◌++◌ item one))
        h.0
    ∙ split_dots-item x rest (String.◌++◌ item one) h.1
    ∙ ap (λ t. split_dots rest t)
        (append_assoc item one x
          ∙ ap (λ t. String.◌++◌ item t)
              (append.cons c "" x ∙ ap (λ t. String.◌∷◌ c t) (append.nil x)))

split_dots-last : (item : String) → item ≢ "" → split_dots "" item ≡ item ∷ []
unfolding split_dots
split_dots-last String.[] h = absurd (h refl)
split_dots-last (String.◌∷◌ d item) h = refl

split_dots-dot :
    (rest item : String) → split_dots (String.◌++◌ "." rest) item ≡ item ∷ split_dots rest ""
unfolding split_dots
split_dots-dot rest item =
    ap (λ t. split_dots t item) (append.cons _ "" rest)
    ∙ ap (λ t. item ∷ split_dots t "") (append.nil rest)

NoDots-first : (item : String) (path : List String) → IsDotted (item ∷ path) → NoDots item
NoDots-first item [] h = h.0
NoDots-first item (next ∷ path) h = h.0

split_dots-join_dots :
    (path : List String) (item : String)
    → IsDotted (item ∷ path)
    → split_dots (join_dots path) item ≡ item ∷ path
unfolding join_dots
split_dots-join_dots [] item h = split_dots-last item h.1
split_dots-join_dots (next ∷ path) item h =
    split_dots-dot (String.◌++◌ next (join_dots path)) item
    ∙ ap (λ t. item ∷ t)
        (split_dots-item next (join_dots path) "" (NoDots-first next path h.1)
          ∙ ap (λ t. split_dots (join_dots path) t) (append.nil next)
          ∙ split_dots-join_dots path next h.1)

-- A path whose names have no dots and whose last name is not empty is read back from its dot string;
-- the names in front of the last may be empty.
pub from_dot_string-to_dot_string :
    (path : List String) → IsDotted path → from_dot_string (to_dot_string path) ≡ path
unfolding from_dot_string to_dot_string
from_dot_string-to_dot_string [] h = refl
from_dot_string-to_dot_string (item ∷ path) h =
    split_dots-item item (join_dots path) "" (NoDots-first item path h)
    ∙ ap (λ t. split_dots (join_dots path) t) (append.nil item)
    ∙ split_dots-join_dots path item h
