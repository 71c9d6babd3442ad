-- ===== src/Types/Literals.antt =====
-- `NewLiteral` and `LiteralValue.Base`.
pub mod Values
use minipy.Base.{Bool, true, false, List, [], ◌∷◌, ◌++◌, map, if◌then◌else◌, Bytes}
use minipy.Types.Defs.{
  Ty, primitive, literal, Primitive, LiteralValue, int_literal, bool_literal, str_literal,
  none_literal, invalid_type, int_type,
}
use minipy.Types.Strings.{bytes_lt, literal_string}
use minipy.Types.Unions.{new_union}
use minipy.Types.Assign.{contains}

-- `LiteralValue.Base`.
unfoldable pub literal_base : LiteralValue → Ty
literal_base (int_literal _) = int_type
literal_base (bool_literal _) = primitive Primitive.bool
literal_base (str_literal _) = primitive Primitive.str
literal_base none_literal = primitive Primitive.none

-- The loop over the values; the inner loop is that of `Contains`.
unfoldable pub unique : List LiteralValue → List LiteralValue → List LiteralValue
unfolding contains
unique [] uniq = uniq
unique (v ∷ vs) uniq = unique vs (if contains uniq v then uniq else uniq ++ v ∷ [])

-- `sort.Slice` by `String`, as an insertion sort.
unfoldable pub insert_value : (Bytes → Bytes) → LiteralValue → List LiteralValue → List LiteralValue
unfolding bytes_lt literal_string
insert_value quote v [] = v ∷ []
insert_value quote v (w ∷ ws) =
    let rest = insert_value quote v ws in
    if bytes_lt (literal_string quote w) (literal_string quote v) then w ∷ rest else v ∷ w ∷ ws

unfoldable pub sort_values : (Bytes → Bytes) → List LiteralValue → List LiteralValue
unfolding insert_value
sort_values quote [] = []
sort_values quote (v ∷ vs) = insert_value quote v (sort_values quote vs)

-- `NewLiteral`.
unfoldable pub new_literal : (Bytes → Bytes) → List LiteralValue → Ty
unfolding literal_base unique sort_values new_union
new_literal quote [] = invalid_type
new_literal quote (v ∷ vs) =
    let uniq = sort_values quote (unique (v ∷ vs) []) in
    literal (new_union quote (map literal_base uniq)) uniq
