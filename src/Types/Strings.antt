-- ===== src/Types/Strings.antt =====
-- The `String` methods, and the order by which unions and literals are sorted. `strconv.Quote`,
-- which rests on tables of package unicode, is the parameter `quote`.
use minipy.Base.{
  ℕ, zero, suc, ◌+◌, ◌/◌, ◌%◌, Bool, true, false, List, [], ◌∷◌, ◌++◌, ltb, ◌==◌, if◌then◌else◌,
  Bytes, codes,
}
use minipy.Base.Int.{ℤ, pos, negsuc}
use minipy.Types.Defs.{
  primitive_name, LiteralValue, Ty, nil, primitive, list, dict, set, tuple, class, iterator,
  callable, literal, module_type, union, Tys, none_left, next,
}

-- `<` on Go strings.
unfoldable pub bytes_lt : Bytes → Bytes → Bool
bytes_lt _ [] = false
bytes_lt [] (_ ∷ _) = true
bytes_lt (x ∷ xs) (y ∷ ys) = if ltb x y then true else if x == y then bytes_lt xs ys else false

-- `strconv.FormatInt(v, 10)`; a number has fewer digits than its successor has units.
decimal_onto : ℕ → ℕ → Bytes → Bytes
decimal_onto zero n rest = rest
decimal_onto (suc fuel) n rest =
    let more = decimal_onto fuel (n / 10) ((b'0' + n % 10) ∷ rest) in
    if ltb n 10 then (b'0' + n) ∷ rest else more

unfoldable pub format_int : ℤ → Bytes
unfolding decimal_onto
format_int (pos n) = decimal_onto (suc n) n []
format_int (negsuc n) = b'-' ∷ decimal_onto (suc (suc n)) (suc n) []

-- `strings.Join`.
unfoldable pub join : Bytes → List Bytes → Bytes
join sep [] = []
join sep (s ∷ []) = s
join sep (s ∷ t ∷ ts) = s ++ sep ++ join sep (t ∷ ts)

-- `LiteralValue.String`.
unfoldable pub literal_string : (Bytes → Bytes) → LiteralValue → Bytes
unfolding format_int
literal_string quote (LiteralValue.int_literal n) = format_int n
literal_string quote (LiteralValue.bool_literal b) = codes (if b then "True" else "False")
literal_string quote (LiteralValue.str_literal s) = quote s
literal_string quote LiteralValue.none_literal = codes "None"

literal_parts : (Bytes → Bytes) → List LiteralValue → List Bytes
unfolding literal_string
literal_parts quote [] = []
literal_parts quote (v ∷ vs) = literal_string quote v ∷ literal_parts quote vs

list_string : Bytes → Bytes
list_string s = codes "list[" ++ s ++ codes "]"

-- With a nil key or value both are written as invalid.
dict_string : Ty → Ty → Bytes → Bytes → Bytes
dict_string nil v s t = codes "dict[<invalid>, <invalid>]"
dict_string k nil s t = codes "dict[<invalid>, <invalid>]"
dict_string k v s t = codes "dict[" ++ s ++ codes ", " ++ t ++ codes "]"

set_string : Bytes → Bytes
set_string s = codes "set[" ++ s ++ codes "]"

-- A tuple of one element has a comma behind it.
tuple_parts : List Bytes → List Bytes
tuple_parts (s ∷ []) = (s ++ codes ",") ∷ []
tuple_parts ss = ss

tuple_string : List Bytes → Bytes
unfolding join tuple_parts
tuple_string ss = codes "tuple[" ++ join (codes ", ") (tuple_parts ss) ++ codes "]"

class_string : Bytes → Bytes
class_string [] = codes "<class>"
class_string (c ∷ cs) = c ∷ cs

iterator_string : Bytes → Bytes
iterator_string s = codes "Iterator[" ++ s ++ codes "]"

callable_string : List Bytes → Bytes → Bytes
unfolding join
callable_string ss s = codes "Callable[[" ++ join (codes ", ") ss ++ codes "], " ++ s ++ codes "]"

values_string : List Bytes → Bytes
unfolding join
values_string [] = codes "Literal[<invalid>]"
values_string (s ∷ ss) = codes "Literal[" ++ join (codes ", ") (s ∷ ss) ++ codes "]"

module_string : Bytes → Bytes
module_string [] = codes "<module>"
module_string (c ∷ cs) = codes "module " ++ (c ∷ cs)

union_string : List Bytes → Bytes
unfolding join
union_string [] = codes "<invalid>"
union_string (s ∷ ss) = join (codes " | ") (s ∷ ss)

-- `String`; a nil part of a type is written as invalid.
unfoldable mutual
  unfolding primitive_name list_string dict_string set_string tuple_string class_string
      iterator_string callable_string literal_parts values_string module_string union_string

  pub string : (Bytes → Bytes) → Ty → Bytes
  string quote nil = codes "<invalid>"
  string quote (primitive p) = codes (primitive_name p)
  string quote (list a) = list_string (string quote a)
  string quote (dict k v) = dict_string k v (string quote k) (string quote v)
  string quote (set a) = set_string (string quote a)
  string quote (tuple ts) = tuple_string (parts quote ts)
  string quote (class name _) = class_string name
  string quote (iterator a) = iterator_string (string quote a)
  string quote (callable ts a) = callable_string (parts quote ts) (string quote a)
  string quote (literal _ vs) = values_string (literal_parts quote vs)
  string quote (module_type name) = module_string name
  string quote (union ts) = union_string (parts quote ts)

  pub parts : (Bytes → Bytes) → Tys → List Bytes
  parts quote none_left = []
  parts quote (next t ts) = string quote t ∷ parts quote ts
