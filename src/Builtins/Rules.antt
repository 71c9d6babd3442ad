-- ===== src/Builtins/Rules.antt =====
-- The rules for the argument and result types of built-in functions, builtins/result.go. A rule
-- gives the result type, or `none` where its second result is false.
pub mod Whole
use minipy.Base.{
  ℕ, Bool, true, false, not, ◌&&◌, ◌||◌, ◌==◌, ltb, List, [], ◌∷◌, Option, none, some, Bytes,
  bytes_eq, codes, length, map, if◌then◌else◌,
}
use minipy.Base.Int.{ℤ, pos, negsuc}
use minipy.Token.{TokenType, Pos}
use minipy.Token.Errors.{Code}
use minipy.Parser.Ast.{Expr, expr_pos}
use minipy.Types.Defs.{
  Ty, Tys, Primitive, primitive, list, dict, set, tuple, iterator, next, none_left, equal,
  is_dynamic, is_invalid, int_type, float_type, invalid_type,
}
use minipy.Types.Unions.{printable, iterable_elem}
use minipy.Types.Ordering.{is_orderable}
use Expr.{int_lit, unary_expr}

abbrev pub text_type : Ty
text_type = primitive Primitive.str

abbrev pub truth_type : Ty
truth_type = primitive Primitive.bool

abbrev pub octets_type : Ty
octets_type = primitive Primitive.bytes

abbrev pub unit_type : Ty
unit_type = primitive Primitive.none

abbrev pub Rule : Type 0
Rule = List Ty → Option Ty

abbrev pub type_if : Bool → Ty → Option Ty
type_if b t = if b then some t else none

-- `printable`, and `reprResult`.
unfoldable pub printable_rule : Ty → Rule
unfolding printable
printable_rule result (a ∷ []) = type_if (printable a) result
printable_rule result _ = none

-- `convertible`, and `convert`.
unfoldable pub convertible : Ty → Bool
unfolding equal
convertible t = equal t int_type || equal t float_type || equal t truth_type || equal t text_type

unfoldable pub convert_rule : Ty → Rule
unfolding convertible
convert_rule result (a ∷ []) = type_if (convertible a) result
convert_rule result _ = none

-- `isContainer`.
unfoldable pub is_container : Ty → Bool
is_container (list _) = true
is_container (dict _ _) = true
is_container (set _) = true
is_container (tuple _) = true
is_container (iterator _) = true
is_container _ = false

unfoldable pub bool_rule : Rule
unfolding convertible is_container is_dynamic
bool_rule (a ∷ []) = type_if (convertible a || is_container a || is_dynamic a) truth_type
bool_rule _ = none

unfoldable pub abs_rule : Rule
unfolding equal
abs_rule (a ∷ []) = type_if (equal a int_type || equal a float_type) a
abs_rule _ = none

-- The `switch` of `lenResult`.
unfoldable pub has_length : Ty → Bool
unfolding equal
has_length (list _) = true
has_length (dict _ _) = true
has_length (set _) = true
has_length (tuple _) = true
has_length t = equal t text_type || equal t octets_type

unfoldable pub len_rule : Rule
unfolding has_length is_dynamic
len_rule (a ∷ []) = type_if (is_dynamic a || has_length a) int_type
len_rule _ = none

unfoldable pub enumerate_rule : Rule
enumerate_rule (list a ∷ []) = some (list (tuple (next int_type (next a none_left))))
enumerate_rule _ = none

unfoldable pub zip_rule : Rule
zip_rule (list a ∷ list b ∷ []) = some (list (tuple (next a (next b none_left))))
zip_rule _ = none

unfoldable pub all_int : List Ty → Bool
unfolding equal
all_int [] = true
all_int (a ∷ rest) = equal a int_type && all_int rest

unfoldable pub range_rule : Rule
unfolding all_int
range_rule args = type_if (all_int args) (iterator int_type)

unfoldable pub iter_rule : Rule
unfolding iterable_elem
iter_rule (a ∷ []) = type_if (not (is_invalid (iterable_elem a))) (iterator (iterable_elem a))
iter_rule _ = none

unfoldable pub next_rule : Rule
next_rule (iterator a ∷ []) = some a
next_rule _ = none

-- `ordResult`, `chrResult`, and `hexOctBinResult`: one argument of the one type.
unfoldable pub unary_rule : Ty → Ty → Rule
unfolding equal
unary_rule param result (a ∷ []) = type_if (equal a param) result
unary_rule param result _ = none

unfoldable pub sorted_rule : (Bytes → Bytes) → Rule
unfolding is_orderable
sorted_rule quote (list a ∷ []) = elim (is_orderable quote a) [
  | some true ↦ some (list a)
  | some false ↦ none
  | none ↦ none
]
sorted_rule quote _ = none

unfoldable pub reversed_rule : Rule
reversed_rule (list a ∷ []) = some (list a)
reversed_rule _ = none

unfoldable pub sum_rule : Rule
unfolding equal
sum_rule (list a ∷ []) = type_if (equal a int_type || equal a float_type) a
sum_rule _ = none

unfoldable pub any_all_rule : Rule
unfolding equal
any_all_rule (list a ∷ []) = type_if (equal a truth_type) truth_type
any_all_rule _ = none

unfoldable pub round_rule : Rule
unfolding equal
round_rule (a ∷ []) = type_if (equal a float_type) int_type
round_rule (a ∷ b ∷ []) = type_if (equal a float_type && equal b int_type) float_type
round_rule _ = none

abbrev pub pair_of : Ty → Ty
pair_of t = tuple (next t (next t none_left))

unfoldable pub divmod_rule : Rule
unfolding equal
divmod_rule (a ∷ b ∷ []) =
    if equal a int_type && equal b int_type
    then some (pair_of int_type)
    else type_if (equal a float_type && equal b float_type) (pair_of float_type)
divmod_rule _ = none

abbrev pub is_number : Ty → Bool
is_number t = equal t int_type || equal t float_type

unfoldable pub pow_rule : Rule
unfolding equal
pow_rule (a ∷ b ∷ []) =
    if equal a int_type && equal b int_type
    then some int_type
    else type_if (is_number a && is_number b) float_type
pow_rule _ = none
