-- ===== src/Builtins/Specs.antt =====
-- The table of built-in functions and the check of a call, builtins/builtins.go.
pub mod Settled
use minipy.Base.{
  ℕ, Bool, true, false, not, ◌&&◌, ◌||◌, ◌==◌, ltb, List, [], ◌∷◌, Option, none, some, Bytes,
  bytes_eq, codes, length, map, if◌then◌else◌,
}
use minipy.Base.Int.{ℤ, pos, negsuc}
use minipy.Token.{TokenType, Pos}
use minipy.Token.Errors.{Code}
use minipy.Parser.Ast.{Expr, expr_pos}
use minipy.Types.Defs.{
  Ty, Tys, Primitive, primitive, list, dict, set, tuple, iterator, next, none_left, equal,
  is_dynamic, is_invalid, int_type, float_type, invalid_type,
}
use minipy.Types.Unions.{printable, iterable_elem}
use Expr.{int_lit, unary_expr}
use minipy.Builtins.Rules.{
  text_type, truth_type, octets_type, unit_type, Rule, type_if, printable_rule, convertible,
  convert_rule, is_container, bool_rule, abs_rule, has_length, len_rule, enumerate_rule, zip_rule,
  all_int, range_rule, iter_rule, next_rule, unary_rule, sorted_rule, reversed_rule, sum_rule,
  any_all_rule, round_rule, pair_of, divmod_rule, is_number, pow_rule,
}

-- `spec` with the name of the function.
pub record Spec : Type 0 where
  pub name : Bytes
  pub min : ℕ
  pub max : ℕ
  pub rule : Rule

abbrev pub spec : Bytes → ℕ → ℕ → Rule → Spec
spec name min max rule = record { name = name; min = min; max = max; rule = rule }

-- The rows of `New` that are rules alone, and that of `powCheck`.
unfoldable pub specs : (Bytes → Bytes) → List Spec
unfolding printable_rule convert_rule bool_rule abs_rule len_rule enumerate_rule zip_rule range_rule
    iter_rule next_rule unary_rule sorted_rule reversed_rule sum_rule any_all_rule round_rule
    divmod_rule pow_rule
specs quote =
    spec (codes "print") 1 1 (printable_rule unit_type)
    ∷ spec (codes "str") 1 1 (printable_rule text_type)
    ∷ spec (codes "int") 1 1 (convert_rule int_type)
    ∷ spec (codes "float") 1 1 (convert_rule float_type)
    ∷ spec (codes "bool") 1 1 bool_rule
    ∷ spec (codes "abs") 1 1 abs_rule
    ∷ spec (codes "len") 1 1 len_rule
    ∷ spec (codes "enumerate") 1 1 enumerate_rule
    ∷ spec (codes "zip") 2 2 zip_rule
    ∷ spec (codes "range") 1 3 range_rule
    ∷ spec (codes "iter") 1 1 iter_rule
    ∷ spec (codes "next") 1 1 next_rule
    ∷ spec (codes "ord") 1 1 (unary_rule text_type int_type)
    ∷ spec (codes "chr") 1 1 (unary_rule int_type text_type)
    ∷ spec (codes "sorted") 1 1 (sorted_rule quote)
    ∷ spec (codes "reversed") 1 1 reversed_rule
    ∷ spec (codes "sum") 1 1 sum_rule
    ∷ spec (codes "any") 1 1 any_all_rule
    ∷ spec (codes "all") 1 1 any_all_rule
    ∷ spec (codes "round") 1 2 round_rule
    ∷ spec (codes "divmod") 2 2 divmod_rule
    ∷ spec (codes "pow") 2 2 pow_rule
    ∷ spec (codes "hex") 1 1 (unary_rule int_type text_type)
    ∷ spec (codes "oct") 1 1 (unary_rule int_type text_type)
    ∷ spec (codes "bin") 1 1 (unary_rule int_type text_type)
    ∷ spec (codes "repr") 1 1 (printable_rule text_type)
    ∷ []

-- `constInt(expr) == 0`.
abbrev pub zero_literal : Expr → Bool
zero_literal (int_lit _ (pos n)) = n == 0
zero_literal _ = false

abbrev pub is_sign : TokenType → Bool
is_sign TokenType.minus = true
is_sign TokenType.plus = true
is_sign _ = false

unfoldable pub is_zero : Expr → Bool
is_zero (unary_expr _ op e) = is_sign op && zero_literal e
is_zero e = zero_literal e

-- An error that a check reports, without its text.
pub record Diagnostic : Type 0 where
  pub pos : Pos
  pub code : Code

abbrev pub diagnosed : Pos → Code → List Diagnostic
diagnosed p code = record { pos = p; code = code } ∷ []

-- The test of the step of `range`.
unfoldable pub step_errors : Bytes → List Expr → List Diagnostic
unfolding is_zero bytes_eq
step_errors name (_ ∷ _ ∷ e ∷ []) =
    if bytes_eq name (codes "range") && is_zero e
    then diagnosed (expr_pos e) Code.syntax_error
    else []
step_errors name _ = []

unfoldable pub decide : Spec → List Expr → Pos → Option Ty → Ty × List Diagnostic
unfolding step_errors
decide sp args p none = (invalid_type, diagnosed p Code.type_mismatch)
decide sp args p (some t) = (t, step_errors sp.name args)

-- `checkBuiltin`, for the types that the checker gives to the arguments; what it reports beyond their
-- own errors.
unfoldable pub check_builtin : (Expr → Ty) → Spec → List Expr → Pos → Ty × List Diagnostic
unfolding decide
check_builtin check sp args p =
    if ltb (length args) sp.min || ltb sp.max (length args)
    then (invalid_type, diagnosed p Code.arity_mismatch)
    else decide sp args p (sp.rule (map check args))
