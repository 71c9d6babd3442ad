-- ===== src/Operator/Binary.antt =====
-- `BinaryType`, `UnaryType` and `PowFloatResult`.
pub mod Laws
use minipy.Base.{
  List, [], ◌∷◌, Bool, true, false, not, ◌&&◌, ◌||◌, if◌then◌else◌, Bytes, ℕ, zero, suc,
}
use minipy.Base.Int.{ℤ, pos, negsuc}
use minipy.Token.{TokenType, Pos}
use minipy.Token.Errors.{Code}
use minipy.Types.Defs.{
  Ty, primitive, Primitive, equal, invalid_type, int_type, float_type, any_type, is_invalid,
  is_dynamic,
}
use minipy.Types.Unions.{erase}
use minipy.Types.Assign.{assignable_to}
use minipy.Operator.{Complaint, Report, Checked, is_list, is_set}

abbrev pub str_type : Ty
str_type = primitive Primitive.str

abbrev pub bytes_type : Ty
bytes_type = primitive Primitive.bytes

abbrev pub bool_type : Ty
bool_type = primitive Primitive.bool

abbrev report_one : Pos → Code → Complaint → List Report
report_one p code complaint = record { pos = p; code = code; complaint = complaint } ∷ []

-- Both operands are of one type.
abbrev pub both : Ty → Ty → Ty → Bool
both t left right = equal left t && equal right t

-- One operand is an int, the other a float.
abbrev pub is_mixed : Ty → Ty → Bool
is_mixed left right =
    (equal left int_type && equal right float_type)
    || (equal left float_type && equal right int_type)

-- `mismatch`.
unfoldable pub mismatch : TokenType → Ty → Ty → Pos → Checked
mismatch op left right p =
    (invalid_type, report_one p Code.type_mismatch (Complaint.unsupported_operands op left right))

-- `arith`.
unfoldable pub arithmetic : TokenType → Ty → Ty → Pos → Checked
arithmetic op left right p =
    if both int_type left right
    then (int_type, [])
    else if both float_type left right
    then (float_type, [])
    else if is_mixed left right
    then (float_type, [])
    else if is_dynamic left || is_dynamic right
    then (any_type, [])
    else mismatch op left right p

unfoldable pub plus_type : Ty → Ty → Pos → Checked
plus_type left right p =
    if both str_type left right
    then (str_type, [])
    else if both bytes_type left right
    then (bytes_type, [])
    else if is_list left && assignable_to right left
    then (left, [])
    else if is_dynamic left || is_dynamic right
    then (any_type, [])
    else arithmetic TokenType.plus left right p

unfoldable pub star_type : Ty → Ty → Pos → Checked
star_type left right p =
    if (equal left str_type && equal right int_type)
      || (equal left int_type && equal right str_type)
    then (str_type, [])
    else if is_list left && equal right int_type
    then (left, [])
    else if is_list right && equal left int_type
    then (right, [])
    else if is_dynamic left || is_dynamic right
    then (any_type, [])
    else arithmetic TokenType.star left right p

unfoldable pub minus_type : Ty → Ty → Pos → Checked
minus_type left right p =
    if is_set left && equal left right then (left, []) else arithmetic TokenType.minus left right p

unfoldable pub bitwise_type : TokenType → Ty → Ty → Pos → Checked
bitwise_type op left right p =
    if is_set left && equal left right
    then (left, [])
    else if both int_type left right
    then (int_type, [])
    else if is_dynamic left || is_dynamic right
    then (any_type, [])
    else mismatch op left right p

unfoldable pub slash_type : Ty → Ty → Pos → Checked
slash_type left right p =
    if both int_type left right
    then (float_type, [])
    else if both float_type left right
    then (float_type, [])
    else if is_mixed left right
    then (float_type, [])
    else if is_dynamic left || is_dynamic right
    then (any_type, [])
    else mismatch TokenType.slash left right p

unfoldable pub shift_type : TokenType → Ty → Ty → Pos → Checked
shift_type op left right p =
    if both int_type left right
    then (int_type, [])
    else if is_dynamic left || is_dynamic right
    then (any_type, [])
    else mismatch op left right p

-- The `switch` of `BinaryType`, on erased types that are not invalid.
unfoldable pub by_operator : TokenType → Ty → Ty → Pos → Checked
unfolding arithmetic plus_type star_type minus_type bitwise_type slash_type shift_type
by_operator TokenType.at left right p =
    (invalid_type, report_one p Code.unsupported_feature Complaint.matrix_multiplication)
by_operator TokenType.plus left right p = plus_type left right p
by_operator TokenType.star left right p = star_type left right p
by_operator TokenType.minus left right p = minus_type left right p
by_operator TokenType.amp left right p = bitwise_type TokenType.amp left right p
by_operator TokenType.pipe left right p = bitwise_type TokenType.pipe left right p
by_operator TokenType.caret left right p = bitwise_type TokenType.caret left right p
by_operator TokenType.doubleslash left right p = arithmetic TokenType.doubleslash left right p
by_operator TokenType.percent left right p = arithmetic TokenType.percent left right p
by_operator TokenType.doublestar left right p = arithmetic TokenType.doublestar left right p
by_operator TokenType.slash left right p = slash_type left right p
by_operator TokenType.lshift left right p = shift_type TokenType.lshift left right p
by_operator TokenType.rshift left right p = shift_type TokenType.rshift left right p
by_operator _ left right p = (invalid_type, [])

-- `BinaryType`.
unfoldable pub binary_type : (Bytes → Bytes) → Ty → TokenType → Ty → Pos → Checked
binary_type quote left op right p =
    let l = erase quote left in
    let r = erase quote right in
    if is_invalid l || is_invalid r then (invalid_type, []) else by_operator op l r p

-- `IsNumeric`.
unfoldable pub is_numeric : Ty → Bool
is_numeric (primitive Primitive.int) = true
is_numeric (primitive Primitive.float) = true
is_numeric _ = false

abbrev bad_unary : TokenType → Ty → Pos → Checked
bad_unary op t p = (
  invalid_type,
  if is_invalid t then [] else report_one p Code.type_mismatch (Complaint.bad_operand op t),
)

-- The `switch` of `UnaryType`, on the erased type of the operand.
unfoldable pub unary_operator : TokenType → Ty → Pos → Checked
unfolding is_numeric
unary_operator TokenType.minus t p =
    if is_numeric t
    then (t, [])
    else if is_dynamic t
    then (any_type, [])
    else bad_unary TokenType.minus t p
unary_operator TokenType.plus t p =
    if is_numeric t
    then (t, [])
    else if is_dynamic t
    then (any_type, [])
    else bad_unary TokenType.plus t p
unary_operator TokenType.tilde t p =
    if equal t int_type
    then (int_type, [])
    else if is_dynamic t
    then (any_type, [])
    else bad_unary TokenType.tilde t p
unary_operator TokenType.not_word t p =
    if is_dynamic t
    then (bool_type, [])
    else if not (equal t bool_type) && not (is_invalid t)
    then (bool_type, report_one p Code.type_mismatch (Complaint.not_requires_bool t))
    else (bool_type, [])
unary_operator _ t p = (invalid_type, [])

-- `UnaryType`, given the type that `Check` has for the operand, and its position.
unfoldable pub unary_type : (Bytes → Bytes) → TokenType → Ty → Pos → Checked
unary_type quote op arg p = unary_operator op (erase quote arg) p

-- The expressions of package ast that `PowFloatResult` tells apart.
pub data Exponent : Type 0 where
  int_lit : ℤ → Exponent
  unary_expr : TokenType → Exponent → Exponent
  other_expr : Exponent

-- `lit, ok := e.X.(*ast.IntLit)`, and `lit.Value > 0`.
is_positive_lit : Exponent → Bool
is_positive_lit (int_lit (pos (suc _))) = true
is_positive_lit _ = false

negative_exponent : Exponent → Bool
unfolding is_positive_lit
negative_exponent (int_lit (negsuc _)) = true
negative_exponent (unary_expr TokenType.minus e) = is_positive_lit e
negative_exponent _ = false

-- `PowFloatResult`.
unfoldable pub pow_float_result : TokenType → Exponent → Bool
unfolding negative_exponent
pow_float_result TokenType.doublestar e = negative_exponent e
pow_float_result _ e = false
