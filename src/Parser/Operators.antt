-- ===== src/Parser/Operators.antt =====
-- Expressions, from atoms to `parseExpression`. A function of the grammar makes a call through the
-- record `g` where a token stands in between, and else calls the next function directly.
pub mod Agree
use minipy.Base.{
  ℕ, suc, ◌+◌, Bool, true, false, ◌&&◌, ◌||◌, not, List, [], ◌∷◌, ◌++◌, Option, none, some,
  if◌then◌else◌, leb, Bytes,
}
use minipy.Base.Int.{ℤ, pos}
use minipy.Token.{TokenType, Pos, Token, type_eq}
use minipy.Token.Errors.{Code, Message}
use minipy.Lexer.Numbers.{Parsed, value, parse_int}
use minipy.Parser.Ast
use minipy.Parser.Ast.{Expr, nil, name, Param, of_exprs, of_keywords, of_params, expr_pos, normal}
use minipy.Parser.State.{
  Action, Parser, return, ◌>>=◌, ◌>>◌, accept, accept_if, choose, at, next_at, at_stmt_end, current,
  report, expect, skip,
}
use minipy.Parser.Grammar.{Env, Grammar, CallArgs}
use minipy.Parser.Displays.{at_clause, at_close, string, group, list_loop, dict_loop}

-- The value of an integer literal; the lexer reports one that has none.
unfoldable pub int_value : Bytes → ℤ
int_value literal = elim (parse_int literal) [ value n ↦ pos n | _ ↦ pos 0 ]

-- `binPrec`.
unfoldable pub bin_prec : TokenType → Option ℕ
bin_prec TokenType.pipe = some 1
bin_prec TokenType.caret = some 2
bin_prec TokenType.amp = some 3
bin_prec TokenType.lshift = some 4
bin_prec TokenType.rshift = some 4
bin_prec TokenType.plus = some 5
bin_prec TokenType.minus = some 5
bin_prec TokenType.star = some 6
bin_prec TokenType.slash = some 6
bin_prec TokenType.doubleslash = some 6
bin_prec TokenType.percent = some 6
bin_prec TokenType.at = some 6
bin_prec _ = none

-- The operator of a type, if it binds at least as tight as `min`, and its precedence.
unfoldable pub binary_op : ℕ → TokenType → Option (TokenType × ℕ)
binary_op min t = elim (bin_prec t) [
  | none ↦ none
  | some prec ↦ if leb min prec then some (t, prec) else none
]

-- The operators of `parseFactor`.
unfoldable pub unary_op : TokenType → Option TokenType
unary_op TokenType.plus = some TokenType.plus
unary_op TokenType.minus = some TokenType.minus
unary_op TokenType.tilde = some TokenType.tilde
unary_op _ = none

-- The comparison operators of one token, but `is`.
unfoldable pub compare_op : TokenType → Option TokenType
compare_op TokenType.eq = some TokenType.eq
compare_op TokenType.ne = some TokenType.ne
compare_op TokenType.lt = some TokenType.lt
compare_op TokenType.le = some TokenType.le
compare_op TokenType.gt = some TokenType.gt
compare_op TokenType.ge = some TokenType.ge
compare_op TokenType.in_word = some TokenType.in_word
compare_op _ = none

-- The atoms of one token.
unfoldable pub literal_node : Env → TokenType → Option (Token → Expr)
literal_node env TokenType.name = some λ t. name t.pos t.literal
literal_node env TokenType.true_word = some λ t. Ast.bool_lit t.pos true
literal_node env TokenType.false_word = some λ t. Ast.bool_lit t.pos false
literal_node env TokenType.none_word = some λ t. Ast.none_lit t.pos
literal_node env TokenType.ellipsis = some λ t. Ast.ellipsis_lit t.pos
literal_node env TokenType.int = some λ t. Ast.int_lit t.pos (int_value t.literal)
literal_node env TokenType.float = some λ t. Ast.float_lit t.pos (env.float_bits t.literal)
literal_node env _ = none

-- A lambda's parameter has a name alone.
abbrev lambda_param : Token → Param
lambda_param t = record {
  pos = t.pos;
  name_pos = t.pos;
  name = t.literal;
  ann = nil;
  default = nil;
  kind = normal;
  vararg = false;
  kwarg = false;
}

abbrev no_args : CallArgs
no_args = record { args = []; keywords = []; star_args = []; kwargs = nil }

-- `kwargs != nil`.
abbrev is_given : Expr → Bool
is_given nil = false
is_given _ = true

unfoldable pub unexpected : Action Expr
unexpected = do
  t ← current
  report t.pos Code.syntax_error (Message.unexpected_token t.type)
  skip
  return (Ast.none_lit t.pos)

module _ (env : Env) (g : Grammar) where
  -- The loop over the parameters of a lambda.
  unfoldable pub lambda_params : List Param → Action (List Param)
  lambda_params params = do
    t ← expect TokenType.name
    accept TokenType.comma (λ _. g.lambda_params (params ++ lambda_param t ∷ []))
        (return (params ++ lambda_param t ∷ []))

  -- `parseLambda`.
  unfoldable pub lambda : Pos → Action Expr
  lambda p = do
    params ← choose (at TokenType.colon) (return []) (g.lambda_params [])
    expect TokenType.colon
    body ← g.expression
    return (Ast.lambda_expr p (of_params params) body)

  -- `parseAtom`.
  unfoldable pub atom : Action Expr
  atom =
      accept_if (literal_node env) (λ node t. return (node t))
        (accept TokenType.string (λ t. string env g t)
          (accept TokenType.fstring (λ t. string env g t)
            (accept TokenType.bytes (λ t. string env g t)
              (accept TokenType.lparen (λ t. group env g t.pos)
                (accept TokenType.lbracket (λ t. g.list_loop t.pos [])
                  (accept TokenType.lbrace (λ t. g.dict_loop t.pos [] [])
                    (accept TokenType.lambda (λ t. lambda t.pos) unexpected)))))))

  -- `parseSubscriptIndex`.
  unfoldable pub subscript_index : Pos → Action Expr
  subscript_index p = do
    lower ← choose (λ s. at TokenType.colon s || at TokenType.rbracket s) (return nil) g.expression
    accept TokenType.colon
        (λ _. do
          upper ←
              choose (λ s. at TokenType.colon s || at TokenType.rbracket s) (return nil)
                g.expression
          step ←
              accept TokenType.colon (λ _. choose (at TokenType.rbracket) (return nil) g.expression)
                (return nil)
          return (Ast.slice p lower upper step))
        (return lower)

  -- The end of the body of the loop of `parseCall`.
  abbrev next_arg : CallArgs → Action CallArgs
  next_arg found = accept TokenType.comma (λ _. g.call_loop found) (return found)

  -- A positional argument. A `break` of the source leaves the `switch` alone.
  unfoldable pub positional : CallArgs → Action CallArgs
  positional found = do
    arg ← g.expression
    choose at_clause
        (do
          clauses ← g.clause_loop []
          choose (at TokenType.rparen) (return tt)
              (do t ← current; report t.pos Code.unsupported_feature Message.bare_generator)
          next_arg (record found {
            args = found.args ++ Ast.generator_exp (expr_pos arg) arg (Ast.of_clauses clauses) ∷ [];
          }))
        (next_arg (record found { args = found.args ++ arg ∷ [] }))

  -- The loop of `parseCall`.
  unfoldable pub call_loop : CallArgs → Action CallArgs
  call_loop found = choose (at_close TokenType.rparen) (return found) (
      accept TokenType.star
        (λ _. do
          x ← g.expression
          next_arg (record found { star_args = found.star_args ++ x ∷ [] }))
        (accept TokenType.doublestar
          (λ t. do
            x ← g.expression
            if is_given found.kwargs
                then (do
                  report t.pos Code.unsupported_feature Message.multiple_double_star
                  next_arg found)
                else next_arg (record found { kwargs = x }))
          (choose (next_at TokenType.assign)
            (accept TokenType.name
              (λ key. do
                skip
                x ← g.expression
                next_arg (record found {
                  keywords =
                      found.keywords
                      ++ (record { pos = key.pos; name = key.literal; value = x }) ∷ [];
                }))
              (positional found))
            (positional found))))

  -- `parseCall`.
  unfoldable pub call : Pos → Expr → Action Expr
  call p callee = do
    found ← g.call_loop no_args
    expect TokenType.rparen
    return (
        Ast.call_expr p callee (of_exprs found.args) (of_keywords found.keywords)
          (of_exprs found.star_args) found.kwargs)

  -- The loop of `parsePrimary`.
  unfoldable pub primary_loop : Expr → Action Expr
  primary_loop x =
      accept TokenType.lparen (λ t. do c ← call t.pos x; g.primary_loop c)
        (accept TokenType.dot
          (λ t. do n ← expect TokenType.name; g.primary_loop (Ast.attribute t.pos x n.literal))
          (accept TokenType.lbracket
            (λ t. do
              index ← subscript_index t.pos
              expect TokenType.rbracket
              g.primary_loop (Ast.subscript t.pos x index))
            (return x)))

  -- `parsePrimary`.
  unfoldable pub primary : Action Expr
  primary = do x ← atom; primary_loop x

  -- `parsePower`.
  unfoldable pub power : Action Expr
  power = do
    x ← primary
    accept TokenType.doublestar
        (λ t. do y ← g.factor; return (Ast.binary_expr t.pos TokenType.doublestar x y)) (return x)

  -- `parseFactor`.
  unfoldable pub factor : Action Expr
  factor = accept_if unary_op (λ op t. do x ← g.factor; return (Ast.unary_expr t.pos op x)) power

  -- `parseBinary`, and its loop.
  unfoldable pub binary_loop : ℕ → Expr → Action Expr
  binary_loop min x =
      accept_if (binary_op min)
        (λ (op, prec) t. do
          y ← g.binary (prec + 1)
          g.binary_loop min (Ast.binary_expr t.pos op x y))
        (return x)

  unfoldable pub binary : ℕ → Action Expr
  binary min = do x ← factor; binary_loop min x

  abbrev finish_compare : Expr → List TokenType → List Expr → Expr
  finish_compare x [] rest = x
  finish_compare x (op ∷ ops) rest = Ast.compare (expr_pos x) x (op ∷ ops) (of_exprs rest)

  abbrev compare_with : Expr → List TokenType → List Expr → TokenType → Action Expr
  compare_with x ops rest op = do y ← g.binary 1; g.compare_loop x (ops ++ op ∷ []) (rest ++ y ∷ [])

  -- The loop of `parseComparison`; `not` is consumed only in front of `in`.
  unfoldable pub compare_loop : Expr → List TokenType → List Expr → Action Expr
  compare_loop x ops rest =
      let over = return (finish_compare x ops rest) in
      accept_if compare_op (λ op _. compare_with x ops rest op)
        (accept TokenType.is_word
          (λ _.
            accept TokenType.not_word (λ _. compare_with x ops rest TokenType.isnot)
              (compare_with x ops rest TokenType.is_word))
          (choose (next_at TokenType.in_word)
            (accept TokenType.not_word (λ _. do skip; compare_with x ops rest TokenType.notin) over)
            over))

  unfoldable pub comparison : Action Expr
  comparison = do x ← binary 1; compare_loop x [] []

  -- `parseInversion`.
  unfoldable pub inversion : Action Expr
  inversion =
      accept TokenType.not_word
        (λ t. do x ← g.inversion; return (Ast.unary_expr t.pos TokenType.not_word x)) comparison

  -- `parseConjunction` and `parseDisjunction`, with their loops.
  unfoldable pub and_loop : Expr → Action Expr
  and_loop x =
      accept TokenType.and
        (λ t. do y ← g.inversion; g.and_loop (Ast.bool_op t.pos TokenType.and x y)) (return x)

  unfoldable pub conjunction : Action Expr
  conjunction = do x ← inversion; and_loop x

  unfoldable pub or_loop : Expr → Action Expr
  or_loop x =
      accept TokenType.or
        (λ t. do y ← g.conjunction; g.or_loop (Ast.bool_op t.pos TokenType.or x y)) (return x)

  unfoldable pub disjunction : Action Expr
  disjunction = do x ← conjunction; or_loop x

  -- The target of `:=`, and its value.
  unfoldable pub named : Pos → Expr → Action Expr
  named p (name q n) = do x ← g.expression; return (Ast.named_expr p q n x)
  named p x = do report (expr_pos x) Code.syntax_error Message.named_target; return x

  -- `parseYieldExpr`.
  unfoldable pub yield_value : Pos → Bool → Action Expr
  yield_value p from = do
    x ←
        choose (λ s. at_stmt_end s || (at TokenType.rparen s || at TokenType.comma s)) (return nil)
          g.expression
    return (Ast.yield_expr p x from)

  unfoldable pub yield_expression : Pos → Action Expr
  yield_expression p = accept TokenType.from (λ _. yield_value p true) (yield_value p false)

  -- What may follow the disjunction of an expression.
  unfoldable pub conditional : Action Expr
  conditional = do
    x ← disjunction
    accept TokenType.if_word
        (λ _. do
          cond ← g.disjunction
          expect TokenType.else_word
          orelse ← g.expression
          return (Ast.if_exp (expr_pos x) x cond orelse))
        (accept TokenType.walrus (λ t. named t.pos x) (return x))

  -- `parseExpression`.
  unfoldable pub expression : Action Expr
  expression =
      accept TokenType.lambda (λ t. lambda t.pos)
        (accept TokenType.yield (λ t. yield_expression t.pos)
          (accept TokenType.await (λ t. do x ← g.primary; return (Ast.await_expr t.pos x))
            conditional))
