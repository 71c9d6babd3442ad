-- ===== src/Parser/Simple.antt =====
-- Simple statements, from `parseSimpleLine` to `parseTypeAlias`. A function that the source calls at
-- its keyword takes the position of that token, which is consumed already.
pub mod Agree
use minipy.Base.{
  ℕ, suc, Bool, true, false, ◌&&◌, ◌||◌, List, [], ◌∷◌, ◌++◌, Option, none, some, if◌then◌else◌,
  Bytes, codes,
}
use minipy.Token.{TokenType, Pos, Token}
use minipy.Token.Errors.{Code, Message}
use minipy.Parser.Ast
use minipy.Parser.Ast.{Expr, nil, expr_pos}
use minipy.Parser.Ast.Stmts
use minipy.Parser.Ast.Stmts.{Stmt, no_stmt, ImportAlias}
use minipy.Parser.State.{
  Parser, Action, return, ◌>>=◌, ◌>>◌, accept, accept_if, choose, at, next_at, at_stmt_end, current,
  report, expect, expect_line_end, Turn, again, over, loop,
}
use minipy.Parser.Grammar.{Grammar}
use minipy.Parser.Suite.{
  accept_name, is_word, dotted_turn, optional, element_turn, elements, expression_list,
}

-- `augAssign`.
unfoldable pub aug_op : TokenType → Option TokenType
aug_op TokenType.pluseq = some TokenType.plus
aug_op TokenType.minuseq = some TokenType.minus
aug_op TokenType.stareq = some TokenType.star
aug_op TokenType.slasheq = some TokenType.slash
aug_op TokenType.doubleslasheq = some TokenType.doubleslash
aug_op TokenType.percenteq = some TokenType.percent
aug_op TokenType.ampeq = some TokenType.amp
aug_op TokenType.pipeeq = some TokenType.pipe
aug_op TokenType.careteq = some TokenType.caret
aug_op TokenType.lshifteq = some TokenType.lshift
aug_op TokenType.rshifteq = some TokenType.rshift
aug_op TokenType.doublestareq = some TokenType.doublestar
aug_op _ = none

-- `requireTarget`, for one target and for all, and the check of `parseDelete`.
abbrev is_target : Expr → Bool
is_target (Ast.name _ _) = true
is_target (Ast.subscript _ _ _) = true
is_target (Ast.tuple_lit _ _) = true
is_target (Ast.attribute _ _ _) = true
is_target _ = false

unfoldable pub require_target : Expr → Action (Unit {0})
require_target x =
    if is_target x then return tt else report (expr_pos x) Code.syntax_error Message.cannot_assign

unfoldable pub require_targets : List Expr → Action (Unit {0})
unfolding require_target
require_targets [] = return tt
require_targets (x ∷ xs) = do require_target x; require_targets xs

abbrev is_deletable : Expr → Bool
is_deletable (Ast.name _ _) = true
is_deletable (Ast.subscript _ _ _) = true
is_deletable (Ast.attribute _ _ _) = true
is_deletable _ = false

unfoldable pub require_deletable : Expr → Action (Unit {0})
require_deletable x =
    if is_deletable x
    then return tt
    else report (expr_pos x) Code.syntax_error Message.cannot_delete

-- The loop of `parseFlatTupleTarget`.
abbrev pub name_node : Token → Expr
name_node t = Ast.name t.pos t.literal

unfoldable pub target_elem : Action Expr
target_elem =
    accept TokenType.star
      (λ star. do t ← expect TokenType.name; return (Ast.starred star.pos (name_node t)))
      (do t ← expect TokenType.name; return (name_node t))

unfoldable pub target_turn : List Expr → Action (Turn (List Expr) (List Expr))
target_turn elems = do
  e ← target_elem
  accept TokenType.comma (λ _. return (again (elems ++ e ∷ []))) (return (over (elems ++ e ∷ [])))

-- `parseNameList`; an empty literal is left out.
abbrev add_name : List Bytes → Bytes → List Bytes
add_name names [] = names
add_name names (c ∷ cs) = names ++ (c ∷ cs) ∷ []

unfoldable pub name_turn : List Bytes → Action (Turn (List Bytes) (List Bytes))
name_turn names = do
  t ← expect TokenType.name
  accept TokenType.comma (λ _. return (again (add_name names t.literal)))
      (return (over (add_name names t.literal)))

-- `parseDottedName`.
unfoldable pub dotted_name : Action Bytes
dotted_name = do t ← expect TokenType.name; loop dotted_turn t.literal

-- `parseImportAliases`.
unfoldable pub at_aliases_end : Parser → Bool
at_aliases_end s = at_stmt_end s || at TokenType.rparen s

unfoldable pub alias : Action ImportAlias
alias = do
  t ← current
  n ← dotted_name
  as_name ←
      accept TokenType.as_word (λ _. do a ← expect TokenType.name; return a.literal) (return [])
  return (record { pos = t.pos; name = n; as_name = as_name })

unfoldable pub alias_turn : List ImportAlias → Action (Turn (List ImportAlias) (List ImportAlias))
alias_turn names = choose at_aliases_end (return (over names)) do
  a ← alias
  accept TokenType.comma
      (λ _.
        choose at_aliases_end (return (over (names ++ a ∷ []))) (return (again (names ++ a ∷ []))))
      (return (over (names ++ a ∷ [])))

abbrev aliases : Action (List ImportAlias)
aliases = loop alias_turn []

-- The dots in front of the module of `parseImportFrom`, its module, and its names.
unfoldable pub level_turn : ℕ → Action (Turn ℕ ℕ)
level_turn level = accept TokenType.dot (λ _. return (again (suc level))) (return (over level))

unfoldable pub from_module : Action Bytes
from_module = accept TokenType.name (λ t. loop dotted_turn t.literal) (return [])

unfoldable pub from_names : Action (List ImportAlias)
from_names =
    accept TokenType.star
      (λ t. return ((record { pos = t.pos; name = codes "*"; as_name = [] }) ∷ []))
      (accept TokenType.lparen (λ _. do names ← aliases; expect TokenType.rparen; return names)
        aliases)

unfoldable pub import_from : Pos → Action Stmt
import_from p = do
  level ← loop level_turn 0
  module_name ← from_module
  expect TokenType.import
  names ← from_names
  return (Stmts.import_from p module_name names level)

module _ (g : Grammar) where
  -- `parseRaise`, `parseDelete`, `parseAssert`, and the cases of `return` and `yield`.
  unfoldable pub raise_rest : Pos → Action Stmt
  raise_rest p = do
    exc ← optional g g.expression
    cause ← accept TokenType.from (λ _. g.expression) (return nil)
    return (Stmts.raise_stmt p exc cause)

  unfoldable pub delete_turn : List Expr → Action (Turn (List Expr) (List Expr))
  delete_turn targets = do
    x ← g.expression
    require_deletable x
    accept TokenType.comma
        (λ _.
          choose at_stmt_end (return (over (targets ++ x ∷ [])))
            (return (again (targets ++ x ∷ []))))
        (return (over (targets ++ x ∷ [])))

  unfoldable pub delete_rest : Pos → Action Stmt
  delete_rest p = do targets ← loop delete_turn []; return (Stmts.delete_stmt p targets)

  unfoldable pub assert_rest : Pos → Action Stmt
  assert_rest p = do
    test ← g.expression
    msg ← accept TokenType.comma (λ _. g.expression) (return nil)
    return (Stmts.assert_stmt p test msg)

  unfoldable pub yield_rest : Pos → Action Stmt
  yield_rest p =
      accept TokenType.from
        (λ _. do x ← optional g g.expression; return (Stmts.yield_stmt p x true))
        (do x ← optional g (expression_list g); return (Stmts.yield_stmt p x false))

  -- `parseAnnAssign`, behind the name, and `parseTypeAlias`.
  unfoldable pub ann_assign : Token → Action Stmt
  ann_assign t = do
    expect TokenType.colon
    ann ← g.annotation
    value ← accept TokenType.assign (λ _. expression_list g) (return nil)
    return (Stmts.ann_assign t.pos t.pos t.literal ann value)

  unfoldable pub type_alias : Token → Action Stmt
  type_alias t = do
    n ← expect TokenType.name
    expect TokenType.assign
    value ← g.expression
    return (Stmts.type_alias t.pos n.pos n.literal value)

  -- A tuple target, which must be assigned to.
  unfoldable pub tuple_assign : Action Stmt
  tuple_assign = do
    t ← current
    elems ← loop target_turn []
    accept TokenType.assign
        (λ _. do
          value ← expression_list g
          return (Stmts.assign t.pos (Ast.tuple_lit t.pos (Ast.of_exprs elems) ∷ []) value))
        (do report t.pos Code.syntax_error Message.tuple_target; return no_stmt)

  -- The loop over chained assignments, which ends with a statement; it starts at a `=`.
  unfoldable pub assign_turn : Pos → List Expr → Action (Turn (List Expr) Stmt)
  assign_turn p targets =
      accept TokenType.assign
        (λ _. do
          value ← expression_list g
          choose (at TokenType.assign)
              (do require_target value; return (again (targets ++ value ∷ [])))
              (do require_targets targets; return (over (Stmts.assign p targets value))))
        (return (over no_stmt))

  -- What follows the expression at the start of a statement.
  unfoldable pub expression_statement : Action Stmt
  expression_statement = do
    t ← current
    x ← g.expression
    choose (at TokenType.assign) (loop (assign_turn t.pos) (x ∷ [])) (
        accept_if aug_op
          (λ op _. do
            value ← g.expression
            require_target x
            return (Stmts.aug_assign t.pos x op value))
          (return (Stmts.expr_stmt t.pos x)))

  -- `parseSimpleStmt`, from the tests for a name on.
  unfoldable pub name_statement : Action Stmt
  name_statement = accept_name (next_at TokenType.colon) ann_assign (
      accept_name (λ s. is_word (codes "type") s && next_at TokenType.name s) type_alias
        (choose (λ s. at TokenType.name s && next_at TokenType.comma s) tuple_assign
          expression_statement))

  -- `parseSimpleStmt`.
  unfoldable pub simple_statement : Action Stmt
  simple_statement =
      accept TokenType.pass (λ t. return (Stmts.pass_stmt t.pos))
        (accept TokenType.break (λ t. return (Stmts.break_stmt t.pos))
          (accept TokenType.continue (λ t. return (Stmts.continue_stmt t.pos))
            (accept TokenType.return
              (λ t. do x ← optional g (expression_list g); return (Stmts.return_stmt t.pos x))
              (accept TokenType.yield (λ t. yield_rest t.pos)
                (accept TokenType.raise (λ t. raise_rest t.pos)
                  (accept TokenType.global
                    (λ t. do ns ← loop name_turn []; return (Stmts.global_stmt t.pos ns))
                    (accept TokenType.nonlocal
                      (λ t. do ns ← loop name_turn []; return (Stmts.nonlocal_stmt t.pos ns))
                      (accept TokenType.del (λ t. delete_rest t.pos)
                        (accept TokenType.assert (λ t. assert_rest t.pos)
                          (accept TokenType.import
                            (λ t. do names ← aliases; return (Stmts.import_stmt t.pos names))
                            (accept TokenType.from (λ t. import_from t.pos)
                              name_statement)))))))))))

  -- `parseSimpleLine`, and its loop; a nil statement is left out.
  abbrev add_stmt : List Stmt → Stmt → List Stmt
  add_stmt stmts no_stmt = stmts
  add_stmt stmts s = stmts ++ s ∷ []

  unfoldable pub line_turn : List Stmt → Action (Turn (List Stmt) (List Stmt))
  line_turn stmts = do
    s ← simple_statement
    accept TokenType.semicolon
        (λ _.
          choose (λ s. at TokenType.newline s || at TokenType.eof s)
            (return (over (add_stmt stmts s))) (return (again (add_stmt stmts s))))
        (return (over (add_stmt stmts s)))

  unfoldable pub simple_line : Action (List Stmt)
  simple_line = do stmts ← loop line_turn []; expect_line_end; return stmts
