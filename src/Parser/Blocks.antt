-- ===== src/Parser/Blocks.antt =====
-- Blocks, and the compound statements from `parseIf` to `parseWith`. A function that
-- the source calls at its keyword takes the position of that token, which is consumed already.
pub mod Agree
use minipy.Base.{
  ℕ, suc, ◌+◌, Bool, true, false, ◌&&◌, ◌||◌, not, List, [], ◌∷◌, ◌++◌, Option, none, some,
  if◌then◌else◌, Bytes, codes, ◌==◌, map,
}
use minipy.Token.{TokenType, Pos, Token, type_eq}
use minipy.Token.Errors.{Code, Message}
use minipy.Parser.Ast
use minipy.Parser.Ast.{Expr, nil, Keyword, Param, ParamKind, normal, pos_only, kw_only}
use minipy.Parser.Ast.Stmts
use minipy.Parser.Ast.Stmts.{
  Stmt, no_stmt, WithItem, Handler, Case, of_stmts, of_handlers, of_cases,
}
use minipy.Parser.State.{
  Parser, Action, return, ◌>>=◌, ◌>>◌, accept, accept_if, choose, at, next_at, at_stmt_end, current,
  report, expect, expect_line_end, skip, skip_line, skip_nested, skip_block, Turn, again, over,
  loop,
}
use minipy.Parser.Grammar.{Env, Grammar}
use minipy.Parser.Displays.{at_close}
use minipy.Parser.Suite.{Suite, accept_name, is_word, elements, expression_list, keyword_value}
use minipy.Parser.Patterns.{patterns}
use minipy.Parser.Simple.{name_node, ann_assign, simple_line, aug_op}

unfoldable pub complain_block : {A : Type 0} → A → Action A
complain_block a = do t ← current; report t.pos Code.syntax_error Message.expected_block; return a

module _ (g : Grammar) (r : Suite) where
  -- The loop of `parseBlock`, and `parseBlock`.
  unfoldable pub block_turn : List Stmt → Action (Turn (List Stmt) (List Stmt))
  block_turn body = choose (at_close TokenType.dedent) (return (over body)) (
      accept TokenType.newline (λ _. return (again body))
        (do ss ← r.statement; return (again (body ++ ss))))

  unfoldable pub block : Action (List Stmt)
  block = do
    expect TokenType.colon
    accept TokenType.newline
        (λ _.
          accept TokenType.indent
            (λ _. do body ← loop block_turn []; expect TokenType.dedent; return body)
            (complain_block []))
        (simple_line g)

  -- `['else' ':' block]` and `['finally' ':' block]`.
  unfoldable pub optional_block : TokenType → Action (List Stmt)
  optional_block t = accept t (λ _. block) (return [])

  -- `parseIf`, `parseWhile`.
  unfoldable pub if_rest : Pos → Action Stmt
  if_rest p = do
    cond ← g.expression
    body ← block
    orelse ←
        accept TokenType.elif (λ t. do s ← r.if_rest t.pos; return (s ∷ []))
          (optional_block TokenType.else_word)
    return (Stmts.if_stmt p cond (of_stmts body) (of_stmts orelse))

  unfoldable pub while_rest : Pos → Action Stmt
  while_rest p = do
    cond ← g.expression
    body ← block
    orelse ← optional_block TokenType.else_word
    return (Stmts.while_stmt p cond (of_stmts body) (of_stmts orelse))

  -- `parseForTarget`, with its loop, and `parseFor`.
  unfoldable pub for_turn : List Expr → Action (Turn (List Expr) (List Expr))
  for_turn elems =
      accept TokenType.comma
        (λ _.
          accept TokenType.name (λ t. return (again (elems ++ name_node t ∷ [])))
            (return (again elems)))
        (return (over elems))

  unfoldable pub for_target : Action Expr
  for_target =
      accept TokenType.name
        (λ t.
          choose (at TokenType.comma)
            (do
              elems ← loop for_turn (name_node t ∷ [])
              return (Ast.tuple_lit t.pos (Ast.of_exprs elems)))
            (return (name_node t)))
        (do
          t ← current
          report t.pos Code.syntax_error (Message.expected_loop_variable t.type)
          return (Ast.name t.pos []))

  unfoldable pub for_rest : Pos → Bool → Action Stmt
  for_rest p async = do
    target ← for_target
    expect TokenType.in_word
    iter ← expression_list g
    body ← block
    orelse ← optional_block TokenType.else_word
    return (Stmts.for_stmt p target iter (of_stmts body) (of_stmts orelse) async)

  -- `parseExceptHandler`, and `parseTry` with its loop.
  unfoldable pub handler_type : Action (Expr × Bytes)
  handler_type = choose (at TokenType.colon) (return (nil, [])) do
    type ← g.expression
    name ←
        accept TokenType.as_word (λ _. do t ← expect TokenType.name; return t.literal) (return [])
    return (type, name)

  unfoldable pub handler : Pos → Action Handler
  handler p = do
    star ← accept TokenType.star (λ _. return true) (return false)
    h ← handler_type
    body ← block
    return (record { pos = p; type = h.0; name = h.1; body = body; star = star })

  unfoldable pub handler_turn : List Handler → Action (Turn (List Handler) (List Handler))
  handler_turn handlers =
      accept TokenType.except (λ t. do h ← handler t.pos; return (again (handlers ++ h ∷ [])))
        (return (over handlers))

  abbrev has_clause : List Handler → List Stmt → Bool
  has_clause [] [] = false
  has_clause _ _ = true

  unfoldable pub try_rest : Pos → Action Stmt
  try_rest p = do
    body ← block
    handlers ← loop handler_turn []
    orelse ← optional_block TokenType.else_word
    final ← optional_block TokenType.finally
    if has_clause handlers final
        then return tt
        else report p Code.syntax_error Message.try_without_clause
    return
        (Stmts.try_stmt p (of_stmts body) (of_handlers handlers) (of_stmts orelse) (of_stmts final))

  -- `parseWith`, with its loop.
  unfoldable pub with_item : Action WithItem
  with_item = do
    t ← current
    context ← g.expression
    vars ←
        accept TokenType.as_word (λ _. do n ← expect TokenType.name; return (name_node n))
          (return nil)
    return (record { pos = t.pos; context = context; optional_vars = vars })

  unfoldable pub with_turn : List WithItem → Action (Turn (List WithItem) (List WithItem))
  with_turn items = do
    i ← with_item
    accept TokenType.comma (λ _. return (again (items ++ i ∷ []))) (return (over (items ++ i ∷ [])))

  unfoldable pub with_rest : Pos → Bool → Action Stmt
  with_rest p async = do
    items ← loop with_turn []
    body ← block
    return (Stmts.with_stmt p items (of_stmts body) async)
