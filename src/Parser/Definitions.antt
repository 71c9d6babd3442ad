-- ===== src/Parser/Definitions.antt =====
-- Functions and classes, from `parseFunction` to `parseClassBlock`. A function that
-- the source calls at its keyword takes the position of that token, which is consumed already.
pub mod Agree
use minipy.Base.{
  ℕ, suc, ◌+◌, Bool, true, false, ◌&&◌, ◌||◌, not, List, [], ◌∷◌, ◌++◌, Option, none, some,
  if◌then◌else◌, Bytes, codes, ◌==◌, map,
}
use minipy.Token.{TokenType, Pos, Token, type_eq}
use minipy.Token.Errors.{Code, Message}
use minipy.Parser.Ast
use minipy.Parser.Ast.{Expr, nil, Keyword, Param, ParamKind, normal, pos_only, kw_only}
use minipy.Parser.Ast.Stmts
use minipy.Parser.Ast.Stmts.{
  Stmt, no_stmt, WithItem, Handler, Case, of_stmts, of_handlers, of_cases,
}
use minipy.Parser.State.{
  Parser, Action, return, ◌>>=◌, ◌>>◌, accept, accept_if, choose, at, next_at, at_stmt_end, current,
  report, expect, expect_line_end, skip, skip_line, skip_nested, skip_block, Turn, again, over,
  loop,
}
use minipy.Parser.Grammar.{Env, Grammar}
use minipy.Parser.Displays.{at_close}
use minipy.Parser.Suite.{Suite, accept_name, is_word, elements, expression_list, keyword_value}
use minipy.Parser.Patterns.{patterns}
use minipy.Parser.Simple.{name_node, ann_assign, simple_line, aug_op}
use minipy.Parser.Blocks.{complain_block, block, for_rest, with_rest}

-- A line, and the block that follows it, are skipped.
abbrev pub skip_all : Action (Unit {0})
skip_all = do skip_line; skip_block

-- The parameters behind a slash, and the state of the loop of `parseParams`.
abbrev make_pos_only : Param → Param
make_pos_only p = record p { kind = kind_of p.kind }
  where
    kind_of : ParamKind → ParamKind
    kind_of normal = pos_only
    kind_of k = k

pub record ParamsFound : Type 0 where
  pub params : List Param
  pub kind : ParamKind

abbrev add_param : ParamsFound → Param → ParamsFound
add_param found p = record found { params = found.params ++ p ∷ [] }

abbrev star_param : Pos → Param → Param
star_param p q = record q { pos = p; vararg = true }

abbrev double_star_param : Pos → Param → Param
double_star_param p q = record q { pos = p; kwarg = true }

-- The bases and the keywords of a class, as its loop collects them.
pub record ClassHead : Type 0 where
  pub bases : List Expr
  pub keywords : List Keyword

module _ (g : Grammar) (r : Suite) where
  -- `parseParam`, and `parseParams` with its loop.
  unfoldable pub param : ParamKind → Action Param
  param kind = do
    t ← expect TokenType.name
    ann ← accept TokenType.colon (λ _. g.annotation) (return nil)
    default ← accept TokenType.assign (λ _. g.expression) (return nil)
    return (record {
      pos = t.pos;
      name_pos = t.pos;
      name = t.literal;
      ann = ann;
      default = default;
      kind = kind;
      vararg = false;
      kwarg = false;
    })

  unfoldable pub param_turn : ParamsFound → Action (Turn ParamsFound (List Param))
  param_turn found =
      accept TokenType.slash
        (λ _. do
          let more = record found { params = map make_pos_only found.params }
          accept TokenType.comma (λ _. return (again more)) (return (again more)))
        (accept TokenType.star
          (λ t.
            accept TokenType.comma (λ _. return (again (record found { kind = kw_only })))
              (do
                p ← param normal
                let more = add_param (record found { kind = kw_only }) (star_param t.pos p)
                accept TokenType.comma (λ _. return (again more)) (return (over more.params))))
          (accept TokenType.doublestar
            (λ t. do
              p ← param kw_only
              let more = add_param found (double_star_param t.pos p)
              accept TokenType.comma (λ _. return (over more.params)) (return (over more.params)))
            (do
              p ← param found.kind
              let more = add_param found p
              accept TokenType.comma
                  (λ _.
                    choose (at TokenType.rparen) (return (over more.params)) (return (again more)))
                  (return (over more.params)))))

  unfoldable pub params : Action (List Param)
  params =
      choose (at_close TokenType.rparen) (return [])
        (loop param_turn (record { params = []; kind = normal }))

  -- `parseFunction`; `async def` sets the position and the mark of its result.
  unfoldable pub function_rest : Pos → Bool → List Expr → Action Stmt
  function_rest p async decorators = do
    t ← expect TokenType.name
    expect TokenType.lparen
    ps ← params
    expect TokenType.rparen
    returns ← accept TokenType.arrow (λ _. g.annotation) (return nil)
    body ← block g r
    return (Stmts.function p t.pos t.literal ps returns decorators (of_stmts body) async)

  -- `parseAsyncStatement`; the decorators are those that `parseDecorated` sets on a function.
  unfoldable pub async_rest : Pos → List Expr → Action Stmt
  async_rest p decorators =
      accept TokenType.def (λ _. function_rest p true decorators)
        (accept TokenType.for (λ _. for_rest g r p true)
          (accept TokenType.with (λ _. with_rest g r p true)
            (do report p Code.syntax_error Message.expected_async; skip_all; return no_stmt)))

  -- The loop of `parseClass` over bases and keywords.
  unfoldable pub head_entry : ClassHead → Action ClassHead
  head_entry found =
      accept_name (next_at TokenType.assign)
        (λ key. do
          k ← keyword_value g key
          return (record found { keywords = found.keywords ++ k ∷ [] }))
        (accept TokenType.doublestar
          (λ key. do
            x ← g.expression
            return (record found {
              keywords = found.keywords ++ (record { pos = key.pos; name = []; value = x }) ∷ [];
            }))
          (do x ← g.expression; return (record found { bases = found.bases ++ x ∷ [] })))

  unfoldable pub head_turn : ClassHead → Action (Turn ClassHead ClassHead)
  head_turn found = choose (at_close TokenType.rparen) (return (over found)) do
    more ← head_entry found
    accept TokenType.comma (λ _. return (again more)) (return (over more))

  unfoldable pub class_head : Action ClassHead
  class_head =
      accept TokenType.lparen
        (λ _. do
          found ← loop head_turn (record { bases = []; keywords = [] })
          expect TokenType.rparen
          return found)
        (return (record { bases = []; keywords = [] }))

  -- `parseClassBlock`, with its loop.
  unfoldable pub bad_member : Action (Unit {0})
  bad_member = do t ← current; report t.pos Code.syntax_error Message.class_body_members; skip_line

  unfoldable pub member_turn : List Stmt → Action (Turn (List Stmt) (List Stmt))
  member_turn body = choose (at_close TokenType.dedent) (return (over body)) (
      accept TokenType.newline (λ _. return (again body))
        (accept TokenType.pass
          (λ t. do expect_line_end; return (again (body ++ Stmts.pass_stmt t.pos ∷ [])))
          (accept TokenType.def
            (λ t. do s ← function_rest t.pos false []; return (again (body ++ s ∷ [])))
            (accept_name (next_at TokenType.colon)
              (λ t. do s ← ann_assign g t; expect_line_end; return (again (body ++ s ∷ [])))
              (choose (at TokenType.name) (do bad_member; return (again body))
                (do bad_member; skip_block; return (again body)))))))

  unfoldable pub class_block : Action (List Stmt)
  class_block = do
    expect TokenType.colon
    accept TokenType.newline
        (λ _.
          accept TokenType.indent
            (λ _. do body ← loop member_turn []; expect TokenType.dedent; return body)
            (complain_block []))
        (do
          t ← current
          report t.pos Code.syntax_error Message.class_body_block
          skip_line
          return [])

  -- `parseClass`.
  unfoldable pub class_rest : Pos → List Expr → Action Stmt
  class_rest p decorators = do
    t ← expect TokenType.name
    head ← class_head
    body ← class_block
    return (Stmts.class_stmt p t.pos t.literal head.bases head.keywords decorators (of_stmts body))
