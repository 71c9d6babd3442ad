-- ===== src/Parser/Statements.antt =====
-- Pattern matching, decorators, and the choice of a statement, from `parseModule` to `parseCase`. A function that
-- the source calls at its keyword takes the position of that token, which is consumed already.
pub mod Agree
use minipy.Base.{
  ℕ, suc, ◌+◌, Bool, true, false, ◌&&◌, ◌||◌, not, List, [], ◌∷◌, ◌++◌, Option, none, some,
  if◌then◌else◌, Bytes, codes, ◌==◌, map,
}
use minipy.Token.{TokenType, Pos, Token, type_eq}
use minipy.Token.Errors.{Code, Message}
use minipy.Parser.Ast
use minipy.Parser.Ast.{Expr, nil, Keyword, Param, ParamKind, normal, pos_only, kw_only}
use minipy.Parser.Ast.Stmts
use minipy.Parser.Ast.Stmts.{
  Stmt, no_stmt, WithItem, Handler, Case, of_stmts, of_handlers, of_cases,
}
use minipy.Parser.State.{
  Parser, Action, return, ◌>>=◌, ◌>>◌, accept, accept_if, choose, at, next_at, at_stmt_end, current,
  report, expect, expect_line_end, skip, skip_line, skip_nested, skip_block, Turn, again, over,
  loop,
}
use minipy.Parser.Grammar.{Env, Grammar}
use minipy.Parser.Displays.{at_close}
use minipy.Parser.Suite.{Suite, accept_name, is_word, elements, expression_list, keyword_value}
use minipy.Parser.Patterns.{patterns}
use minipy.Parser.Simple.{name_node, ann_assign, simple_line, aug_op}
use minipy.Parser.Blocks.{block, if_rest, while_rest, for_rest, try_rest, with_rest}
use minipy.Parser.Definitions.{skip_all, function_rest, class_rest, async_rest}

-- The loop of `isMatchHeader` over the tokens behind `match`: `opens` brackets are opened, and `closes`
-- closed. Behind the tokens there is an ENDMARKER.
abbrev is_open : TokenType → ℕ
is_open TokenType.lparen = 1
is_open TokenType.lbracket = 1
is_open TokenType.lbrace = 1
is_open _ = 0

abbrev is_close : TokenType → ℕ
is_close TokenType.rparen = 1
is_close TokenType.rbracket = 1
is_close TokenType.rbrace = 1
is_close _ = 0

abbrev starts_newline : List Token → Bool
starts_newline [] = false
starts_newline (t ∷ ts) = type_eq t.type TokenType.newline

unfoldable pub header_scan : ℕ → ℕ → List Token → Bool
unfolding type_eq
header_scan opens closes [] = false
header_scan opens closes (t ∷ ts) =
    let rest = header_scan (opens + is_open t.type) (closes + is_close t.type) ts in
    if type_eq t.type TokenType.newline || type_eq t.type TokenType.eof
    then false
    else if type_eq t.type TokenType.colon && opens == closes
    then starts_newline ts
    else rest

-- `isMatchHeader`, on the tokens from `match` on.
abbrev behind_match : List Token → Bool
behind_match [] = false
behind_match (t ∷ ts) = header_scan 0 0 ts

abbrev is_some : Option TokenType → Bool
is_some none = false
is_some (some _) = true

unfoldable pub not_subject : TokenType → Bool
unfolding type_eq aug_op
not_subject t =
    (type_eq t TokenType.assign || type_eq t TokenType.colon)
    || (type_eq t TokenType.newline || type_eq t TokenType.semicolon)
    || (type_eq t TokenType.eof || is_some (aug_op t))

abbrev next_type : List Token → TokenType
next_type (_ ∷ t ∷ _) = t.type
next_type _ = TokenType.eof

unfoldable pub is_match_header : Parser → Bool
unfolding header_scan not_subject
is_match_header s = not (not_subject (next_type s.rest)) && behind_match s.rest

module _ (env : Env) (g : Grammar) (r : Suite) where
  -- `parseCase`.
  unfoldable pub case_rest : Pos → Action Case
  case_rest p = do
    pattern ← patterns env g r
    guard ← accept TokenType.if_word (λ _. g.expression) (return nil)
    body ← block g r
    return (record { pos = p; pattern = pattern; guard = guard; body = body })

  -- The loop of `parseMatch`.
  unfoldable pub case_turn : List Case → Action (Turn (List Case) (List Case))
  case_turn cases = choose (at_close TokenType.dedent) (return (over cases)) (
      accept TokenType.newline (λ _. return (again cases))
        (accept_name (is_word (codes "case"))
          (λ t. do c ← case_rest t.pos; return (again (cases ++ c ∷ [])))
          (do
            t ← current
            report t.pos Code.syntax_error Message.expected_case
            skip_all
            return (again cases))))

  unfoldable pub complain_cases : Action (Unit {0})
  complain_cases = do t ← current; report t.pos Code.syntax_error Message.expected_cases

  -- `parseMatch`.
  unfoldable pub match_rest : Pos → Action Stmt
  match_rest p = do
    subject ← elements g (at_close TokenType.colon)
    expect TokenType.colon
    accept TokenType.newline
        (λ _.
          accept TokenType.indent
            (λ _. do
              cases ← loop case_turn []
              expect TokenType.dedent
              return (Stmts.match_stmt p subject (of_cases cases)))
            (do complain_cases; return (Stmts.match_stmt p subject (of_cases []))))
        (do complain_cases; skip_line; return (Stmts.match_stmt p subject (of_cases [])))

  -- `parseDecorated`, with its loop.
  unfoldable pub decorator_turn : List Expr → Action (Turn (List Expr) (List Expr))
  decorator_turn decorators =
      accept TokenType.at
        (λ _. do x ← g.expression; expect_line_end; return (again (decorators ++ x ∷ [])))
        (return (over decorators))

  unfoldable pub decorated_rest : List Expr → Action Stmt
  decorated_rest decorators =
      accept TokenType.def (λ t. function_rest g r t.pos false decorators)
        (accept TokenType.class (λ t. class_rest g r t.pos decorators)
          (accept TokenType.async (λ t. async_rest g r t.pos decorators)
            (do
              t ← current
              report t.pos Code.syntax_error Message.expected_definition
              skip_all
              return no_stmt)))

  -- The first decorator, whose `@` is consumed, and the rest of `parseDecorated`.
  unfoldable pub decorated : Action Stmt
  decorated = do
    x ← g.expression
    expect_line_end
    decorators ← loop decorator_turn (x ∷ [])
    decorated_rest decorators

  -- A clause without its statement, which is reported and skipped.
  unfoldable pub orphan : Code → (TokenType → Message) → Action (List Stmt)
  orphan code msg = do t ← current; report t.pos code (msg t.type); skip_all; return []

  -- A single node of a line.
  abbrev one : Action Stmt → Action (List Stmt)
  one m = do s ← m; return (s ∷ [])

  -- `parseStatement`.
  unfoldable pub statement : Action (List Stmt)
  statement =
      accept TokenType.if_word (λ t. one (if_rest g r t.pos))
        (accept TokenType.while (λ t. one (while_rest g r t.pos))
          (accept TokenType.for (λ t. one (for_rest g r t.pos false))
            (accept TokenType.try (λ t. one (try_rest g r t.pos))
              (accept TokenType.with (λ t. one (with_rest g r t.pos false))
                (accept TokenType.def (λ t. one (function_rest g r t.pos false []))
                  (accept TokenType.class (λ t. one (class_rest g r t.pos []))
                    (accept TokenType.at (λ _. one decorated)
                      (accept TokenType.async (λ t. one (async_rest g r t.pos []))
                        (choose (λ s. at TokenType.elif s || at TokenType.else_word s)
                          (orphan Code.syntax_error Message.without_if)
                          (choose (at TokenType.except)
                            (orphan Code.unsupported_feature λ _. Message.except_unsupported)
                            (choose (at TokenType.finally)
                              (orphan Code.unsupported_feature λ _. Message.finally_unsupported)
                              (accept_name (λ s. is_word (codes "match") s && is_match_header s)
                                (λ t. one (match_rest t.pos)) (simple_line g)))))))))))))

  -- The loop of `parseModule`. At an INDENT, which is consumed already, `skipBlock` goes on at depth 1.
  unfoldable pub module_turn : List Stmt → Action (Turn (List Stmt) (List Stmt))
  module_turn body = choose (at TokenType.eof) (return (over body)) (
      accept TokenType.newline (λ _. return (again body))
        (accept TokenType.indent
          (λ t. do
            report t.pos Code.syntax_error Message.unexpected_indent
            skip_nested 1
            return (again body))
          (do ss ← r.statement; return (again (body ++ ss)))))

  unfoldable pub parse_module : Action (List Stmt)
  parse_module = loop module_turn []
