-- ===== src/Parser/Suite.antt =====
-- The recursive calls of statements and patterns, which stand behind a token, and helpers that the
-- statements share.
pub mod Agree
use minipy.Base.{ℕ, Bool, ◌&&◌, ◌||◌, List, [], ◌∷◌, ◌++◌, Bytes, bytes_eq}
use minipy.Token.{TokenType, Pos, Token}
use minipy.Token.Errors.{Code, Message}
use minipy.Parser.Ast
use minipy.Parser.Ast.{Expr, nil, Keyword, of_exprs}
use minipy.Parser.Ast.Stmts.{Stmt, Pattern}
use minipy.Parser.State.{
  Parser, Action, return, ◌>>=◌, ◌>>◌, accept, choose, at, next_at, peek, at_stmt_end, current,
  report, expect, skip, Turn, again, over, loop,
}
use minipy.Parser.Grammar.{Grammar}

pub record Suite : Type 0 where
  pub statement : Action (List Stmt)
  pub if_rest : Pos → Action Stmt
  pub or_pattern : Action Pattern

-- A name that a test on the struct selects.
unfoldable pub accept_name :
    {A : Type 0} → (Parser → Bool) → (Token → Action A) → Action A → Action A
accept_name test taken other =
    choose (λ s. at TokenType.name s && test s) (accept TokenType.name taken other) other

-- Whether the current token has the text of a soft keyword.
unfoldable pub is_word : Bytes → Parser → Bool
unfolding peek
is_word text s = bytes_eq (peek 0 s).literal text

-- `name` with `.NAME` behind it, as `parseDottedName` and `parseImportFrom` read it.
abbrev dot : Bytes
dot = b'.' ∷ []

unfoldable pub dotted_turn : Bytes → Action (Turn Bytes Bytes)
dotted_turn text =
    choose (next_at TokenType.name)
      (accept TokenType.dot
        (λ _. do t ← expect TokenType.name; return (again (text ++ dot ++ t.literal)))
        (return (over text)))
      (return (over text))

module _ (g : Grammar) where
  -- `parseOptionalExpression`.
  unfoldable pub optional : Action Expr → Action Expr
  optional direct = choose at_stmt_end (return nil) direct

  -- The loop of `parseExpressionList` and of `parseMatchSubject`, and the two with their test for the
  -- end behind a comma.
  unfoldable pub element_turn : (Parser → Bool) → List Expr → Action (Turn (List Expr) (List Expr))
  element_turn stop elems =
      accept TokenType.comma
        (λ _.
          choose stop (return (over elems)) do x ← g.expression; return (again (elems ++ x ∷ [])))
        (return (over elems))

  unfoldable pub elements : (Parser → Bool) → Action Expr
  elements stop = do
    t ← current
    first ← g.expression
    choose (at TokenType.comma)
        (do
          elems ← loop (element_turn stop) (first ∷ [])
          return (Ast.tuple_lit t.pos (of_exprs elems)))
        (return first)

  abbrev pub expression_list : Action Expr
  expression_list = elements at_stmt_end

  -- A keyword argument, behind its name.
  unfoldable pub keyword_value : Token → Action Keyword
  keyword_value key = do
    skip
    x ← g.expression
    return (record { pos = key.pos; name = key.literal; value = x })
