-- ===== src/Parser/Program.antt =====
-- The statements tied into a recursion, and `Parse` and `ParseType` over the lexer.
pub mod Agree
pub mod Whole
use minipy.Base.{ℕ, zero, suc, List, [], ◌∷◌, ◌++◌, Option, none, some}
use minipy.Token.{TokenType, Pos, Token}
use minipy.Token.Errors
use minipy.Token.Errors.{Error, Code, Message}
use minipy.Lexer.Utf8.{Library}
use minipy.Lexer.Run.{lex}
use minipy.Parser.Ast.{Expr}
use minipy.Parser.Ast.Stmts.{Stmt}
use minipy.Parser.State.{
  Parser, Action, return, ◌>>=◌, ◌>>◌, accept, choose, at, current, report, Turn, again, over, loop,
}
use minipy.Parser.Grammar.{Env, Grammar}
use minipy.Parser.Knot.{grammar, cut_off}
use minipy.Parser.Suite.{Suite}
use minipy.Parser.Patterns.{or_pattern}
use minipy.Parser.Blocks.{if_rest}
use minipy.Parser.Statements.{statement, parse_module}

unfoldable pub suite : Env → ℕ → Suite
suite env zero = record { statement = cut_off; if_rest = λ _. cut_off; or_pattern = cut_off }
suite env (suc n) = record {
  statement = statement env (grammar env n) (suite env n);
  if_rest = if_rest (grammar env n) (suite env n);
  or_pattern = or_pattern env (grammar env n) (suite env n);
}

-- `New`: nothing but the ENDMARKER is behind the last token.
abbrev last_pos : Pos → List Token → Pos
last_pos p [] = p
last_pos p (t ∷ ts) = last_pos t.pos ts

unfoldable pub start : List Token → Parser
start tokens = record {
  rest = tokens;
  end = last_pos (record { line = 1; column = 1 }) tokens;
  errs = [];
}

-- `combinedError`; an error of the lexer is a list of diagnostics, since no reader fails.
unfoldable pub combined_error : Option (List Error) → List Error → Option (List Error)
combined_error none found = Errors.err found
combined_error (some lexical) [] = some lexical
combined_error (some lexical) (e ∷ es) = some (lexical ++ e ∷ es)

abbrev outcome :
    {A : Type 0} → Option (List Error) → Option (A × Parser) → Option (A × Option (List Error))
outcome lexical none = none
outcome lexical (some (a, s)) = some (a, combined_error lexical s.errs)

-- `parseModule` with some fuel.
abbrev pub program : Env → ℕ → Action (List Stmt)
program env fuel = parse_module env (grammar env fuel) (suite env fuel)

-- `Parse`. It reads all tokens, so the errors of the lexer are those of `Lex`.
unfoldable pub parse : Library → Env → ℕ → List ℕ → Option (List Stmt × Option (List Error))
unfolding start
parse u env fuel input =
    let (tokens, lexical) = lex u input in outcome lexical (program env fuel (start tokens))

-- `ParseType` behind the annotation.
unfoldable pub newline_turn : Unit {0} → Action (Turn (Unit {0}) (Unit {0}))
newline_turn _ = accept TokenType.newline (λ _. return (again tt)) (return (over tt))

unfoldable pub standalone : Grammar → Action Expr
standalone g = do
  x ← g.annotation
  loop newline_turn tt
  choose (at TokenType.eof) (return x)
      do t ← current; report t.pos Code.syntax_error (Message.expected_type_end t.type); return x
