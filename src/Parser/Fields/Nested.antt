-- ===== src/Parser/Fields/Nested.antt =====
-- `parseFStringExpr`, which calls the parser on the expression of a field, and the parser whose
-- f-strings are read with it.
use minipy.Base.{
  ℕ, suc, ◌+◌, ◌*◌, ◌≡◌, refl, List, [], ◌∷◌, ◌++◌, Option, none, some, Bytes, length, arith,
}
use minipy.Token.Errors.{Error}
use minipy.Lexer.Utf8.{Library}
use minipy.Lexer.Run.{lex}
use minipy.Parser.Ast.{Expr}
use minipy.Parser.Ast.Stmts.{Stmt, expr_stmt}
use minipy.Parser.Grammar.{Env}
use minipy.Parser.Grammar.Good.{IsComplete}
use minipy.Parser.Program.{parse}
use minipy.Parser.Program.Agree.{parse_fuel}
use minipy.Parser.Fields.Parts.{parts, parts-returns}

-- `strings.TrimSpace`, and the runes that a reader finds in some bytes.
pub record Text : Type 0 where
  pub trim : Bytes → Bytes
  pub runes : Bytes → List ℕ

-- One expression and no error.
abbrev single_expr : List Stmt → Option (List Error) → Option Expr
single_expr (expr_stmt _ x ∷ []) none = some x
single_expr _ _ = none

abbrev expr_of : Option (List Stmt × Option (List Error)) → Option (Option Expr)
expr_of none = none
expr_of (some (body, errs)) = some (single_expr body errs)

-- The fuel that is enough for a source.
abbrev pub enough : Library → List ℕ → ℕ
enough u input = 2 * length (lex u input).0 + 2

module _ (u : Library) (text : Text) (env : Env) where
  unfoldable pub fstring_expr : Bytes → Option (Option Expr)
  fstring_expr source =
      let input = text.runes (source ++ b'\n' ∷ []) in expr_of (parse u env (enough u input) input)

  -- The environment whose f-strings are read, with `env` for the f-strings in their fields.
  unfoldable pub nested : Env
  unfolding parts fstring_expr
  nested = record env {
    fstring_parts = λ source p. parts text.trim fstring_expr p (suc (length source)) source [];
  }

  -- Where the parts of the f-strings in the fields of f-strings are found, those of the f-strings
  -- themselves are, whatever their text, by `parseFStringParts` with `parseFStringExpr`.
  pub nested-IsComplete : IsComplete env → IsComplete nested
  unfolding nested
  nested-IsComplete complete source p =
      parts-returns text.trim fstring_expr returns p (suc (length source)) source [] (omega arith)
    where
      found :
          (o : Option (List Stmt × Option (List Error))) (r : List Stmt × Option (List Error))
          → o ≡ some r
          → (x : Option Expr) × (expr_of o ≡ some x)
      found o (body, errs) e = rw e (_, refl)

      returns : (source : Bytes) → (r : Option Expr) × (fstring_expr source ≡ some r)
      returns source =
          let input = text.runes (source ++ b'\n' ∷ []) in
          let (r, e, f) =
            parse_fuel env complete u input (enough u input) (enough u input) (omega arith)
              (omega arith) in
          unfold fstring_expr in (found (parse u env (enough u input) input) r e)
