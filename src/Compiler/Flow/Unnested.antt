-- ===== src/Compiler/Flow/Unnested.antt =====
-- Blocks whose try statements with handlers are not nested in the body of one another.
use minipy.Base.{Bool, true, not, ◌&&◌, ◌||◌}
use minipy.Parser.Ast.Stmts.{Stmt, Stmts, Handlers, Cases}
use minipy.Compiler.Flow.{has_handlers}
use Stmt.{if_stmt, match_stmt, try_stmt, with_stmt}
use Stmts.{end_stmts, stmt}
use Handlers.{no_handler, handler}
use Cases.{no_case, case}

-- No try statement with handlers stands in the body of another one; `inside` tells whether the
-- block stands in such a body.
unfoldable mutual
  pub unnested : Bool → Stmts → Bool
  unnested inside end_stmts = true
  unnested inside (stmt s ss) = unnested_statement inside s && unnested inside ss

  pub unnested_statement : Bool → Stmt → Bool
  unnested_statement inside (if_stmt _ _ body orelse) =
      unnested inside body && unnested inside orelse
  unnested_statement inside (match_stmt _ _ cases) = unnested_cases inside cases
  unnested_statement inside (try_stmt _ body handlers _ final) =
      not (inside && has_handlers handlers)
      && unnested (inside || has_handlers handlers) body
      && unnested_handlers inside handlers
      && unnested inside final
  unnested_statement inside (with_stmt _ _ body _) = unnested inside body
  unnested_statement inside _ = true

  pub unnested_cases : Bool → Cases → Bool
  unnested_cases inside no_case = true
  unnested_cases inside (case _ _ _ body cs) = unnested inside body && unnested_cases inside cs

  pub unnested_handlers : Bool → Handlers → Bool
  unnested_handlers inside no_handler = true
  unnested_handlers inside (handler _ _ _ body _ hs) =
      unnested inside body && unnested_handlers inside hs
