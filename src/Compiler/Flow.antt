-- ===== src/Compiler/Flow.antt =====
-- Whether a block always leaves by a return or a raise: `blockReturns` and `blockTerminates` with
-- their helpers, compiler/check_decl.go. A loop over the statements that returns true at the first
-- statement of a kind is the disjunction over the statements.
pub mod Paths
pub mod Unnested
pub mod Sound
use minipy.Base.{Bool, true, false, ◌&&◌, ◌||◌}
use minipy.Parser.Ast.{Expr}
use minipy.Parser.Ast.Stmts.{Stmt, Stmts, Handlers, Cases, Pattern}
use Expr.{nil}
use Pattern.{wildcard, capture}
use Stmt.{return_stmt, raise_stmt, if_stmt, match_stmt, try_stmt, with_stmt}
use Stmts.{end_stmts, stmt}
use Handlers.{no_handler, handler}
use Cases.{no_case, case}

-- `len(block) > 0`, and `len(n.Handlers) > 0`.
abbrev pub has_statements : Stmts → Bool
has_statements end_stmts = false
has_statements (stmt _ _) = true

abbrev pub has_handlers : Handlers → Bool
has_handlers no_handler = false
has_handlers (handler _ _ _ _ _ _) = true

-- An arm that always matches: it has no guard, and a wildcard or a capture.
unfoldable pub catch_all : Pattern → Expr → Bool
catch_all (wildcard _) nil = true
catch_all (capture _ _) nil = true
catch_all _ _ = false

-- `matchExhaustive`.
unfoldable pub match_exhaustive : Cases → Bool
unfolding catch_all
match_exhaustive no_case = false
match_exhaustive (case _ p guard _ cs) = catch_all p guard || match_exhaustive cs

-- The tests on the handlers of a try statement: `returns` and `terminates` of its body, and
-- whether all its handlers return.
unfoldable pub try_returns : Handlers → Bool → Bool → Bool → Bool
try_returns no_handler returns terminates handled = returns
try_returns (handler _ _ _ _ _ _) returns terminates handled = terminates && handled

-- `blockReturns`, `blockTerminates`, and `allCasesReturn` at each of them.
unfoldable mutual
  unfolding try_returns match_exhaustive

  pub block_returns : Stmts → Bool
  block_returns end_stmts = false
  block_returns (stmt s ss) = statement_returns s || block_returns ss

  pub statement_returns : Stmt → Bool
  statement_returns (return_stmt _ _) = true
  statement_returns (raise_stmt _ _ _) = true
  statement_returns (if_stmt _ _ body orelse) =
      has_statements orelse && block_returns body && block_returns orelse
  statement_returns (match_stmt _ _ cases) = match_exhaustive cases && cases_return cases
  statement_returns (try_stmt _ body handlers _ final) =
      block_returns final
      || try_returns handlers (block_returns body) (block_terminates body)
          (handlers_return handlers)
  statement_returns (with_stmt _ _ body _) = block_returns body
  statement_returns _ = false

  pub cases_return : Cases → Bool
  cases_return no_case = true
  cases_return (case _ _ _ body cs) = block_returns body && cases_return cs

  pub handlers_return : Handlers → Bool
  handlers_return no_handler = true
  handlers_return (handler _ _ _ body _ hs) = block_returns body && handlers_return hs

  pub block_terminates : Stmts → Bool
  block_terminates end_stmts = false
  block_terminates (stmt s ss) = statement_terminates s || block_terminates ss

  pub statement_terminates : Stmt → Bool
  statement_terminates (return_stmt _ _) = true
  statement_terminates (raise_stmt _ _ _) = true
  statement_terminates (if_stmt _ _ body orelse) =
      has_statements orelse && block_terminates body && block_terminates orelse
  statement_terminates (match_stmt _ _ cases) = match_exhaustive cases && cases_terminate cases
  statement_terminates (try_stmt _ body _ _ final) = block_returns final || block_returns body
  statement_terminates (with_stmt _ _ body _) = block_terminates body
  statement_terminates _ = false

  pub cases_terminate : Cases → Bool
  cases_terminate no_case = true
  cases_terminate (case _ _ _ body cs) = block_terminates body && cases_terminate cs
