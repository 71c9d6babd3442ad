-- ===== src/Compiler/Flow/Paths.antt =====
-- The ways through a block, for whatever values: a condition may go either way, and an expression
-- may raise. `outcome` is how the block is left; `falls` goes on behind it.
use minipy.Base.{Bool, true, false, ◌≡◌, ◌≢◌, ◌||◌, List, Bytes}
use minipy.Token.{Pos}
use minipy.Parser.Ast.{Expr}
use minipy.Parser.Ast.Stmts.{Stmt, Stmts, Handlers, Cases, Pattern, Patterns, WithItem}
use Expr.{nil}
use Pattern.{wildcard, capture, as_pattern, or_pattern}
use Patterns.{no_pattern, pattern}
use Stmt.{
  return_stmt, raise_stmt, if_stmt, while_stmt, for_stmt, match_stmt, try_stmt, with_stmt,
  break_stmt, continue_stmt,
}
use Stmts.{end_stmts, stmt}
use Handlers.{handler}
use Cases.{no_case, case}

pub data Outcome : Type 0 where
  falls returns raises breaks continues : Outcome

-- A pattern that matches every subject.
unfoldable mutual
  pub matches_all : Pattern → Bool
  matches_all (wildcard _) = true
  matches_all (capture _ _) = true
  matches_all (as_pattern _ p _) = matches_all p
  matches_all (or_pattern _ ps) = some_matches_all ps
  matches_all _ = false

  pub some_matches_all : Patterns → Bool
  some_matches_all no_pattern = false
  some_matches_all (pattern p ps) = matches_all p || some_matches_all ps

-- An arm that may be passed over: it has a guard, or its pattern may fail.
pub data Refutable : Pattern → Expr → Type 0 where
  guarded : {p : Pattern} {e : Expr} → e ≢ nil → Refutable p e
  unmatched : {p : Pattern} {e : Expr} → matches_all p ≡ false → Refutable p e

-- A statement that does nothing to the flow but go on or raise.
abbrev pub is_simple : Stmt → Bool
is_simple (return_stmt _ _) = false
is_simple (raise_stmt _ _ _) = false
is_simple (if_stmt _ _ _ _) = false
is_simple (while_stmt _ _ _ _) = false
is_simple (for_stmt _ _ _ _ _ _) = false
is_simple (match_stmt _ _ _) = false
is_simple (try_stmt _ _ _ _ _) = false
is_simple (with_stmt _ _ _ _) = false
is_simple (break_stmt _) = false
is_simple (continue_stmt _) = false
is_simple _ = true

-- How a loop goes on to its next turn.
pub data Resumes : Outcome → Type 0 where
  fell : Resumes Outcome.falls
  continued : Resumes Outcome.continues

-- How a loop is left from inside its body, apart from a break.
pub data Leaves : Outcome → Type 0 where
  returned : Leaves Outcome.returns
  raised : Leaves Outcome.raises

mutual
  -- A block.
  pub data Runs : Stmts → Outcome → Type 0 where
    ended : Runs end_stmts Outcome.falls
    onward :
        {s : Stmt} {ss : Stmts} {o : Outcome}
        → Acts s Outcome.falls
        → Runs ss o
        → Runs (stmt s ss) o
    left : {s : Stmt} {ss : Stmts} {o : Outcome} → Acts s o → o ≢ Outcome.falls → Runs (stmt s ss) o

  -- A statement. A conditional or a loop without an else has an empty one, and a try statement
  -- without a finally an empty one.
  pub data Acts : Stmt → Outcome → Type 0 where
    simple : {s : Stmt} → is_simple s ≡ true → Acts s Outcome.falls
    failed : {s : Stmt} → Acts s Outcome.raises
    return_at : {p : Pos} {e : Expr} → Acts (return_stmt p e) Outcome.returns
    break_at : {p : Pos} → Acts (break_stmt p) Outcome.breaks
    continue_at : {p : Pos} → Acts (continue_stmt p) Outcome.continues
    if_true :
        {p : Pos} {c : Expr} {body orelse : Stmts} {o : Outcome}
        → Runs body o
        → Acts (if_stmt p c body orelse) o
    if_false :
        {p : Pos} {c : Expr} {body orelse : Stmts} {o : Outcome}
        → Runs orelse o
        → Acts (if_stmt p c body orelse) o
    while_loop :
        {p : Pos} {c : Expr} {body orelse : Stmts} {o : Outcome}
        → Loops body orelse o
        → Acts (while_stmt p c body orelse) o
    for_loop :
        {p : Pos} {t e : Expr} {body orelse : Stmts} {async : Bool} {o : Outcome}
        → Loops body orelse o
        → Acts (for_stmt p t e body orelse async) o
    match_arm :
        {p : Pos} {e : Expr} {cases : Cases} {o : Outcome}
        → Selects cases o
        → Acts (match_stmt p e cases) o
    try_kept :
        {p : Pos} {body orelse final : Stmts} {handlers : Handlers} {o : Outcome}
        → Tries body handlers orelse o
        → Runs final Outcome.falls
        → Acts (try_stmt p body handlers orelse final) o
    try_overridden :
        {p : Pos} {body orelse final : Stmts} {handlers : Handlers} {o u : Outcome}
        → Tries body handlers orelse u
        → Runs final o
        → o ≢ Outcome.falls
        → Acts (try_stmt p body handlers orelse final) o
    with_body :
        {p : Pos} {items : List WithItem} {body : Stmts} {async : Bool} {o : Outcome}
        → Runs body o
        → Acts (with_stmt p items body async) o

  -- A loop with that body and that else.
  pub data Loops : Stmts → Stmts → Outcome → Type 0 where
    done : {body orelse : Stmts} {o : Outcome} → Runs orelse o → Loops body orelse o
    again :
        {body orelse : Stmts} {o u : Outcome}
        → Runs body u
        → Resumes u
        → Loops body orelse o
        → Loops body orelse o
    broken : {body orelse : Stmts} → Runs body Outcome.breaks → Loops body orelse Outcome.falls
    escaped : {body orelse : Stmts} {o : Outcome} → Runs body o → Leaves o → Loops body orelse o

  -- The arms of a match statement that are still to be tried.
  pub data Selects : Cases → Outcome → Type 0 where
    exhausted : Selects no_case Outcome.falls
    taken :
        {q : Pos} {p : Pattern} {g : Expr} {body : Stmts} {cs : Cases} {o : Outcome}
        → Runs body o
        → Selects (case q p g body cs) o
    passed :
        {q : Pos} {p : Pattern} {g : Expr} {body : Stmts} {cs : Cases} {o : Outcome}
        → Refutable p g
        → Selects cs o
        → Selects (case q p g body cs) o

  -- A try statement in front of its finally.
  pub data Tries : Stmts → Handlers → Stmts → Outcome → Type 0 where
    completed :
        {body orelse : Stmts} {handlers : Handlers} {o : Outcome}
        → Runs body Outcome.falls
        → Runs orelse o
        → Tries body handlers orelse o
    stopped :
        {body orelse : Stmts} {handlers : Handlers} {o : Outcome}
        → Runs body o
        → o ≢ Outcome.falls
        → Tries body handlers orelse o
    handled :
        {body orelse : Stmts} {handlers : Handlers} {o : Outcome}
        → Runs body Outcome.raises
        → Catches handlers o
        → Tries body handlers orelse o

  -- A handler that takes the exception.
  pub data Catches : Handlers → Outcome → Type 0 where
    caught :
        {p : Pos} {e : Expr} {n : Bytes} {body : Stmts} {star : Bool} {hs : Handlers} {o : Outcome}
        → Runs body o
        → Catches (handler p e n body star hs) o
    missed :
        {p : Pos} {e : Expr} {n : Bytes} {body : Stmts} {star : Bool} {hs : Handlers} {o : Outcome}
        → Catches hs o
        → Catches (handler p e n body star hs) o
