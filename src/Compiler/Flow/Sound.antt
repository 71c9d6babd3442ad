-- ===== src/Compiler/Flow/Sound.antt =====
-- `blockReturns` against the ways through a block, for blocks without try statements with handlers in
-- the body of one another (`unnested`).
use minipy.Base.{Bool, true, false, not, ◌≡◌, refl, ◌&&◌, ◌||◌, Bool-cases, and_true, inl, inr}
use minipy.Parser.Ast.{Expr}
use minipy.Parser.Ast.Stmts.{Stmt, Stmts, Handlers, Cases, Pattern}
use minipy.Compiler.Flow.{
  has_statements, has_handlers, catch_all, match_exhaustive, try_returns, block_returns,
  statement_returns, cases_return, handlers_return, block_terminates, statement_terminates,
  cases_terminate,
}
use minipy.Compiler.Flow.Paths.{
  Outcome, matches_all, Refutable, Runs, Acts, Selects, Tries, Catches,
}
use minipy.Compiler.Flow.Unnested.{unnested, unnested_statement, unnested_cases, unnested_handlers}
use Expr.{nil}
use Pattern.{wildcard, capture}
use Stmt.{return_stmt, raise_stmt, if_stmt, match_stmt, try_stmt, with_stmt}
use Stmts.{end_stmts, stmt}
use Handlers.{no_handler, handler}
use Cases.{no_case, case}
use Refutable.{guarded, unmatched}
use Runs.{onward, left}
use Acts.{simple, if_true, if_false, match_arm, try_kept, try_overridden, with_body}
use Selects.{taken, passed}
use Tries.{completed, stopped, handled}
use Catches.{caught, missed}

or_true : (b : Bool) → (b || true) ≡ true
or_true true = refl
or_true false = refl

catch_all-taken : (p : Pattern) (g : Expr) → catch_all p g ≡ true → ¬ Refutable p g
unfolding catch_all matches_all
catch_all-taken (wildcard _) nil h (guarded g) = g refl
catch_all-taken (wildcard _) nil h (unmatched e) = cc
catch_all-taken (capture _ _) nil h (guarded g) = g refl
catch_all-taken (capture _ _) nil h (unmatched e) = cc
catch_all-taken _ _ h r = cc

mutual
  unfolding unnested block_returns match_exhaustive try_returns

  block_returns_sound :
      (i : Bool) (ss : Stmts)
      → unnested i ss ≡ true
      → block_returns ss ≡ true
      → ¬ Runs ss Outcome.falls
  block_returns_sound i end_stmts f h r = cc
  block_returns_sound i (stmt s ss) f h (left a ne) = ne refl
  block_returns_sound i (stmt s ss) f h (onward a r) =
      let (fs, fss) = and_true (unnested_statement i s) (unnested i ss) f in
      elim (Bool-cases (statement_returns s)) [
        | inl e ↦ statement_returns_sound i s fs e a
        | inr e ↦ block_returns_sound i ss fss (rw e at h) r
      ]

  statement_returns_sound :
      (i : Bool) (s : Stmt)
      → unnested_statement i s ≡ true
      → statement_returns s ≡ true
      → ¬ Acts s Outcome.falls
  statement_returns_sound i (return_stmt _ _) f h (simple e) = cc
  statement_returns_sound i (raise_stmt _ _ _) f h (simple e) = cc
  statement_returns_sound i (if_stmt _ _ body orelse) f h (simple e) = cc
  statement_returns_sound i (if_stmt _ _ body orelse) f h (if_true r) =
      let (fb, _) = and_true (unnested i body) (unnested i orelse) f in
      let (hb, ho) =
        and_true (has_statements orelse && block_returns body) (block_returns orelse) h in
      block_returns_sound i body fb (and_true (has_statements orelse) (block_returns body) hb).1 r
  statement_returns_sound i (if_stmt _ _ body orelse) f h (if_false r) =
      let (_, fo) = and_true (unnested i body) (unnested i orelse) f in
      let (hb, ho) =
        and_true (has_statements orelse && block_returns body) (block_returns orelse) h in
      block_returns_sound i orelse fo ho r
  statement_returns_sound i (match_stmt _ _ cases) f h (simple e) = cc
  statement_returns_sound i (match_stmt _ _ cases) f h (match_arm a) =
      let (all, each) = and_true (match_exhaustive cases) (cases_return cases) h in
      cases_return_sound i cases f all each a
  statement_returns_sound i (try_stmt _ body handlers orelse final) f h (simple e) = cc
  statement_returns_sound i (try_stmt _ body handlers orelse final) f h (try_overridden t r ne) =
      ne refl
  statement_returns_sound i (try_stmt _ body handlers orelse final) f h (try_kept t r) =
      let (f1, ff) = and_true _ (unnested i final) f in
      let (f2, fh) = and_true _ (unnested_handlers i handlers) f1 in
      let (_, fb) =
        and_true (not (i && has_handlers handlers)) (unnested (i || has_handlers handlers) body)
          f2 in
      elim (Bool-cases (block_returns final)) [
        | inl e ↦ block_returns_sound i final ff e r
        | inr e ↦ try_returns_sound i body handlers orelse fb fh (rw e at h) t
      ]
  statement_returns_sound i (with_stmt _ _ body _) f h (simple e) = cc
  statement_returns_sound i (with_stmt _ _ body _) f h (with_body r) =
      block_returns_sound i body f h r
  statement_returns_sound i _ f h a = cc

  cases_return_sound :
      (i : Bool) (cs : Cases)
      → unnested_cases i cs ≡ true
      → match_exhaustive cs ≡ true
      → cases_return cs ≡ true
      → ¬ Selects cs Outcome.falls
  cases_return_sound i no_case f all h s = cc
  cases_return_sound i (case _ p g body cs) f all h (taken r) =
      block_returns_sound i body (and_true (unnested i body) (unnested_cases i cs) f).0
        (and_true (block_returns body) (cases_return cs) h).0 r
  cases_return_sound i (case _ p g body cs) f all h (passed may s) =
      elim (Bool-cases (catch_all p g)) [
        | inl e ↦ catch_all-taken p g e may
        | inr e ↦
            cases_return_sound i cs (and_true (unnested i body) (unnested_cases i cs) f).1
              (rw e at all) (and_true (block_returns body) (cases_return cs) h).1 s
      ]

  handlers_return_sound :
      (i : Bool) (hs : Handlers)
      → unnested_handlers i hs ≡ true
      → handlers_return hs ≡ true
      → ¬ Catches hs Outcome.falls
  handlers_return_sound i no_handler f h c = elim c [ ]
  handlers_return_sound i (handler _ _ _ body _ hs) f h (caught r) =
      block_returns_sound i body (and_true (unnested i body) (unnested_handlers i hs) f).0
        (and_true (block_returns body) (handlers_return hs) h).0 r
  handlers_return_sound i (handler _ _ _ body _ hs) f h (missed c) =
      handlers_return_sound i hs (and_true (unnested i body) (unnested_handlers i hs) f).1
        (and_true (block_returns body) (handlers_return hs) h).1 c

  try_returns_sound :
      (i : Bool) (body : Stmts) (hs : Handlers) (orelse : Stmts)
      → unnested (i || has_handlers hs) body ≡ true
      → unnested_handlers i hs ≡ true
      → try_returns hs (block_returns body) (block_terminates body) (handlers_return hs) ≡ true
      → ¬ Tries body hs orelse Outcome.falls
  try_returns_sound i body hs orelse f g h (stopped r ne) = ne refl
  try_returns_sound i body no_handler orelse f g h (completed r o) =
      block_returns_sound (i || false) body f h r
  try_returns_sound i body (handler p e n b s hs) orelse f g h (completed r o) =
      block_terminates_sound body (rw (or_true i) at f) (and_true (block_terminates body) _ h).0 r
  try_returns_sound i body no_handler orelse f g h (handled r c) = elim c [ ]
  try_returns_sound i body (handler p e n b s hs) orelse f g h (handled r c) =
      handlers_return_sound i (handler p e n b s hs) g (and_true (block_terminates body) _ h).1 c

  block_terminates_sound :
      (ss : Stmts) → unnested true ss ≡ true → block_terminates ss ≡ true → ¬ Runs ss Outcome.falls
  block_terminates_sound end_stmts f h r = cc
  block_terminates_sound (stmt s ss) f h (left a ne) = ne refl
  block_terminates_sound (stmt s ss) f h (onward a r) =
      let (fs, fss) = and_true (unnested_statement true s) (unnested true ss) f in
      elim (Bool-cases (statement_terminates s)) [
        | inl e ↦ statement_terminates_sound s fs e a
        | inr e ↦ block_terminates_sound ss fss (rw e at h) r
      ]

  statement_terminates_sound :
      (s : Stmt)
      → unnested_statement true s ≡ true
      → statement_terminates s ≡ true
      → ¬ Acts s Outcome.falls
  statement_terminates_sound (return_stmt _ _) f h (simple e) = cc
  statement_terminates_sound (raise_stmt _ _ _) f h (simple e) = cc
  statement_terminates_sound (if_stmt _ _ body orelse) f h (simple e) = cc
  statement_terminates_sound (if_stmt _ _ body orelse) f h (if_true r) =
      let (fb, _) = and_true (unnested true body) (unnested true orelse) f in
      let (hb, ho) =
        and_true (has_statements orelse && block_terminates body) (block_terminates orelse) h in
      block_terminates_sound body fb (and_true (has_statements orelse) (block_terminates body) hb).1
        r
  statement_terminates_sound (if_stmt _ _ body orelse) f h (if_false r) =
      let (_, fo) = and_true (unnested true body) (unnested true orelse) f in
      let (hb, ho) =
        and_true (has_statements orelse && block_terminates body) (block_terminates orelse) h in
      block_terminates_sound orelse fo ho r
  statement_terminates_sound (match_stmt _ _ cases) f h (simple e) = cc
  statement_terminates_sound (match_stmt _ _ cases) f h (match_arm a) =
      let (all, each) = and_true (match_exhaustive cases) (cases_terminate cases) h in
      cases_terminate_sound cases f all each a
  statement_terminates_sound (try_stmt _ body handlers orelse final) f h (simple e) = cc
  statement_terminates_sound (try_stmt _ body handlers orelse final) f h (try_overridden t r ne) =
      ne refl
  statement_terminates_sound (try_stmt _ body (handler _ _ _ _ _ _) orelse final) f h
        (try_kept t r) =
      cc
  statement_terminates_sound (try_stmt _ body no_handler orelse final) f h (try_kept t r) =
      let (f1, ff) = and_true (unnested true body && true) (unnested true final) f in
      let (fb, _) = and_true (unnested true body) true f1 in
      elim (Bool-cases (block_returns final)) [
        | inl e ↦ block_returns_sound true final ff e r
        | inr e ↦ try_returns_sound true body no_handler orelse fb refl (rw e at h) t
      ]
  statement_terminates_sound (with_stmt _ _ body _) f h (simple e) = cc
  statement_terminates_sound (with_stmt _ _ body _) f h (with_body r) =
      block_terminates_sound body f h r
  statement_terminates_sound _ f h a = cc

  cases_terminate_sound :
      (cs : Cases)
      → unnested_cases true cs ≡ true
      → match_exhaustive cs ≡ true
      → cases_terminate cs ≡ true
      → ¬ Selects cs Outcome.falls
  cases_terminate_sound no_case f all h s = cc
  cases_terminate_sound (case _ p g body cs) f all h (taken r) =
      block_terminates_sound body (and_true (unnested true body) (unnested_cases true cs) f).0
        (and_true (block_terminates body) (cases_terminate cs) h).0 r
  cases_terminate_sound (case _ p g body cs) f all h (passed may s) =
      elim (Bool-cases (catch_all p g)) [
        | inl e ↦ catch_all-taken p g e may
        | inr e ↦
            cases_terminate_sound cs (and_true (unnested true body) (unnested_cases true cs) f).1
              (rw e at all) (and_true (block_terminates body) (cases_terminate cs) h).1 s
      ]

-- Whatever the conditions and wherever exceptions arise, no way through a block that `blockReturns`
-- accepts falls off its end, where no try statement with handlers stands in the body of another.
pub block_returns-leaves :
    (ss : Stmts) → unnested false ss ≡ true → block_returns ss ≡ true → ¬ Runs ss Outcome.falls
block_returns-leaves ss = block_returns_sound false ss
