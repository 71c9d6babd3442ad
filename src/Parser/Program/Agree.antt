-- ===== src/Parser/Program/Agree.antt =====
-- `Parse`, `ParseType` and `parseStatement` with enough fuel.
use minipy.Base.{
  ℕ, zero, suc, ◌+◌, ◌*◌, ◌<◌, ◌≤◌, ◌≡◌, refl, List, length, Option, some, arith, false,
}
use minipy.Token.Errors.{Error}
use minipy.Lexer.Utf8.{Library}
use minipy.Lexer.Run.{lex}
use minipy.Parser.Ast.Stmts.{Stmt}
use minipy.Parser.State.{Parser, Action}
use minipy.Parser.State.Agree.{
  Agree, Agree-bind, Agree-return, Agree-choose, Agree-complain, mid, low, Ends, ends,
}
use minipy.Parser.State.Rounds.{Agree-loop, at_end, Eats, Eat}
use minipy.Parser.Grammar.{Env}
use minipy.Parser.Grammar.Good.{IsComplete}
use minipy.Parser.Knot.{grammar}
use minipy.Parser.Knot.Agree.{good, no_fuel, next_low}
use minipy.Parser.Suite.Agree.{Round-comma, IsSuite}
use minipy.Parser.Patterns.Agree.{or_pattern-Agree}
use minipy.Parser.Blocks.Agree.{if_rest-Agree}
use minipy.Parser.Statements.Agree.{statement-Eat, parse_module-Agree}
use minipy.Parser.Program
use minipy.Parser.Program.{suite, program, parse, start}

eat_next : {A : Type 0} {n : ℕ} {m m' : Action A} → Eat mid n m m' → Eat low (suc n) m m'
eat_next t = record { agree = next_low t.agree; run = λ s f h. t.run s f (omega (arith, h)) }

no_fuel_eat : {A : Type 0} {m m' : Action A} → Eat low 0 m m'
no_fuel_eat = record { agree = no_fuel; run = λ s f h. absurd (omega (arith, h)) }

module _ (env : Env) (complete : IsComplete env) where
  suites : (n m : ℕ) → n ≤ m → IsSuite n (suite env n) (suite env m)
  unfolding suite
  suites zero m h = record { statement = no_fuel_eat; if_rest = λ _. no_fuel; or_pattern = no_fuel }
  suites (suc n) zero h = absurd (omega (arith, h))
  suites (suc n) (suc m) h =
      let k : n ≤ m = omega (arith, h) in
      let from = good env complete n m k in
      let rest = suites n m k in
      record {
        statement = eat_next (
            statement-Eat env complete (grammar env n) (grammar env m) (suite env n) (suite env m) n
              from rest);
        if_rest = λ p. next_low (
            if_rest-Agree (grammar env n) (grammar env m) (suite env n) (suite env m) n from rest
              from.direct_expression p);
        or_pattern = next_low (
            or_pattern-Agree env complete (grammar env n) (grammar env m) (suite env n)
              (suite env m) n from rest);
      }

  -- Where the next token is not an ENDMARKER and the parts of every f-string are found, `parseStatement`
  -- returns within a fuel of more than twice the number of tokens left and one, the same with more
  -- fuel, and takes at least one token off the front.
  pub statement-Eats :
      (n m : ℕ) (s : Parser)
      → at_end s ≡ false
      → 2 * length s.rest + 1 < n
      → n ≤ m
      → Eats s ((suite env n).statement s) ((suite env m).statement s)
  statement-Eats n m s e h k = (suites n m k).statement.run s e (omega (arith, h))

  pub program_agrees :
      (n m : ℕ) (s : Parser)
      → 2 * length s.rest + 1 < n
      → n ≤ m
      → Ends s (program env n s) (program env m s)
  program_agrees n m s h k =
      (parse_module-Agree env complete (grammar env n) (grammar env m) (suite env n) (suite env m) n
          (good env complete n m k) (suites n m k)).run
        s (omega (arith, h))

  -- `Parse` returns for every source, within a fuel of more than twice the number of its tokens and one
  -- and where the parts of every f-string are found; with any larger fuel it returns the same.
  pub parse_fuel :
      (u : Library) (input : List ℕ) (n m : ℕ)
      → 2 * length (lex u input).0 + 1 < n
      → n ≤ m
      → (r : List Stmt × Option (List Error)) × (parse u env n input ≡ some r)
        × (parse u env m input ≡ some r)
  unfolding parse start
  parse_fuel u input n m h k = go _ _ (program_agrees n m (start (lex u input).0) h k)
    where
      go :
          (o o' : Option (List Stmt × Parser))
          → Ends (start (lex u input).0) o o'
          → (r : List Stmt × Option (List Error)) × (Program.outcome (lex u input).1 o ≡ some r)
            × (Program.outcome (lex u input).1 o' ≡ some r)
      go _ _ (ends body s f) = (_, refl, refl)

  -- Within a fuel of more than twice the number of tokens left, and where the parts of every f-string are
  -- found, `ParseType` on the tokens of a source returns, the same with more fuel; it takes tokens off the
  -- front alone, and keeps the errors that there are in front of those it adds.
  pub standalone_agrees :
      (n m : ℕ) (s : Parser)
      → 2 * length s.rest < n
      → n ≤ m
      → Ends s (Program.standalone (grammar env n) s) (Program.standalone (grammar env m) s)
  unfolding Program.standalone Program.newline_turn
  standalone_agrees n m s h k = whole.run s h
    where
      whole : Agree mid n (Program.standalone (grammar env n)) (Program.standalone (grammar env m))
      whole = Agree-bind (good env complete n m k).direct_annotation λ x.
          Agree-bind (Agree-loop (λ _. Round-comma _ refl tt tt) tt)
            λ _. Agree-choose _ (Agree-return x) (Agree-complain _ _ _ λ _. Agree-return x)
