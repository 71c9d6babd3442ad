-- ===== src/Parser/Statements/Agree.antt =====
-- Statements over grammars and suites that agree.
use minipy.Base.{ℕ, ◌≡◌, refl, List, [], true, false}
use minipy.Token.{TokenType, Pos}
use minipy.Token.Errors.{Code, Message}
use minipy.Parser.Ast.{Expr}
use minipy.Parser.Ast.Stmts.{Stmt, Case}
use minipy.Parser.State.{Parser, Action, at, expect_line_end}
use minipy.Parser.State.Agree.{
  Level, mid, low, Agree, Agree-return, Agree-bind, Agree-accept, Agree-current, Agree-report,
  Agree-complain, Agree-expect, Agree-finish,
}
use minipy.Parser.State.Rounds.{at_end, Eat, Round, Agree-loop, Round-over, Round-accept}
use minipy.Parser.State.Eats.{Eat-choose, Eat-accept, Round-unless, Eat-bind, Eat-then}
use minipy.Parser.State.Skips.{Agree-skip_line, Agree-skip_nested, Eat-expect_line_end}
use minipy.Parser.Grammar.{Env, Grammar}
use minipy.Parser.Grammar.Good.{IsGood, IsComplete}
use minipy.Parser.Suite.{Suite}
use minipy.Parser.Suite.Agree.{IsSuite, at_close_end, Eat-name, elements-Agree}
use minipy.Parser.Simple.Agree.{simple_line-Eat}
use minipy.Parser.Blocks.Agree.{
  block-Agree, if_rest-Agree, while_rest-Agree, for_rest-Agree, try_rest-Agree, with_rest-Agree,
}
use minipy.Parser.Definitions.Agree.{
  Agree-skip_all, Eat-skip_all, function_rest-Agree, class_rest-Agree, async_rest-Agree,
}
use minipy.Parser.Patterns.Agree.{patterns-Agree}
use minipy.Parser.Statements

Agree-line_end : {level : Level} {n : ℕ} → Agree level n expect_line_end expect_line_end
Agree-line_end {level} {n} = line_end.agree
  where
    line_end : Eat level n expect_line_end expect_line_end
    line_end = Eat-expect_line_end

module _ (env : Env) (complete : IsComplete env) (g g' : Grammar) (r r' : Suite) (n : ℕ)
    (good : IsGood n g g') (suite : IsSuite n r r') where
  case_rest-Agree :
      (p : Pos) → Agree low n (Statements.case_rest env g r p) (Statements.case_rest env g' r' p)
  unfolding Statements.case_rest
  case_rest-Agree p = Agree-bind (patterns-Agree env complete g g' r r' n good suite) λ _.
      Agree-bind (Agree-accept _ refl (λ _. good.expression) (Agree-return _))
        λ _. Agree-bind (block-Agree g g' r r' n good suite good.expression) λ _. Agree-return _

  case_turn-Round :
      (cs : List Case)
      → Round low n (Statements.case_turn env g r cs) (Statements.case_turn env g' r' cs)
  unfolding Statements.case_turn
  case_turn-Round cs = Round-unless _ (at_close_end _) (Round-over _) (
      Eat-accept _ refl (λ _. Agree-return _)
        (Eat-name _ (λ t. Agree-bind (case_rest-Agree t.pos) λ _. Agree-return _)
          (Eat-then Agree-current
            λ _. Eat-then (Agree-report _ _ _) λ _. Eat-bind Eat-skip_all λ _. Agree-return _)))

  complain_cases-Agree :
      {level : Level}
      → Agree level n (Statements.complain_cases env g r) (Statements.complain_cases env g' r')
  unfolding Statements.complain_cases
  complain_cases-Agree = Agree-bind Agree-current λ _. Agree-report _ _ _

  match_rest-Agree :
      (p : Pos) → Agree low n (Statements.match_rest env g r p) (Statements.match_rest env g' r' p)
  unfolding Statements.match_rest
  match_rest-Agree p = Agree-bind (elements-Agree g g' good _ good.expression) λ _.
      Agree-bind (Agree-expect _ refl) λ _.
        Agree-accept _ refl
          (λ _.
            Agree-accept _ refl
              (λ _. Agree-bind (Agree-loop case_turn-Round []) λ _. Agree-finish _ refl _)
              (Agree-bind complain_cases-Agree λ _. Agree-return _))
          (Agree-bind complain_cases-Agree λ _. Agree-bind Agree-skip_line λ _. Agree-return _)

  decorated_rest-Agree :
      (ds : List Expr)
      → Agree low n (Statements.decorated_rest env g r ds) (Statements.decorated_rest env g' r' ds)
  unfolding Statements.decorated_rest
  decorated_rest-Agree ds =
      Agree-accept _ refl (λ t. function_rest-Agree g g' r r' n good suite t.pos false ds)
        (Agree-accept _ refl (λ t. class_rest-Agree g g' r r' n good suite t.pos ds)
          (Agree-accept _ refl (λ t. async_rest-Agree g g' r r' n good suite t.pos ds)
            (Agree-complain _ _ _ λ _. Agree-bind Agree-skip_all λ _. Agree-return _)))

  decorated-Agree : Agree low n (Statements.decorated env g r) (Statements.decorated env g' r')
  unfolding Statements.decorated Statements.decorator_turn
  decorated-Agree = Agree-bind good.expression λ _. Agree-bind Agree-line_end λ _.
      Agree-bind
        (Agree-loop
          (λ _.
            Round-accept _ refl
              (λ _. Agree-bind good.expression λ _. Agree-bind Agree-line_end λ _. Agree-return _)
              (Round-over _))
          _)
        λ ds. decorated_rest-Agree ds

  orphan-Eat :
      {level : Level} (code : Code) (msg : TokenType → Message)
      → Eat level n (Statements.orphan env g r code msg) (Statements.orphan env g' r' code msg)
  unfolding Statements.orphan
  orphan-Eat code msg =
      Eat-then Agree-current
        λ _. Eat-then (Agree-report _ _ _) λ _. Eat-bind Eat-skip_all λ _. Agree-return _

  one :
      {m m' : Action Stmt}
      → Agree low n m m'
      → Agree low n (Statements.one env g r m) (Statements.one env g' r' m')
  one t = Agree-bind t λ _. Agree-return _

  pub statement-Eat : Eat mid n (Statements.statement env g r) (Statements.statement env g' r')
  unfolding Statements.statement
  statement-Eat =
      Eat-accept _ refl (λ t. one (if_rest-Agree g g' r r' n good suite good.expression t.pos))
        (Eat-accept _ refl (λ t. one (while_rest-Agree g g' r r' n good suite t.pos))
          (Eat-accept _ refl (λ t. one (for_rest-Agree g g' r r' n good suite t.pos false))
            (Eat-accept _ refl (λ t. one (try_rest-Agree g g' r r' n good suite t.pos))
              (Eat-accept _ refl (λ t. one (with_rest-Agree g g' r r' n good suite t.pos false))
                (Eat-accept _ refl
                  (λ t. one (function_rest-Agree g g' r r' n good suite t.pos false []))
                  (Eat-accept _ refl (λ t. one (class_rest-Agree g g' r r' n good suite t.pos []))
                    (Eat-accept _ refl (λ _. one decorated-Agree)
                      (Eat-accept _ refl
                        (λ t. one (async_rest-Agree g g' r r' n good suite t.pos []))
                        (Eat-choose _ (orphan-Eat _ _) (
                          Eat-choose _ (orphan-Eat _ _) (
                            Eat-choose _ (orphan-Eat _ _) (
                              Eat-name _ (λ t. one (match_rest-Agree t.pos))
                                (simple_line-Eat g g' n good good.direct_expression)))))))))))))

  module_turn-Round :
      (body : List Stmt)
      → Round low n (Statements.module_turn env g r body) (Statements.module_turn env g' r' body)
  unfolding Statements.module_turn
  module_turn-Round body = Round-unless _ at_eof (Round-over _) (
      Eat-accept _ refl (λ _. Agree-return _)
        (Eat-accept _ refl
          (λ _.
            Agree-bind (Agree-report _ _ _)
              λ _. Agree-bind (Agree-skip_nested 1) λ _. Agree-return _)
          (Eat-bind suite.statement λ _. Agree-return _)))
    where
      at_eof : (s : Parser) → at_end s ≡ true → at TokenType.eof s ≡ true
      at_eof s h = unfold at in h

  pub parse_module-Agree :
      Agree low n (Statements.parse_module env g r) (Statements.parse_module env g' r')
  unfolding Statements.parse_module
  parse_module-Agree = Agree-loop module_turn-Round []
