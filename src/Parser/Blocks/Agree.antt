-- ===== src/Parser/Blocks/Agree.antt =====
-- Blocks and the statements that have them agree over grammars and suites that agree.
use minipy.Base.{ℕ, ◌≡◌, refl, [], Bool, false}
use minipy.Lexer.Blocks.{is_eof}
use minipy.Token.{TokenType, Pos, Token}
use minipy.Parser.Ast
use minipy.Parser.Ast.{Expr, Keyword, Param, ParamKind}
use minipy.Parser.State.{accept, expect, return, ◌>>=◌}
use minipy.Parser.State.Agree.{
  Level, low, Agree, Agree-return, Agree-bind, Agree-choose, Agree-if, Agree-accept, Agree-current,
  Agree-report, Agree-complain, Agree-expect, Agree-finish,
}
use minipy.Parser.State.Rounds.{Eat, Agree-loop, Round-over, Round-accept, Round-bind}
use minipy.Parser.State.Eats.{Eat-accept, Round-unless, Eat-bind}
use minipy.Parser.Grammar.{Grammar}
use minipy.Parser.Grammar.Good.{IsGood}
use minipy.Parser.Suite.{Suite}
use minipy.Parser.Suite.Agree.{IsSuite, at_close_end, Round-comma, elements-Agree}
use minipy.Parser.Simple
use minipy.Parser.Simple.Agree.{simple_line-Eat}
use minipy.Parser.Blocks

module _ {level : Level} {n : ℕ} where
  pub complain_block-Agree :
      {A : Type 0} (a : A) → Agree level n (Blocks.complain_block a) (Blocks.complain_block a)
  unfolding Blocks.complain_block
  complain_block-Agree a = Agree-complain _ _ _ λ _. Agree-return _

  as_name-Agree :
      {A : Type 0} (f : Token → A) (a : A)
      → Agree level n
          (accept TokenType.as_word (λ _. expect TokenType.name >>= λ t. return (f t)) (return a))
          (accept TokenType.as_word (λ _. expect TokenType.name >>= λ t. return (f t)) (return a))
  as_name-Agree f a =
      Agree-accept _ refl (λ _. Agree-bind (Agree-expect _ refl) λ _. Agree-return _)
        (Agree-return _)

  for_target-Agree :
      (g : Grammar) (r : Suite) (g' : Grammar) (r' : Suite)
      → Agree level n (Blocks.for_target g r) (Blocks.for_target g' r')
  unfolding Blocks.for_target Blocks.for_turn
  for_target-Agree g r g' r' =
      Agree-accept _ refl
        (λ _.
          Agree-choose _
            (Agree-bind
              (Agree-loop
                (λ _.
                  Round-accept _ refl
                    (λ _. Agree-accept _ refl (λ _. Agree-return _) (Agree-return _))
                    (Round-over _))
                _)
              λ _. Agree-return _)
            (Agree-return _))
        (Agree-complain _ _ _ λ _. Agree-return _)

module _ (g g' : Grammar) (r r' : Suite) (n : ℕ) (good : IsGood n g g')
    (suite : IsSuite n r r') where
  pub block-Agree :
      {level : Level}
      → Agree level n g.expression g'.expression
      → Agree level n (Blocks.block g r) (Blocks.block g' r')
  unfolding Blocks.block Blocks.block_turn
  block-Agree {level} direct = Agree-bind (Agree-expect _ refl) λ _.
      Agree-accept _ refl
        (λ _.
          Agree-accept _ refl
            (λ _.
              Agree-bind
                (Agree-loop
                  (λ _. Round-unless _ (at_close_end _) (Round-over _) (
                    Eat-accept _ refl (λ _. Agree-return _)
                      (Eat-bind suite.statement λ _. Agree-return _)))
                  [])
                λ _. Agree-finish _ refl _)
            (complain_block-Agree []))
        line.agree
    where
      line : Eat level n (Simple.simple_line g) (Simple.simple_line g')
      line = simple_line-Eat g g' n good direct

  optional_block-Agree :
      (t : TokenType)
      → is_eof t ≡ false
      → Agree low n (Blocks.optional_block g r t) (Blocks.optional_block g' r' t)
  unfolding Blocks.optional_block
  optional_block-Agree t e = Agree-accept t e (λ _. block-Agree good.expression) (Agree-return _)

  pub if_rest-Agree :
      {level : Level}
      → Agree level n g.expression g'.expression
      → (p : Pos) → Agree level n (Blocks.if_rest g r p) (Blocks.if_rest g' r' p)
  unfolding Blocks.if_rest Blocks.optional_block
  if_rest-Agree direct p = Agree-bind direct λ _. Agree-bind (block-Agree direct) λ _.
      Agree-bind
        (Agree-accept _ refl (λ t. Agree-bind (suite.if_rest t.pos) λ _. Agree-return _)
          (Agree-accept _ refl (λ _. block-Agree good.expression) (Agree-return _)))
        λ _. Agree-return _

  pub while_rest-Agree :
      (p : Pos) → Agree low n (Blocks.while_rest g r p) (Blocks.while_rest g' r' p)
  unfolding Blocks.while_rest
  while_rest-Agree p = Agree-bind good.expression λ _.
      Agree-bind (block-Agree good.expression)
        λ _. Agree-bind (optional_block-Agree _ refl) λ _. Agree-return _

  pub for_rest-Agree :
      (p : Pos) (async : Bool)
      → Agree low n (Blocks.for_rest g r p async) (Blocks.for_rest g' r' p async)
  unfolding Blocks.for_rest
  for_rest-Agree p async = Agree-bind (for_target-Agree g r g' r') λ _.
      Agree-bind (Agree-expect _ refl) λ _.
        Agree-bind (elements-Agree g g' good _ good.expression) λ _.
          Agree-bind (block-Agree good.expression)
            λ _. Agree-bind (optional_block-Agree _ refl) λ _. Agree-return _

  handler-Agree : (p : Pos) → Agree low n (Blocks.handler g r p) (Blocks.handler g' r' p)
  unfolding Blocks.handler Blocks.handler_type
  handler-Agree p = Agree-bind (Agree-accept _ refl (λ _. Agree-return _) (Agree-return _)) λ _.
      Agree-bind
        (Agree-choose _ (Agree-return _) (
          Agree-bind good.expression
            λ _. Agree-bind (as_name-Agree (λ t. t.literal) []) λ _. Agree-return _))
        λ _. Agree-bind (block-Agree good.expression) λ _. Agree-return _

  pub try_rest-Agree : (p : Pos) → Agree low n (Blocks.try_rest g r p) (Blocks.try_rest g' r' p)
  unfolding Blocks.try_rest Blocks.handler_turn
  try_rest-Agree p = Agree-bind (block-Agree good.expression) λ _.
      Agree-bind
        (Agree-loop
          (λ _.
            Round-accept _ refl (λ t. Agree-bind (handler-Agree t.pos) λ _. Agree-return _)
              (Round-over _))
          [])
        λ _. Agree-bind (optional_block-Agree _ refl) λ _.
          Agree-bind (optional_block-Agree _ refl)
            λ _. Agree-bind (Agree-if _ (Agree-return _) (Agree-report _ _ _)) λ _. Agree-return _

  pub with_rest-Agree :
      (p : Pos) (async : Bool)
      → Agree low n (Blocks.with_rest g r p async) (Blocks.with_rest g' r' p async)
  unfolding Blocks.with_rest Blocks.with_turn Blocks.with_item
  with_rest-Agree p async =
      Agree-bind
        (Agree-loop
          (λ _.
            Round-bind
              (Agree-bind Agree-current λ _.
                Agree-bind good.expression
                  λ _. Agree-bind (as_name-Agree Simple.name_node Ast.nil) λ _. Agree-return _)
              λ _. Round-comma _ refl _ _)
          [])
        λ _. Agree-bind (block-Agree good.expression) λ _. Agree-return _
