-- ===== src/Parser/Definitions/Agree.antt =====
-- Functions and classes agree over grammars and suites that agree.
use minipy.Base.{ℕ, refl, List, [], Bool, true, false}
use minipy.Token.{Pos}
use minipy.Parser.Ast.{Expr, ParamKind}
use minipy.Parser.Ast.Stmts.{Stmt}
use minipy.Parser.State.{expect_line_end}
use minipy.Parser.State.Agree.{
  Level, low, Agree, Agree-return, Agree-bind, Agree-choose, Agree-accept, Agree-current,
  Agree-report, Agree-complain, Agree-expect, Agree-finish,
}
use minipy.Parser.State.Rounds.{
  Eat, Round, Agree-loop, Round-over, Round-choose, Round-accept, Round-bind,
}
use minipy.Parser.State.Eats.{Eat-choose, Eat-accept, Round-unless, Eat-bind, Eat-then}
use minipy.Parser.State.Skips.{
  Agree-skip_line, Eat-skip_line, Agree-skip_block, Eat-expect_line_end,
}
use minipy.Parser.Grammar.{Grammar}
use minipy.Parser.Grammar.Good.{IsGood}
use minipy.Parser.Suite.{Suite}
use minipy.Parser.Suite.Agree.{
  IsSuite, at_close_end, Agree-name, Eat-name, Round-comma, keyword_value-Agree,
}
use minipy.Parser.Simple.Agree.{ann_assign-Agree}
use minipy.Parser.Blocks.Agree.{block-Agree, complain_block-Agree, for_rest-Agree, with_rest-Agree}
use minipy.Parser.Definitions

module _ {level : Level} {n : ℕ} where
  pub Agree-skip_all : Agree level n Definitions.skip_all Definitions.skip_all
  Agree-skip_all = Agree-bind Agree-skip_line λ _. Agree-skip_block

  pub Eat-skip_all : Eat level n Definitions.skip_all Definitions.skip_all
  Eat-skip_all = Eat-bind Eat-skip_line λ _. Agree-skip_block

module _ (g g' : Grammar) (r r' : Suite) (n : ℕ) (good : IsGood n g g')
    (suite : IsSuite n r r') where
  param-Agree :
      {level : Level} (k : ParamKind)
      → Agree level n (Definitions.param g r k) (Definitions.param g' r' k)
  unfolding Definitions.param
  param-Agree k = Agree-bind (Agree-expect _ refl) λ _.
      Agree-bind (Agree-accept _ refl (λ _. good.annotation) (Agree-return _)) λ _.
        Agree-bind (Agree-accept _ refl (λ _. good.expression) (Agree-return _)) λ _. Agree-return _

  param_turn-Round :
      {level : Level} (found : Definitions.ParamsFound)
      → Round level n (Definitions.param_turn g r found) (Definitions.param_turn g' r' found)
  unfolding Definitions.param_turn
  param_turn-Round found =
      Round-accept _ refl (λ _. Agree-accept _ refl (λ _. Agree-return _) (Agree-return _))
        (Round-accept _ refl
          (λ _.
            Agree-accept _ refl (λ _. Agree-return _)
              (Agree-bind (param-Agree _)
                λ _. Agree-accept _ refl (λ _. Agree-return _) (Agree-return _)))
          (Round-accept _ refl
            (λ _.
              Agree-bind (param-Agree _)
                λ _. Agree-accept _ refl (λ _. Agree-return _) (Agree-return _))
            (Round-bind (param-Agree _) λ _.
              Round-accept _ refl (λ _. Agree-choose _ (Agree-return _) (Agree-return _))
                (Round-over _))))

  pub function_rest-Agree :
      (p : Pos) (async : Bool) (ds : List Expr)
      → Agree low n
          (Definitions.function_rest g r p async ds)
          (Definitions.function_rest g' r' p async ds)
  unfolding Definitions.function_rest Definitions.params
  function_rest-Agree p async ds = Agree-bind (Agree-expect _ refl) λ _.
      Agree-bind (Agree-expect _ refl) λ _.
        Agree-bind (Agree-choose _ (Agree-return _) (Agree-loop param_turn-Round _)) λ _.
          Agree-bind (Agree-expect _ refl) λ _.
            Agree-bind (Agree-accept _ refl (λ _. good.annotation) (Agree-return _)) λ _.
              Agree-bind (block-Agree g g' r r' n good suite good.expression) λ _. Agree-return _

  pub async_rest-Agree :
      (p : Pos) (ds : List Expr)
      → Agree low n (Definitions.async_rest g r p ds) (Definitions.async_rest g' r' p ds)
  unfolding Definitions.async_rest
  async_rest-Agree p ds =
      Agree-accept _ refl (λ _. function_rest-Agree p true ds)
        (Agree-accept _ refl (λ _. for_rest-Agree g g' r r' n good suite p true)
          (Agree-accept _ refl (λ _. with_rest-Agree g g' r r' n good suite p true)
            (Agree-bind (Agree-report _ _ _) λ _. Agree-bind Agree-skip_all λ _. Agree-return _)))

  class_head-Agree : Agree low n (Definitions.class_head g r) (Definitions.class_head g' r')
  unfolding Definitions.class_head Definitions.head_turn Definitions.head_entry
  class_head-Agree =
      Agree-accept _ refl
        (λ _.
          Agree-bind
            (Agree-loop
              (λ _. Round-choose _ (Round-over _) (
                Round-bind
                  (Agree-name _
                    (λ key.
                      Agree-bind (keyword_value-Agree g g' good key good.expression)
                        λ _. Agree-return _)
                    (Agree-accept _ refl (λ _. Agree-bind good.expression λ _. Agree-return _)
                      (Agree-bind good.expression λ _. Agree-return _)))
                  λ _. Round-comma _ refl _ _))
              _)
            λ _. Agree-finish _ refl _)
        (Agree-return _)

  bad_member-Eat :
      {level : Level} → Eat level n (Definitions.bad_member g r) (Definitions.bad_member g' r')
  unfolding Definitions.bad_member
  bad_member-Eat = Eat-then Agree-current λ _. Eat-then (Agree-report _ _ _) λ _. Eat-skip_line

  member_turn-Round :
      (body : List Stmt)
      → Round low n (Definitions.member_turn g r body) (Definitions.member_turn g' r' body)
  unfolding Definitions.member_turn
  member_turn-Round body = Round-unless _ (at_close_end _) (Round-over _) (
      Eat-accept _ refl (λ _. Agree-return _)
        (Eat-accept _ refl (λ _. Agree-bind line_end.agree λ _. Agree-return _)
          (Eat-accept _ refl
            (λ t. Agree-bind (function_rest-Agree t.pos false []) λ _. Agree-return _)
            (Eat-name _
              (λ t.
                Agree-bind (ann_assign-Agree g g' n good t)
                  λ _. Agree-bind line_end.agree λ _. Agree-return _)
              (Eat-choose _ (Eat-bind bad_member-Eat λ _. Agree-return _)
                (Eat-bind bad_member-Eat λ _. Agree-bind Agree-skip_block λ _. Agree-return _))))))
    where
      line_end : {level : Level} → Eat level n expect_line_end expect_line_end
      line_end = Eat-expect_line_end

  class_block-Agree : Agree low n (Definitions.class_block g r) (Definitions.class_block g' r')
  unfolding Definitions.class_block
  class_block-Agree = Agree-bind (Agree-expect _ refl) λ _.
      Agree-accept _ refl
        (λ _.
          Agree-accept _ refl
            (λ _. Agree-bind (Agree-loop member_turn-Round []) λ _. Agree-finish _ refl _)
            (complain_block-Agree []))
        (Agree-complain _ _ _ λ _. Agree-bind Agree-skip_line λ _. Agree-return _)

  pub class_rest-Agree :
      (p : Pos) (ds : List Expr)
      → Agree low n (Definitions.class_rest g r p ds) (Definitions.class_rest g' r' p ds)
  unfolding Definitions.class_rest
  class_rest-Agree p ds =
      Agree-bind (Agree-expect _ refl)
        λ _. Agree-bind class_head-Agree λ _. Agree-bind class_block-Agree λ _. Agree-return _
