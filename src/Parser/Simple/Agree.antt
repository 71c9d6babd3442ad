-- ===== src/Parser/Simple/Agree.antt =====
-- Simple statements over grammars that agree.
use minipy.Base.{ℕ, ◌≡◌, refl, List, [], ◌∷◌, none, Bytes}
use minipy.Token.{TokenType, Pos, Token}
use minipy.Parser.Ast.{Expr}
use minipy.Parser.Ast.Stmts.{ImportAlias}
use minipy.Parser.State.Agree.{
  Level, low, Agree, Agree-return, Agree-bind, Agree-choose, Agree-if, Agree-accept,
  Agree-accept_if, Agree-current, Agree-report, Agree-expect, Agree-finish,
}
use minipy.Parser.State.Rounds.{
  Eat, Round, Agree-loop, Round-over, Round-choose, Round-accept, Round-bind,
}
use minipy.Parser.State.Eats.{Eat-bind, Eat-then}
use minipy.Parser.State.Skips.{Eat-expect_line_end}
use minipy.Parser.Grammar.{Grammar}
use minipy.Parser.Grammar.Good.{IsGood}
use minipy.Parser.Suite
use minipy.Parser.Suite.{Suite}
use minipy.Parser.Suite.Agree.{
  Agree-name, Round-comma, dotted_turn-Round, optional-Agree, elements-Agree,
}
use minipy.Parser.Simple

aug_op-eof : Simple.aug_op TokenType.eof ≡ none
unfolding Simple.aug_op
aug_op-eof = refl

module _ {level : Level} {n : ℕ} where
  require_target-Agree :
      (x : Expr) → Agree level n (Simple.require_target x) (Simple.require_target x)
  unfolding Simple.require_target
  require_target-Agree x = Agree-if _ (Agree-return _) (Agree-report _ _ _)

  require_targets-Agree :
      (xs : List Expr) → Agree level n (Simple.require_targets xs) (Simple.require_targets xs)
  unfolding Simple.require_targets
  require_targets-Agree [] = Agree-return _
  require_targets-Agree (x ∷ xs) = Agree-bind (require_target-Agree x) λ _. require_targets-Agree xs

  target_turn-Round :
      (es : List Expr) → Round level n (Simple.target_turn es) (Simple.target_turn es)
  unfolding Simple.target_turn Simple.target_elem
  target_turn-Round es =
      Round-bind
        (Agree-accept _ refl (λ _. Agree-bind (Agree-expect _ refl) λ _. Agree-return _)
          (Agree-bind (Agree-expect _ refl) λ _. Agree-return _))
        λ _. Round-comma _ refl _ _

  name_turn-Round : (ns : List Bytes) → Round level n (Simple.name_turn ns) (Simple.name_turn ns)
  unfolding Simple.name_turn
  name_turn-Round ns = Round-bind (Agree-expect _ refl) λ _. Round-comma _ refl _ _

  alias_turn-Round :
      (ns : List ImportAlias) → Round level n (Simple.alias_turn ns) (Simple.alias_turn ns)
  unfolding Simple.alias_turn Simple.alias Simple.dotted_name
  alias_turn-Round ns = Round-choose _ (Round-over _) (
      Round-bind
        (Agree-bind Agree-current λ _.
          Agree-bind (Agree-bind (Agree-expect _ refl) λ _. Agree-loop dotted_turn-Round _) λ _.
            Agree-bind
              (Agree-accept _ refl (λ _. Agree-bind (Agree-expect _ refl) λ _. Agree-return _)
                (Agree-return _))
              λ _. Agree-return _)
        λ _.
          Round-accept _ refl (λ _. Agree-choose _ (Agree-return _) (Agree-return _))
            (Round-over _))

  aliases-Agree : Agree level n Simple.aliases Simple.aliases
  aliases-Agree = Agree-loop alias_turn-Round []

module _ {n : ℕ} where
  import_from-Agree : (p : Pos) → Agree low n (Simple.import_from p) (Simple.import_from p)
  unfolding Simple.import_from Simple.from_module Simple.from_names Simple.level_turn
  import_from-Agree p =
      Agree-bind (Agree-loop (λ _. Round-accept _ refl (λ _. Agree-return _) (Round-over _)) 0) λ _.
        Agree-bind (Agree-accept _ refl (λ _. Agree-loop dotted_turn-Round _) (Agree-return _)) λ _.
          Agree-bind (Agree-expect _ refl) λ _.
            Agree-bind
              (Agree-accept _ refl (λ _. Agree-return _)
                (Agree-accept _ refl (λ _. Agree-bind aliases-Agree λ _. Agree-finish _ refl _)
                  aliases-Agree))
              λ _. Agree-return _

module _ (g g' : Grammar) (n : ℕ) (good : IsGood n g g') where
  list_low : Agree low n (Suite.expression_list g) (Suite.expression_list g')
  list_low = elements-Agree g g' good _ good.expression

  optional_low : Agree low n (Suite.optional g g.expression) (Suite.optional g' g'.expression)
  optional_low = optional-Agree g g' good good.expression

  optional_list :
      Agree low n
        (Suite.optional g (Suite.expression_list g))
        (Suite.optional g' (Suite.expression_list g'))
  optional_list = optional-Agree g g' good list_low

  raise_rest-Agree : (p : Pos) → Agree low n (Simple.raise_rest g p) (Simple.raise_rest g' p)
  unfolding Simple.raise_rest
  raise_rest-Agree p = Agree-bind optional_low λ _.
      Agree-bind (Agree-accept _ refl (λ _. good.expression) (Agree-return _)) λ _. Agree-return _

  delete_rest-Agree : (p : Pos) → Agree low n (Simple.delete_rest g p) (Simple.delete_rest g' p)
  unfolding Simple.delete_rest Simple.delete_turn Simple.require_deletable
  delete_rest-Agree p =
      Agree-bind
        (Agree-loop
          (λ _. Round-bind good.expression λ x.
            Round-bind (Agree-if _ (Agree-return _) (Agree-report _ _ _)) λ _.
              Round-accept _ refl (λ _. Agree-choose _ (Agree-return _) (Agree-return _))
                (Round-over _))
          [])
        λ _. Agree-return _

  assert_rest-Agree : (p : Pos) → Agree low n (Simple.assert_rest g p) (Simple.assert_rest g' p)
  unfolding Simple.assert_rest
  assert_rest-Agree p = Agree-bind good.expression λ _.
      Agree-bind (Agree-accept _ refl (λ _. good.expression) (Agree-return _)) λ _. Agree-return _

  yield_rest-Agree : (p : Pos) → Agree low n (Simple.yield_rest g p) (Simple.yield_rest g' p)
  unfolding Simple.yield_rest
  yield_rest-Agree p =
      Agree-accept _ refl (λ _. Agree-bind optional_low λ _. Agree-return _)
        (Agree-bind optional_list λ _. Agree-return _)

  pub ann_assign-Agree : (t : Token) → Agree low n (Simple.ann_assign g t) (Simple.ann_assign g' t)
  unfolding Simple.ann_assign
  ann_assign-Agree t = Agree-bind (Agree-expect _ refl) λ _.
      Agree-bind good.annotation
        λ _. Agree-bind (Agree-accept _ refl (λ _. list_low) (Agree-return _)) λ _. Agree-return _

  type_alias-Agree : (t : Token) → Agree low n (Simple.type_alias g t) (Simple.type_alias g' t)
  unfolding Simple.type_alias
  type_alias-Agree t =
      Agree-bind (Agree-expect _ refl)
        λ _. Agree-bind (Agree-expect _ refl) λ _. Agree-bind good.expression λ _. Agree-return _

  tuple_assign-Agree :
      {level : Level} → Agree level n (Simple.tuple_assign g) (Simple.tuple_assign g')
  unfolding Simple.tuple_assign
  tuple_assign-Agree = Agree-bind Agree-current λ _.
      Agree-bind (Agree-loop target_turn-Round []) λ _.
        Agree-accept _ refl (λ _. Agree-bind list_low λ _. Agree-return _)
          (Agree-bind (Agree-report _ _ _) λ _. Agree-return _)

  assign_turn-Round :
      {level : Level} (p : Pos) (es : List Expr)
      → Round level n (Simple.assign_turn g p es) (Simple.assign_turn g' p es)
  unfolding Simple.assign_turn
  assign_turn-Round p es =
      Round-accept _ refl
        (λ _. Agree-bind list_low λ v.
          Agree-choose _ (Agree-bind (require_target-Agree v) λ _. Agree-return _)
            (Agree-bind (require_targets-Agree es) λ _. Agree-return _))
        (Round-over _)

  -- What may stand first in a line calls `parseExpression` directly.
  module _ {level : Level} (direct : Agree level n g.expression g'.expression) where
    expression_statement-Agree :
        Agree level n (Simple.expression_statement g) (Simple.expression_statement g')
    unfolding Simple.expression_statement
    expression_statement-Agree = Agree-bind Agree-current λ t. Agree-bind direct λ x.
        Agree-choose _ (Agree-loop (assign_turn-Round t.pos) (x ∷ [])) (
          Agree-accept_if _ aug_op-eof
            (λ _ _.
              Agree-bind good.expression
                λ _. Agree-bind (require_target-Agree x) λ _. Agree-return _)
            (Agree-return _))

    name_statement-Agree : Agree level n (Simple.name_statement g) (Simple.name_statement g')
    unfolding Simple.name_statement
    name_statement-Agree = Agree-name _ ann_assign-Agree (
        Agree-name _ type_alias-Agree
          (Agree-choose _ tuple_assign-Agree expression_statement-Agree))

    simple_statement-Agree : Agree level n (Simple.simple_statement g) (Simple.simple_statement g')
    unfolding Simple.simple_statement
    simple_statement-Agree =
        Agree-accept _ refl (λ _. Agree-return _)
          (Agree-accept _ refl (λ _. Agree-return _)
            (Agree-accept _ refl (λ _. Agree-return _)
              (Agree-accept _ refl (λ _. Agree-bind optional_list λ _. Agree-return _)
                (Agree-accept _ refl (λ t. yield_rest-Agree t.pos)
                  (Agree-accept _ refl (λ t. raise_rest-Agree t.pos)
                    (Agree-accept _ refl
                      (λ _. Agree-bind (Agree-loop name_turn-Round []) λ _. Agree-return _)
                      (Agree-accept _ refl
                        (λ _. Agree-bind (Agree-loop name_turn-Round []) λ _. Agree-return _)
                        (Agree-accept _ refl (λ t. delete_rest-Agree t.pos)
                          (Agree-accept _ refl (λ t. assert_rest-Agree t.pos)
                            (Agree-accept _ refl (λ _. Agree-bind aliases-Agree λ _. Agree-return _)
                              (Agree-accept _ refl (λ t. import_from-Agree t.pos)
                                name_statement-Agree)))))))))))

    pub simple_line-Eat : Eat level n (Simple.simple_line g) (Simple.simple_line g')
    unfolding Simple.simple_line Simple.line_turn
    simple_line-Eat =
        Eat-then
          (Agree-loop
            (λ _. Round-bind simple_statement-Agree λ _.
              Round-accept _ refl (λ _. Agree-choose _ (Agree-return _) (Agree-return _))
                (Round-over _))
            [])
          λ _. Eat-bind Eat-expect_line_end λ _. Agree-return _
