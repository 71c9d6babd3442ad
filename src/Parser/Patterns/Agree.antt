-- ===== src/Parser/Patterns/Agree.antt =====
-- Patterns agree over grammars that agree.
use minipy.Base.{ℕ, ◌≡◌, refl, none, false}
use minipy.Token.{TokenType, Pos, Token}
use minipy.Parser.Ast.{Expr}
use minipy.Parser.Ast.Stmts.{Pattern}
use minipy.Parser.State.{Action}
use minipy.Parser.State.Agree.{
  Level, low, Agree, Agree-return, Agree-bind, Agree-choose, Agree-if, Agree-accept,
  Agree-accept_if, Agree-current, Agree-skip, Agree-complain, Agree-expect, Agree-finish,
}
use minipy.Parser.State.Rounds.{Agree-loop, Round-over, Round-choose, Round-accept, Round-bind}
use minipy.Parser.Grammar.{Env, Grammar}
use minipy.Parser.Grammar.Good.{IsGood, IsComplete}
use minipy.Parser.Suite.{Suite}
use minipy.Parser.Suite.Agree.{IsSuite, Agree-name, Round-comma}
use minipy.Parser.Operators.Agree.{atom-Agree}
use minipy.Parser.Operators
use minipy.Lexer.Blocks.{is_eof}
use minipy.Parser.Patterns

sign-eof : Patterns.sign TokenType.eof ≡ none
unfolding Patterns.sign
sign-eof = refl

invalid-Agree : {level : Level} {n : ℕ} → Agree level n Patterns.invalid Patterns.invalid
unfolding Patterns.invalid
invalid-Agree = Agree-complain _ _ _ λ _. Agree-bind Agree-skip λ _. Agree-return _

module _ (env : Env) (complete : IsComplete env) (g g' : Grammar) (r r' : Suite) (n : ℕ)
    (good : IsGood n g g') (suite : IsSuite n r r') where
  seq_elem-Agree :
      {level : Level} {m m' : Action Pattern}
      → Agree level n m m'
      → Agree level n (Patterns.seq_elem env g r m) (Patterns.seq_elem env g' r' m')
  unfolding Patterns.seq_elem
  seq_elem-Agree t =
      Agree-accept _ refl (λ _. Agree-accept _ refl (λ _. Agree-return _) (Agree-return _)) t

  sequence_pattern-Agree :
      (p : Pos) (opening close : TokenType)
      → is_eof close ≡ false
      → Agree low n
          (Patterns.sequence_pattern env g r p opening close)
          (Patterns.sequence_pattern env g' r' p opening close)
  unfolding Patterns.sequence_pattern Patterns.sequence_turn
  sequence_pattern-Agree p opening close e =
      Agree-bind
        (Agree-loop
          (λ _.
            Round-choose _ (Round-over _)
              (Round-bind (seq_elem-Agree suite.or_pattern) λ _. Round-comma _ refl _ _))
          _)
        λ _. Agree-finish _ e _

  mapping_pattern-Agree :
      (p : Pos)
      → Agree low n (Patterns.mapping_pattern env g r p) (Patterns.mapping_pattern env g' r' p)
  unfolding Patterns.mapping_pattern Patterns.mapping_turn
  mapping_pattern-Agree p =
      Agree-bind
        (Agree-loop
          (λ _. Round-choose _ (Round-over _) (
            Round-accept _ refl
              (λ _.
                Agree-bind (Agree-expect _ refl)
                  λ _. Agree-accept _ refl (λ _. Agree-return _) (Agree-return _))
              (Round-bind good.expression λ _.
                Round-bind (Agree-expect _ refl)
                  λ _. Round-bind suite.or_pattern λ _. Round-comma _ refl _ _)))
          _)
        λ _. Agree-finish _ refl _

  class_rest-Agree :
      (p : Pos) (x : Expr)
      → Agree low n (Patterns.class_rest env g r p x) (Patterns.class_rest env g' r' p x)
  unfolding Patterns.class_rest Patterns.class_turn
  class_rest-Agree p x =
      Agree-bind
        (Agree-loop
          (λ _. Round-choose _ (Round-over _) (
            Round-bind
              (Agree-name _
                (λ _. Agree-bind Agree-skip λ _. Agree-bind suite.or_pattern λ _. Agree-return _)
                (Agree-bind suite.or_pattern λ _. Agree-return _))
              λ _. Round-comma _ refl _ _))
          _)
        λ _. Agree-finish _ refl _

  name_pattern-Agree :
      (t : Token)
      → Agree low n (Patterns.name_pattern env g r t) (Patterns.name_pattern env g' r' t)
  unfolding Patterns.name_pattern Patterns.name_turn
  name_pattern-Agree t = Agree-if _ (Agree-return _) (
      Agree-bind
        (Agree-loop
          (λ _.
            Round-accept _ refl (λ _. Agree-bind (Agree-expect _ refl) λ _. Agree-return _)
              (Round-over _))
          _)
        λ x. Agree-accept _ refl (λ _. class_rest-Agree t.pos x) (Agree-return _))

  closed_pattern-Agree :
      {level : Level}
      → Agree level n (Patterns.closed_pattern env g r) (Patterns.closed_pattern env g' r')
  unfolding Patterns.closed_pattern
  closed_pattern-Agree =
      Agree-accept _ refl (λ t. sequence_pattern-Agree t.pos _ _ refl)
        (Agree-accept _ refl (λ t. sequence_pattern-Agree t.pos _ _ refl)
          (Agree-accept _ refl (λ t. mapping_pattern-Agree t.pos)
            (Agree-choose _ (Agree-bind Agree-current λ _. Agree-bind atom λ _. Agree-return _) (
              Agree-accept_if _ sign-eof (λ _ _. Agree-bind atom λ _. Agree-return _)
                (Agree-accept _ refl name_pattern-Agree invalid-Agree)))))
    where
      atom : {level : Level} → Agree level n (Operators.atom env g) (Operators.atom env g')
      atom = atom-Agree env complete g g' n good

  pub or_pattern-Agree :
      {level : Level} → Agree level n (Patterns.or_pattern env g r) (Patterns.or_pattern env g' r')
  unfolding Patterns.or_pattern Patterns.or_turn
  or_pattern-Agree = Agree-bind Agree-current λ _. Agree-bind closed_pattern-Agree λ _.
      Agree-bind
        (Agree-loop
          (λ _.
            Round-accept _ refl (λ _. Agree-bind closed_pattern-Agree λ _. Agree-return _)
              (Round-over _))
          _)
        λ _.
          Agree-accept _ refl (λ _. Agree-bind (Agree-expect _ refl) λ _. Agree-return _)
            (Agree-return _)

  pub patterns-Agree :
      {level : Level} → Agree level n (Patterns.patterns env g r) (Patterns.patterns env g' r')
  unfolding Patterns.patterns Patterns.pattern_turn
  patterns-Agree = Agree-bind Agree-current λ _. Agree-bind (seq_elem-Agree or_pattern-Agree) λ _.
      Agree-choose _
        (Agree-bind
          (Agree-loop
            (λ _.
              Round-accept _ refl
                (λ _.
                  Agree-choose _ (Agree-return _)
                    (Agree-bind (seq_elem-Agree or_pattern-Agree) λ _. Agree-return _))
                (Round-over _))
            _)
          λ _. Agree-return _)
        (Agree-return _)
