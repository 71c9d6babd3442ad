-- ===== src/Parser/Suite/Agree.antt =====
-- What the statements ask of their recursive calls, and the helpers that they share.
use minipy.Base.{ℕ, ◌≡◌, refl, [], ◌∷◌, Bytes, Bool, true, false, arith}
use minipy.Lexer.Blocks.{is_eof}
use minipy.Token.{TokenType, Pos, Token}
use minipy.Parser.Ast.{Expr}
use minipy.Parser.State.{Parser, Action, accept, at, return, again, over}
use minipy.Parser.State.Agree.{
  Level, low, Agree, Agree-return, Agree-bind, Agree-choose, Agree-accept, Agree-current,
  Agree-skip, Agree-expect,
}
use minipy.Parser.State.Rounds.{
  at_end, Eat, Round, Agree-loop, Round-over, Round-choose, Round-accept,
}
use minipy.Parser.State.Eats.{Eat-choose, Eat-accept}
use minipy.Parser.Grammar.{Grammar}
use minipy.Parser.Grammar.Good.{IsGood}
use minipy.Parser.Displays
use minipy.Parser.Suite
use minipy.Parser.Suite.{Suite}

pub record IsSuite (n : ℕ) (r r' : Suite) : Type 0 where
  pub statement : Eat low n r.statement r'.statement
  pub if_rest : (p : Pos) → Agree low n (r.if_rest p) (r'.if_rest p)
  pub or_pattern : Agree low n r.or_pattern r'.or_pattern

pub at_close_end : (t : TokenType) (s : Parser) → at_end s ≡ true → Displays.at_close t s ≡ true
unfolding Displays.at_close at
at_close_end t s h = ground arith

module _ {A : Type 0} {level : Level} {n : ℕ} where
  pub Agree-name :
      (test : Parser → Bool) {m m' : Token → Action A} {k k' : Action A}
      → ((t : Token) → Agree low n (m t) (m' t))
      → Agree level n k k'
      → Agree level n (Suite.accept_name test m k) (Suite.accept_name test m' k')
  Agree-name test t u = unfold Suite.accept_name in (Agree-choose _ (Agree-accept _ refl t u) u)

  pub Eat-name :
      (test : Parser → Bool) {m m' : Token → Action A} {k k' : Action A}
      → ((t : Token) → Agree low n (m t) (m' t))
      → Eat level n k k'
      → Eat level n (Suite.accept_name test m k) (Suite.accept_name test m' k')
  Eat-name test t u = unfold Suite.accept_name in (Eat-choose _ (Eat-accept _ refl t u) u)

-- A token after which one goes on, or the end.
pub Round-comma :
    {A B : Type 0} {level : Level} {n : ℕ} (t : TokenType) (e : is_eof t ≡ false) (b : B) (a : A)
    → Round level n
        (accept t (λ _. return (again b)) (return (over a)))
        (accept t (λ _. return (again b)) (return (over a)))
Round-comma t e b a = Round-accept t e (λ _. Agree-return (again b)) (Round-over a)

pub dotted_turn-Round :
    {level : Level} {n : ℕ} (text : Bytes)
    → Round level n (Suite.dotted_turn text) (Suite.dotted_turn text)
unfolding Suite.dotted_turn
dotted_turn-Round text =
    Round-choose _
      (Round-accept _ refl (λ _. Agree-bind (Agree-expect _ refl) λ _. Agree-return _)
        (Round-over _))
      (Round-over _)

module _ {level : Level} {n : ℕ} (g g' : Grammar) (good : IsGood n g g') where
  pub optional-Agree :
      {m m' : Action Expr}
      → Agree level n m m'
      → Agree level n (Suite.optional g m) (Suite.optional g' m')
  unfolding Suite.optional
  optional-Agree t = Agree-choose _ (Agree-return _) t

  pub elements-Agree :
      (stop : Parser → Bool)
      → Agree level n g.expression g'.expression
      → Agree level n (Suite.elements g stop) (Suite.elements g' stop)
  unfolding Suite.elements Suite.element_turn
  elements-Agree stop direct = Agree-bind Agree-current λ _. Agree-bind direct λ first.
      Agree-choose _
        (Agree-bind
          (Agree-loop
            (λ es.
              Round-accept _ refl
                (λ _.
                  Agree-choose _ (Agree-return _) (Agree-bind good.expression λ _. Agree-return _))
                (Round-over _))
            (first ∷ []))
          λ _. Agree-return _)
        (Agree-return _)

  pub keyword_value-Agree :
      (key : Token)
      → Agree level n g.expression g'.expression
      → Agree level n (Suite.keyword_value g key) (Suite.keyword_value g' key)
  unfolding Suite.keyword_value
  keyword_value-Agree key direct = Agree-bind Agree-skip λ _. Agree-bind direct λ _. Agree-return _
