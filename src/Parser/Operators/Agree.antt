-- ===== src/Parser/Operators/Agree.antt =====
-- The functions for expressions agree over grammars that agree.
use minipy.Base.{ℕ, ◌≡◌, refl, List, [], none, Bool, true, false}
use minipy.Token.{TokenType, Pos, Token}
use minipy.Parser.Ast
use minipy.Parser.Ast.{Expr, Keyword, Comprehension, Param, Parts}
use minipy.Parser.Grammar.{Env, CallArgs, Grammar}
use minipy.Parser.State.Agree.{
  Level, mid, low, Agree, Agree-return, Agree-bind, Agree-choose, Agree-if, Agree-accept,
  Agree-accept_if, Agree-current, Agree-report, Agree-skip, Agree-complain, Agree-expect,
  Agree-finish,
}
use minipy.Parser.Displays
use minipy.Parser.Displays.Agree.{string-Agree, group-Agree}
use minipy.Parser.Operators
use minipy.Parser.Grammar.Good.{IsComplete, IsGood}

binary_op-eof : (min : ℕ) → Operators.binary_op min TokenType.eof ≡ none
unfolding Operators.binary_op Operators.bin_prec
binary_op-eof min = refl

unexpected-Agree : {level : Level} {n : ℕ} → Agree level n Operators.unexpected Operators.unexpected
unfolding Operators.unexpected
unexpected-Agree = Agree-complain _ _ _ λ _. Agree-bind Agree-skip λ _. Agree-return _

module _ (env : Env) (complete : IsComplete env) (g g' : Grammar) (n : ℕ)
    (good : IsGood n g g') where
  pub lambda_params-Agree :
      {level : Level} (ps : List Param)
      → Agree level n (Operators.lambda_params env g ps) (Operators.lambda_params env g' ps)
  unfolding Operators.lambda_params
  lambda_params-Agree ps =
      Agree-bind (Agree-expect _ refl)
        λ _. Agree-accept _ refl (λ _. good.lambda_params _) (Agree-return _)

  lambda-Agree : (p : Pos) → Agree low n (Operators.lambda env g p) (Operators.lambda env g' p)
  unfolding Operators.lambda
  lambda-Agree p =
      Agree-bind (Agree-choose _ (Agree-return _) (good.lambda_params []))
        λ _. Agree-bind (Agree-expect _ refl) λ _. Agree-bind good.expression λ _. Agree-return _

  pub atom-Agree : {level : Level} → Agree level n (Operators.atom env g) (Operators.atom env g')
  unfolding Operators.atom
  atom-Agree =
      Agree-accept_if _ (unfold Operators.literal_node in refl) (λ _ _. Agree-return _)
        (Agree-accept _ refl string (
          Agree-accept _ refl string (
            Agree-accept _ refl string (
              Agree-accept _ refl (λ t. group-Agree env complete g g' n good t.pos)
                (Agree-accept _ refl (λ t. good.list_loop t.pos [])
                  (Agree-accept _ refl (λ t. good.dict_loop t.pos [] [])
                    (Agree-accept _ refl (λ t. lambda-Agree t.pos) unexpected-Agree)))))))
    where
      string : (t : Token) → Agree low n (Displays.string env g t) (Displays.string env g' t)
      string t = string-Agree env complete g g' n good t

  subscript_index-Agree :
      (p : Pos)
      → Agree low n (Operators.subscript_index env g p) (Operators.subscript_index env g' p)
  unfolding Operators.subscript_index
  subscript_index-Agree p = Agree-bind (Agree-choose _ (Agree-return _) good.expression) λ _.
      Agree-accept _ refl
        (λ _. Agree-bind (Agree-choose _ (Agree-return _) good.expression) λ _.
          Agree-bind
            (Agree-accept _ refl (λ _. Agree-choose _ (Agree-return _) good.expression)
              (Agree-return _))
            λ _. Agree-return _)
        (Agree-return _)

  next_arg-Agree :
      {level : Level} (found : CallArgs)
      → Agree level n (Operators.next_arg env g found) (Operators.next_arg env g' found)
  next_arg-Agree found = Agree-accept _ refl (λ _. good.call_loop found) (Agree-return _)

  positional-Agree :
      (found : CallArgs)
      → Agree mid n (Operators.positional env g found) (Operators.positional env g' found)
  unfolding Operators.positional
  positional-Agree found = Agree-bind good.direct_expression λ _.
      Agree-choose _
        (Agree-bind (good.direct_clause_loop []) λ _.
          Agree-bind
            (Agree-choose _ (Agree-return _) (Agree-bind Agree-current λ _. Agree-report _ _ _))
            λ _. next_arg-Agree _)
        (next_arg-Agree _)

  pub call_loop-Agree :
      (found : CallArgs)
      → Agree mid n (Operators.call_loop env g found) (Operators.call_loop env g' found)
  unfolding Operators.call_loop
  call_loop-Agree found = Agree-choose _ (Agree-return _) (
      Agree-accept _ refl (λ _. Agree-bind good.expression λ _. next_arg-Agree _)
        (Agree-accept _ refl
          (λ t. Agree-bind good.expression λ _.
            Agree-if _ (Agree-bind (Agree-report _ _ _) λ _. next_arg-Agree _) (next_arg-Agree _))
          (Agree-choose _
            (Agree-accept _ refl
              (λ key. Agree-bind Agree-skip λ _. Agree-bind good.expression λ _. next_arg-Agree _)
              (positional-Agree found))
            (positional-Agree found))))

  call-Agree :
      (p : Pos) (callee : Expr)
      → Agree low n (Operators.call env g p callee) (Operators.call env g' p callee)
  unfolding Operators.call
  call-Agree p callee = Agree-bind (good.call_loop Operators.no_args) λ _. Agree-finish _ refl _

  pub primary_loop-Agree :
      {level : Level} (x : Expr)
      → Agree level n (Operators.primary_loop env g x) (Operators.primary_loop env g' x)
  unfolding Operators.primary_loop
  primary_loop-Agree x =
      Agree-accept _ refl (λ t. Agree-bind (call-Agree t.pos x) λ _. good.primary_loop _)
        (Agree-accept _ refl (λ t. Agree-bind (Agree-expect _ refl) λ _. good.primary_loop _)
          (Agree-accept _ refl
            (λ t.
              Agree-bind (subscript_index-Agree t.pos)
                λ _. Agree-bind (Agree-expect _ refl) λ _. good.primary_loop _)
            (Agree-return _)))

  pub primary-Agree :
      {level : Level} → Agree level n (Operators.primary env g) (Operators.primary env g')
  unfolding Operators.primary
  primary-Agree = Agree-bind atom-Agree primary_loop-Agree

  power-Agree : {level : Level} → Agree level n (Operators.power env g) (Operators.power env g')
  unfolding Operators.power
  power-Agree =
      Agree-bind primary-Agree
        λ _. Agree-accept _ refl (λ _. Agree-bind good.factor λ _. Agree-return _) (Agree-return _)

  pub factor-Agree :
      {level : Level} → Agree level n (Operators.factor env g) (Operators.factor env g')
  unfolding Operators.factor
  factor-Agree =
      Agree-accept_if _ (unfold Operators.unary_op in refl)
        (λ _ _. Agree-bind good.factor λ _. Agree-return _) power-Agree

  pub binary_loop-Agree :
      {level : Level} (k : ℕ) (x : Expr)
      → Agree level n (Operators.binary_loop env g k x) (Operators.binary_loop env g' k x)
  unfolding Operators.binary_loop
  binary_loop-Agree k x =
      Agree-accept_if _ (binary_op-eof k)
        (λ (op, prec) _. Agree-bind (good.binary _) λ _. good.binary_loop k _) (Agree-return _)

  pub binary-Agree :
      {level : Level} (k : ℕ) → Agree level n (Operators.binary env g k) (Operators.binary env g' k)
  unfolding Operators.binary
  binary-Agree k = Agree-bind factor-Agree (binary_loop-Agree k)

  pub compare_loop-Agree :
      {level : Level} (x : Expr) (ops : List TokenType) (rest : List Expr)
      → Agree level n
          (Operators.compare_loop env g x ops rest)
          (Operators.compare_loop env g' x ops rest)
  unfolding Operators.compare_loop
  compare_loop-Agree x ops rest =
      Agree-accept_if _ (unfold Operators.compare_op in refl) (λ op _. next op)
        (Agree-accept _ refl (λ _. Agree-accept _ refl (λ _. next _) (next _))
          (Agree-choose _
            (Agree-accept _ refl (λ _. Agree-bind Agree-skip λ _. next _) (Agree-return _))
            (Agree-return _)))
    where
      next :
          (op : TokenType)
          → Agree low n
              (Operators.compare_with env g x ops rest op)
              (Operators.compare_with env g' x ops rest op)
      next op = Agree-bind (good.binary 1) λ _. good.compare_loop x _ _

  pub inversion-Agree :
      {level : Level} → Agree level n (Operators.inversion env g) (Operators.inversion env g')
  unfolding Operators.inversion Operators.comparison
  inversion-Agree =
      Agree-accept _ refl (λ _. Agree-bind good.inversion λ _. Agree-return _)
        (Agree-bind (binary-Agree 1) λ x. compare_loop-Agree x [] [])

  pub and_loop-Agree :
      {level : Level} (x : Expr)
      → Agree level n (Operators.and_loop env g x) (Operators.and_loop env g' x)
  unfolding Operators.and_loop
  and_loop-Agree x =
      Agree-accept _ refl (λ _. Agree-bind good.inversion λ _. good.and_loop _) (Agree-return _)

  pub conjunction-Agree :
      {level : Level} → Agree level n (Operators.conjunction env g) (Operators.conjunction env g')
  unfolding Operators.conjunction
  conjunction-Agree = Agree-bind inversion-Agree and_loop-Agree

  pub or_loop-Agree :
      {level : Level} (x : Expr)
      → Agree level n (Operators.or_loop env g x) (Operators.or_loop env g' x)
  unfolding Operators.or_loop
  or_loop-Agree x =
      Agree-accept _ refl (λ _. Agree-bind good.conjunction λ _. good.or_loop _) (Agree-return _)

  pub disjunction-Agree :
      {level : Level} → Agree level n (Operators.disjunction env g) (Operators.disjunction env g')
  unfolding Operators.disjunction
  disjunction-Agree = Agree-bind conjunction-Agree or_loop-Agree

  named-Agree :
      (p : Pos) (x : Expr) → Agree low n (Operators.named env g p x) (Operators.named env g' p x)
  unfolding Operators.named
  named-Agree p (Ast.name q v) = Agree-bind good.expression λ _. Agree-return _
  named-Agree p x = Agree-bind (Agree-report _ _ _) λ _. Agree-return _

  yield_expression-Agree :
      (p : Pos)
      → Agree low n (Operators.yield_expression env g p) (Operators.yield_expression env g' p)
  unfolding Operators.yield_expression Operators.yield_value
  yield_expression-Agree p = Agree-accept _ refl (λ _. value true) (value false)
    where
      value :
          (b : Bool)
          → Agree low n (Operators.yield_value env g p b) (Operators.yield_value env g' p b)
      value b = Agree-bind (Agree-choose _ (Agree-return _) good.expression) λ _. Agree-return _

  pub expression-Agree :
      {level : Level} → Agree level n (Operators.expression env g) (Operators.expression env g')
  unfolding Operators.expression Operators.conditional
  expression-Agree =
      Agree-accept _ refl (λ t. lambda-Agree t.pos)
        (Agree-accept _ refl (λ t. yield_expression-Agree t.pos)
          (Agree-accept _ refl (λ t. Agree-bind good.primary λ _. Agree-return _)
            (Agree-bind disjunction-Agree λ x.
              Agree-accept _ refl
                (λ _. Agree-bind good.disjunction λ _.
                  Agree-bind (Agree-expect _ refl)
                    λ _. Agree-bind good.expression λ _. Agree-return _)
                (Agree-accept _ refl (λ t. named-Agree t.pos x) (Agree-return _)))))
