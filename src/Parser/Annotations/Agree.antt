-- ===== src/Parser/Annotations/Agree.antt =====
-- The functions for annotations agree over grammars that agree.
use minipy.Base.{ℕ, refl, List, []}
use minipy.Token.{Pos}
use minipy.Parser.Ast.{Expr}
use minipy.Parser.Grammar.{Env, Grammar}
use minipy.Parser.State.Agree.{
  Level, mid, low, Agree, Agree-return, Agree-bind, Agree-choose, Agree-if, Agree-accept,
  Agree-accept_if, Agree-current, Agree-complain, Agree-expect, Agree-finish,
}
use minipy.Parser.Displays.Agree.{string-Agree}
use minipy.Parser.Annotations
use minipy.Parser.Grammar.Good.{IsComplete, IsGood}

module _ (env : Env) (complete : IsComplete env) (g g' : Grammar) (n : ℕ)
    (good : IsGood n g g') where
  pub dotted_loop-Agree :
      {level : Level} (p : Pos) (x : Expr)
      → Agree level n (Annotations.dotted_loop env g p x) (Annotations.dotted_loop env g' p x)
  unfolding Annotations.dotted_loop
  dotted_loop-Agree p x =
      Agree-choose _
        (Agree-accept _ refl (λ _. Agree-bind (Agree-expect _ refl) λ _. good.dotted_loop p _)
          (Agree-return _))
        (Agree-return _)

  pub type_args-Agree :
      (es : List Expr)
      → Agree mid n (Annotations.type_args env g es) (Annotations.type_args env g' es)
  unfolding Annotations.type_args
  type_args-Agree es = Agree-choose _ (Agree-return _) (
      Agree-bind good.direct_annotation
        λ _. Agree-accept _ refl (λ _. good.type_args _) (Agree-return _))

  pub literal_loop-Agree :
      (es : List Expr)
      → Agree mid n (Annotations.literal_loop env g es) (Annotations.literal_loop env g' es)
  unfolding Annotations.literal_loop
  literal_loop-Agree es = Agree-choose _ (Agree-return _) (
      Agree-bind good.direct_expression
        λ _. Agree-accept _ refl (λ _. good.literal_loop _) (Agree-return _))

  pub annotated_loop-Agree :
      {level : Level} (es : List Expr)
      → Agree level n (Annotations.annotated_loop env g es) (Annotations.annotated_loop env g' es)
  unfolding Annotations.annotated_loop
  annotated_loop-Agree es =
      Agree-accept _ refl
        (λ _.
          Agree-choose _ (Agree-return _) (Agree-bind good.expression λ _. good.annotated_loop _))
        (Agree-return _)

  annotated-Agree :
      (p : Pos) (base : Expr)
      → Agree low n (Annotations.annotated env g p base) (Annotations.annotated env g' p base)
  unfolding Annotations.annotated
  annotated-Agree p base =
      Agree-bind
        (Agree-choose _ (Agree-return _) (Agree-bind good.annotation λ _. good.annotated_loop _))
        λ _. Agree-finish _ refl _

  callable_type-Agree :
      (p : Pos) (base : Expr)
      → Agree low n
          (Annotations.callable_type env g p base)
          (Annotations.callable_type env g' p base)
  unfolding Annotations.callable_type
  callable_type-Agree p base = Agree-bind (Agree-expect _ refl) λ _.
      Agree-bind (good.type_args []) λ _. Agree-bind (Agree-expect _ refl) λ _.
        Agree-bind (Agree-expect _ refl) λ _. Agree-bind good.annotation λ _. Agree-finish _ refl _

  bracketed-Agree :
      (p : Pos) (base : Expr)
      → Agree low n (Annotations.bracketed env g p base) (Annotations.bracketed env g' p base)
  unfolding Annotations.bracketed Annotations.literal_type Annotations.generic_type
  bracketed-Agree p base = Agree-if _ (annotated-Agree p base) (
      Agree-if _ (Agree-bind (good.literal_loop []) λ _. Agree-finish _ refl _) (
        Agree-if _ (callable_type-Agree p base)
          (Agree-bind (good.type_args []) λ _. Agree-finish _ refl _)))

  pub annotation_atom-Agree :
      {level : Level}
      → Agree level n (Annotations.annotation_atom env g) (Annotations.annotation_atom env g')
  unfolding Annotations.annotation_atom Annotations.no_annotation
  annotation_atom-Agree =
      Agree-accept _ refl (λ t. string-Agree env complete g g' n good t)
        (Agree-accept_if Annotations.annotation_name (unfold Annotations.annotation_name in refl)
          (λ _ t.
            Agree-bind (good.dotted_loop _ _)
              λ base. Agree-accept _ refl (λ _. bracketed-Agree t.pos base) (Agree-return _))
          (Agree-complain _ _ _ λ _. Agree-return _))

  pub union_loop-Agree :
      {level : Level} (es : List Expr)
      → Agree level n (Annotations.union_loop env g es) (Annotations.union_loop env g' es)
  unfolding Annotations.union_loop
  union_loop-Agree es =
      Agree-accept _ refl (λ _. Agree-bind good.annotation_atom λ _. good.union_loop _)
        (Agree-return _)

  pub annotation-Agree :
      {level : Level} → Agree level n (Annotations.annotation env g) (Annotations.annotation env g')
  unfolding Annotations.annotation
  annotation-Agree = Agree-bind Agree-current λ _.
      Agree-bind annotation_atom-Agree
        λ _. Agree-choose _ (Agree-bind (union_loop-Agree _) λ _. Agree-return _) (Agree-return _)
