-- ===== src/Parser/Displays/Agree.antt =====
-- The functions for strings, groups, displays and comprehension clauses agree over grammars that agree.
use minipy.Base.{ℕ, refl, List, [], Bytes, Bool, true, false, ◌++◌}
use minipy.Token.{TokenType, Pos, Token}
use minipy.Parser.Ast.{Expr, Comprehension}
use minipy.Parser.State.{Action}
use minipy.Parser.Grammar.{Env, Grammar}
use minipy.Parser.State.Agree.{
  Level, mid, low, Agree, ends, Agree-return, Agree-bind, Agree-choose, Agree-if, Agree-accept,
  Agree-report, Agree-skip, Agree-expect, Agree-finish,
}
use minipy.Parser.Displays
use minipy.Parser.Grammar.Good.{IsComplete, IsGood}

fstring_parts-Agree :
    {level : Level} {n : ℕ} (env : Env) (text : Bytes) (p : Pos)
    → IsComplete env
    → Agree level n (Displays.fstring_parts env text p) (Displays.fstring_parts env text p)
unfolding Displays.fstring_parts
fstring_parts-Agree env text p c = record {
  run = λ s h.
      let ((parts, found), e) = c text p in
      rw (e, Displays.fstring_parts)
        (ends parts (record s { errs = s.errs ++ found })
          (record { used = []; rest = refl; more = found; errs = refl; end = refl }));
}

module _ (env : Env) (complete : IsComplete env) (g g' : Grammar) (n : ℕ)
    (good : IsGood n g g') where
  pub string_loop-Agree :
      {level : Level} (k : TokenType) (v : Bytes)
      → Agree level n (Displays.string_loop env g k v) (Displays.string_loop env g' k v)
  unfolding Displays.string_loop
  string_loop-Agree k v =
      Agree-accept _ refl
        (λ t.
          Agree-if _ (good.string_loop _ _)
            (Agree-bind (Agree-report _ _ _) λ _. good.string_loop _ _))
        (Agree-accept _ refl
          (λ t.
            Agree-if _ (good.string_loop _ _)
              (Agree-bind (Agree-report _ _ _) λ _. good.string_loop _ _))
          (Agree-return _))

  pub string-Agree :
      {level : Level} (t : Token)
      → Agree level n (Displays.string env g t) (Displays.string env g' t)
  unfolding Displays.string
  string-Agree t =
      Agree-if _ (Agree-bind (fstring_parts-Agree env t.literal t.pos complete) λ _. Agree-return _)
        (Agree-bind (string_loop-Agree t.type t.literal) λ _. Agree-return _)

  pub if_loop-Agree :
      {level : Level} (es : List Expr)
      → Agree level n (Displays.if_loop env g es) (Displays.if_loop env g' es)
  unfolding Displays.if_loop
  if_loop-Agree es =
      Agree-accept _ refl (λ _. Agree-bind good.disjunction λ _. good.if_loop _) (Agree-return _)

  clause-Agree :
      (p : Pos) (async : Bool) (cs : List Comprehension)
      → Agree low n (Displays.clause env g p async cs) (Displays.clause env g' p async cs)
  unfolding Displays.clause
  clause-Agree p async cs = Agree-bind (Agree-expect _ refl) λ _.
      Agree-bind (Agree-expect _ refl)
        λ _. Agree-bind good.disjunction λ _. Agree-bind (good.if_loop _) λ _. good.clause_loop _

  pub clause_loop-Agree :
      {level : Level} (cs : List Comprehension)
      → Agree level n (Displays.clause_loop env g cs) (Displays.clause_loop env g' cs)
  unfolding Displays.clause_loop
  clause_loop-Agree cs =
      Agree-accept _ refl (λ t. Agree-bind Agree-skip λ _. clause-Agree t.pos true cs)
        (Agree-accept _ refl (λ t. clause-Agree t.pos false cs) (Agree-return _))

  starred-Agree :
      {level : Level} {direct direct' : Action Expr}
      → Agree level n direct direct'
      → Agree level n (Displays.starred env g direct) (Displays.starred env g' direct')
  unfolding Displays.starred
  starred-Agree d = Agree-accept _ refl (λ _. Agree-bind good.expression λ _. Agree-return _) d

  pub group_loop-Agree :
      {level : Level} (es : List Expr)
      → Agree level n (Displays.group_loop env g es) (Displays.group_loop env g' es)
  unfolding Displays.group_loop
  group_loop-Agree es =
      Agree-accept _ refl
        (λ _. Agree-choose _ (Agree-return _) (Agree-bind good.expression λ _. good.group_loop _))
        (Agree-return _)

  pub group-Agree : (p : Pos) → Agree low n (Displays.group env g p) (Displays.group env g' p)
  unfolding Displays.group
  group-Agree p =
      Agree-accept _ refl (λ _. Agree-return _)
        (Agree-bind good.expression λ _.
          Agree-choose _ (Agree-bind (good.clause_loop _) λ _. Agree-finish _ refl _) (
            Agree-choose _ (Agree-bind (good.group_loop _) λ _. Agree-finish _ refl _)
              (Agree-finish _ refl _)))

  pub list_loop-Agree :
      (p : Pos) (es : List Expr)
      → Agree mid n (Displays.list_loop env g p es) (Displays.list_loop env g' p es)
  unfolding Displays.list_loop
  list_loop-Agree p es = Agree-choose _ (Agree-finish _ refl _) (
      Agree-bind (starred-Agree good.direct_expression) λ _.
        Agree-choose _ (Agree-bind (good.direct_clause_loop _) λ _. Agree-finish _ refl _)
          (Agree-accept _ refl (λ _. good.list_loop p _) (Agree-finish _ refl _)))

  pub set_loop-Agree :
      {level : Level} (p : Pos) (es : List Expr)
      → Agree level n (Displays.set_loop env g p es) (Displays.set_loop env g' p es)
  unfolding Displays.set_loop
  set_loop-Agree p es =
      Agree-accept _ refl
        (λ _. Agree-choose _ (Agree-finish _ refl _) (
          Agree-bind (starred-Agree good.expression) λ _.
            Agree-choose _ (Agree-bind (good.clause_loop _) λ _. Agree-finish _ refl _)
              (good.set_loop p _)))
        (Agree-finish _ refl _)

  next_entry-Agree :
      {level : Level} (p : Pos) (ks vs : List Expr)
      → Agree level n (Displays.next_entry env g p ks vs) (Displays.next_entry env g' p ks vs)
  next_entry-Agree p ks vs =
      Agree-accept _ refl (λ _. good.dict_loop p ks vs) (Agree-finish _ refl _)

  pub dict_loop-Agree :
      (p : Pos) (ks vs : List Expr)
      → Agree mid n (Displays.dict_loop env g p ks vs) (Displays.dict_loop env g' p ks vs)
  unfolding Displays.dict_loop
  dict_loop-Agree p ks vs = Agree-choose _ (Agree-finish _ refl _) (
      Agree-accept _ refl (λ _. Agree-bind good.expression λ _. next_entry-Agree p _ _)
        (Agree-bind (starred-Agree good.direct_expression) λ _.
          Agree-accept _ refl
            (λ _. Agree-bind good.expression λ _.
              Agree-choose _ (Agree-bind (good.clause_loop _) λ _. Agree-finish _ refl _)
                (next_entry-Agree p _ _))
            (Agree-choose _ (Agree-bind (good.direct_clause_loop _) λ _. Agree-finish _ refl _)
              (set_loop-Agree p _))))
