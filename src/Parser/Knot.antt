-- ===== src/Parser/Knot.antt =====
-- The grammar tied into a recursion: a call behind a token has less fuel.
pub mod Agree
use minipy.Base.{ℕ, zero, suc, none}
use minipy.Parser.State.{Action}
use minipy.Parser.Grammar.{Env, Grammar}
use minipy.Parser.Displays
use minipy.Parser.Operators
use minipy.Parser.Annotations

abbrev pub cut_off : {A : Type 0} → Action A
cut_off s = none

unfoldable pub grammar : Env → ℕ → Grammar
grammar env zero = record {
  expression = cut_off;
  disjunction = cut_off;
  conjunction = cut_off;
  inversion = cut_off;
  factor = cut_off;
  primary = cut_off;
  or_loop = λ _. cut_off;
  and_loop = λ _. cut_off;
  compare_loop = λ _ _ _. cut_off;
  binary = λ _. cut_off;
  binary_loop = λ _ _. cut_off;
  primary_loop = λ _. cut_off;
  lambda_params = λ _. cut_off;
  call_loop = λ _. cut_off;
  group_loop = λ _. cut_off;
  list_loop = λ _ _. cut_off;
  dict_loop = λ _ _ _. cut_off;
  set_loop = λ _ _. cut_off;
  clause_loop = λ _. cut_off;
  if_loop = λ _. cut_off;
  string_loop = λ _ _. cut_off;
  annotation = cut_off;
  annotation_atom = cut_off;
  union_loop = λ _. cut_off;
  dotted_loop = λ _ _. cut_off;
  type_args = λ _. cut_off;
  annotated_loop = λ _. cut_off;
  literal_loop = λ _. cut_off;
}
grammar env (suc n) = record {
  expression = Operators.expression env (grammar env n);
  disjunction = Operators.disjunction env (grammar env n);
  conjunction = Operators.conjunction env (grammar env n);
  inversion = Operators.inversion env (grammar env n);
  factor = Operators.factor env (grammar env n);
  primary = Operators.primary env (grammar env n);
  or_loop = Operators.or_loop env (grammar env n);
  and_loop = Operators.and_loop env (grammar env n);
  compare_loop = Operators.compare_loop env (grammar env n);
  binary = Operators.binary env (grammar env n);
  binary_loop = Operators.binary_loop env (grammar env n);
  primary_loop = Operators.primary_loop env (grammar env n);
  lambda_params = Operators.lambda_params env (grammar env n);
  call_loop = Operators.call_loop env (grammar env n);
  group_loop = Displays.group_loop env (grammar env n);
  list_loop = Displays.list_loop env (grammar env n);
  dict_loop = Displays.dict_loop env (grammar env n);
  set_loop = Displays.set_loop env (grammar env n);
  clause_loop = Displays.clause_loop env (grammar env n);
  if_loop = Displays.if_loop env (grammar env n);
  string_loop = Displays.string_loop env (grammar env n);
  annotation = Annotations.annotation env (grammar env n);
  annotation_atom = Annotations.annotation_atom env (grammar env n);
  union_loop = Annotations.union_loop env (grammar env n);
  dotted_loop = Annotations.dotted_loop env (grammar env n);
  type_args = Annotations.type_args env (grammar env n);
  annotated_loop = Annotations.annotated_loop env (grammar env n);
  literal_loop = Annotations.literal_loop env (grammar env n);
}
