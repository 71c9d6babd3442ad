-- ===== src/Parser/Grammar/Good.antt =====
-- What the functions of the grammar ask of the calls that they make through the record.
use minipy.Base.{ℕ, ◌≡◌, List, some, Bytes}
use minipy.Token.{TokenType, Pos}
use minipy.Token.Errors.{Error}
use minipy.Parser.Ast.{Expr, Comprehension, Param, Parts}
use minipy.Parser.Grammar.{Env, CallArgs, Grammar}
use minipy.Parser.State.Agree.{mid, low, Agree}

-- What the parts of an f-string are asked to be: found, whatever the text.
abbrev pub IsComplete : Env → Type 0
IsComplete env =
    (text : Bytes) (p : Pos) → (r : Parts × List Error) × (env.fstring_parts text p ≡ some r)

-- The calls behind a token, and, at `mid`, those that may stand first in a loop.
pub record IsGood (n : ℕ) (g g' : Grammar) : Type 0 where
  pub expression : Agree low n g.expression g'.expression
  pub disjunction : Agree low n g.disjunction g'.disjunction
  pub conjunction : Agree low n g.conjunction g'.conjunction
  pub inversion : Agree low n g.inversion g'.inversion
  pub factor : Agree low n g.factor g'.factor
  pub primary : Agree low n g.primary g'.primary
  pub or_loop : (x : Expr) → Agree low n (g.or_loop x) (g'.or_loop x)
  pub and_loop : (x : Expr) → Agree low n (g.and_loop x) (g'.and_loop x)
  pub compare_loop :
      (x : Expr) (ops : List TokenType) (rest : List Expr)
      → Agree low n (g.compare_loop x ops rest) (g'.compare_loop x ops rest)
  pub binary : (k : ℕ) → Agree low n (g.binary k) (g'.binary k)
  pub binary_loop : (k : ℕ) (x : Expr) → Agree low n (g.binary_loop k x) (g'.binary_loop k x)
  pub primary_loop : (x : Expr) → Agree low n (g.primary_loop x) (g'.primary_loop x)
  pub lambda_params : (ps : List Param) → Agree low n (g.lambda_params ps) (g'.lambda_params ps)
  pub call_loop : (found : CallArgs) → Agree low n (g.call_loop found) (g'.call_loop found)
  pub group_loop : (es : List Expr) → Agree low n (g.group_loop es) (g'.group_loop es)
  pub list_loop : (p : Pos) (es : List Expr) → Agree low n (g.list_loop p es) (g'.list_loop p es)
  pub dict_loop :
      (p : Pos) (ks vs : List Expr) → Agree low n (g.dict_loop p ks vs) (g'.dict_loop p ks vs)
  pub set_loop : (p : Pos) (es : List Expr) → Agree low n (g.set_loop p es) (g'.set_loop p es)
  pub clause_loop : (cs : List Comprehension) → Agree low n (g.clause_loop cs) (g'.clause_loop cs)
  pub if_loop : (es : List Expr) → Agree low n (g.if_loop es) (g'.if_loop es)
  pub string_loop :
      (k : TokenType) (v : Bytes) → Agree low n (g.string_loop k v) (g'.string_loop k v)
  pub annotation : Agree low n g.annotation g'.annotation
  pub annotation_atom : Agree low n g.annotation_atom g'.annotation_atom
  pub union_loop : (es : List Expr) → Agree low n (g.union_loop es) (g'.union_loop es)
  pub dotted_loop : (p : Pos) (x : Expr) → Agree low n (g.dotted_loop p x) (g'.dotted_loop p x)
  pub type_args : (es : List Expr) → Agree low n (g.type_args es) (g'.type_args es)
  pub annotated_loop : (es : List Expr) → Agree low n (g.annotated_loop es) (g'.annotated_loop es)
  pub literal_loop : (es : List Expr) → Agree low n (g.literal_loop es) (g'.literal_loop es)
  pub direct_expression : Agree mid n g.expression g'.expression
  pub direct_clause_loop :
      (cs : List Comprehension) → Agree mid n (g.clause_loop cs) (g'.clause_loop cs)
  pub direct_annotation : Agree mid n g.annotation g'.annotation
