-- ===== src/Parser/Grammar.antt =====
-- The calls of the recursive descent that stand behind a token, and the loops, which go on behind
-- one: the functions of the grammar take them as a record. What the parser takes from outside is a
-- record too.
pub mod Good
use minipy.Base.{ℕ, List, Option, Bytes}
use minipy.Token.{TokenType, Pos}
use minipy.Token.Errors.{Error}
use minipy.Parser.Ast.{Expr, Keyword, Comprehension, Param, Parts}
use minipy.Parser.State.{Action}

-- The bits of the value that `strconv.ParseFloat` gives a literal, those of 0 where it fails, and
-- `parseFStringParts` on the text of a literal,
-- which returns the errors that it adds.
pub record Env : Type 0 where
  pub float_bits : Bytes → ℕ
  pub fstring_parts : Bytes → Pos → Option (Parts × List Error)

-- The four slices and values that the loop of `parseCall` fills; `nil` for no `**` argument.
pub record CallArgs : Type 0 where
  pub args : List Expr
  pub keywords : List Keyword
  pub star_args : List Expr
  pub kwargs : Expr

pub record Grammar : Type 0 where
  pub expression : Action Expr
  pub disjunction : Action Expr
  pub conjunction : Action Expr
  pub inversion : Action Expr
  pub factor : Action Expr
  pub primary : Action Expr
  pub or_loop : Expr → Action Expr
  pub and_loop : Expr → Action Expr
  pub compare_loop : Expr → List TokenType → List Expr → Action Expr
  pub binary : ℕ → Action Expr
  pub binary_loop : ℕ → Expr → Action Expr
  pub primary_loop : Expr → Action Expr
  pub lambda_params : List Param → Action (List Param)
  pub call_loop : CallArgs → Action CallArgs
  pub group_loop : List Expr → Action (List Expr)
  pub list_loop : Pos → List Expr → Action Expr
  pub dict_loop : Pos → List Expr → List Expr → Action Expr
  pub set_loop : Pos → List Expr → Action Expr
  pub clause_loop : List Comprehension → Action (List Comprehension)
  pub if_loop : List Expr → Action (List Expr)
  pub string_loop : TokenType → Bytes → Action Bytes
  pub annotation : Action Expr
  pub annotation_atom : Action Expr
  pub union_loop : List Expr → Action (List Expr)
  pub dotted_loop : Pos → Expr → Action Expr
  pub type_args : List Expr → Action (List Expr)
  pub annotated_loop : List Expr → Action (List Expr)
  pub literal_loop : List Expr → Action (List Expr)
