-- ===== src/Parser/Ast.antt =====
-- The syntax tree, ast/ast.go. Each node has the field `Position` of its `Base`; a nil expression is
-- `nil`, a nil statement `nil_stmt`. A slice of nodes inside a node is a type of its own.
pub mod Stmts
use minipy.Base.{ℕ, Bool, List, [], ◌∷◌, Bytes}
use minipy.Base.Int.{ℤ}
use minipy.Token.{TokenType, Pos}

-- `ParamKind`.
pub data ParamKind : Type 0 where
  normal pos_only kw_only : ParamKind

-- A `*Name` inside a node is its position and its text. A float is given by the bits of the `float64`.
mutual
  pub data Expr : Type 0 where
    nil : Expr
    name : Pos → Bytes → Expr
    int_lit : Pos → ℤ → Expr
    float_lit : Pos → ℕ → Expr
    str_lit bytes_lit : Pos → Bytes → Expr
    bool_lit : Pos → Bool → Expr
    none_lit ellipsis_lit : Pos → Expr
    unary_expr : Pos → TokenType → Expr → Expr
    binary_expr bool_op : Pos → TokenType → Expr → Expr → Expr
    compare : Pos → Expr → List TokenType → Exprs → Expr
    call_expr : Pos → Expr → Exprs → Keywords → Exprs → Expr → Expr
    attribute : Pos → Expr → Bytes → Expr
    subscript : Pos → Expr → Expr → Expr
    slice : Pos → Expr → Expr → Expr → Expr
    starred : Pos → Expr → Expr
    named_expr : Pos → Pos → Bytes → Expr → Expr
    await_expr : Pos → Expr → Expr
    yield_expr : Pos → Expr → Bool → Expr
    if_exp : Pos → Expr → Expr → Expr → Expr
    lambda_expr : Pos → Params → Expr → Expr
    generator_exp list_comp set_comp : Pos → Expr → Clauses → Expr
    dict_comp : Pos → Expr → Expr → Clauses → Expr
    union_type list_lit set_lit tuple_lit : Pos → Exprs → Expr
    dict_lit : Pos → Exprs → Exprs → Expr
    fstring_lit : Pos → Parts → Expr

  pub data Exprs : Type 0 where
    no_expr : Exprs
    expr : Expr → Exprs → Exprs

  -- `Keyword`.
  pub data Keywords : Type 0 where
    no_keyword : Keywords
    keyword : Pos → Bytes → Expr → Keywords → Keywords

  -- `Comprehension`: its target, its iterable, its conditions, and whether it is async.
  pub data Clauses : Type 0 where
    no_clause : Clauses
    clause : Pos → Pos → Bytes → Expr → Exprs → Bool → Clauses → Clauses

  -- `Param`: its name, annotation and default, its kind, and whether it is `*args` or `**kwargs`.
  pub data Params : Type 0 where
    no_param : Params
    param : Pos → Pos → Bytes → Expr → Expr → ParamKind → Bool → Bool → Params → Params

  -- `FStringPart`: a text, or an expression with its debug text, conversion and format.
  pub data Parts : Type 0 where
    no_part : Parts
    text_part : Pos → Bytes → Parts → Parts
    expr_part : Pos → Expr → Bytes → ℕ → Parts → Parts → Parts

unfoldable pub of_exprs : List Expr → Exprs
of_exprs [] = no_expr
of_exprs (e ∷ es) = expr e (of_exprs es)

-- A keyword argument, a clause and a parameter, in a list that a loop appends to.
pub record Keyword : Type 0 where
  pub pos : Pos
  pub name : Bytes
  pub value : Expr

unfoldable pub of_keywords : List Keyword → Keywords
of_keywords [] = no_keyword
of_keywords (k ∷ ks) = keyword k.pos k.name k.value (of_keywords ks)

pub record Comprehension : Type 0 where
  pub pos : Pos
  pub target_pos : Pos
  pub target : Bytes
  pub iter : Expr
  pub ifs : List Expr
  pub async : Bool

unfoldable pub of_clauses : List Comprehension → Clauses
unfolding of_exprs
of_clauses [] = no_clause
of_clauses (c ∷ cs) =
    clause c.pos c.target_pos c.target c.iter (of_exprs c.ifs) c.async (of_clauses cs)

pub record Param : Type 0 where
  pub pos : Pos
  pub name_pos : Pos
  pub name : Bytes
  pub ann : Expr
  pub default : Expr
  pub kind : ParamKind
  pub vararg : Bool
  pub kwarg : Bool

unfoldable pub of_params : List Param → Params
of_params [] = no_param
of_params (p ∷ ps) =
    param p.pos p.name_pos p.name p.ann p.default p.kind p.vararg p.kwarg (of_params ps)

-- `Pos()` of an expression; it is not asked of a nil one.
unfoldable pub expr_pos : Expr → Pos
expr_pos nil = record { line = 0; column = 0 }
expr_pos (name p _) = p
expr_pos (int_lit p _) = p
expr_pos (float_lit p _) = p
expr_pos (str_lit p _) = p
expr_pos (bytes_lit p _) = p
expr_pos (bool_lit p _) = p
expr_pos (none_lit p) = p
expr_pos (ellipsis_lit p) = p
expr_pos (unary_expr p _ _) = p
expr_pos (binary_expr p _ _ _) = p
expr_pos (bool_op p _ _ _) = p
expr_pos (compare p _ _ _) = p
expr_pos (call_expr p _ _ _ _ _) = p
expr_pos (attribute p _ _) = p
expr_pos (subscript p _ _) = p
expr_pos (slice p _ _ _) = p
expr_pos (starred p _) = p
expr_pos (named_expr p _ _ _) = p
expr_pos (await_expr p _) = p
expr_pos (yield_expr p _ _) = p
expr_pos (if_exp p _ _ _) = p
expr_pos (lambda_expr p _ _) = p
expr_pos (generator_exp p _ _) = p
expr_pos (list_comp p _ _) = p
expr_pos (set_comp p _ _) = p
expr_pos (dict_comp p _ _ _) = p
expr_pos (union_type p _) = p
expr_pos (list_lit p _) = p
expr_pos (set_lit p _) = p
expr_pos (tuple_lit p _) = p
expr_pos (dict_lit p _ _) = p
expr_pos (fstring_lit p _) = p
