-- ===== src/Parser/Ast/Stmts.antt =====
-- Statements and patterns of the syntax tree, ast/ast.go. A `*Name` is its position and its text.
use minipy.Base.{ℕ, Bool, List, [], ◌∷◌, Option, Bytes}
use minipy.Token.{TokenType, Pos}
use minipy.Parser.Ast.{Expr, Keyword, Param}

-- `Star` of a sequence is the index of its first starred element; `none` for the -1 of the source.
mutual
  pub data Pattern : Type 0 where
    wildcard : Pos → Pattern
    capture star_pattern : Pos → Bytes → Pattern
    value_pattern : Pos → Expr → Pattern
    sequence : Pos → Patterns → Option ℕ → Pattern
    mapping : Pos → List Expr → Patterns → Bytes → Pattern
    class_pattern : Pos → Expr → Patterns → List Bytes → Patterns → Pattern
    or_pattern : Pos → Patterns → Pattern
    as_pattern : Pos → Pattern → Bytes → Pattern

  pub data Patterns : Type 0 where
    no_pattern : Patterns
    pattern : Pattern → Patterns → Patterns

unfoldable pub of_patterns : List Pattern → Patterns
of_patterns [] = no_pattern
of_patterns (p ∷ ps) = pattern p (of_patterns ps)

pub record ImportAlias : Type 0 where
  pub pos : Pos
  pub name : Bytes
  pub as_name : Bytes

pub record WithItem : Type 0 where
  pub pos : Pos
  pub context : Expr
  pub optional_vars : Expr

-- A nil statement is `no_stmt`. The targets of an assignment are one list, `Target` in front.
mutual
  pub data Stmt : Type 0 where
    no_stmt : Stmt
    pass_stmt break_stmt continue_stmt : Pos → Stmt
    ann_assign : Pos → Pos → Bytes → Expr → Expr → Stmt
    assign : Pos → List Expr → Expr → Stmt
    aug_assign : Pos → Expr → TokenType → Expr → Stmt
    expr_stmt return_stmt : Pos → Expr → Stmt
    yield_stmt : Pos → Expr → Bool → Stmt
    raise_stmt assert_stmt : Pos → Expr → Expr → Stmt
    global_stmt nonlocal_stmt : Pos → List Bytes → Stmt
    delete_stmt : Pos → List Expr → Stmt
    import_stmt : Pos → List ImportAlias → Stmt
    import_from : Pos → Bytes → List ImportAlias → ℕ → Stmt
    type_alias : Pos → Pos → Bytes → Expr → Stmt
    if_stmt while_stmt : Pos → Expr → Stmts → Stmts → Stmt
    for_stmt : Pos → Expr → Expr → Stmts → Stmts → Bool → Stmt
    try_stmt : Pos → Stmts → Handlers → Stmts → Stmts → Stmt
    with_stmt : Pos → List WithItem → Stmts → Bool → Stmt
    function : Pos → Pos → Bytes → List Param → Expr → List Expr → Stmts → Bool → Stmt
    class_stmt : Pos → Pos → Bytes → List Expr → List Keyword → List Expr → Stmts → Stmt
    match_stmt : Pos → Expr → Cases → Stmt

  pub data Stmts : Type 0 where
    end_stmts : Stmts
    stmt : Stmt → Stmts → Stmts

  -- `ExceptHandler`: its type, its name, its body, and whether it is `except*`.
  pub data Handlers : Type 0 where
    no_handler : Handlers
    handler : Pos → Expr → Bytes → Stmts → Bool → Handlers → Handlers

  -- `Case`: its pattern, its guard and its body.
  pub data Cases : Type 0 where
    no_case : Cases
    case : Pos → Pattern → Expr → Stmts → Cases → Cases

unfoldable pub of_stmts : List Stmt → Stmts
of_stmts [] = end_stmts
of_stmts (s ∷ ss) = stmt s (of_stmts ss)

pub record Handler : Type 0 where
  pub pos : Pos
  pub type : Expr
  pub name : Bytes
  pub body : List Stmt
  pub star : Bool

unfoldable pub of_handlers : List Handler → Handlers
unfolding of_stmts
of_handlers [] = no_handler
of_handlers (h ∷ hs) = handler h.pos h.type h.name (of_stmts h.body) h.star (of_handlers hs)

pub record Case : Type 0 where
  pub pos : Pos
  pub pattern : Pattern
  pub guard : Expr
  pub body : List Stmt

unfoldable pub of_cases : List Case → Cases
unfolding of_stmts
of_cases [] = no_case
of_cases (c ∷ cs) = case c.pos c.pattern c.guard (of_stmts c.body) (of_cases cs)
