-- ===== src/Parser/Annotations.antt =====
-- Annotations, from `parseType` to `parseCallableType`.
pub mod Agree
use minipy.Base.{
  ℕ, Bool, true, false, ◌||◌, List, [], ◌∷◌, ◌++◌, Option, none, some, if◌then◌else◌, Bytes,
  bytes_eq, codes,
}
use minipy.Token.{TokenType, Pos, Token}
use minipy.Token.Errors.{Code, Message}
use minipy.Parser.Ast
use minipy.Parser.Ast.{Expr, name, attribute, of_exprs}
use minipy.Parser.State.{
  Action, return, ◌>>=◌, ◌>>◌, accept, accept_if, choose, at, next_at, current, report, expect,
}
use minipy.Parser.Grammar.{Env, Grammar}
use minipy.Parser.Displays.{at_close, string}

-- `typeSubscript`.
abbrev type_subscript : Pos → Expr → List Expr → Expr
type_subscript p base (arg ∷ []) = Ast.subscript p base arg
type_subscript p base args = Ast.subscript p base (Ast.tuple_lit p (of_exprs args))

-- The name that selects how a bracket is read.
abbrev base_name : Expr → Bytes
base_name (name _ n) = n
base_name (attribute _ _ n) = n
base_name _ = []

-- A name, or `None`, at the start of an annotation.
unfoldable pub annotation_name : TokenType → Option (Token → Bytes)
annotation_name TokenType.name = some λ t. t.literal
annotation_name TokenType.none_word = some λ _. codes "None"
annotation_name _ = none

unfoldable pub no_annotation : Action Expr
no_annotation = do
  t ← current
  report t.pos Code.unsupported_type (Message.expected_type t.type)
  return (name t.pos [])

module _ (env : Env) (g : Grammar) where
  -- The loop over the parts of a dotted name.
  unfoldable pub dotted_loop : Pos → Expr → Action Expr
  dotted_loop p x =
      choose (next_at TokenType.name)
        (accept TokenType.dot
          (λ _. do part ← expect TokenType.name; g.dotted_loop p (attribute p x part.literal))
          (return x))
        (return x)

  -- The loop over the arguments of a bracket, and that over the parameters of a `Callable`.
  unfoldable pub type_args : List Expr → Action (List Expr)
  type_args args = choose (at_close TokenType.rbracket) (return args) do
    arg ← g.annotation
    accept TokenType.comma (λ _. g.type_args (args ++ arg ∷ [])) (return (args ++ arg ∷ []))

  -- The loop over the arguments of a `Literal`.
  unfoldable pub literal_loop : List Expr → Action (List Expr)
  literal_loop args = choose (at_close TokenType.rbracket) (return args) do
    arg ← g.expression
    accept TokenType.comma (λ _. g.literal_loop (args ++ arg ∷ [])) (return (args ++ arg ∷ []))

  -- The loop over the metadata of an `Annotated`.
  unfoldable pub annotated_loop : List Expr → Action (List Expr)
  annotated_loop args =
      accept TokenType.comma
        (λ _.
          choose (at TokenType.rbracket) (return args)
            do arg ← g.expression; g.annotated_loop (args ++ arg ∷ []))
        (return args)

  -- `parseAnnotatedType`, `parseLiteralType`, `parseCallableType` and the case of any other name,
  -- behind the bracket.
  unfoldable pub annotated : Pos → Expr → Action Expr
  annotated p base = do
    args ←
        choose (at_close TokenType.rbracket) (return [])
          (do first ← g.annotation; g.annotated_loop (first ∷ []))
    expect TokenType.rbracket
    return (type_subscript p base args)

  unfoldable pub literal_type : Pos → Expr → Action Expr
  literal_type p base = do
    args ← g.literal_loop []
    expect TokenType.rbracket
    return (type_subscript p base args)

  unfoldable pub callable_type : Pos → Expr → Action Expr
  callable_type p base = do
    expect TokenType.lbracket
    params ← g.type_args []
    expect TokenType.rbracket
    expect TokenType.comma
    result ← g.annotation
    expect TokenType.rbracket
    return (
        Ast.subscript p base
          (Ast.tuple_lit p (of_exprs (Ast.tuple_lit p (of_exprs params) ∷ result ∷ []))))

  unfoldable pub generic_type : Pos → Expr → Action Expr
  generic_type p base = do
    args ← g.type_args []
    expect TokenType.rbracket
    return (type_subscript p base args)

  unfoldable pub bracketed : Pos → Expr → Action Expr
  bracketed p base =
      if bytes_eq (base_name base) (codes "Annotated")
      then annotated p base
      else if bytes_eq (base_name base) (codes "Literal")
      then literal_type p base
      else if bytes_eq (base_name base) (codes "Callable")
      then callable_type p base
      else generic_type p base

  -- `parseTypeAtom`. Without a name nothing is consumed.
  unfoldable pub annotation_atom : Action Expr
  annotation_atom =
      accept TokenType.string (λ t. string env g t)
        (accept_if annotation_name
          (λ text t. do
            base ← g.dotted_loop t.pos (name t.pos (text t))
            accept TokenType.lbracket (λ _. bracketed t.pos base) (return base))
          no_annotation)

  -- `parseType`, and its loop.
  unfoldable pub union_loop : List Expr → Action (List Expr)
  union_loop members =
      accept TokenType.pipe (λ _. do m ← g.annotation_atom; g.union_loop (members ++ m ∷ []))
        (return members)

  unfoldable pub annotation : Action Expr
  annotation = do
    t ← current
    first ← annotation_atom
    choose (at TokenType.pipe)
        (do members ← union_loop (first ∷ []); return (Ast.union_type t.pos (of_exprs members)))
        (return first)
