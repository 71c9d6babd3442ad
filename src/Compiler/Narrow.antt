-- ===== src/Compiler/Narrow.antt =====
-- Flow-sensitive types, compiler/check.go: `narrowings`, `fold`, `withNarrow` and `checkBlock`, and
-- `concrete` of compiler/check_decl.go. The current type of a name and the type that an annotation
-- stands for are arguments, as `fold` has them; the diagnostics of `resolveType` are left out.
pub mod Members
pub mod Overlay
use minipy.Base.{
  Bool, true, false, not, ◌&&◌, ◌||◌, List, [], ◌∷◌, Option, none, some, Bytes, bytes_eq, codes,
  if◌then◌else◌,
}
use minipy.Token.{TokenType, Pos}
use minipy.Parser.Ast.{Expr, Exprs}
use minipy.Parser.Ast.Stmts.{Stmt, Stmts}
use minipy.Types.Defs.{Ty, Primitive, primitive, equal, is_any, is_invalid, is_nil, is_union}
use minipy.Types.Unions.{without}
use minipy.Types.Assign.{assignable_to}
use minipy.Compiler.Table.{Table, look_up, put, discard}
use minipy.Compiler.Flow.{block_returns, has_statements}
use Expr.{call_expr, compare, name, none_lit}
use Exprs.{no_expr, expr}
use Stmt.{if_stmt}
use Stmts.{end_stmts, stmt}

abbrev pub type_of_none : Ty
type_of_none = primitive Primitive.none

-- `narrowable`.
unfoldable pub narrowable : Ty → Bool
unfolding equal
narrowable t = is_union t || is_any t

-- `concrete`.
unfoldable pub concrete : Ty → Bool
unfolding equal
concrete t = not (is_nil t || is_invalid t || is_any t) && not (is_union t)

-- A condition as the two functions read it: `isinstance(NAME, e)` by the name and e, or `NAME` compared
-- with None by one operator, by the name and the operator.
pub data Guard : Type 0 where
  instance_of : Bytes → Expr → Guard
  compared : Bytes → TokenType → Guard
  other : Guard

unfoldable pub guard : Expr → Guard
unfolding bytes_eq
guard (call_expr _ (name _ f) (expr (name _ x) (expr e no_expr)) _ _ _) =
    if bytes_eq f (codes "isinstance") then instance_of x e else other
guard (compare _ (name _ x) (op ∷ []) (expr (none_lit _) _)) = compared x op
guard _ = other

-- An entry of `neg` or `pos` where there is a type left.
unfoldable pub entry : Bytes → Ty → Table Ty
entry x t = if is_invalid t then [] else put x t []

-- The refinements of a test of the name `x`, of the current type `cur`, for the type `t`: where the
-- test is true, and where it is false.
unfoldable pub split_by : (Bytes → Bytes) → Bytes → Ty → Ty → Table Ty × Table Ty
unfolding entry without
split_by quote x cur t = (put x t [], entry x (without quote cur t))

abbrev pub flip : Table Ty × Table Ty → Table Ty × Table Ty
flip (a, b) = (b, a)

unfoldable pub by_operator_is : (Bytes → Bytes) → Bytes → Ty → TokenType → Table Ty × Table Ty
unfolding split_by
by_operator_is quote x cur TokenType.is_word = split_by quote x cur type_of_none
by_operator_is quote x cur TokenType.isnot = flip (split_by quote x cur type_of_none)
by_operator_is quote x cur _ = ([], [])

-- `narrowings`: the types that a condition implies where it is true, and where it is false.
unfoldable pub narrowed_by :
    (Bytes → Bytes) → (Bytes → Ty) → (Expr → Ty) → Guard → Table Ty × Table Ty
unfolding narrowable split_by by_operator_is
narrowed_by quote current resolve (instance_of x e) =
    if narrowable (current x) && not (is_invalid (resolve e))
    then split_by quote x (current x) (resolve e)
    else ([], [])
narrowed_by quote current resolve (compared x op) =
    if narrowable (current x) then by_operator_is quote x (current x) op else ([], [])
narrowed_by quote current resolve other = ([], [])

unfoldable pub narrowings :
    (Bytes → Bytes) → (Bytes → Ty) → (Expr → Ty) → Expr → Table Ty × Table Ty
unfolding guard narrowed_by
narrowings quote current resolve cond = narrowed_by quote current resolve (guard cond)

-- `fold`: `none` where the truth of the condition is not known.
unfoldable pub is_known : Ty → Bool
unfolding concrete equal
is_known cur = concrete cur || equal cur type_of_none

unfoldable pub by_identity : Bool → TokenType → Option Bool
by_identity is_none TokenType.is_word = some is_none
by_identity is_none TokenType.isnot = some (not is_none)
by_identity is_none _ = none

unfoldable pub folded : (Bytes → Ty) → (Expr → Ty) → Guard → Option Bool
unfolding is_known by_identity assignable_to
folded current resolve (instance_of x e) =
    if is_known (current x) && not (is_nil (resolve e) || is_invalid (resolve e))
    then some (assignable_to (current x) (resolve e))
    else none
folded current resolve (compared x op) =
    if is_known (current x) then by_identity (equal (current x) type_of_none) op else none
folded current resolve other = none

unfoldable pub fold : (Bytes → Ty) → (Expr → Ty) → Expr → Option Bool
unfolding guard folded
fold current resolve cond = folded current resolve (guard cond)

-- The overlay `narrowed` and what else the checker holds.
pub record Checker (R : Type 0) : Type 0 where
  pub narrowed : Table Ty
  pub rest : R

-- The first loop of `withNarrow`: each binding is saved and replaced.
unfoldable pub overlay : Table Ty → Table Ty → List (Bytes × Option Ty) × Table Ty
unfolding look_up
overlay [] n = ([], n)
overlay ((k, t) ∷ m) n = let (old, over) = overlay m (put k t n) in ((k, look_up k n) ∷ old, over)

-- The second loop: each saved binding is put back.
unfoldable pub restore : List (Bytes × Option Ty) → Table Ty → Table Ty
unfolding discard
restore [] n = n
restore ((k, none) ∷ old) n = restore old (discard k n)
restore ((k, some t) ∷ old) n = restore old (put k t n)

-- `withNarrow`.
unfoldable pub with_narrow :
    {R : Type 0} → Table Ty → (Checker R → Checker R) → Checker R → Checker R
unfolding overlay restore
with_narrow [] body c = body c
with_narrow (e ∷ m) body c =
    let (old, over) = overlay (e ∷ m) c.narrowed in
    let after = body (record c { narrowed = over }) in
    record after { narrowed = restore old after.narrowed }

-- `checkBlock` and `ifStmt` with what they call: `stmt`, the current type of a name, the type that an
-- annotation stands for, `condition`, and the state of the initialised bindings.
pub record Calls (R : Type 0) : Type 0 where
  pub quote : Bytes → Bytes
  pub check : Stmt → Checker R → Checker R
  pub current : Checker R → Bytes → Ty
  pub resolve : Checker R → Expr → Ty

-- A statement behind which the negative refinements of its condition hold.
unfoldable pub leaving_condition : Stmt → Option Expr
unfolding block_returns
leaving_condition (if_stmt _ cond body orelse) =
    if has_statements orelse || not (block_returns body) then none else some cond
leaving_condition _ = none

unfoldable pub block_onward :
    {R : Type 0} → Calls R → (Checker R → Checker R) → Option Expr → Checker R → Checker R
unfolding fold narrowings with_narrow
block_onward calls others none c = others c
block_onward calls others (some cond) c = elim (fold (calls.current c) (calls.resolve c) cond) [
  | some true ↦ c
  | some false ↦ others c
  | none ↦ with_narrow (narrowings calls.quote (calls.current c) (calls.resolve c) cond).1 others c
]

-- `checkBlock`.
unfoldable pub check_block : {R : Type 0} → Calls R → Stmts → Checker R → Checker R
unfolding leaving_condition block_onward
check_block calls end_stmts c = c
check_block calls (stmt s ss) c =
    block_onward calls (check_block calls ss) (leaving_condition s) (calls.check s c)
