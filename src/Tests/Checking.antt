-- ===== src/Tests/Checking.antt =====
-- The checks of the compiler on small programs, and the theorems on them there.
use minipy.Base.{◌≡◌, ◌≢◌, refl, true, false, [], ◌∷◌, codes, Bool}
use minipy.Base.Int.{pos}
use minipy.Token.{Pos}
use minipy.Parser.Ast.{Expr}
use minipy.Parser.Ast.Stmts.{Stmt, Stmts, Handlers, of_stmts}
use minipy.Token.{TokenType}
use minipy.Parser.Ast.{Exprs}
use minipy.Types.Defs.{Ty, Tys, int_type, invalid_type, equal, primitive_eq, of_list}
use minipy.Types.Unions.{
  new_union, to_union, collect, sort_by, insert_by, flatten_list, flatten, has_equal,
}
use minipy.Types.Unions.Normal.{IsNormal, new_union-IsNormal}
use minipy.Types.Strings.{string, bytes_lt}
use minipy.Tests.Typing.{quotes}
use minipy.Compiler.Narrow.{
  type_of_none, narrowings, fold, guard, folded, is_known, concrete, by_identity, Checker,
  with_narrow, Calls,
}
use minipy.Compiler.Narrow.Members.{Tests, Splits, fold-narrowings, narrowings-Splits}
use minipy.Compiler.Narrow.Overlay.{IsRegion, with_narrow-IsRegion}
use minipy.Compiler.Table.{Table, put}
use minipy.Base.{some, map, get_elem?, List}
use minipy.Types.Defs.{list}
use minipy.Builtins.Rules.{enumerate_rule}
use minipy.Builtins.Specs.{Spec, spec, specs, check_builtin}
use minipy.Builtins.Rules.Whole.{whole, AreWhole}
use minipy.Builtins.Specs.Settled.{IsSettled, check_builtin-IsSettled}
use minipy.Compiler.Flow.{block_returns, try_returns}
use minipy.Compiler.Flow.Unnested.{unnested}
use minipy.Compiler.Flow.Paths.{Outcome, Runs, Acts, Tries, Catches}
use minipy.Compiler.Flow.Sound.{block_returns-leaves}

abbrev spot : Pos
spot = record { line = 1; column = 1 }

abbrev return_one : Stmts
return_one = of_stmts (Stmt.return_stmt spot (Expr.int_lit spot (pos 1)) ∷ [])

-- try: return 1, except: `body`.
abbrev try_one : Stmts → Stmts → Stmts
try_one body handler = of_stmts (
    Stmt.try_stmt spot body (Handlers.handler spot Expr.nil [] handler false Handlers.no_handler)
      Stmts.end_stmts Stmts.end_stmts
    ∷ [])

block_returns-leaves_example : ¬ Runs (try_one return_one return_one) Outcome.falls
unfolding unnested block_returns of_stmts
block_returns-leaves_example = block_returns-leaves (try_one return_one return_one) refl refl

-- A block with nested_try handlers that `blockReturns` accepts, and a way through it that falls off:
-- the inner handler passes.
abbrev nested_try : Stmts
nested_try = try_one (try_one return_one (of_stmts (Stmt.pass_stmt spot ∷ []))) return_one

block_returns-nested_try : block_returns nested_try ≡ true
unfolding block_returns of_stmts try_returns
block_returns-nested_try = refl

raises_ne_falls : Outcome.raises ≢ Outcome.falls
raises_ne_falls e = cc

through :
    {body handler : Stmts}
    → Runs body Outcome.raises
    → Runs handler Outcome.falls
    → Runs (try_one body handler) Outcome.falls
unfolding of_stmts
through r h = Runs.onward (Acts.try_kept (Tries.handled r (Catches.caught h)) Runs.ended) Runs.ended

nested_try_falls : Runs nested_try Outcome.falls
unfolding of_stmts
nested_try_falls =
    Runs.onward
      (Acts.try_kept
        (Tries.completed
          (through (Runs.left Acts.failed raises_ne_falls)
            (Runs.onward (Acts.simple refl) Runs.ended))
          Runs.ended)
        Runs.ended)
      Runs.ended

-- if x is None: return 1.
abbrev x_is_none : Expr
x_is_none =
    Expr.compare spot (Expr.name spot (codes "x")) (TokenType.is_word ∷ [])
      (Exprs.expr (Expr.none_lit spot) Exprs.no_expr)

abbrev optional_members : Tys
optional_members = Tys.next type_of_none (Tys.next int_type Tys.none_left)

optional_IsNormal : IsNormal quotes (Ty.union optional_members)
unfolding new_union to_union collect sort_by insert_by flatten_list flatten has_equal equal
    primitive_eq string bytes_lt of_list quotes
optional_IsNormal = new_union-IsNormal quotes (int_type ∷ type_of_none ∷ [])

abbrev unresolved : Expr → Ty
unresolved e = invalid_type

fold-narrowings_example : narrowings quotes (λ _. type_of_none) unresolved x_is_none ≡ ([], [])
unfolding fold guard folded is_known concrete by_identity equal primitive_eq
fold-narrowings_example = fold-narrowings quotes (λ _. type_of_none) unresolved x_is_none true refl

narrowings-Splits_example :
    Splits
      (codes "x")
      optional_members
      type_of_none
      true
      (narrowings quotes (λ _. Ty.union optional_members) unresolved x_is_none)
unfolding guard
narrowings-Splits_example =
    narrowings-Splits quotes (λ _. Ty.union optional_members) unresolved x_is_none (codes "x")
      optional_members type_of_none true Tests.by_is refl optional_IsNormal

-- A region in which x is narrowed to int, with a body that narrows x and y anew.
abbrev only_x : Table Ty
only_x = (codes "x", int_type) ∷ []

abbrev renew : Checker Bool → Checker Bool
renew c = record c { narrowed = put (codes "x") type_of_none (put (codes "y") int_type c.narrowed) }

abbrev optional_x : Checker Bool
optional_x = record { narrowed = (codes "x", Ty.union optional_members) ∷ []; rest = true }

with_narrow-IsRegion_example :
    IsRegion only_x renew optional_x (with_narrow only_x renew optional_x)
with_narrow-IsRegion_example = with_narrow-IsRegion only_x renew optional_x (refl, tt)

-- A checker in whose statements x is narrowed anew, and a block with a guard that returns.
abbrev renewing : Calls Bool
renewing = record {
  quote = quotes;
  check = λ s. renew;
  current = λ c x. Ty.union optional_members;
  resolve = λ c. unresolved;
}

abbrev leave_if_none : Stmt
leave_if_none = Stmt.if_stmt spot x_is_none return_one Stmts.end_stmts

abbrev passing : Stmts
passing = of_stmts (Stmt.pass_stmt spot ∷ [])

-- enumerate([…]) for a list of int.
abbrev of_ints : Expr → Ty
of_ints e = list int_type

abbrev one_arg : List Expr
one_arg = Expr.name spot (codes "xs") ∷ []

abbrev enumerate_spec : Spec
enumerate_spec = spec (codes "enumerate") 1 1 enumerate_rule

seventh : get_elem? (specs quotes) 7 ≡ some enumerate_spec
unfolding specs
seventh = refl

ints-AreWhole : AreWhole (map of_ints one_arg)
unfolding whole
ints-AreWhole = (refl, tt)

check_builtin-IsSettled_example : IsSettled (check_builtin of_ints enumerate_spec one_arg spot)
check_builtin-IsSettled_example =
    check_builtin-IsSettled quotes of_ints 7 enumerate_spec one_arg spot seventh ints-AreWhole
