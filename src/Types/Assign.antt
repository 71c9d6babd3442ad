-- ===== src/Types/Assign.antt =====
-- `AssignableTo` with `unionAdmits` and `Literal.Contains`, and `Resolve`.
pub mod Fuel
pub mod Rules
use minipy.Base.{
  ℕ, zero, suc, ◌+◌, Bool, true, false, ◌&&◌, ◌||◌, List, [], ◌∷◌, if◌then◌else◌, Bytes, bytes_eq,
  codes,
}
use minipy.Types.Defs.{
  Ty, nil, primitive, literal, union, Tys, none_left, next, Primitive, LiteralValue, literal_eq,
  equal, is_any, is_nil, is_invalid, int_type, float_type, invalid_type, any_type, primitive_name,
}

-- `Literal.Contains`, of the values of the literal type.
unfoldable pub contains : List LiteralValue → LiteralValue → Bool
unfolding literal_eq
contains [] v = false
contains (w ∷ ws) v = literal_eq w v || contains ws v

unfoldable pub all_contained : List LiteralValue → List LiteralValue → Bool
unfolding contains
all_contained ws [] = true
all_contained ws (v ∷ vs) = contains ws v && all_contained ws vs

-- `unionAdmits`, of the members of the union; `rec` stands for the calls of `AssignableTo`.
unfoldable pub union_admits : (Ty → Ty → Bool) → Tys → Ty → Bool
union_admits rec none_left t = false
union_admits rec (next m ms) t = (equal m t || rec t m) || union_admits rec ms t

unfoldable pub all_admitted : (Ty → Ty → Bool) → Tys → Tys → Bool
all_admitted rec ds none_left = true
all_admitted rec ds (next m ms) = union_admits rec ds m && all_admitted rec ds ms

-- The last cases of `AssignableTo`: a union as the destination.
unfoldable pub into_union : (Ty → Ty → Bool) → Ty → Ty → Bool
unfolding all_admitted
into_union rec (union ss) (union ds) = all_admitted rec ds ss
into_union rec src (union ds) = union_admits rec ds src
into_union rec src dst = false

-- The cases on literal types.
unfoldable pub refined : (Ty → Ty → Bool) → Ty → Ty → Bool
unfolding all_contained into_union
refined rec (literal _ vs) (literal _ ws) = all_contained ws vs
refined rec src (literal _ _) = false
refined rec (literal base vs) (union ds) = union_admits rec ds (literal base vs)
refined rec (literal base vs) dst = rec base dst
refined rec src dst = if is_any dst then true else into_union rec src dst

-- The body of `AssignableTo`.
unfoldable pub assign_step : (Ty → Ty → Bool) → Ty → Ty → Bool
assign_step rec src dst =
    if is_nil src || (is_nil dst || (is_invalid src || is_invalid dst))
    then false
    else if equal src dst
    then true
    else if equal src int_type && equal dst float_type
    then true
    else refined rec src dst

unfoldable pub assignable : ℕ → Ty → Ty → Bool
assignable zero src dst = false
assignable (suc fuel) src dst = assign_step (assignable fuel) src dst

-- The calls go from a literal to its base, and from a union to its members.
unfoldable mutual
  pub size : Ty → ℕ
  size (literal base _) = suc (size base)
  size (union ts) = suc (sizes ts)
  size _ = 1

  pub sizes : Tys → ℕ
  sizes none_left = 0
  sizes (next t ts) = size t + sizes ts

-- `AssignableTo`.
unfoldable pub assignable_to : Ty → Ty → Bool
assignable_to src dst = assignable (size src + size dst) src dst

-- The names that the `switch` of `Resolve` has, with their types.
abbrev resolvable : List Primitive
resolvable =
    Primitive.int ∷ Primitive.float ∷ Primitive.bool ∷ Primitive.str ∷ Primitive.bytes
    ∷ Primitive.ellipsis ∷ Primitive.none ∷ Primitive.any ∷ []

resolve_in : List Primitive → Bytes → Ty × Bool
resolve_in [] name = (invalid_type, false)
resolve_in (p ∷ ps) name =
    let rest = resolve_in ps name in
    if bytes_eq name (codes (primitive_name p)) then (primitive p, true) else rest

-- `Resolve`: the `case` of each name is the text of the type that it returns.
unfoldable pub resolve : Bytes → Ty × Bool
unfolding resolve_in primitive_name bytes_eq
resolve name = resolve_in resolvable name
