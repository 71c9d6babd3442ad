-- ===== src/Types/Ordering.antt =====
-- `Orderable`, types/types.go.
pub mod Fuel
use minipy.Base.{
  ℕ, zero, suc, ◌+◌, Bool, true, false, ◌||◌, Option, none, some, Bytes, if◌then◌else◌,
}
use minipy.Types.Defs.{
  Ty, primitive, literal, tuple, union, Tys, none_left, next, Primitive, int_type, float_type,
  equal,
}
use minipy.Types.Unions.{erase}

-- The loop over the elements of a tuple.
unfoldable pub all_orderable : (Ty → Option Bool) → Tys → Option Bool
all_orderable rec none_left = some true
all_orderable rec (next t ts) = elim (rec t) [
  | none ↦ none
  | some true ↦ all_orderable rec ts
  | some false ↦ some false
]

-- The test for a tuple, on the erased type.
unfoldable pub orderable_tuple : (Ty → Option Bool) → Ty → Option Bool
orderable_tuple rec (tuple ts) = all_orderable rec ts
orderable_tuple rec t = some false

abbrev pub is_ordered_scalar : Ty → Bool
is_ordered_scalar t =
    equal t int_type
    || equal t float_type
    || equal t (primitive Primitive.bool)
    || equal t (primitive Primitive.str)

-- `Orderable`, `none` out of fuel.
unfoldable pub orderable_within : (Bytes → Bytes) → ℕ → Ty → Option Bool
orderable_within quote zero t = none
orderable_within quote (suc fuel) t =
    let e = erase quote t in
    let rest = orderable_tuple (orderable_within quote fuel) e in
    if is_ordered_scalar e then some true else rest

-- The tuples in the elements and members that the recursion goes through.
unfoldable mutual
  pub tuples : Ty → ℕ
  tuples (literal base _) = tuples base
  tuples (union ts) = all_tuples ts
  tuples (tuple ts) = suc (all_tuples ts)
  tuples _ = 0

  pub all_tuples : Tys → ℕ
  all_tuples none_left = 0
  all_tuples (next t ts) = tuples t + all_tuples ts

-- With a round for each tuple and one more.
unfoldable pub is_orderable : (Bytes → Bytes) → Ty → Option Bool
is_orderable quote t = orderable_within quote (suc (tuples t)) t
