-- ===== src/Types/Unions.antt =====
-- `NewUnion`, `Erase`, `Join`, `Without`, and the predicates on types that go over unions.
pub mod Sorting
pub mod Normal
use minipy.Base.{
  ℕ, Bool, true, false, not, ◌&&◌, ◌||◌, List, [], ◌∷◌, ◌++◌, map, ◌==◌, if◌then◌else◌, Bytes,
}
use minipy.Types.Defs.{
  Ty, nil, primitive, list, dict, set, tuple, iterator, literal, union, Tys, none_left, next,
  Primitive, to_list, of_list, invalid_type, int_type, float_type, any_type, is_any, is_invalid,
  is_nil, equal,
}
use minipy.Types.Strings.{bytes_lt, string}

-- The closure `add`: nested unions are flattened, nil members left out.
unfoldable mutual
  pub flatten : Ty → List Ty
  flatten nil = []
  flatten (union ts) = flatten_all ts
  flatten t = t ∷ []

  pub flatten_all : Tys → List Ty
  flatten_all none_left = []
  flatten_all (next t ts) = flatten t ++ flatten_all ts

-- The inner loop: whether a member of `uniq` is equal to `m`.
unfoldable pub has_equal : Ty → List Ty → Bool
has_equal m [] = false
has_equal m (u ∷ us) = equal m u || has_equal m us

-- The loop over the flat members ends with a return, or with the distinct ones.
pub data Collected : Type 0 where
  returned : Ty → Collected
  distinct : List Ty → Collected

unfoldable pub collect : List Ty → List Ty → Collected
collect [] uniq = distinct uniq
collect (m ∷ ms) uniq =
    let rest = collect ms (if has_equal m uniq then uniq else uniq ++ m ∷ []) in
    if is_invalid m then returned invalid_type else if is_any m then returned any_type else rest

-- `sort.Slice` by `String`, as an insertion sort; which of two members with one text comes first
-- is left open by the library, and is here the one that came first.
unfoldable pub insert_by : (Bytes → Bytes) → Ty → List Ty → List Ty
insert_by quote t [] = t ∷ []
insert_by quote t (u ∷ us) =
    let rest = insert_by quote t us in
    if bytes_lt (string quote u) (string quote t) then u ∷ rest else t ∷ u ∷ us

unfoldable pub sort_by : (Bytes → Bytes) → List Ty → List Ty
sort_by quote [] = []
sort_by quote (t ∷ ts) = insert_by quote t (sort_by quote ts)

-- The `switch` on the number of distinct members.
unfoldable pub to_union : (Bytes → Bytes) → Collected → Ty
to_union quote (returned t) = t
to_union quote (distinct []) = invalid_type
to_union quote (distinct (t ∷ [])) = t
to_union quote (distinct (t ∷ u ∷ us)) = union (of_list (sort_by quote (t ∷ u ∷ us)))

unfoldable pub flatten_list : List Ty → List Ty
flatten_list [] = []
flatten_list (t ∷ ts) = flatten t ++ flatten_list ts

-- `NewUnion`.
unfoldable pub new_union : (Bytes → Bytes) → List Ty → Ty
new_union quote members = to_union quote (collect (flatten_list members) [])

-- `Erase`.
unfoldable mutual
  pub erase : (Bytes → Bytes) → Ty → Ty
  erase quote (literal base _) = erase quote base
  erase quote (union ts) = new_union quote (erase_all quote ts)
  erase quote t = t

  pub erase_all : (Bytes → Bytes) → Tys → List Ty
  erase_all quote none_left = []
  erase_all quote (next t ts) = erase quote t ∷ erase_all quote ts

-- The test of `Join` for a mix of int and float, on the erased types.
pub is_promotion : Ty → Ty → Bool
is_promotion a b =
    (equal a int_type && equal b float_type) || (equal a float_type && equal b int_type)

-- `Join`.
unfoldable pub join_types : (Bytes → Bytes) → Ty → Ty → Ty
unfolding is_promotion
join_types quote a b =
    if is_nil a || is_invalid a
    then b
    else if is_nil b || is_invalid b
    then a
    else if equal a b
    then a
    else if is_any a || is_any b
    then any_type
    else if is_promotion (erase quote a) (erase quote b)
    then float_type
    else new_union quote (a ∷ b ∷ [])

-- The members that are not equal to `t`.
unfoldable pub keep_others : Ty → List Ty → List Ty
keep_others t [] = []
keep_others t (m ∷ ms) = let rest = keep_others t ms in if equal m t then rest else m ∷ rest

-- `Without`.
unfoldable pub without : (Bytes → Bytes) → Ty → Ty → Ty
without quote (union ts) t = new_union quote (keep_others t (to_list ts))
without quote u t = if equal u t then invalid_type else u

-- `IterableElem`.
unfoldable pub iterable_elem : Ty → Ty
iterable_elem (list a) = a
iterable_elem (dict k _) = k
iterable_elem (set a) = a
iterable_elem (iterator a) = a
iterable_elem (union _) = any_type
iterable_elem t =
    if equal t (primitive Primitive.str)
    then primitive Primitive.str
    else if equal t (primitive Primitive.bytes)
    then int_type
    else if is_any t
    then any_type
    else invalid_type

-- The scalar types that `Printable` accepts.
unfoldable pub is_printable_scalar : Ty → Bool
is_printable_scalar t =
    equal t int_type
    || equal t float_type
    || equal t (primitive Primitive.bool)
    || equal t (primitive Primitive.str)
    || equal t (primitive Primitive.none)
    || is_any t

-- `Printable`.
unfoldable mutual
  unfolding is_printable_scalar

  pub printable : Ty → Bool
  printable nil = false
  printable (primitive p) = not (is_invalid (primitive p)) && is_printable_scalar (primitive p)
  printable (list a) = printable a
  printable (dict k v) = printable k && printable v
  printable (set a) = printable a
  printable (tuple ts) = printable_all ts
  printable (literal base _) = printable base
  printable (union ts) = printable_all ts
  printable _ = false

  pub printable_all : Tys → Bool
  printable_all none_left = true
  printable_all (next t ts) = printable t && printable_all ts
