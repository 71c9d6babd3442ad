-- ===== src/Tests/Typing.antt =====
-- Types at small inputs, and the theorems on them there.
use minipy.Types.Literals.{new_literal}
use minipy.Types.Literals.Values.{values, new_literal-contains}
use minipy.Types.Unions.{to_union, collect, sort_by, insert_by}
use minipy.Types.Strings.{bytes_lt, string}
use minipy.Types.Assign.{into_union, assign_step, refined, union_admits, contains}
use minipy.Types.Defs.{of_list}
use minipy.Types.Assign.Rules.Sound.{assignable_to-Flows}
use minipy.Types.Assign.Rules.{Flows}
use minipy.Types.Equality.{equal_equivalence}
use minipy.Types.Unions.Normal.{
  IsNormal, new_union_idempotent, new_union-IsNormal, IsMember, new_union-members, Plain,
}
use minipy.Types.Assign.{assignable_to, assignable, size}
use minipy.Types.Unions.{flatten_list, new_union, has_equal, flatten}
use minipy.Base.{◌≡◌, refl, true, false, [], ◌∷◌, codes, List, Bytes, ◌++◌, ◌↔◌, arith}
use minipy.Base.Int.{pos}
use minipy.Base.{ℕ, Bool, some, ◌≤◌}
use minipy.Types.Ordering.{orderable_within, orderable_tuple, all_orderable, is_orderable, tuples}
use minipy.Types.Ordering.Fuel.{orderable_within-Settles}
use minipy.Types.Unions.{erase}
use minipy.Types.Defs.{tuple}
use minipy.Types.Defs.{
  Ty, any_type, int_type, equal, primitive, literal, union, LiteralValue, next, list, Primitive,
  none_left, primitive_eq,
}

-- Double quotes around the text: what `strconv.Quote` does to printable ASCII without quotes.
abbrev pub quotes : Bytes → Bytes
quotes s = codes "\"" ++ s ++ codes "\""

abbrev str_type : Ty
str_type = primitive Primitive.str

abbrev mixed : List Ty
mixed = str_type ∷ union (next int_type (next (list str_type) none_left)) ∷ int_type ∷ []

new_union-mixed :
    new_union quotes mixed ≡ union (next int_type (next (list str_type) (next str_type none_left)))
unfolding new_union to_union collect flatten_list flatten equal primitive_eq has_equal of_list
    sort_by insert_by bytes_lt string
new_union-mixed = refl

-- `Literal["a", 1]`, whose base is `int | str`.
abbrev either : Ty
either = union (next int_type (next str_type none_left))

abbrev refinement : Ty
refinement =
    literal either (LiteralValue.str_literal (codes "a") ∷ LiteralValue.int_literal (pos 1) ∷ [])

-- The refinement does not flow into its own base, although the base does.
refinement-either : (assignable_to refinement either ≡ false) × (assignable_to either either ≡ true)
unfolding assignable_to assignable size assign_step equal refined union_admits primitive_eq
refinement-either = (refl, refl)

equal_equivalence_example :
    (equal either either ≡ true)
    × (equal either int_type ≡ equal int_type either)
    × (equal either int_type ≡ true → equal int_type str_type ≡ true → equal either str_type ≡ true)
equal_equivalence_example = equal_equivalence either int_type str_type

new_union-IsNormal_example : IsNormal quotes (new_union quotes mixed)
new_union-IsNormal_example = new_union-IsNormal quotes mixed

new_union_idempotent_example :
    new_union quotes (new_union quotes mixed ∷ []) ≡ new_union quotes mixed
new_union_idempotent_example = new_union_idempotent quotes mixed

mixed-Plain : Plain mixed
unfolding flatten_list flatten equal primitive_eq
mixed-Plain = (refl, (refl, (refl, (refl, tt))))

list-IsMember : IsMember (list str_type)
unfolding equal
list-IsMember = refl

new_union-members_example :
    has_equal (list str_type) (flatten (new_union quotes mixed))
    ≡ has_equal (list str_type) (flatten_list mixed)
new_union-members_example = new_union-members quotes mixed (list str_type) mixed-Plain list-IsMember

-- `Any` does not flow into int.
assignable_to-any : assignable_to any_type int_type ≡ false
unfolding assignable_to assignable size assign_step refined equal primitive_eq into_union
assignable_to-any = refl

assignable_to-Flows_example : (assignable_to refinement either ≡ true) ↔ Flows refinement either
assignable_to-Flows_example = assignable_to-Flows refinement either

new_literal-contains_example :
    contains
      (values (
        new_literal quotes (
          LiteralValue.int_literal (pos 2)
          ∷ LiteralValue.int_literal (pos 1)
          ∷ LiteralValue.int_literal (pos 2)
          ∷ [])))
      (LiteralValue.int_literal (pos 1))
    ≡ contains
        (LiteralValue.int_literal (pos 2)
          ∷ LiteralValue.int_literal (pos 1)
          ∷ LiteralValue.int_literal (pos 2)
          ∷ [])
        (LiteralValue.int_literal (pos 1))
new_literal-contains_example =
    new_literal-contains quotes
      (LiteralValue.int_literal (pos 2)
        ∷ LiteralValue.int_literal (pos 1)
        ∷ LiteralValue.int_literal (pos 2)
        ∷ [])
      (LiteralValue.int_literal (pos 1))

-- tuple[Literal["a"], tuple[str]].
abbrev nested_pair : Ty
nested_pair = tuple (
    next (literal str_type (LiteralValue.str_literal (codes "a") ∷ []))
      (next (tuple (next str_type none_left)) none_left))

orderable_within-Settles_example :
    (b : Bool) × ((g : ℕ) → 3 ≤ g → orderable_within quotes g nested_pair ≡ some b)
orderable_within-Settles_example =
    orderable_within-Settles quotes 3 nested_pair (unfold tuples in omega arith)

nested_pair_orderable : is_orderable quotes nested_pair ≡ some true
unfolding is_orderable tuples orderable_within orderable_tuple all_orderable erase equal
    primitive_eq
nested_pair_orderable = refl
