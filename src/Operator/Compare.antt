-- ===== src/Operator/Compare.antt =====
-- `Comparable`, `ContainsType` and the predicates on types that they use.
pub mod Laws
use minipy.Base.{List, [], ◌∷◌, Bool, true, false, not, ◌&&◌, ◌||◌, if◌then◌else◌, Bytes}
use minipy.Token.{TokenType, Pos, type_eq}
use minipy.Token.Errors.{Code}
use minipy.Types.Defs.{
  Ty, nil, primitive, list, dict, set, tuple, class, iterator, callable, literal, module_type,
  union, Tys, none_left, next, Primitive, equal, int_type, float_type, is_any, is_invalid,
  is_dynamic,
}
use minipy.Types.Unions.{erase}
use minipy.Types.Assign.{assignable_to}
use minipy.Operator.{Complaint, Report, is_set}
use minipy.Operator.Binary.{str_type, bytes_type, bool_type, is_mixed}

abbrev none_type : Ty
none_type = primitive Primitive.none

abbrev ellipsis_type : Ty
ellipsis_type = primitive Primitive.ellipsis

-- `isOrderingOp`.
unfoldable pub is_ordering_op : TokenType → Bool
is_ordering_op TokenType.lt = true
is_ordering_op TokenType.le = true
is_ordering_op TokenType.gt = true
is_ordering_op TokenType.ge = true
is_ordering_op _ = false

-- `orderableElem`.
unfoldable pub orderable_elem : (Bytes → Bytes) → Ty → Bool
orderable_elem quote t =
    let e = erase quote t in
    equal e int_type || equal e float_type || equal e bool_type || equal e str_type

unfoldable pub orderable_elems : (Bytes → Bytes) → Tys → Bool
unfolding orderable_elem
orderable_elems quote none_left = true
orderable_elems quote (next t ts) = orderable_elem quote t && orderable_elems quote ts

-- The `switch` of `orderable`.
orderable_container : (Bytes → Bytes) → Ty → Bool
unfolding orderable_elems
orderable_container quote (list a) = orderable_elem quote a
orderable_container quote (tuple ts) = orderable_elems quote ts
orderable_container quote _ = false

-- `orderable`.
unfoldable pub orderable : (Bytes → Bytes) → Ty → Bool
unfolding orderable_container
orderable quote t = let e = erase quote t in orderable_elem quote e || orderable_container quote e

is_reference : Ty → Bool
is_reference (list _) = true
is_reference (dict _ _) = true
is_reference (set _) = true
is_reference (tuple _) = true
is_reference (class _ _) = true
is_reference (iterator _) = true
is_reference (callable _ _) = true
is_reference (union _) = true
is_reference _ = false

-- `identityComparable`.
unfoldable pub identity_comparable : Ty → Bool
unfolding is_reference
identity_comparable t =
    (equal t none_type || equal t ellipsis_type || equal t str_type || is_any t) || is_reference t

-- The `switch` of `ContainsType`.
contains_in : Ty → Ty → Bool
contains_in needle (list a) = assignable_to needle a
contains_in needle (dict k _) = assignable_to needle k
contains_in needle (set a) = assignable_to needle a
contains_in needle haystack =
    if equal haystack bytes_type
    then equal needle int_type
    else equal haystack str_type && equal needle str_type

-- `ContainsType`.
unfoldable pub contains_type : Ty → Ty → Bool
unfolding contains_in
contains_type needle haystack = if is_dynamic haystack then true else contains_in needle haystack

abbrev complain : Pos → Code → Complaint → List Report
complain p code complaint = record { pos = p; code = code; complaint = complaint } ∷ []

abbrev not_supported : TokenType → Ty → Ty → Pos → List Report
not_supported op left right p =
    complain p Code.not_comparable (Complaint.not_comparable op left right)

-- `!=` on `bool`.
abbrev differ : Bool → Bool → Bool
differ a b = (a && not b) || (not a && b)

-- `is` and `is not`.
unfoldable pub compare_identity : TokenType → Ty → Ty → Pos → List Report
compare_identity op left right p =
    if differ (equal left ellipsis_type) (equal right ellipsis_type)
    then complain p Code.type_mismatch (Complaint.ellipsis_operands op left right)
    else if not (identity_comparable left) || not (identity_comparable right)
    then complain p Code.type_mismatch (Complaint.reference_operands op left right)
    else []

-- `in` and `not in`.
unfoldable pub compare_membership : TokenType → Ty → Ty → Pos → List Report
compare_membership op left right p =
    if is_dynamic right
    then []
    else if contains_type left right
    then []
    else complain p Code.not_iterable (Complaint.no_container op left right)

-- What is left for operands of one type.
unfoldable pub compare_order : (Bytes → Bytes) → TokenType → Ty → Ty → Pos → List Report
compare_order quote op left right p =
    if is_ordering_op op
    then (if is_set left
        then []
        else if orderable quote left
        then []
        else not_supported op left right p)
    else []

-- `op != token.EQ && op != token.NE`.
abbrev is_other : TokenType → Bool
is_other op = not (type_eq op TokenType.eq) && not (type_eq op TokenType.ne)

-- The comparisons of values.
unfoldable pub compare_values : (Bytes → Bytes) → TokenType → Ty → Ty → Pos → List Report
compare_values quote op left right p =
    if equal left ellipsis_type || equal right ellipsis_type
    then (if differ (equal left ellipsis_type) (equal right ellipsis_type) || is_other op
        then not_supported op left right p
        else [])
    else if is_dynamic left || is_dynamic right
    then []
    else if equal left none_type || equal right none_type
    then complain p Code.unsupported_feature Complaint.comparing_to_none
    else if (equal left bytes_type || equal right bytes_type) && is_other op
    then not_supported op left right p
    else if equal left right
    then compare_order quote op left right p
    else if is_mixed left right
    then []
    else not_supported op left right p

-- The tests on the operator.
unfoldable pub compare_erased : (Bytes → Bytes) → TokenType → Ty → Ty → Pos → List Report
compare_erased quote TokenType.is_word left right p =
    compare_identity TokenType.is_word left right p
compare_erased quote TokenType.isnot left right p = compare_identity TokenType.isnot left right p
compare_erased quote TokenType.in_word left right p =
    compare_membership TokenType.in_word left right p
compare_erased quote TokenType.notin left right p = compare_membership TokenType.notin left right p
compare_erased quote op left right p = compare_values quote op left right p

-- `Comparable`.
unfoldable pub comparable : (Bytes → Bytes) → TokenType → Ty → Ty → Pos → List Report
comparable quote op left right p =
    let l = erase quote left in
    let r = erase quote right in
    if is_invalid l || is_invalid r then [] else compare_erased quote op l r p
