-- ===== src/Tests/Operators.antt =====
-- The typing rules of operators at small inputs, and the theorems on them there.
use minipy.Operator.{is_set}
use minipy.Types.Defs.{primitive_eq, is_dynamic, equal}
use minipy.Operator.Compare.{
  compare_erased, compare_values, compare_order, is_ordering_op, orderable, comparable,
}
use minipy.Types.Unions.{erase}
use minipy.Operator.Binary.Laws.{IsDecided, binary_type-IsDecided, binary_type_comm}
use minipy.Operator.Binary.{is_mixed, binary_type}
use minipy.Operator.Compare.Laws.{is_accepted, comparable_sym, comparable-ordered}
use minipy.Operator.Compare.{comparable}
use minipy.Base.{◌≡◌, refl, true, ◌&&◌, ◌||◌}
use minipy.Token.{TokenType, Pos}
use minipy.Types.Defs.{Ty, list, int_type, float_type, equal}
use minipy.Tests.Typing.{quotes}

abbrev start : Pos
start = record { line = 1; column = 1 }

abbrev ints : Ty
ints = list int_type

binary_type-IsDecided_example : IsDecided (binary_type quotes ints TokenType.plus int_type start)
binary_type-IsDecided_example =
    binary_type-IsDecided quotes ints int_type TokenType.plus start refl (unfold erase in refl)
      (unfold erase in refl)

binary_type_comm_example :
    (binary_type quotes ints TokenType.star int_type start).0
    ≡ (binary_type quotes int_type TokenType.star ints start).0
binary_type_comm_example = binary_type_comm quotes ints int_type TokenType.star start refl

comparable_sym_example :
    is_accepted (comparable quotes TokenType.eq ints float_type start)
    ≡ is_accepted (comparable quotes TokenType.eq float_type ints start)
comparable_sym_example = comparable_sym quotes TokenType.eq ints float_type start refl

ints-accepted : is_accepted (comparable quotes TokenType.lt ints ints start) ≡ true
unfolding comparable erase compare_erased compare_values equal is_dynamic primitive_eq compare_order
    is_ordering_op orderable
ints-accepted = refl

comparable-ordered_example :
    (is_mixed (erase quotes ints) (erase quotes ints)
      || (equal (erase quotes ints) (erase quotes ints)
          && (is_set (erase quotes ints) || orderable quotes (erase quotes ints))))
    ≡ true
comparable-ordered_example =
    comparable-ordered quotes TokenType.lt ints ints start (unfold is_ordering_op in refl)
      (unfold erase in refl) (unfold erase is_dynamic equal in refl) ints-accepted
