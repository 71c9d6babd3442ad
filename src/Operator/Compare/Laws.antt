-- ===== src/Operator/Compare/Laws.antt =====
-- What `Comparable` accepts in an order, and with the operands exchanged.
use minipy.Base.{
  List, [], ◌∷◌, Bool, true, false, ◌&&◌, ◌||◌, Bytes, ◌≡◌, refl, arith, ap, sym, ◌∙◌,
}
use minipy.Token.{TokenType, Pos, type_eq}
use minipy.Types.Defs.{Ty, equal, is_invalid, is_dynamic}
use minipy.Types.Equality.{equal_equivalence}
use minipy.Types.Unions.{erase}
use minipy.Operator.{Report, is_set}
use minipy.Operator.Compare.{
  compare_identity, compare_order, compare_values, compare_erased, comparable, is_ordering_op,
  is_mixed, orderable,
}

-- Nothing is reported.
abbrev pub is_accepted : List Report → Bool
is_accepted [] = true
is_accepted (_ ∷ _) = false

equal_comm : (t u : Ty) → equal t u ≡ equal u t
equal_comm t u = (equal_equivalence t u u).1

-- The operators whose operands may be exchanged.
abbrev is_symmetric : TokenType → Bool
is_symmetric TokenType.eq = true
is_symmetric TokenType.ne = true
is_symmetric TokenType.is_word = true
is_symmetric TokenType.isnot = true
is_symmetric _ = false

identity_sym :
    (op : TokenType) (l r : Ty) (p : Pos)
    → is_accepted (compare_identity op l r p) ≡ is_accepted (compare_identity op r l p)
unfolding compare_identity
identity_sym op l r p = ground arith

values_sym :
    (quote : Bytes → Bytes) (op : TokenType) (l r : Ty) (p : Pos)
    → is_ordering_op op ≡ false
    → is_accepted (compare_values quote op l r p) ≡ is_accepted (compare_values quote op r l p)
unfolding compare_values compare_order
values_sym quote op l r p h = ground (arith, equal_comm l r)

erased_sym :
    (quote : Bytes → Bytes) (op : TokenType) (l r : Ty) (p : Pos)
    → is_symmetric op ≡ true
    → is_accepted (compare_erased quote op l r p) ≡ is_accepted (compare_erased quote op r l p)
unfolding compare_erased is_ordering_op
erased_sym quote TokenType.eq l r p h = values_sym quote TokenType.eq l r p refl
erased_sym quote TokenType.ne l r p h = values_sym quote TokenType.ne l r p refl
erased_sym quote TokenType.is_word l r p h = identity_sym TokenType.is_word l r p
erased_sym quote TokenType.isnot l r p h = identity_sym TokenType.isnot l r p
erased_sym quote _ l r p h = cc

-- `==`, `!=`, `is` and `is not` are accepted for two types exactly if they are for the types
-- exchanged.
pub comparable_sym :
    (quote : Bytes → Bytes) (op : TokenType) (left right : Ty) (p : Pos)
    → is_symmetric op ≡ true
    → is_accepted (comparable quote op left right p)
      ≡ is_accepted (comparable quote op right left p)
unfolding comparable
comparable_sym quote op left right p h =
    ground (arith, erased_sym quote op (erase quote left) (erase quote right) p h)

ordered_values :
    (quote : Bytes → Bytes) (op : TokenType) (l r : Ty) (p : Pos)
    → is_ordering_op op ≡ true
    → (is_dynamic l || is_dynamic r) ≡ false
    → is_accepted (compare_values quote op l r p) ≡ true
    → (is_mixed l r || (equal l r && (is_set l || orderable quote l))) ≡ true
unfolding compare_values compare_order is_ordering_op type_eq
ordered_values quote TokenType.lt l r p h k e = ground arith
ordered_values quote TokenType.le l r p h k e = ground arith
ordered_values quote TokenType.gt l r p h k e = ground arith
ordered_values quote TokenType.ge l r p h k e = ground arith
ordered_values quote _ l r p h k e = cc

ordering_values :
    (quote : Bytes → Bytes) (op : TokenType) (l r : Ty) (p : Pos)
    → is_ordering_op op ≡ true
    → compare_erased quote op l r p ≡ compare_values quote op l r p
unfolding compare_erased is_ordering_op
ordering_values quote TokenType.lt l r p h = refl
ordering_values quote TokenType.le l r p h = refl
ordering_values quote TokenType.gt l r p h = refl
ordering_values quote TokenType.ge l r p h = refl
ordering_values quote _ l r p h = cc

-- Where `<`, `<=`, `>` or `>=` is accepted for two types that, once erased, are neither invalid nor
-- dynamic, one is int and the other float, or they are equal and sets or orderable.
pub comparable-ordered :
    (quote : Bytes → Bytes) (op : TokenType) (left right : Ty) (p : Pos)
    → is_ordering_op op ≡ true
    → (is_invalid (erase quote left) || is_invalid (erase quote right)) ≡ false
    → (is_dynamic (erase quote left) || is_dynamic (erase quote right)) ≡ false
    → is_accepted (comparable quote op left right p) ≡ true
    → (is_mixed (erase quote left) (erase quote right)
        || (equal (erase quote left) (erase quote right)
            && (is_set (erase quote left) || orderable quote (erase quote left))))
      ≡ true
unfolding comparable
comparable-ordered quote op left right p h v k e =
    ordered_values quote op (erase quote left) (erase quote right) p h k (
      ap is_accepted (sym (ordering_values quote op (erase quote left) (erase quote right) p h))
      ∙ (rw v at e))
