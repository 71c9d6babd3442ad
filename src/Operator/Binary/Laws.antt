-- ===== src/Operator/Binary/Laws.antt =====
-- What `BinaryType` reports, and the operators whose operands may be exchanged.
use minipy.Base.{
  [], ◌∷◌, Bool, true, false, ◌&&◌, ◌||◌, if◌then◌else◌, Bytes, ◌≡◌, refl, arith, and_true,
}
use minipy.Token.{TokenType, Pos}
use minipy.Types.Defs.{Ty, equal, is_invalid, is_dynamic, int_type, float_type, list}
use minipy.Types.Unions.{erase}
use minipy.Operator.{Checked, is_list, is_set}
use minipy.Operator.Binary.{
  arithmetic, plus_type, star_type, minus_type, bitwise_type, slash_type, shift_type, mismatch,
  by_operator, binary_type, both, is_mixed, str_type, bytes_type, assignable_to, any_type,
}

-- The operators that have a case.
abbrev is_binary : TokenType → Bool
is_binary TokenType.at = true
is_binary TokenType.plus = true
is_binary TokenType.star = true
is_binary TokenType.minus = true
is_binary TokenType.amp = true
is_binary TokenType.pipe = true
is_binary TokenType.caret = true
is_binary TokenType.doubleslash = true
is_binary TokenType.percent = true
is_binary TokenType.doublestar = true
is_binary TokenType.slash = true
is_binary TokenType.lshift = true
is_binary TokenType.rshift = true
is_binary _ = false

-- A valid type without a report, or `Invalid` with exactly one.
abbrev pub IsDecided : Checked → Type 0
IsDecided (t, []) = is_invalid t ≡ false
IsDecided (t, r ∷ []) = is_invalid t ≡ true
IsDecided (t, _ ∷ _ ∷ _) = ⊥

IsDecided-if :
    (b : Bool) (c d : Checked)
    → (b ≡ true → IsDecided c)
    → IsDecided d
    → IsDecided (if b then c else d)
IsDecided-if true c d h k = h refl
IsDecided-if false c d h k = k

and_first : (a b : Bool) → (a && b) ≡ true → a ≡ true
and_first a b h = (and_true a b h).0

module _ (op : TokenType) (left right : Ty) (p : Pos) where
  mismatch-IsDecided : IsDecided (mismatch op left right p)
  unfolding mismatch
  mismatch-IsDecided = refl

  arithmetic-IsDecided : IsDecided (arithmetic op left right p)
  unfolding arithmetic
  arithmetic-IsDecided =
      IsDecided-if (both int_type left right) _ _ (λ _. refl)
        (IsDecided-if (both float_type left right) _ _ (λ _. refl)
          (IsDecided-if (is_mixed left right) _ _ (λ _. refl)
            (IsDecided-if (is_dynamic left || is_dynamic right) _ _ (λ _. refl)
              mismatch-IsDecided)))

  bitwise-IsDecided : is_invalid left ≡ false → IsDecided (bitwise_type op left right p)
  unfolding bitwise_type
  bitwise-IsDecided h =
      IsDecided-if (is_set left && equal left right) _ _ (λ _. h)
        (IsDecided-if (both int_type left right) _ _ (λ _. refl)
          (IsDecided-if (is_dynamic left || is_dynamic right) _ _ (λ _. refl) mismatch-IsDecided))

  shift-IsDecided : IsDecided (shift_type op left right p)
  unfolding shift_type
  shift-IsDecided =
      IsDecided-if (both int_type left right) _ _ (λ _. refl)
        (IsDecided-if (is_dynamic left || is_dynamic right) _ _ (λ _. refl) mismatch-IsDecided)

module _ (left right : Ty) (p : Pos) (h : is_invalid left ≡ false)
    (k : is_invalid right ≡ false) where
  plus-IsDecided : IsDecided (plus_type left right p)
  unfolding plus_type
  plus-IsDecided =
      IsDecided-if (both str_type left right) _ _ (λ _. refl)
        (IsDecided-if (both bytes_type left right) _ _ (λ _. refl)
          (IsDecided-if (is_list left && assignable_to right left) _ _ (λ _. h)
            (IsDecided-if (is_dynamic left || is_dynamic right) _ _ (λ _. refl)
              (arithmetic-IsDecided TokenType.plus left right p))))

  star-IsDecided : IsDecided (star_type left right p)
  unfolding star_type
  star-IsDecided =
      IsDecided-if
        ((equal left str_type && equal right int_type)
          || (equal left int_type && equal right str_type))
        _ _ (λ _. refl)
        (IsDecided-if (is_list left && equal right int_type) _ _ (λ _. h)
          (IsDecided-if (is_list right && equal left int_type) _ _ (λ _. k)
            (IsDecided-if (is_dynamic left || is_dynamic right) _ _ (λ _. refl)
              (arithmetic-IsDecided TokenType.star left right p))))

  minus-IsDecided : IsDecided (minus_type left right p)
  unfolding minus_type
  minus-IsDecided =
      IsDecided-if (is_set left && equal left right) _ _ (λ _. h)
        (arithmetic-IsDecided TokenType.minus left right p)

  slash-IsDecided : IsDecided (slash_type left right p)
  unfolding slash_type
  slash-IsDecided =
      IsDecided-if (both int_type left right) _ _ (λ _. refl)
        (IsDecided-if (both float_type left right) _ _ (λ _. refl)
          (IsDecided-if (is_mixed left right) _ _ (λ _. refl)
            (IsDecided-if (is_dynamic left || is_dynamic right) _ _ (λ _. refl)
              (mismatch-IsDecided TokenType.slash left right p))))

  by_operator-IsDecided :
      (op : TokenType) → is_binary op ≡ true → IsDecided (by_operator op left right p)
  unfolding by_operator
  by_operator-IsDecided TokenType.at e = refl
  by_operator-IsDecided TokenType.plus e = plus-IsDecided
  by_operator-IsDecided TokenType.star e = star-IsDecided
  by_operator-IsDecided TokenType.minus e = minus-IsDecided
  by_operator-IsDecided TokenType.amp e = bitwise-IsDecided TokenType.amp left right p h
  by_operator-IsDecided TokenType.pipe e = bitwise-IsDecided TokenType.pipe left right p h
  by_operator-IsDecided TokenType.caret e = bitwise-IsDecided TokenType.caret left right p h
  by_operator-IsDecided TokenType.doubleslash e =
      arithmetic-IsDecided TokenType.doubleslash left right p
  by_operator-IsDecided TokenType.percent e = arithmetic-IsDecided TokenType.percent left right p
  by_operator-IsDecided TokenType.doublestar e =
      arithmetic-IsDecided TokenType.doublestar left right p
  by_operator-IsDecided TokenType.slash e = slash-IsDecided
  by_operator-IsDecided TokenType.lshift e = shift-IsDecided TokenType.lshift left right p
  by_operator-IsDecided TokenType.rshift e = shift-IsDecided TokenType.rshift left right p
  by_operator-IsDecided _ e = cc

-- For an operator with a case, and operands that are not invalid once erased, `BinaryType` returns
-- a type other than `Invalid` and reports nothing, or returns `Invalid` and reports one error.
pub binary_type-IsDecided :
    (quote : Bytes → Bytes) (left right : Ty) (op : TokenType) (p : Pos)
    → is_binary op ≡ true
    → is_invalid (erase quote left) ≡ false
    → is_invalid (erase quote right) ≡ false
    → IsDecided (binary_type quote left op right p)
unfolding binary_type
binary_type-IsDecided quote left right op p e h k =
    rw (h, k) (by_operator-IsDecided (erase quote left) (erase quote right) p h k op e)

-- The operators that do not tell their operands apart.
abbrev is_commutative : TokenType → Bool
is_commutative TokenType.star = true
is_commutative TokenType.doubleslash = true
is_commutative TokenType.percent = true
is_commutative TokenType.doublestar = true
is_commutative TokenType.slash = true
is_commutative TokenType.lshift = true
is_commutative TokenType.rshift = true
is_commutative _ = false

is_list-equal-int : (t : Ty) → equal t int_type ≡ true → is_list t ≡ false
unfolding equal
is_list-equal-int (list a) h = cc
is_list-equal-int _ h = refl

module _ (op : TokenType) (left right : Ty) (p : Pos) where
  arithmetic_comm : (arithmetic op left right p).0 ≡ (arithmetic op right left p).0
  unfolding arithmetic mismatch
  arithmetic_comm = ground arith

  shift_comm : (shift_type op left right p).0 ≡ (shift_type op right left p).0
  unfolding shift_type mismatch
  shift_comm = ground arith

slash_comm : (left right : Ty) (p : Pos) → (slash_type left right p).0 ≡ (slash_type right left p).0
unfolding slash_type mismatch
slash_comm left right p = ground arith

-- Two cases that exclude each other may be exchanged.
exchange :
    (a x y d : Bool) (s t u v : Checked) (w w' : Checked)
    → (x ≡ true → y ≡ false)
    → w.0 ≡ w'.0
    → (if a then s else if x then t else if y then u else if d then v else w).0
      ≡ (if a then s else if y then u else if x then t else if d then v else w').0
exchange true x y d s t u v w w' h k = refl
exchange false true y d s t u v w w' h k = rw (h refl) refl
exchange false false true d s t u v w w' h k = refl
exchange false false false true s t u v w w' h k = refl
exchange false false false false s t u v w w' h k = k

crossed : (a b c d : Bool) → ((a && b) || (c && d)) ≡ ((d && c) || (b && a))
crossed a b c d = ground arith

or_comm : (a b : Bool) → (a || b) ≡ (b || a)
or_comm a b = ground arith

one_list :
    (left right : Ty)
    → (is_list left && equal right int_type) ≡ true
    → (is_list right && equal left int_type) ≡ false
one_list left right h =
    rw (is_list-equal-int right (and_true (is_list left) (equal right int_type) h).1) refl

star_comm : (left right : Ty) (p : Pos) → (star_type left right p).0 ≡ (star_type right left p).0
unfolding star_type
star_comm left right p =
    rw
      (
        crossed (equal left str_type) (equal right int_type) (equal left int_type)
            (equal right str_type),
        or_comm (is_dynamic left) (is_dynamic right),
      )
      (exchange
        ((equal right str_type && equal left int_type)
          || (equal right int_type && equal left str_type))
        (is_list left && equal right int_type) (is_list right && equal left int_type)
        (is_dynamic right || is_dynamic left) (str_type, []) (left, []) (right, []) (any_type, [])
        (arithmetic TokenType.star left right p) (arithmetic TokenType.star right left p)
        (one_list left right) (arithmetic_comm TokenType.star left right p))

by_operator_comm :
    (op : TokenType) (left right : Ty) (p : Pos)
    → is_commutative op ≡ true
    → (by_operator op left right p).0 ≡ (by_operator op right left p).0
unfolding by_operator
by_operator_comm TokenType.star left right p h = star_comm left right p
by_operator_comm TokenType.doubleslash left right p h =
    arithmetic_comm TokenType.doubleslash left right p
by_operator_comm TokenType.percent left right p h = arithmetic_comm TokenType.percent left right p
by_operator_comm TokenType.doublestar left right p h =
    arithmetic_comm TokenType.doublestar left right p
by_operator_comm TokenType.slash left right p h = slash_comm left right p
by_operator_comm TokenType.lshift left right p h = shift_comm TokenType.lshift left right p
by_operator_comm TokenType.rshift left right p h = shift_comm TokenType.rshift left right p
by_operator_comm _ left right p h = cc

-- For `*`, `/`, `//`, `%`, `**`, `<<` and `>>` the type that `BinaryType` returns does not depend on
-- the order of the operands.
pub binary_type_comm :
    (quote : Bytes → Bytes) (left right : Ty) (op : TokenType) (p : Pos)
    → is_commutative op ≡ true
    → (binary_type quote left op right p).0 ≡ (binary_type quote right op left p).0
unfolding binary_type
binary_type_comm quote left right op p h =
    let e = by_operator_comm op (erase quote left) (erase quote right) p h in ground (arith, e)
