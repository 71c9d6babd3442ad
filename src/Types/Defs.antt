-- ===== src/Types/Defs.antt =====
-- The types, literal values and `Equal`. A value of the interface `Type` is `nil` or one of the
-- concrete types; a nil pointer inside the interface, which no constructor function makes, is left
-- out. The VM types that the primitives map to belong to minivm.
use minipy.Base.{
  Bool, true, false, ◌&&◌, List, [], ◌∷◌, if◌then◌else◌, Bytes, bytes_eq, codes, String,
}
use minipy.Base.Int.{ℤ, eq_ℤ}

-- The values of `primitive`, by their variables.
pub data Primitive : Type 0 where
  invalid int float bool str bytes ellipsis none any type_alias code : Primitive

unfoldable pub primitive_name : Primitive → String
primitive_name invalid = "<invalid>"
primitive_name int = "int"
primitive_name float = "float"
primitive_name bool = "bool"
primitive_name str = "str"
primitive_name bytes = "bytes"
primitive_name ellipsis = "EllipsisType"
primitive_name none = "None"
primitive_name any = "Any"
primitive_name type_alias = "typing.TypeAlias"
primitive_name code = "code"

-- `LiteralValue`, by the functions that make one.
pub data LiteralValue : Type 0 where
  int_literal : ℤ → LiteralValue
  bool_literal : Bool → LiteralValue
  str_literal : Bytes → LiteralValue
  none_literal : LiteralValue

mutual
  pub data Ty : Type 0 where
    nil : Ty
    primitive : Primitive → Ty
    list : Ty → Ty
    dict : Ty → Ty → Ty
    set : Ty → Ty
    tuple : Tys → Ty
    class : Bytes → Fields → Ty
    iterator : Ty → Ty
    callable : Tys → Ty → Ty
    literal : Ty → List LiteralValue → Ty
    module_type : Bytes → Ty
    union : Tys → Ty

  pub data Tys : Type 0 where
    none_left : Tys
    next : Ty → Tys → Tys

  pub data Fields : Type 0 where
    no_field : Fields
    field : Bytes → Ty → Fields → Fields

-- Slices of types.
unfoldable pub to_list : Tys → List Ty
to_list none_left = []
to_list (next t ts) = t ∷ to_list ts

unfoldable pub of_list : List Ty → Tys
of_list [] = none_left
of_list (t ∷ ts) = next t (of_list ts)

abbrev pub invalid_type : Ty
invalid_type = primitive Primitive.invalid

abbrev pub int_type : Ty
int_type = primitive Primitive.int

abbrev pub float_type : Ty
float_type = primitive Primitive.float

abbrev pub any_type : Ty
any_type = primitive Primitive.any

-- `LiteralValue.Equal`.
unfoldable pub literal_eq : LiteralValue → LiteralValue → Bool
unfolding eq_ℤ bytes_eq
literal_eq (int_literal m) (int_literal n) = eq_ℤ m n
literal_eq (bool_literal true) (bool_literal b) = b
literal_eq (bool_literal false) (bool_literal b) = if b then false else true
literal_eq (str_literal s) (str_literal t) = bytes_eq s t
literal_eq none_literal none_literal = true
literal_eq _ _ = false

unfoldable pub literals_eq : List LiteralValue → List LiteralValue → Bool
unfolding literal_eq
literals_eq [] [] = true
literals_eq (v ∷ vs) (w ∷ ws) = literal_eq v w && literals_eq vs ws
literals_eq _ _ = false

-- `t.name == other.name`.
unfoldable pub primitive_eq : Primitive → Primitive → Bool
unfolding primitive_name bytes_eq
primitive_eq p q = bytes_eq (codes (primitive_name p)) (codes (primitive_name q))

-- `Equal`, with the methods of that name. Classes and modules are compared by name.
unfoldable mutual
  pub equal : Ty → Ty → Bool
  equal nil nil = true
  equal (primitive p) (primitive q) = primitive_eq p q
  equal (list a) (list b) = equal a b
  equal (dict k v) (dict l w) = equal k l && equal v w
  equal (set a) (set b) = equal a b
  equal (tuple ts) (tuple us) = equal_all ts us
  equal (class m _) (class n _) = bytes_eq m n
  equal (iterator a) (iterator b) = equal a b
  equal (callable ts a) (callable us b) = equal a b && equal_all ts us
  equal (literal _ vs) (literal _ ws) = literals_eq vs ws
  equal (module_type m) (module_type n) = bytes_eq m n
  equal (union ts) (union us) = equal_all ts us
  equal _ _ = false

  -- The tests on the lengths and the loops over the members.
  pub equal_all : Tys → Tys → Bool
  equal_all none_left none_left = true
  equal_all (next a ts) (next b us) = equal a b && equal_all ts us
  equal_all _ _ = false

-- `IsAny`, and `t == Invalid`.
abbrev pub is_any : Ty → Bool
is_any t = equal t any_type

abbrev pub is_invalid : Ty → Bool
is_invalid (primitive Primitive.invalid) = true
is_invalid _ = false

abbrev pub is_nil : Ty → Bool
is_nil nil = true
is_nil _ = false

abbrev pub is_union : Ty → Bool
is_union (union _) = true
is_union _ = false

-- `IsDynamic`.
unfoldable pub is_dynamic : Ty → Bool
unfolding equal
is_dynamic (union _) = true
is_dynamic t = is_any t
