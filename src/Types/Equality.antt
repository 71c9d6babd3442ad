-- ===== src/Types/Equality.antt =====
-- Laws of `Equal`.
use minipy.Base.{
  ◌≡◌, refl, Bool, true, false, List, [], ◌∷◌, arith, Bytes, bytes_eq, bytes_eq_iff, ◌↔◌, and_intro,
  ◌∙◌, if◌then◌else◌, sym, and_true, codes, ap,
}
use minipy.Base.Int.{eq_ℤ_iff}
use minipy.Types.Defs.{
  Primitive, LiteralValue, Ty, nil, primitive, list, dict, set, tuple, class, iterator, callable,
  literal, module_type, union, Tys, none_left, next, literal_eq, literals_eq, primitive_eq, equal,
  equal_all, primitive_name,
}

bytes_eq_refl : (s : Bytes) → bytes_eq s s ≡ true
bytes_eq_refl s = (bytes_eq_iff s s).1 refl

pub literal_eq_iff : (v w : LiteralValue) → (literal_eq v w ≡ true) ↔ (v ≡ w)
unfolding literal_eq
literal_eq_iff (LiteralValue.int_literal m) (LiteralValue.int_literal n) =
    ground (arith, eq_ℤ_iff m n)
literal_eq_iff (LiteralValue.bool_literal true) (LiteralValue.bool_literal b) = ground arith
literal_eq_iff (LiteralValue.bool_literal false) (LiteralValue.bool_literal b) = ground arith
literal_eq_iff (LiteralValue.str_literal s) (LiteralValue.str_literal t) =
    ground (arith, bytes_eq_iff s t)
literal_eq_iff _ _ = ground arith

literals_eq_iff : (v w : List LiteralValue) → (literals_eq v w ≡ true) ↔ (v ≡ w)
unfolding literals_eq
literals_eq_iff (v ∷ vs) (w ∷ ws) = ground (arith, literal_eq_iff v w, literals_eq_iff vs ws)
literals_eq_iff _ _ = ground arith

primitive_at : List Primitive → Bytes → Primitive
primitive_at [] s = Primitive.invalid
primitive_at (p ∷ ps) s = if bytes_eq (codes (primitive_name p)) s then p else primitive_at ps s

abbrev primitives : List Primitive
primitives =
    Primitive.invalid ∷ Primitive.int ∷ Primitive.float ∷ Primitive.bool ∷ Primitive.str
    ∷ Primitive.bytes ∷ Primitive.ellipsis ∷ Primitive.none ∷ Primitive.any ∷ Primitive.type_alias
    ∷ Primitive.code ∷ []

primitive_at-name : (p : Primitive) → primitive_at primitives (codes (primitive_name p)) ≡ p
unfolding primitive_at primitive_name bytes_eq
primitive_at-name Primitive.invalid = refl
primitive_at-name _ = refl

pub primitive_eq_iff : (p q : Primitive) → (primitive_eq p q ≡ true) ↔ (p ≡ q)
unfolding primitive_eq
primitive_eq_iff p q = (
  λ h.
      sym (primitive_at-name p)
      ∙ ap (primitive_at primitives)
          ((bytes_eq_iff (codes (primitive_name p)) (codes (primitive_name q))).0 h)
      ∙ primitive_at-name q,
  λ e. rw e (bytes_eq_refl (codes (primitive_name q))),
)

mutual
  unfolding equal

  refl_one : (t : Ty) → equal t t ≡ true
  refl_one nil = refl
  refl_one (primitive p) = (primitive_eq_iff p p).1 refl
  refl_one (list a) = refl_one a
  refl_one (dict k v) = and_intro (refl_one k) (refl_one v)
  refl_one (set a) = refl_one a
  refl_one (tuple ts) = refl_all ts
  refl_one (class m _) = bytes_eq_refl m
  refl_one (iterator a) = refl_one a
  refl_one (callable ts a) = and_intro (refl_one a) (refl_all ts)
  refl_one (literal _ vs) = (literals_eq_iff vs vs).1 refl
  refl_one (module_type m) = bytes_eq_refl m
  refl_one (union ts) = refl_all ts

  refl_all : (ts : Tys) → equal_all ts ts ≡ true
  refl_all none_left = refl
  refl_all (next t ts) = and_intro (refl_one t) (refl_all ts)

mutual
  unfolding equal

  sym_one : (t u : Ty) → equal t u ≡ true → equal u t ≡ true
  sym_one nil nil h = refl
  sym_one (primitive p) (primitive q) h =
      (primitive_eq_iff q p).1 (sym ((primitive_eq_iff p q).0 h))
  sym_one (list a) (list b) h = sym_one a b h
  sym_one (dict k v) (dict l w) h =
      let (p, q) = and_true (equal k l) (equal v w) h in and_intro (sym_one k l p) (sym_one v w q)
  sym_one (set a) (set b) h = sym_one a b h
  sym_one (tuple ts) (tuple us) h = sym_all ts us h
  sym_one (class m _) (class n _) h = (bytes_eq_iff n m).1 (sym ((bytes_eq_iff m n).0 h))
  sym_one (iterator a) (iterator b) h = sym_one a b h
  sym_one (callable ts a) (callable us b) h =
      let (p, q) = and_true (equal a b) (equal_all ts us) h in
      and_intro (sym_one a b p) (sym_all ts us q)
  sym_one (literal _ vs) (literal _ ws) h =
      (literals_eq_iff ws vs).1 (sym ((literals_eq_iff vs ws).0 h))
  sym_one (module_type m) (module_type n) h = (bytes_eq_iff n m).1 (sym ((bytes_eq_iff m n).0 h))
  sym_one (union ts) (union us) h = sym_all ts us h
  sym_one _ _ h = cc

  sym_all : (ts us : Tys) → equal_all ts us ≡ true → equal_all us ts ≡ true
  sym_all none_left none_left h = refl
  sym_all (next t ts) (next u us) h =
      let (p, q) = and_true (equal t u) (equal_all ts us) h in
      and_intro (sym_one t u p) (sym_all ts us q)
  sym_all _ _ h = cc

-- The third argument is the one of which the other two are compared.
mutual
  unfolding equal

  trans_one : (t u v : Ty) → equal t u ≡ true → equal u v ≡ true → equal t v ≡ true
  trans_one nil nil nil h k = refl
  trans_one (primitive p) (primitive q) (primitive r) h k =
      (primitive_eq_iff p r).1 ((primitive_eq_iff p q).0 h ∙ (primitive_eq_iff q r).0 k)
  trans_one (list a) (list b) (list c) h k = trans_one a b c h k
  trans_one (dict a x) (dict b y) (dict c z) h k =
      let (p, q) = and_true (equal a b) (equal x y) h in
      let (p', q') = and_true (equal b c) (equal y z) k in
      and_intro (trans_one a b c p p') (trans_one x y z q q')
  trans_one (set a) (set b) (set c) h k = trans_one a b c h k
  trans_one (tuple ts) (tuple us) (tuple vs) h k = trans_all ts us vs h k
  trans_one (class m _) (class n _) (class o _) h k =
      (bytes_eq_iff m o).1 ((bytes_eq_iff m n).0 h ∙ (bytes_eq_iff n o).0 k)
  trans_one (iterator a) (iterator b) (iterator c) h k = trans_one a b c h k
  trans_one (callable ts a) (callable us b) (callable vs c) h k =
      let (p, q) = and_true (equal a b) (equal_all ts us) h in
      let (p', q') = and_true (equal b c) (equal_all us vs) k in
      and_intro (trans_one a b c p p') (trans_all ts us vs q q')
  trans_one (literal _ us) (literal _ vs) (literal _ ws) h k =
      (literals_eq_iff us ws).1 ((literals_eq_iff us vs).0 h ∙ (literals_eq_iff vs ws).0 k)
  trans_one (module_type m) (module_type n) (module_type o) h k =
      (bytes_eq_iff m o).1 ((bytes_eq_iff m n).0 h ∙ (bytes_eq_iff n o).0 k)
  trans_one (union ts) (union us) (union vs) h k = trans_all ts us vs h k
  trans_one _ _ _ h k = cc

  trans_all :
      (ts us vs : Tys) → equal_all ts us ≡ true → equal_all us vs ≡ true → equal_all ts vs ≡ true
  trans_all none_left none_left none_left h k = refl
  trans_all (next t ts) (next u us) (next v vs) h k =
      let (p, q) = and_true (equal t u) (equal_all ts us) h in
      let (p', q') = and_true (equal u v) (equal_all us vs) k in
      and_intro (trans_one t u v p p') (trans_all ts us vs q q')
  trans_all _ _ _ h k = cc

pub equal_refl : (t : Ty) → equal t t ≡ true
equal_refl t = refl_one t

pub equal_sym : (t u : Ty) → equal t u ≡ true → equal u t ≡ true
equal_sym t u h = sym_one t u h

pub equal_trans : (t u v : Ty) → equal t u ≡ true → equal u v ≡ true → equal t v ≡ true
equal_trans t u v h k = trans_one t u v h k

-- `Equal` is an equivalence relation on the types, `nil` among them.
pub equal_equivalence :
    (t u v : Ty)
    → (equal t t ≡ true)
      × (equal t u ≡ equal u t)
      × (equal t u ≡ true → equal u v ≡ true → equal t v ≡ true)
equal_equivalence t u v =
    (equal_refl t, both (equal t u) (equal u t) (equal_sym t u) (equal_sym u t), equal_trans t u v)
  where
    both : (a b : Bool) → (a ≡ true → b ≡ true) → (b ≡ true → a ≡ true) → a ≡ b
    both true b h k = sym (h refl)
    both false true h k = k refl
    both false false h k = refl
