-- ===== src/Compiler/Narrow/Members.antt =====
-- What the branches of a guard may assume.
use minipy.Base.{
  Bool, true, false, not, ◌&&◌, List, [], ◌∷◌, some, Bytes, bytes_eq, bytes_eq_iff, ◌≡◌, refl,
  Bool-cases, inl, inr, arith, ◌∙◌, All,
}
use minipy.Token.{TokenType}
use minipy.Parser.Ast.{Expr}
use minipy.Types.Defs.{
  Ty, Tys, next, none_left, Primitive, primitive, union, equal, to_list, is_invalid, primitive_eq,
  invalid_type,
}
use minipy.Types.Equality.{equal_trans, equal_sym, equal_refl}
use minipy.Types.Unions.{without, keep_others, has_equal, flatten, flatten_list}
use minipy.Types.Unions.Normal.{
  IsMember, IsNormal, new_union-members, flatten_member, equal-invalid,
}
use minipy.Compiler.Table.{Table, look_up}
use minipy.Compiler.Narrow.{
  narrowable, concrete, is_known, type_of_none, Guard, guard, narrowed_by, narrowings, folded, fold,
  split_by, by_operator_is, entry,
}

-- A type whose value may be known is not one that a guard narrows.
known_narrowable : (t : Ty) → is_known t ≡ true → narrowable t ≡ false
unfolding is_known narrowable concrete equal primitive_eq
known_narrowable (primitive Primitive.any) h = cc
known_narrowable (union ts) h = cc
known_narrowable _ h = refl

folded-narrowed_by :
    (q : Bytes → Bytes) (current : Bytes → Ty) (resolve : Expr → Ty) (g : Guard) (b : Bool)
    → folded current resolve g ≡ some b
    → narrowed_by q current resolve g ≡ ([], [])
unfolding folded narrowed_by
folded-narrowed_by q current resolve (Guard.instance_of x e) b h =
    elim (Bool-cases (is_known (current x))) [
      | inl k ↦ rw (known_narrowable (current x) k) refl
      | inr k ↦ cc (rw k at h)
    ]
folded-narrowed_by q current resolve (Guard.compared x op) b h =
    elim (Bool-cases (is_known (current x))) [
      | inl k ↦ rw (known_narrowable (current x) k) refl
      | inr k ↦ cc (rw k at h)
    ]
folded-narrowed_by q current resolve Guard.other b h = refl

-- A condition whose truth the checker takes as known narrows nothing, in either branch.
pub fold-narrowings :
    (q : Bytes → Bytes) (current : Bytes → Ty) (resolve : Expr → Ty) (cond : Expr) (b : Bool)
    → fold current resolve cond ≡ some b
    → narrowings q current resolve cond ≡ ([], [])
unfolding fold narrowings
fold-narrowings q current resolve cond b h = folded-narrowed_by q current resolve (guard cond) b h

keep_others-members :
    (t m : Ty) (us : List Ty) → has_equal m (keep_others t us) ≡ (has_equal m us && not (equal m t))
unfolding keep_others has_equal
keep_others-members t m [] = refl
keep_others-members t m (u ∷ us) = elim (Bool-cases (equal u t)) [
  | inl e ↦ rw (e, keep_others-members t m us) (ground (arith, equal_trans m u t))
  | inr e ↦ rw (e, keep_others-members t m us) (ground (arith, equal_sym m u, equal_trans u m t))
]

keep_others-All : (t : Ty) (us : List Ty) → All IsMember us → All IsMember (keep_others t us)
unfolding keep_others
keep_others-All t [] h = tt
keep_others-All t (u ∷ us) h = elim (Bool-cases (equal u t)) [
  | inl e ↦ rw e (keep_others-All t us h.1)
  | inr e ↦ rw e (h.0, keep_others-All t us h.1)
]

flatten_list-members : (us : List Ty) → All IsMember us → flatten_list us ≡ us
unfolding flatten_list
flatten_list-members [] h = refl
flatten_list-members (u ∷ us) h = rw (flatten_member u h.0, flatten_list-members us h.1) refl

-- Members of a union without one type.
without-members :
    (q : Bytes → Bytes) (ts : Tys) (t m : Ty)
    → IsNormal q (union ts)
    → IsMember m
    → has_equal m (flatten (without q (union ts) t)) ≡ (has_equal m (to_list ts) && not (equal m t))
unfolding without
without-members q ts t m h k =
    let kept = keep_others-All t (to_list ts) h.1 in
    let same = flatten_list-members (keep_others t (to_list ts)) kept in
    new_union-members q (keep_others t (to_list ts)) m (rw same kept) k
    ∙ rw same (keep_others-members t m (to_list ts))

-- A normal union has a member that is not equal to a given type.
other-IsMember :
    (q : Bytes → Bytes) (ts : Tys) (t : Ty)
    → IsNormal q (union ts)
    → (m : Ty) × IsMember m × ((has_equal m (to_list ts) && not (equal m t)) ≡ true)
unfolding has_equal to_list
other-IsMember q (next a (next b ts)) t h = elim (Bool-cases (equal a t)) [
  | inl e ↦ (b, h.1.1.0, ground (arith, equal_refl b, equal_sym b t, equal_trans a t b, h.2.0))
  | inr e ↦ (a, h.1.0, rw (equal_refl a, e) refl)
]
other-IsMember q (next a none_left) t h = absurd (omega (arith, h.0))
other-IsMember q none_left t h = absurd (omega (arith, h.0))

invalid_only : (w : Ty) → is_invalid w ≡ true → w ≡ invalid_type
invalid_only (primitive Primitive.invalid) h = refl
invalid_only _ h = cc

without-valid :
    (q : Bytes → Bytes) (ts : Tys) (t : Ty)
    → IsNormal q (union ts)
    → is_invalid (without q (union ts) t) ≡ false
unfolding has_equal flatten
without-valid q ts t h = elim (Bool-cases (is_invalid (without q (union ts) t))) [
  | inr e ↦ e
  | inl e ↦
      let (m, k, found) = other-IsMember q ts t h in
      let known = without-members q ts t m h k in
      cc (rw (invalid_only _ e, equal-invalid m k, found) at known)
]

-- A condition tests the name `x` for the type `t`, and the test holds where the condition is `holds`.
pub data Tests (resolve : Expr → Ty) : Guard → Bytes → Ty → Bool → Type 0 where
  by_instance :
      {x : Bytes} {e : Expr}
      → is_invalid (resolve e) ≡ false
      → Tests resolve (Guard.instance_of x e) x (resolve e) true
  by_is : {x : Bytes} → Tests resolve (Guard.compared x TokenType.is_word) x type_of_none true
  by_is_not : {x : Bytes} → Tests resolve (Guard.compared x TokenType.isnot) x type_of_none false

-- The refinements of one branch.
abbrev pub branch : Bool → Table Ty × Table Ty → Table Ty
branch true (a, b) = a
branch false (a, b) = b

-- The type `w` has the members of `ts` that are not equal to `t`, and no other.
pub record LeftOf (ts : Tys) (t w : Ty) : Type 0 where
  pub members :
      (m : Ty)
      → IsMember m
      → has_equal m (flatten w) ≡ (has_equal m (to_list ts) && not (equal m t))

-- What the branches have for the name.
abbrev pub Splits : Bytes → Tys → Ty → Bool → Table Ty × Table Ty → Type 0
Splits x ts t holds p =
    (look_up x (branch holds p) ≡ some t)
    × ((w : Ty) × (look_up x (branch (not holds) p) ≡ some w) × LeftOf ts t w)

split_by-Splits :
    (q : Bytes → Bytes) (x : Bytes) (ts : Tys) (t : Ty)
    → IsNormal q (union ts)
    → Splits x ts t true (split_by q x (union ts) t)
unfolding split_by entry look_up
split_by-Splits q x ts t h =
    let w = without q (union ts) t in
    let same : bytes_eq x x ≡ true = (bytes_eq_iff x x).1 refl in
    let valid : is_invalid w ≡ false = without-valid q ts t h in
    (
      rw same refl,
      (w, rw (valid, same) refl, record { members = λ m k. without-members q ts t m h k }),
    )

narrowed_by-Splits :
    (q : Bytes → Bytes) (current : Bytes → Ty) (resolve : Expr → Ty) (g : Guard) (x : Bytes)
    (ts : Tys) (t : Ty) (holds : Bool)
    → Tests resolve g x t holds
    → current x ≡ union ts
    → IsNormal q (union ts)
    → Splits x ts t holds (narrowed_by q current resolve g)
unfolding narrowed_by narrowable by_operator_is split_by
narrowed_by-Splits q current resolve g x ts t holds (by_instance {e = a} v) e h =
    rw (e, v) (split_by-Splits q x ts t h)
narrowed_by-Splits q current resolve g x ts t holds by_is e h = rw e (split_by-Splits q x ts t h)
narrowed_by-Splits q current resolve g x ts t holds by_is_not e h =
    let (a, b) = split_by-Splits q x ts type_of_none h in rw e (a, b)

-- Where a name has a union type in normal form, and a condition tests it for a type, the name gets that
-- type in the branch where the test holds, and in the other branch a type whose members are those of
-- the union that are not equal to it.
pub narrowings-Splits :
    (q : Bytes → Bytes) (current : Bytes → Ty) (resolve : Expr → Ty) (cond : Expr) (x : Bytes)
    (ts : Tys) (t : Ty) (holds : Bool)
    → Tests resolve (guard cond) x t holds
    → current x ≡ union ts
    → IsNormal q (union ts)
    → Splits x ts t holds (narrowings q current resolve cond)
unfolding narrowings
narrowings-Splits q current resolve cond x ts t holds tested e h =
    narrowed_by-Splits q current resolve (guard cond) x ts t holds tested e h
