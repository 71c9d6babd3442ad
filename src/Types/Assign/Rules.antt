-- ===== src/Types/Assign/Rules.antt =====
-- The rules of assignment as a relation, and `AssignableTo` on what they derive.
pub mod Sound
use minipy.Base.{Bool, true, false, ◌&&◌, ◌||◌, ◌≡◌, refl, List, sym, ◌∙◌, arith, not, and_intro}
use minipy.Types.Defs.{
  Ty, nil, primitive, list, dict, set, tuple, class, iterator, callable, literal, module_type,
  union, Tys, none_left, next, LiteralValue, equal, is_any, is_nil, is_invalid, is_union, int_type,
  float_type, any_type,
}
use minipy.Types.Assign.{
  all_contained, union_admits, all_admitted, into_union, refined, assign_step, assignable,
  assignable_to, size,
}
use minipy.Types.Assign.Fuel.{assignable_to-step}

-- Neither nil nor `Invalid`.
abbrev is_valid : Ty → Bool
is_valid nil = false
is_valid t = not (is_invalid t)

abbrev pub IsValid : Ty → Type 0
IsValid t = is_valid t ≡ true

abbrev is_literal : Ty → Bool
is_literal (literal _ _) = true
is_literal _ = false

-- `Flows s d`: a value of type `s` may be stored as a `d`. `Admits ds t`: a member of `ds` takes
-- `t`. `Covers ds ss`: that of each of `ss`.
mutual
  pub data Flows : Ty → Ty → Type 0 where
    same : {s d : Ty} → IsValid s → IsValid d → equal s d ≡ true → Flows s d
    promotes :
        {s d : Ty}
        → IsValid s
        → IsValid d
        → equal s int_type ≡ true
        → equal d float_type ≡ true
        → Flows s d
    narrows :
        {a b : Ty} {vs ws : List LiteralValue}
        → all_contained ws vs ≡ true
        → Flows (literal a vs) (literal b ws)
    by_base :
        {a d : Ty} {vs : List LiteralValue}
        → IsValid d
        → is_literal d ≡ false
        → is_union d ≡ false
        → Flows a d
        → Flows (literal a vs) d
    into_any :
        {s d : Ty}
        → IsValid s
        → IsValid d
        → is_literal s ≡ false
        → is_literal d ≡ false
        → is_any d ≡ true
        → Flows s d
    into_member :
        {s : Ty} {ds : Tys} → IsValid s → is_union s ≡ false → Admits ds s → Flows s (union ds)
    covered : {ss ds : Tys} → Covers ds ss → Flows (union ss) (union ds)

  pub data Admits : Tys → Ty → Type 0 where
    equals : {m t : Ty} {ms : Tys} → equal m t ≡ true → Admits (next m ms) t
    takes : {m t : Ty} {ms : Tys} → Flows t m → Admits (next m ms) t
    later : {m t : Ty} {ms : Tys} → Admits ms t → Admits (next m ms) t

  pub data Covers : Tys → Tys → Type 0 where
    no_member : {ds : Tys} → Covers ds none_left
    member : {ds : Tys} {m : Ty} {ms : Tys} → Admits ds m → Covers ds ms → Covers ds (next m ms)

refined-by_base :
    (rec : Ty → Ty → Bool) (a d : Ty) (vs : List LiteralValue)
    → is_literal d ≡ false
    → is_union d ≡ false
    → refined rec (literal a vs) d ≡ rec a d
unfolding refined
refined-by_base rec a (literal _ _) vs h k = cc
refined-by_base rec a (union _) vs h k = cc
refined-by_base rec a _ vs h k = refl

refined-into_any :
    (rec : Ty → Ty → Bool) (s d : Ty)
    → is_literal s ≡ false
    → is_literal d ≡ false
    → is_any d ≡ true
    → refined rec s d ≡ true
unfolding refined
refined-into_any rec (literal _ _) d h e k = cc
refined-into_any rec s (literal _ _) h e k = cc
refined-into_any rec s d h e k = rw k refl

refined-into_member :
    (rec : Ty → Ty → Bool) (s : Ty) (ds : Tys)
    → is_union s ≡ false
    → refined rec s (union ds) ≡ union_admits rec ds s
unfolding refined into_union equal
refined-into_member rec (union _) ds h = cc
refined-into_member rec _ ds h = refl

valid-guards : (t : Ty) → IsValid t → (is_nil t ≡ false) × (is_invalid t ≡ false)
valid-guards nil h = cc
valid-guards (primitive p) h = (refl, ground arith)
valid-guards _ h = (refl, refl)

-- What the guards of `AssignableTo` leave.
guarded :
    (rec : Ty → Ty → Bool) (s d : Ty)
    → IsValid s
    → IsValid d
    → assign_step rec s d
      ≡ (equal s d || (equal s int_type && equal d float_type) || refined rec s d)
unfolding assign_step
guarded rec s d h k =
    let (e, f) = valid-guards s h in let (g, i) = valid-guards d k in rw (e, f, g, i) (ground arith)

by_refined :
    (s d : Ty) → IsValid s → IsValid d → refined assignable_to s d ≡ true → assignable_to s d ≡ true
by_refined s d h k e = assignable_to-step s d ∙ guarded assignable_to s d h k ∙ ground (arith, e)

by_equal :
    (s d : Ty)
    → IsValid s
    → IsValid d
    → (equal s d || (equal s int_type && equal d float_type)) ≡ true
    → assignable_to s d ≡ true
by_equal s d h k e = assignable_to-step s d ∙ guarded assignable_to s d h k ∙ ground (arith, e)

mutual
  unfolding refined into_union union_admits all_admitted equal

  complete : {s d : Ty} → Flows s d → assignable_to s d ≡ true
  complete (same {s} {d} h k e) = by_equal s d h k (ground (arith, e))
  complete (promotes {s} {d} h k e f) = by_equal s d h k (ground (arith, e, f))
  complete (narrows {a} {b} {vs} {ws} e) = by_refined (literal a vs) (literal b ws) refl refl (e)
  complete (by_base {a} {d} {vs} h e f k) =
      by_refined (literal a vs) d refl h (refined-by_base assignable_to a d vs e f ∙ complete k)
  complete (into_any {s} {d} h k e f g) =
      by_refined s d h k (refined-into_any assignable_to s d e f g)
  complete (into_member {s} {ds} h e k) =
      by_refined s (union ds) h refl (refined-into_member assignable_to s ds e ∙ complete-Admits k)
  complete (covered {ss} {ds} k) = by_refined (union ss) (union ds) refl refl (complete-Covers k)

  complete-Admits : {ds : Tys} {t : Ty} → Admits ds t → union_admits assignable_to ds t ≡ true
  complete-Admits (equals {m} {t} {ms} e) = rw e refl
  complete-Admits (takes {m} {t} {ms} k) = ground (arith, complete k)
  complete-Admits (later {m} {t} {ms} k) = ground (arith, complete-Admits k)

  complete-Covers : {ds ss : Tys} → Covers ds ss → all_admitted assignable_to ds ss ≡ true
  complete-Covers no_member = refl
  complete-Covers (member k l) = and_intro (complete-Admits k) (complete-Covers l)
