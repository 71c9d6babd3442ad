-- ===== src/Types/Assign/Rules/Sound.antt =====
-- `AssignableTo` against the rules of assignment.
use minipy.Base.{
  Bool, true, false, ◌&&◌, ◌||◌, ◌≡◌, refl, sym, ◌∙◌, ◌↔◌, ℕ, zero, suc, Bool-cases, inl, inr, ◌⊎◌,
  if◌then◌else◌, arith, and_true, ◌+◌,
}
use minipy.Types.Defs.{
  Ty, nil, primitive, literal, union, Tys, none_left, next, equal, is_any, is_nil, is_invalid,
  int_type, float_type,
}
use minipy.Types.Assign.{
  union_admits, all_admitted, into_union, refined, assign_step, assignable, assignable_to, size,
}
use minipy.Types.Assign.Rules.{
  Flows, same, promotes, narrows, by_base, into_any, into_member, covered, Admits, equals, takes,
  later, Covers, no_member, member, IsValid, is_literal, guarded, complete,
}

or_cases : (a b : Bool) → (a || b) ≡ true → (a ≡ true) ⊎ (b ≡ true)
or_cases true b h = inl refl
or_cases false b h = inr h

passed : (t : Ty) → is_nil t ≡ false → is_invalid t ≡ false → IsValid t
passed nil h k = cc
passed (primitive p) h k = rw k refl
passed _ h k = refl

module _ (rec : Ty → Ty → Bool) (sound : (a b : Ty) → rec a b ≡ true → Flows a b) where
  Admits-sound : (ds : Tys) (t : Ty) → union_admits rec ds t ≡ true → Admits ds t
  unfolding union_admits
  Admits-sound none_left t h = cc
  Admits-sound (next m ms) t h = elim (or_cases (equal m t || rec t m) (union_admits rec ms t) h) [
    | inl e ↦ elim (or_cases (equal m t) (rec t m) e) [
      | inl f ↦ equals f
      | inr f ↦ takes (sound t m f)
    ]
    | inr e ↦ later (Admits-sound ms t e)
  ]

  Covers-sound : (ds ss : Tys) → all_admitted rec ds ss ≡ true → Covers ds ss
  unfolding all_admitted
  Covers-sound ds none_left h = no_member
  Covers-sound ds (next m ms) h =
      let (e, f) = and_true (union_admits rec ds m) (all_admitted rec ds ms) h in
      member (Admits-sound ds m e) (Covers-sound ds ms f)

  into_union_sound : (s d : Ty) → IsValid s → into_union rec s d ≡ true → Flows s d
  unfolding into_union
  into_union_sound (union ss) (union ds) h e = covered (Covers-sound ds ss e)
  into_union_sound s (union ds) h e = into_member h refl (Admits-sound ds s e)
  into_union_sound s d h e = cc

  unrefined_sound :
      (s d : Ty)
      → IsValid s
      → IsValid d
      → is_literal s ≡ false
      → is_literal d ≡ false
      → (if is_any d then true else into_union rec s d) ≡ true
      → Flows s d
  unrefined_sound s d h k l m e = elim (Bool-cases (is_any d)) [
    | inl f ↦ into_any h k l m f
    | inr f ↦ into_union_sound s d h (rw f at e)
  ]

  refined_sound : (s d : Ty) → IsValid s → IsValid d → refined rec s d ≡ true → Flows s d
  unfolding refined
  refined_sound (literal a vs) (literal b ws) h k e = narrows e
  refined_sound (literal a vs) (union ds) h k e =
      into_member refl refl (Admits-sound ds (literal a vs) e)
  refined_sound (literal a vs) d h k e = by_base k refl refl (sound a d e)
  refined_sound s (literal b ws) h k e = cc
  refined_sound s d h k e = unrefined_sound s d h k refl refl e

  guards_passed : (s d : Ty) → assign_step rec s d ≡ true → IsValid s × IsValid d
  unfolding assign_step
  guards_passed s d h = (
    passed s (ground (arith, h)) (ground (arith, h)),
    passed d (ground (arith, h)) (ground (arith, h)),
  )

  step_sound : (s d : Ty) → assign_step rec s d ≡ true → Flows s d
  step_sound s d h =
      let (k, l) = guards_passed s d h in
      let e = sym (guarded rec s d k l) ∙ h in
      elim (or_cases (equal s d || (equal s int_type && equal d float_type)) (refined rec s d) e) [
        | inl f ↦ elim (or_cases (equal s d) (equal s int_type && equal d float_type) f) [
          | inl g ↦ same k l g
          | inr g ↦
              let (i, j) = and_true (equal s int_type) (equal d float_type) g in promotes k l i j
        ]
        | inr f ↦ refined_sound s d k l f
      ]

assignable_sound : (fuel : ℕ) (s d : Ty) → assignable fuel s d ≡ true → Flows s d
unfolding assignable
assignable_sound zero s d h = cc
assignable_sound (suc fuel) s d h = step_sound (assignable fuel) (assignable_sound fuel) s d h

-- `AssignableTo` answers true exactly where the rules of `Flows` derive that a value of the one type
-- flows into the other. For types that are neither nil nor invalid, the rules take a type into an
-- equal one, int into float, a literal type into one with all of its values, a literal type by its base
-- into a type that is neither literal nor union, a type that is no literal into `Any`, a type that is
-- no union into a union of which it equals a member or flows into one, and a union into a union that
-- takes each of its members so; `Any` as the source has no rule of its own.
pub assignable_to-Flows : (s d : Ty) → (assignable_to s d ≡ true) ↔ Flows s d
unfolding assignable_to
assignable_to-Flows s d = (assignable_sound (size s + size d) s d, complete)
