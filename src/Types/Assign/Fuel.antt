-- ===== src/Types/Assign/Fuel.antt =====
-- The fuel of `assignable`.
use minipy.Base.{◌≤◌, ℕ, arith, ◌+◌, ◌≡◌, ◌<◌, suc, refl, sym, ◌-◌, ap, ◌∙◌, true}
use minipy.Base.{zero, if◌then◌else◌}
use minipy.Types.Defs.{Ty, literal, union, Tys, none_left, next, is_any}
use minipy.Types.Assign.{
  union_admits, all_admitted, into_union, refined, assign_step, assignable, size, sizes,
  assignable_to, Bool,
}

size_pos : (t : Ty) → 1 ≤ size t
unfolding size
size_pos (literal _ _) = omega arith
size_pos (union _) = omega arith
size_pos _ = omega arith

module _ (rec rec' : Ty → Ty → Bool) where
  -- The two agree on the types that are smaller together than a bound.
  abbrev Agree : ℕ → Type 0
  Agree bound = (a b : Ty) → size a + size b < bound → rec a b ≡ rec' a b

  union_admits_cong :
      (ds : Tys) (t : Ty) (bound : ℕ)
      → size t + sizes ds < bound
      → Agree bound
      → union_admits rec ds t ≡ union_admits rec' ds t
  unfolding union_admits size
  union_admits_cong none_left t bound h k = refl
  union_admits_cong (next m ms) t bound h k =
      rw (k t m (omega (arith, h)), union_admits_cong ms t bound (omega (arith, h)) k) refl

  all_admitted_cong :
      (ds ss : Tys) (bound : ℕ)
      → sizes ss + sizes ds < bound
      → Agree bound
      → all_admitted rec ds ss ≡ all_admitted rec' ds ss
  unfolding all_admitted size
  all_admitted_cong ds none_left bound h k = refl
  all_admitted_cong ds (next m ms) bound h k =
      rw
        (
          union_admits_cong ds m bound (omega (arith, h)) k,
          all_admitted_cong ds ms bound (omega (arith, h)) k,
        )
        refl

  into_union_cong : (s d : Ty) → Agree (size s + size d) → into_union rec s d ≡ into_union rec' s d
  unfolding into_union size
  into_union_cong (union ss) (union ds) k =
      all_admitted_cong ds ss (suc (sizes ss) + suc (sizes ds)) (omega arith) k
  into_union_cong src (union ds) k =
      union_admits_cong ds src (size src + suc (sizes ds)) (omega arith) k
  into_union_cong src _ k = refl

  refined_cong : (s d : Ty) → Agree (size s + size d) → refined rec s d ≡ refined rec' s d
  unfolding refined size
  refined_cong (literal _ vs) (literal _ ws) k = refl
  refined_cong (literal base vs) (union ds) k =
      union_admits_cong ds (literal base vs) (suc (size base) + suc (sizes ds)) (omega arith) k
  refined_cong (literal base vs) d k = k base d (omega arith)
  refined_cong s (literal _ _) k = refl
  refined_cong s d k = ap (λ b. if is_any d then true else b) (into_union_cong s d k)

  assign_step_cong :
      (s d : Ty) → Agree (size s + size d) → assign_step rec s d ≡ assign_step rec' s d
  unfolding assign_step
  assign_step_cong s d k = rw (refined_cong s d k) refl

-- With fuel for the two types, more of it changes nothing.
pub assignable_fuel :
    (fuel more : ℕ) (src dst : Ty)
    → size src + size dst ≤ fuel
    → assignable (fuel + more) src dst ≡ assignable fuel src dst
unfolding assignable
assignable_fuel zero more src dst h = absurd (omega (arith, h, size_pos src))
assignable_fuel (suc fuel) more src dst h =
    ap (λ n. assignable n src dst) shift
    ∙ assign_step_cong (assignable (fuel + more)) (assignable fuel) src dst
        (λ a b k. assignable_fuel fuel more a b (omega (arith, h, k)))
  where
    shift : suc fuel + more ≡ suc (fuel + more)
    shift = omega arith

enough :
    (fuel : ℕ) (src dst : Ty)
    → size src + size dst ≤ fuel
    → assignable fuel src dst ≡ assignable_to src dst
unfolding assignable_to
enough fuel src dst h =
    ap (λ n. assignable n src dst) split
    ∙ assignable_fuel (size src + size dst) (fuel - (size src + size dst)) src dst (omega arith)
  where
    split : fuel ≡ size src + size dst + (fuel - (size src + size dst))
    split = omega (arith, h)

-- `AssignableTo` is a fixed point of its body.
pub assignable_to-step : (src dst : Ty) → assignable_to src dst ≡ assign_step assignable_to src dst
unfolding assignable
assignable_to-step src dst =
    sym (enough (suc (size src + size dst)) src dst (omega arith))
    ∙ assign_step_cong (assignable (size src + size dst)) assignable_to src dst
        (λ a b k. enough (size src + size dst) a b (omega (arith, k)))
