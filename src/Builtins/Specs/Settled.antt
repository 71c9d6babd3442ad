-- ===== src/Builtins/Specs/Settled.antt =====
-- What the check of a built-in function returns.
use minipy.Base.{
  true, ◌||◌, List, [], ◌∷◌, Option, none, some, ◌≡◌, refl, Bool-cases, inl, inr, All, map, ltb,
  length, ◌⊎◌, Bytes, subst, get_elem?, ℕ, suc, zero,
}
use minipy.Types.Defs.{Ty, int_type, float_type, invalid_type}
use minipy.Builtins.Rules.{text_type, unit_type}
use minipy.Parser.Ast.{Expr}
use minipy.Token.{Pos}
use minipy.Builtins.Specs.{Spec, specs, Diagnostic, decide, check_builtin}
use minipy.Builtins.Rules.Whole.{
  whole, AreWhole, KeepsWhole, printable_rule-KeepsWhole, convert_rule-KeepsWhole,
  unary_rule-KeepsWhole, bool_rule-KeepsWhole, abs_rule-KeepsWhole, len_rule-KeepsWhole,
  enumerate_rule-KeepsWhole, zip_rule-KeepsWhole, range_rule-KeepsWhole, iter_rule-KeepsWhole,
  next_rule-KeepsWhole, sorted_rule-KeepsWhole, reversed_rule-KeepsWhole, sum_rule-KeepsWhole,
  any_all_rule-KeepsWhole, round_rule-KeepsWhole, divmod_rule-KeepsWhole, pow_rule-KeepsWhole,
}

-- Pairs without parentheses.
infixr 10 ◌and_also◌
abbrev ◌and_also◌ : {A B : Type 0} → A → B → A × B
a and_also b = (a, b)

specs-KeepsWhole : (quote : Bytes → Bytes) → All (λ sp. KeepsWhole sp.rule) (specs quote)
unfolding specs whole
specs-KeepsWhole quote =
    printable_rule-KeepsWhole unit_type refl
    and_also printable_rule-KeepsWhole text_type refl
    and_also convert_rule-KeepsWhole int_type refl
    and_also convert_rule-KeepsWhole float_type refl
    and_also bool_rule-KeepsWhole
    and_also abs_rule-KeepsWhole
    and_also len_rule-KeepsWhole
    and_also enumerate_rule-KeepsWhole
    and_also zip_rule-KeepsWhole
    and_also range_rule-KeepsWhole
    and_also iter_rule-KeepsWhole
    and_also next_rule-KeepsWhole
    and_also unary_rule-KeepsWhole text_type int_type refl
    and_also unary_rule-KeepsWhole int_type text_type refl
    and_also sorted_rule-KeepsWhole quote
    and_also reversed_rule-KeepsWhole
    and_also sum_rule-KeepsWhole
    and_also any_all_rule-KeepsWhole
    and_also any_all_rule-KeepsWhole
    and_also round_rule-KeepsWhole
    and_also divmod_rule-KeepsWhole
    and_also pow_rule-KeepsWhole
    and_also unary_rule-KeepsWhole int_type text_type refl
    and_also unary_rule-KeepsWhole int_type text_type refl
    and_also unary_rule-KeepsWhole int_type text_type refl
    and_also printable_rule-KeepsWhole text_type refl
    and_also tt

All-get_elem? {ℓ κ} :
    {A : Type ℓ} (P : A → Type κ) (xs : List A) (i : ℕ) (x : A)
    → All P xs
    → get_elem? xs i ≡ some x
    → P x
All-get_elem? P [] i x h e = cc
All-get_elem? P (y ∷ ys) zero x h e = let same : y ≡ x = cc in subst P same h.0
All-get_elem? P (y ∷ ys) (suc i) x h e = All-get_elem? P ys i x h.1 e

-- What a check returns: a whole type, or the invalid type with one error.
abbrev pub IsSettled : Ty × List Diagnostic → Type 0
IsSettled (t, errors) = (whole t ≡ true) ⊎ ((t ≡ invalid_type) × (length errors ≡ 1))

decide-IsSettled :
    (sp : Spec) (args : List Expr) (p : Pos) (o : Option Ty)
    → ((t : Ty) → o ≡ some t → whole t ≡ true)
    → IsSettled (decide sp args p o)
unfolding decide
decide-IsSettled sp args p none h = inr (refl, refl)
decide-IsSettled sp args p (some t) h = inl (h t refl)

-- For each built-in function of `specs`, that is those of the table whose check is a rule alone, and
-- pow, and arguments of types without nil or invalid in them, the check returns a type of that kind, or Invalid with exactly one error.
pub check_builtin-IsSettled :
    (quote : Bytes → Bytes) (check : Expr → Ty) (i : ℕ) (sp : Spec) (args : List Expr) (p : Pos)
    → get_elem? (specs quote) i ≡ some sp
    → AreWhole (map check args)
    → IsSettled (check_builtin check sp args p)
unfolding check_builtin
check_builtin-IsSettled quote check i sp args p e h =
    elim (Bool-cases (ltb (length args) sp.min || ltb sp.max (length args))) [
      | inl k ↦ rw k (inr (refl, refl))
      | inr k ↦ rw k (
          decide-IsSettled sp args p (sp.rule (map check args)) (λ t f.
            All-get_elem? (λ (s : Spec). KeepsWhole s.rule) (specs quote) i sp
              (specs-KeepsWhole quote) e (map check args) t h f))
    ]
