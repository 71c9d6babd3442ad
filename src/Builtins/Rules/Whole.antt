-- ===== src/Builtins/Rules/Whole.antt =====
-- The result types of the rules of builtins/result.go on types without nil or invalid in them.
use minipy.Base.{
  Bool, true, false, not, ◌&&◌, List, [], ◌∷◌, some, ◌≡◌, refl, arith, and_true, if◌then◌else◌, All,
  subst, Bytes, Option, none,
}
use minipy.Types.Defs.{
  Ty, Tys, Primitive, primitive, list, dict, set, tuple, iterator, class, callable, literal,
  module_type, union, nil, next, none_left, equal, is_invalid, int_type, float_type, primitive_eq,
}
use minipy.Types.Unions.{iterable_elem}
use minipy.Types.Ordering.{is_orderable}
use minipy.Builtins.Rules.{
  Rule, truth_type, type_if, printable_rule, convert_rule, bool_rule, abs_rule, len_rule,
  enumerate_rule, zip_rule, range_rule, iter_rule, next_rule, unary_rule, sorted_rule,
  reversed_rule, sum_rule, any_all_rule, round_rule, divmod_rule, pow_rule, pair_of,
}

-- A type without nil or invalid in it.
unfoldable mutual
  pub whole : Ty → Bool
  whole nil = false
  whole (primitive p) = not (is_invalid (primitive p))
  whole (list a) = whole a
  whole (dict k v) = whole k && whole v
  whole (set a) = whole a
  whole (tuple ts) = all_whole ts
  whole (class _ _) = true
  whole (iterator a) = whole a
  whole (callable ts a) = all_whole ts && whole a
  whole (literal base _) = whole base
  whole (module_type _) = true
  whole (union ts) = all_whole ts

  pub all_whole : Tys → Bool
  all_whole none_left = true
  all_whole (next t ts) = whole t && all_whole ts

abbrev pub AreWhole : List Ty → Type 0
AreWhole ts = All (λ t. whole t ≡ true) ts

-- A rule that makes a whole type of whole types, wherever it accepts them.
abbrev pub KeepsWhole : Rule → Type 0
KeepsWhole rule = (args : List Ty) (t : Ty) → AreWhole args → rule args ≡ some t → whole t ≡ true

type_if-whole :
    (b : Bool) (t u : Ty) → (b ≡ true → whole t ≡ true) → type_if b t ≡ some u → whole u ≡ true
type_if-whole true t u h e = let same : t ≡ u = cc in subst (λ v. whole v ≡ true) same (h refl)
type_if-whole false t u h e = cc

constant-whole : (b : Bool) (t u : Ty) → whole t ≡ true → type_if b t ≡ some u → whole u ≡ true
constant-whole b t u h e = type_if-whole b t u (λ _. h) e

pub printable_rule-KeepsWhole : (r : Ty) → whole r ≡ true → KeepsWhole (printable_rule r)
unfolding printable_rule
printable_rule-KeepsWhole r w (a ∷ []) t h e = constant-whole _ r t w e
printable_rule-KeepsWhole r w _ t h e = cc

pub convert_rule-KeepsWhole : (r : Ty) → whole r ≡ true → KeepsWhole (convert_rule r)
unfolding convert_rule
convert_rule-KeepsWhole r w (a ∷ []) t h e = constant-whole _ r t w e
convert_rule-KeepsWhole r w _ t h e = cc

pub unary_rule-KeepsWhole : (p r : Ty) → whole r ≡ true → KeepsWhole (unary_rule p r)
unfolding unary_rule
unary_rule-KeepsWhole p r w (a ∷ []) t h e = constant-whole _ r t w e
unary_rule-KeepsWhole p r w _ t h e = cc

pub bool_rule-KeepsWhole : KeepsWhole bool_rule
unfolding bool_rule whole
bool_rule-KeepsWhole (a ∷ []) t h e = constant-whole _ truth_type t refl e
bool_rule-KeepsWhole _ t h e = cc

pub abs_rule-KeepsWhole : KeepsWhole abs_rule
unfolding abs_rule
abs_rule-KeepsWhole (a ∷ []) t h e = constant-whole _ a t h.0 e
abs_rule-KeepsWhole _ t h e = cc

pub len_rule-KeepsWhole : KeepsWhole len_rule
unfolding len_rule whole
len_rule-KeepsWhole (a ∷ []) t h e = constant-whole _ int_type t refl e
len_rule-KeepsWhole _ t h e = cc

some-whole : (t u : Ty) → whole t ≡ true → some t ≡ some u → whole u ≡ true
some-whole t u h e = let same : t ≡ u = cc in subst (λ v. whole v ≡ true) same h

pub enumerate_rule-KeepsWhole : KeepsWhole enumerate_rule
unfolding enumerate_rule whole
enumerate_rule-KeepsWhole (list a ∷ []) t h e = some-whole _ t (rw h.0 refl) e
enumerate_rule-KeepsWhole _ t h e = cc

pub zip_rule-KeepsWhole : KeepsWhole zip_rule
unfolding zip_rule whole
zip_rule-KeepsWhole (list a ∷ list b ∷ []) t h e = some-whole _ t (rw (h.0, h.1.0) refl) e
zip_rule-KeepsWhole _ t h e = cc

pub range_rule-KeepsWhole : KeepsWhole range_rule
unfolding range_rule whole
range_rule-KeepsWhole args t h e = constant-whole _ (iterator int_type) t refl e

iterable_elem-whole :
    (a : Ty)
    → whole a ≡ true
    → is_invalid (iterable_elem a) ≡ false
    → whole (iterable_elem a) ≡ true
unfolding iterable_elem whole equal primitive_eq
iterable_elem-whole (list a) h e = h
iterable_elem-whole (dict k v) h e = (and_true (whole k) (whole v) h).0
iterable_elem-whole (set a) h e = h
iterable_elem-whole (iterator a) h e = h
iterable_elem-whole (union ts) h e = refl
iterable_elem-whole (primitive Primitive.str) h e = refl
iterable_elem-whole (primitive Primitive.bytes) h e = refl
iterable_elem-whole (primitive Primitive.any) h e = refl
iterable_elem-whole _ h e = cc

pub iter_rule-KeepsWhole : KeepsWhole iter_rule
unfolding iter_rule whole
iter_rule-KeepsWhole (a ∷ []) t h e =
    type_if-whole _ (iterator (iterable_elem a)) t (λ k. iterable_elem-whole a h.0 (ground arith)) e
iter_rule-KeepsWhole _ t h e = cc

pub next_rule-KeepsWhole : KeepsWhole next_rule
unfolding next_rule whole
next_rule-KeepsWhole (iterator a ∷ []) t h e = some-whole a t h.0 e
next_rule-KeepsWhole _ t h e = cc

pub sorted_rule-KeepsWhole : (quote : Bytes → Bytes) → KeepsWhole (sorted_rule quote)
unfolding sorted_rule whole
sorted_rule-KeepsWhole quote (list a ∷ []) t h e = go (is_orderable quote a) e
  where
    go :
        (o : Option Bool)
        → (elim o as (λ _. Option Ty) [
          | some true ↦ some (list a)
          | some false ↦ none
          | none ↦ none
        ])
          ≡ some t
        → whole t ≡ true
    go (some true) f = let same : list a ≡ t = cc in subst (λ v. whole v ≡ true) same h.0
    go (some false) f = cc
    go none f = cc
sorted_rule-KeepsWhole quote _ t h e = cc

pub reversed_rule-KeepsWhole : KeepsWhole reversed_rule
unfolding reversed_rule
reversed_rule-KeepsWhole (list a ∷ []) t h e = some-whole (list a) t h.0 e
reversed_rule-KeepsWhole _ t h e = cc

pub sum_rule-KeepsWhole : KeepsWhole sum_rule
unfolding sum_rule whole
sum_rule-KeepsWhole (list a ∷ []) t h e = constant-whole _ a t h.0 e
sum_rule-KeepsWhole _ t h e = cc

pub any_all_rule-KeepsWhole : KeepsWhole any_all_rule
unfolding any_all_rule whole
any_all_rule-KeepsWhole (list a ∷ []) t h e = constant-whole _ truth_type t refl e
any_all_rule-KeepsWhole _ t h e = cc

pub round_rule-KeepsWhole : KeepsWhole round_rule
unfolding round_rule whole
round_rule-KeepsWhole (a ∷ []) t h e = constant-whole _ int_type t refl e
round_rule-KeepsWhole (a ∷ b ∷ []) t h e = constant-whole _ float_type t refl e
round_rule-KeepsWhole _ t h e = cc

choice-whole :
    (b c : Bool) (t u v : Ty)
    → whole t ≡ true
    → whole u ≡ true
    → (if b then some t else type_if c u) ≡ some v
    → whole v ≡ true
choice-whole true c t u v h k e = some-whole t v h e
choice-whole false c t u v h k e = constant-whole c u v k e

pub divmod_rule-KeepsWhole : KeepsWhole divmod_rule
unfolding divmod_rule whole
divmod_rule-KeepsWhole (a ∷ b ∷ []) t h e =
    choice-whole _ _ (pair_of int_type) (pair_of float_type) t refl refl e
divmod_rule-KeepsWhole _ t h e = cc

pub pow_rule-KeepsWhole : KeepsWhole pow_rule
unfolding pow_rule whole
pow_rule-KeepsWhole (a ∷ b ∷ []) t h e = choice-whole _ _ int_type float_type t refl refl e
pow_rule-KeepsWhole _ t h e = cc
