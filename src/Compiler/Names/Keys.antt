-- ===== src/Compiler/Names/Keys.antt =====
-- Keys of module-level names, and the names that they give back.
use minipy.Base.{
  true, false, not, ◌&&◌, ◌==◌, List, [], ◌∷◌, ◌++◌, Option, none, some, Bytes, bytes_eq,
  bytes_eq_iff, ◌≡◌, ◌↔◌, refl, sym, ap, subst, arith, Bool-cases, inl, inr, ==_iff, ◌∙◌,
}
use minipy.Compiler.Names.{
  main_name, after_prefix, dotted, undotted, module_key, local_name, has_name, unique_onto,
  unique_strings,
}

after_prefix-append : (p s : Bytes) → after_prefix p (p ++ s) ≡ some s
unfolding after_prefix
after_prefix-append [] s = refl
after_prefix-append (c ∷ p) s = ground (arith, after_prefix-append p s)

after_prefix-some : (p k s : Bytes) → after_prefix p k ≡ some s → k ≡ p ++ s
unfolding after_prefix
after_prefix-some [] k s h = cc
after_prefix-some (c ∷ p) [] s h = cc
after_prefix-some (c ∷ p) (d ∷ k) s h = elim (Bool-cases (c == d)) [
  | inl e ↦ rw ((==_iff c d).0 e, after_prefix-some p k s (rw e at h)) refl
  | inr e ↦ cc (rw e at h)
]

undotted-some :
    (o : Option Bytes) (x : Bytes) → undotted o ≡ some x → (o ≡ some x) × (dotted x ≡ false)
unfolding undotted
undotted-some none x h = cc
undotted-some (some y) x h = elim (Bool-cases (dotted y)) [
  | inl e ↦ cc (rw e at h)
  | inr e ↦
      let same : y ≡ x = cc (rw e at h) in (ap some same, subst (λ z. dotted z ≡ false) same e)
]

some-undotted : (x : Bytes) → dotted x ≡ false → undotted (some x) ≡ some x
unfolding undotted
some-undotted x h = rw h refl

append_dot : (m x : Bytes) → (m ++ b'.' ∷ []) ++ x ≡ m ++ b'.' ∷ x
append_dot [] x = refl
append_dot (c ∷ m) x = ap (◌∷◌ c) (append_dot m x)

-- `localNameForModule` takes a key for the name x of a module exactly if the key is the one that
-- `moduleKey` makes of the module and x, and x has no dot.
pub local_name-module_key :
    (m k x : Bytes) → (local_name m k ≡ some x) ↔ ((k ≡ module_key m x) × (dotted x ≡ false))
unfolding local_name module_key
local_name-module_key m k x = elim (Bool-cases (bytes_eq m main_name)) [
  | inl e ↦ rw e (
    (λ h. let (same, plain) = undotted-some (some k) x h in (cc same, plain)),
    (λ h. rw h.0 (some-undotted x h.1)),
  )
  | inr e ↦ rw e (
    (λ h.
        let (same, plain) = undotted-some (after_prefix (m ++ b'.' ∷ []) k) x h in
        (after_prefix-some (m ++ b'.' ∷ []) k x same ∙ append_dot m x, plain)),
    (λ h.
        rw (h.0, sym (append_dot m x), after_prefix-append (m ++ b'.' ∷ []) x)
          (some-undotted x h.1)),
  )
]

unique_onto-members :
    (x : Bytes) (seen xs : List Bytes)
    → has_name x (unique_onto seen xs) ≡ (has_name x xs && not (has_name x seen))
unfolding has_name unique_onto
unique_onto-members x seen [] = refl
unique_onto-members x seen (y ∷ ys) = elim (Bool-cases (bytes_eq x y)) [
  | inl e ↦
      let same : x ≡ y = (bytes_eq_iff x y).0 e in
      elim (Bool-cases (has_name y seen)) [
        | inl f ↦ rw (f, unique_onto-members x seen ys, same, f) (ground arith)
        | inr f ↦ rw (f, e, same, f) refl
      ]
  | inr e ↦ elim (Bool-cases (has_name y seen)) [
    | inl f ↦ rw (f, unique_onto-members x seen ys, e) refl
    | inr f ↦ rw (f, e, unique_onto-members x (y ∷ seen) ys, e) refl
  ]
]

-- No name twice.
abbrev pub AreDistinct : List Bytes → Type 0
AreDistinct [] = Unit
AreDistinct (x ∷ xs) = (has_name x xs ≡ false) × AreDistinct xs

unique_onto-AreDistinct : (seen xs : List Bytes) → AreDistinct (unique_onto seen xs)
unfolding has_name unique_onto
unique_onto-AreDistinct seen [] = tt
unique_onto-AreDistinct seen (y ∷ ys) = elim (Bool-cases (has_name y seen)) [
  | inl f ↦ rw f (unique_onto-AreDistinct seen ys)
  | inr f ↦
      let same : bytes_eq y y ≡ true = (bytes_eq_iff y y).1 refl in
      rw f (
        unique_onto-members y (y ∷ seen) ys ∙ rw same (ground arith),
        unique_onto-AreDistinct (y ∷ seen) ys,
      )
]

-- `uniqueStrings` keeps every name, and none twice.
pub unique_strings-members :
    (xs : List Bytes)
    → AreDistinct (unique_strings xs)
      × ((x : Bytes) → has_name x (unique_strings xs) ≡ has_name x xs)
unfolding unique_strings has_name
unique_strings-members xs =
    (unique_onto-AreDistinct [] xs, λ x. unique_onto-members x [] xs ∙ ground arith)
