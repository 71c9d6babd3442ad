-- ===== src/Types/Unions/Sorting.antt =====
-- The sort of the members of a union by their texts.
use minipy.Base.{
  suc, ◌≡◌, refl, ap, ◌∙◌, Bool, true, false, ◌||◌, List, [], ◌∷◌, arith, Bytes, Bool-cases, inl,
  inr, length, All,
}
use minipy.Types.Defs.{Ty, equal}
use minipy.Types.Equality.{equal_sym}
use minipy.Types.Strings.{bytes_lt, string}
use minipy.Types.Unions.{has_equal, insert_by, sort_by}

pub bytes_lt_asymm : (s t : Bytes) → bytes_lt s t ≡ true → bytes_lt t s ≡ false
unfolding bytes_lt
bytes_lt_asymm [] [] h = refl
bytes_lt_asymm [] (y ∷ ys) h = refl
bytes_lt_asymm (x ∷ xs) [] h = cc
bytes_lt_asymm (x ∷ xs) (y ∷ ys) h = ground (arith, bytes_lt_asymm xs ys)

pub bytes_lt_irrefl : (s : Bytes) → bytes_lt s s ≡ false
unfolding bytes_lt
bytes_lt_irrefl [] = refl
bytes_lt_irrefl (x ∷ xs) = ground (arith, bytes_lt_irrefl xs)

-- No two members are equal.
abbrev pub Distinct : List Ty → Type 0
Distinct [] = Unit
Distinct (u ∷ us) = (has_equal u us ≡ false) × Distinct us

pub equal_sym_false : (t u : Ty) → equal t u ≡ false → equal u t ≡ false
equal_sym_false t u h = elim (Bool-cases (equal u t)) [
  | inl e ↦ cc (h, equal_sym u t e)
  | inr e ↦ e
]

module _ (quote : Bytes → Bytes) where
  -- Neighbours are in the order of their texts.
  abbrev pub Ascending : List Ty → Type 0
  Ascending [] = Unit
  Ascending (t ∷ []) = Unit
  Ascending (t ∷ u ∷ us) = (bytes_lt (string quote u) (string quote t) ≡ false) × Ascending (u ∷ us)

  pub has_equal-insert_by :
      (m t : Ty) (us : List Ty) → has_equal m (insert_by quote t us) ≡ (equal m t || has_equal m us)
  unfolding insert_by has_equal
  has_equal-insert_by m t [] = refl
  has_equal-insert_by m t (u ∷ us) =
      elim (Bool-cases (bytes_lt (string quote u) (string quote t))) [
        | inl e ↦
            rw e (rw (has_equal-insert_by m t us) (swap (equal m u) (equal m t) (has_equal m us)))
        | inr e ↦ rw e refl
      ]
    where
      swap : (a b c : Bool) → (a || (b || c)) ≡ (b || (a || c))
      swap a b c = ground arith

  pub length-insert_by : (t : Ty) (us : List Ty) → length (insert_by quote t us) ≡ suc (length us)
  unfolding insert_by
  length-insert_by t [] = refl
  length-insert_by t (u ∷ us) = elim (Bool-cases (bytes_lt (string quote u) (string quote t))) [
    | inl e ↦ rw e (ap suc (length-insert_by t us))
    | inr e ↦ rw e refl
  ]

  pub All-insert_by {ℓ} :
      (P : Ty → Type ℓ) (t : Ty) (us : List Ty) → P t → All P us → All P (insert_by quote t us)
  unfolding insert_by
  All-insert_by P t [] h k = (h, tt)
  All-insert_by P t (u ∷ us) h k = elim (Bool-cases (bytes_lt (string quote u) (string quote t))) [
    | inl e ↦ rw e (k.0, All-insert_by P t us h k.1)
    | inr e ↦ rw e (h, k)
  ]

  pub insert_by-Distinct :
      (t : Ty) (us : List Ty)
      → has_equal t us ≡ false
      → Distinct us
      → Distinct (insert_by quote t us)
  unfolding insert_by has_equal
  insert_by-Distinct t [] h k = (refl, tt)
  insert_by-Distinct t (u ∷ us) h k =
      elim (Bool-cases (bytes_lt (string quote u) (string quote t))) [
        | inl e ↦ rw e (
          has_equal-insert_by u t us ∙ ground (arith, k.0, equal_sym_false t u),
          insert_by-Distinct t us (ground arith) k.1,
        )
        | inr e ↦ rw e (h, k)
      ]

  -- The head of the result is the new member or the old head.
  Ascending-cons-insert :
      (u t : Ty) (us : List Ty)
      → bytes_lt (string quote t) (string quote u) ≡ false
      → Ascending (u ∷ us)
      → Ascending (insert_by quote t us)
      → Ascending (u ∷ insert_by quote t us)
  unfolding insert_by
  Ascending-cons-insert u t [] h k s = (h, tt)
  Ascending-cons-insert u t (v ∷ vs) h k s =
      elim (Bool-cases (bytes_lt (string quote v) (string quote t))) [
        | inl e ↦ rw e (k.0, rw e at s)
        | inr e ↦ rw e (h, rw e at s)
      ]

  Ascending-tail : (u : Ty) (us : List Ty) → Ascending (u ∷ us) → Ascending us
  Ascending-tail u [] h = tt
  Ascending-tail u (v ∷ vs) h = h.1

  pub insert_by-Ascending :
      (t : Ty) (us : List Ty) → Ascending us → Ascending (insert_by quote t us)
  unfolding insert_by
  insert_by-Ascending t [] h = tt
  insert_by-Ascending t (u ∷ us) h =
      elim (Bool-cases (bytes_lt (string quote u) (string quote t))) [
        | inl e ↦ rw e (
            Ascending-cons-insert u t us (bytes_lt_asymm (string quote u) (string quote t) e) h
              (insert_by-Ascending t us (Ascending-tail u us h)))
        | inr e ↦ rw e (e, h)
      ]

  pub has_equal-sort_by : (m : Ty) (us : List Ty) → has_equal m (sort_by quote us) ≡ has_equal m us
  unfolding sort_by has_equal
  has_equal-sort_by m [] = refl
  has_equal-sort_by m (u ∷ us) =
      has_equal-insert_by m u (sort_by quote us) ∙ ap (λ b. equal m u || b) (has_equal-sort_by m us)

  pub sort_by-Distinct : (us : List Ty) → Distinct us → Distinct (sort_by quote us)
  unfolding sort_by
  sort_by-Distinct [] h = tt
  sort_by-Distinct (u ∷ us) h =
      insert_by-Distinct u (sort_by quote us) (has_equal-sort_by u us ∙ h.0)
        (sort_by-Distinct us h.1)

  pub sort_by-Ascending : (us : List Ty) → Ascending (sort_by quote us)
  unfolding sort_by
  sort_by-Ascending [] = tt
  sort_by-Ascending (u ∷ us) = insert_by-Ascending u (sort_by quote us) (sort_by-Ascending us)

  pub length-sort_by : (us : List Ty) → length (sort_by quote us) ≡ length us
  unfolding sort_by
  length-sort_by [] = refl
  length-sort_by (u ∷ us) = length-insert_by u (sort_by quote us) ∙ ap suc (length-sort_by us)

  pub All-sort_by {ℓ} : (P : Ty → Type ℓ) (us : List Ty) → All P us → All P (sort_by quote us)
  unfolding sort_by
  All-sort_by P [] h = h
  All-sort_by P (u ∷ us) h = All-insert_by P u (sort_by quote us) h.0 (All-sort_by P us h.1)

  -- Members that are in order stay as they are.
  pub sort_by_sorted : (us : List Ty) → Ascending us → sort_by quote us ≡ us
  unfolding sort_by insert_by
  sort_by_sorted [] h = refl
  sort_by_sorted (u ∷ []) h = refl
  sort_by_sorted (u ∷ v ∷ vs) h = ap (insert_by quote u) (sort_by_sorted (v ∷ vs) h.1) ∙ rw h.0 refl
