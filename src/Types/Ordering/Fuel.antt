-- ===== src/Types/Ordering/Fuel.antt =====
-- The fuel of `Orderable`, and the tuples in an erased type.
use minipy.Base.{
  ℕ, zero, suc, ◌≤◌, ◌<◌, ◌≡◌, refl, Bool, true, false, List, [], ◌∷◌, ◌++◌, Option, some, Bytes,
  if◌then◌else◌, All, All-append, Bool-cases, inl, inr, arith,
}
use minipy.Types.Defs.{
  Ty, nil, literal, tuple, union, Tys, none_left, next, is_invalid, is_any, of_list,
}
use minipy.Types.Unions.{
  Collected, returned, distinct, collect, flatten, flatten_all, flatten_list, has_equal, sort_by,
  to_union, new_union, erase, erase_all,
}
use minipy.Types.Unions.Sorting.{All-sort_by}
use minipy.Types.Ordering.{
  all_orderable, orderable_tuple, orderable_within, tuples, all_tuples, is_ordered_scalar,
}

All-split {ℓ κ} :
    {A : Type ℓ} (P : A → Type κ) (xs ys : List A) → All P (xs ++ ys) → All P xs × All P ys
All-split P [] ys h = (tt, h)
All-split P (x ∷ xs) ys h = let (a, b) = All-split P xs ys h.1 in ((h.0, a), b)

-- The tuples in a type that is a tuple.
abbrev outer : Ty → ℕ
outer (tuple ts) = suc (all_tuples ts)
outer _ = 0

-- No member of the type, and not the type itself, is a tuple with more than `k` tuples.
abbrev Low : ℕ → Ty → Type 0
Low k t = All (λ u. outer u ≤ k) (flatten t)

All-weaken :
    (j k : ℕ) (ts : List Ty) → j ≤ k → All (λ u. outer u ≤ j) ts → All (λ u. outer u ≤ k) ts
All-weaken j k [] le h = tt
All-weaken j k (t ∷ ts) le h = (omega (arith, le, h.0), All-weaken j k ts le h.1)

module _ (k : ℕ) where
  mutual
    unfolding flatten

    flatten-Low : (t : Ty) → Low k t → All (Low k) (flatten t)
    flatten-Low nil h = tt
    flatten-Low (union ts) h = flatten_all-Low ts h
    flatten-Low _ h = (h, tt)

    flatten_all-Low :
        (ts : Tys) → All (λ u. outer u ≤ k) (flatten_all ts) → All (Low k) (flatten_all ts)
    flatten_all-Low none_left h = tt
    flatten_all-Low (next t ts) h =
        let (a, b) = All-split (λ u. outer u ≤ k) (flatten t) (flatten_all ts) h in
        All-append (Low k) (flatten t) (flatten_all ts) (flatten-Low t a) (flatten_all-Low ts b)

  flatten_list-Low : (ts : List Ty) → All (Low k) ts → All (Low k) (flatten_list ts)
  unfolding flatten_list
  flatten_list-Low [] h = tt
  flatten_list-Low (t ∷ ts) h =
      All-append (Low k) (flatten t) (flatten_list ts) (flatten-Low t h.0) (flatten_list-Low ts h.1)

  abbrev LowCollected : Collected → Type 0
  LowCollected (returned t) = Low k t
  LowCollected (distinct us) = All (Low k) us

  if-All :
      (b : Bool) (us vs : List Ty)
      → All (Low k) us
      → All (Low k) vs
      → All (Low k) (if b then us else vs)
  if-All true us vs h l = h
  if-All false us vs h l = l

  collect-Low : (ms us : List Ty) → All (Low k) ms → All (Low k) us → LowCollected (collect ms us)
  unfolding collect flatten
  collect-Low [] us h l = l
  collect-Low (m ∷ ms) us h l = elim (Bool-cases (is_invalid m)) [
    | inl e ↦ rw e (omega arith, tt)
    | inr e ↦ elim (Bool-cases (is_any m)) [
      | inl f ↦ rw (e, f) (omega arith, tt)
      | inr f ↦
          rw (e, f)
            (collect-Low ms (if has_equal m us then us else us ++ m ∷ []) h.1 (
              if-All (has_equal m us) us (us ++ m ∷ []) l
                (All-append (Low k) us (m ∷ []) l (h.0, tt))))
    ]
  ]

  of_list-Low : (us : List Ty) → All (Low k) us → All (λ u. outer u ≤ k) (flatten_all (of_list us))
  unfolding flatten of_list
  of_list-Low [] h = tt
  of_list-Low (u ∷ us) h =
      All-append (λ v. outer v ≤ k) (flatten u) (flatten_all (of_list us)) h.0 (of_list-Low us h.1)

  to_union-Low : (quote : Bytes → Bytes) (c : Collected) → LowCollected c → Low k (to_union quote c)
  unfolding to_union flatten
  to_union-Low quote (returned t) h = h
  to_union-Low quote (distinct []) h = (omega arith, tt)
  to_union-Low quote (distinct (t ∷ [])) h = h.0
  to_union-Low quote (distinct (t ∷ u ∷ us)) h =
      of_list-Low (sort_by quote (t ∷ u ∷ us)) (All-sort_by quote (Low k) (t ∷ u ∷ us) h)

mutual
  unfolding erase flatten tuples new_union

  erase-Low : (quote : Bytes → Bytes) (t : Ty) (k : ℕ) → tuples t ≤ k → Low k (erase quote t)
  erase-Low quote (literal base vs) k h = erase-Low quote base k h
  erase-Low quote (union ts) k h =
      to_union-Low k quote (collect (flatten_list (erase_all quote ts)) []) (
        collect-Low k (flatten_list (erase_all quote ts)) []
          (flatten_list-Low k (erase_all quote ts) (erase_all-Low quote ts k h)) tt)
  erase-Low quote nil k h = tt
  erase-Low quote (tuple ts) k h = (h, tt)
  erase-Low quote _ k h = (omega arith, tt)

  erase_all-Low :
      (quote : Bytes → Bytes) (ts : Tys) (k : ℕ)
      → all_tuples ts ≤ k
      → All (Low k) (erase_all quote ts)
  erase_all-Low quote none_left k h = tt
  erase_all-Low quote (next t ts) k h =
      (erase-Low quote t k (omega (arith, h)), erase_all-Low quote ts k (omega (arith, h)))

-- From fuel `f` on, the answer is there and the same.
abbrev Settles : (ℕ → Option Bool) → ℕ → Type 0
Settles run f = (b : Bool) × ((g : ℕ) → f ≤ g → run g ≡ some b)

all_orderable-Settles :
    (quote : Bytes → Bytes) (f : ℕ) (ts : Tys)
    → ((t : Ty) → tuples t < f → Settles (λ g. orderable_within quote g t) f)
    → all_tuples ts < f
    → Settles (λ g. all_orderable (orderable_within quote g) ts) f
unfolding all_orderable tuples
all_orderable-Settles quote f none_left each h = (true, λ g le. refl)
all_orderable-Settles quote f (next t ts) each h =
    let (b, here) = each t (omega (arith, h)) in
    let (c, others) = all_orderable-Settles quote f ts each (omega (arith, h)) in go b here c others
  where
    go :
        (b : Bool)
        → ((g : ℕ) → f ≤ g → orderable_within quote g t ≡ some b)
        → (c : Bool) → ((g : ℕ) → f ≤ g → all_orderable (orderable_within quote g) ts ≡ some c)
        → Settles (λ g. all_orderable (orderable_within quote g) (next t ts)) f
    go true here c others = (c, λ g le. rw (here g le, all_orderable) (others g le))
    go false here c others = (false, λ g le. rw (here g le, all_orderable) refl)

orderable_tuple-Settles :
    (quote : Bytes → Bytes) (f : ℕ) (e : Ty)
    → ((t : Ty) → tuples t < f → Settles (λ g. orderable_within quote g t) f)
    → Low f e
    → Settles (λ g. orderable_tuple (orderable_within quote g) e) f
unfolding orderable_tuple flatten
orderable_tuple-Settles quote f (tuple ts) each h =
    all_orderable-Settles quote f ts each (omega (arith, h.0))
orderable_tuple-Settles quote f _ each h = (false, λ g le. refl)

-- With fuel for one round more than the type has tuples, `Orderable` returns, the same with more.
pub orderable_within-Settles :
    (quote : Bytes → Bytes) (f : ℕ) (t : Ty)
    → tuples t < f
    → (b : Bool) × ((g : ℕ) → f ≤ g → orderable_within quote g t ≡ some b)
unfolding orderable_within
orderable_within-Settles quote zero t h = elim h [ ]
orderable_within-Settles quote (suc f) t h =
    let (b, same) =
      orderable_tuple-Settles quote f (erase quote t)
        (λ u lt. orderable_within-Settles quote f u lt) (erase-Low quote t f (omega (arith, h))) in
    (if is_ordered_scalar (erase quote t) then true else b, λ g le. onward b same g le)
  where
    onward :
        (b : Bool)
        → ((g : ℕ) → f ≤ g → orderable_tuple (orderable_within quote g) (erase quote t) ≡ some b)
        → (g : ℕ) → suc f ≤ g
        → orderable_within quote g t ≡ some (if is_ordered_scalar (erase quote t) then true else b)
    onward b same zero le = absurd (omega (arith, le))
    onward b same (suc g) le = elim (Bool-cases (is_ordered_scalar (erase quote t))) [
      | inl e ↦ rw (e, orderable_within) refl
      | inr e ↦ rw (e, orderable_within) (same g (omega (arith, le)))
    ]
