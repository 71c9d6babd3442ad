-- ===== src/Types/Unions/Normal.antt =====
-- What `NewUnion` returns.
use minipy.Types.Equality.{equal_trans}
use minipy.Base.{
  subst, List, [], ◌∷◌, ◌++◌, Bool, true, false, not, ◌||◌, ◌&&◌, if◌then◌else◌, inl, inr, ◌⊎◌, ◌≡◌,
  refl, ap, ◌∙◌, sym, All, All-append, arith, length, ◌≤◌, Bytes, Bool-cases, append-nil,
  append_assoc,
}
use minipy.Types.Defs.{
  Ty, nil, union, primitive, Tys, none_left, next, is_invalid, is_any, invalid_type, any_type,
  to_list, of_list, equal, Primitive, primitive_eq,
}
use minipy.Types.Unions.{
  Collected, returned, distinct, collect, flatten, flatten_all, flatten_list, has_equal, sort_by,
  to_union, new_union,
}
use minipy.Types.Unions.Sorting.{
  Distinct, Ascending, equal_sym_false, length-sort_by, All-sort_by, sort_by-Distinct,
  sort_by-Ascending, sort_by_sorted, has_equal-sort_by,
}

-- A member of a union is neither nil nor a union, and not one of the types that end the loop.
abbrev is_atom : Ty → Bool
is_atom nil = false
is_atom (union _) = false
is_atom _ = true

abbrev is_member : Ty → Bool
is_member t = is_atom t && not (is_invalid t || is_any t)

abbrev IsAtom : Ty → Type 0
IsAtom t = is_atom t ≡ true

abbrev pub IsMember : Ty → Type 0
IsMember t = is_member t ≡ true

abbrev Kept : List Ty → Type 0
Kept us = All IsMember us × Distinct us

-- What holds of the types that end the loop, and of the distinct members.
abbrev IsCollected : Collected → Type 0
IsCollected (returned t) = (t ≡ invalid_type) ⊎ (t ≡ any_type)
IsCollected (distinct us) = Kept us

mutual
  unfolding flatten

  flatten_atoms : (t : Ty) → All IsAtom (flatten t)
  flatten_atoms nil = tt
  flatten_atoms (union ts) = flatten_all_atoms ts
  flatten_atoms _ = (refl, tt)

  flatten_all_atoms : (ts : Tys) → All IsAtom (flatten_all ts)
  flatten_all_atoms none_left = tt
  flatten_all_atoms (next t ts) =
      All-append IsAtom (flatten t) (flatten_all ts) (flatten_atoms t) (flatten_all_atoms ts)

flatten_list_atoms : (ts : List Ty) → All IsAtom (flatten_list ts)
unfolding flatten_list
flatten_list_atoms [] = tt
flatten_list_atoms (t ∷ ts) =
    All-append IsAtom (flatten t) (flatten_list ts) (flatten_atoms t) (flatten_list_atoms ts)

has_equal-append :
    (m : Ty) (us vs : List Ty) → has_equal m (us ++ vs) ≡ (has_equal m us || has_equal m vs)
unfolding has_equal
has_equal-append m [] vs = refl
has_equal-append m (u ∷ us) vs = ground (arith, has_equal-append m us vs)

Distinct-snoc :
    (us : List Ty) (m : Ty) → has_equal m us ≡ false → Distinct us → Distinct (us ++ m ∷ [])
unfolding has_equal
Distinct-snoc [] m h k = (refl, tt)
Distinct-snoc (u ∷ us) m h k = (
  has_equal-append u us (m ∷ []) ∙ ground (arith, k.0, equal_sym_false m u),
  Distinct-snoc us m (ground arith) k.1,
)

Kept-add :
    (m : Ty) (us : List Ty)
    → IsMember m
    → Kept us
    → Kept (if has_equal m us then us else us ++ m ∷ [])
Kept-add m us h k = elim (Bool-cases (has_equal m us)) [
  | inl e ↦ rw e k
  | inr e ↦ rw e (All-append IsMember us (m ∷ []) k.0 (h, tt), Distinct-snoc us m e k.1)
]

collect-IsCollected :
    (ms uniq : List Ty) → All IsAtom ms → Kept uniq → IsCollected (collect ms uniq)
unfolding collect
collect-IsCollected [] uniq h k = k
collect-IsCollected (m ∷ ms) uniq h k = elim (Bool-cases (is_invalid m)) [
  | inl e ↦ rw e (inl refl)
  | inr e ↦ elim (Bool-cases (is_any m)) [
    | inl f ↦ rw (e, f) (inr refl)
    | inr f ↦
        rw (e, f)
          (collect-IsCollected ms (if has_equal m uniq then uniq else uniq ++ m ∷ []) h.1
            (Kept-add m uniq (rw (h.0, e, f) refl) k))
  ]
]

-- A type as `NewUnion` builds it: not nil, and a union has at least two members, none of them
-- nil, a union, invalid or `Any`, no two of them equal, in the order of their texts.
abbrev pub IsNormal : (Bytes → Bytes) → Ty → Type 0
IsNormal quote nil = ⊥
IsNormal quote (union ts) =
    (2 ≤ length (to_list ts))
    × All IsMember (to_list ts)
    × Distinct (to_list ts)
    × Ascending quote (to_list ts)
IsNormal quote _ = Unit

to_list-of_list : (ts : List Ty) → to_list (of_list ts) ≡ ts
unfolding to_list of_list
to_list-of_list [] = refl
to_list-of_list (t ∷ ts) = ap (◌∷◌ t) (to_list-of_list ts)

to_union-IsNormal :
    (quote : Bytes → Bytes) (c : Collected) → IsCollected c → IsNormal quote (to_union quote c)
unfolding to_union
to_union-IsNormal quote (returned t) (inl e) = rw e tt
to_union-IsNormal quote (returned t) (inr e) = rw e tt
to_union-IsNormal quote (distinct []) h = tt
to_union-IsNormal quote (distinct (t ∷ [])) h = atom t h.0.0
  where
    atom : (t : Ty) → IsMember t → IsNormal quote t
    atom nil h = cc
    atom (union ts) h = cc
    atom _ h = tt
to_union-IsNormal quote (distinct (t ∷ u ∷ us)) h =
    rw (to_list-of_list (sort_by quote (t ∷ u ∷ us))) (
      omega (arith, length-sort_by quote (t ∷ u ∷ us)),
      All-sort_by quote IsMember (t ∷ u ∷ us) h.0,
      sort_by-Distinct quote (t ∷ u ∷ us) h.1,
      sort_by-Ascending quote (t ∷ u ∷ us),
    )

-- `NewUnion` returns a normal form, whatever the types it is given.
pub new_union-IsNormal :
    (quote : Bytes → Bytes) (ts : List Ty) → IsNormal quote (new_union quote ts)
unfolding new_union
new_union-IsNormal quote ts =
    to_union-IsNormal quote (collect (flatten_list ts) [])
      (collect-IsCollected (flatten_list ts) [] (flatten_list_atoms ts) (tt, tt))

-- Members that are distinct already are collected as they are.
Apart : List Ty → List Ty → Type 0
Apart uniq [] = Unit
Apart uniq (m ∷ ms) = (has_equal m uniq ≡ false) × Apart (uniq ++ m ∷ []) ms

collect-id :
    (ms uniq : List Ty) → All IsMember ms → Apart uniq ms → collect ms uniq ≡ distinct (uniq ++ ms)
unfolding collect Apart
collect-id [] uniq h k = ap distinct (sym (append-nil uniq))
collect-id (m ∷ ms) uniq h k =
    let (e, f) = special m h.0 in
    rw (e, f, k.0)
      (collect-id ms (uniq ++ m ∷ []) h.1 k.1 ∙ ap distinct (append_assoc uniq (m ∷ []) ms))
  where
    special : (m : Ty) → IsMember m → (is_invalid m ≡ false) × (is_any m ≡ false)
    special m h = ground arith

-- A member whose text comes later: `Distinct` looks ahead, `Apart` behind.
Distinct-Apart :
    (uniq ms : List Ty) → All (λ m. has_equal m uniq ≡ false) ms → Distinct ms → Apart uniq ms
unfolding Apart has_equal
Distinct-Apart uniq [] h k = tt
Distinct-Apart uniq (m ∷ ms) h k = (h.0, Distinct-Apart (uniq ++ m ∷ []) ms (both ms h.1 k.0) k.1)
  where
    both :
        (us : List Ty)
        → All (λ u. has_equal u uniq ≡ false) us
        → has_equal m us ≡ false
        → All (λ u. has_equal u (uniq ++ m ∷ []) ≡ false) us
    both [] h k = tt
    both (u ∷ us) h k = (
      has_equal-append u uniq (m ∷ []) ∙ ground (arith, h.0, equal_sym_false m u),
      both us h.1 (ground arith),
    )

pub flatten_member : (t : Ty) → IsMember t → flatten t ≡ t ∷ []
unfolding flatten
flatten_member nil h = cc
flatten_member (union _) h = cc
flatten_member _ h = refl

flatten_all-members : (ts : Tys) → All IsMember (to_list ts) → flatten_all ts ≡ to_list ts
unfolding flatten to_list
flatten_all-members none_left h = refl
flatten_all-members (next t ts) h =
    ap (λ us. us ++ flatten_all ts) (flatten_member t h.0) ∙ ap (◌∷◌ t) (flatten_all-members ts h.1)

of_list-to_list : (ts : Tys) → of_list (to_list ts) ≡ ts
unfolding to_list of_list
of_list-to_list none_left = refl
of_list-to_list (next t ts) = ap (next t) (of_list-to_list ts)

to_union-sorted :
    (quote : Bytes → Bytes) (us : List Ty)
    → 2 ≤ length us
    → Ascending quote us
    → to_union quote (distinct us) ≡ union (of_list us)
unfolding to_union
to_union-sorted quote [] h k = ground arith
to_union-sorted quote (u ∷ []) h k = ground arith
to_union-sorted quote (u ∷ v ∷ vs) h k =
    ap (λ us. union (of_list us)) (sort_by_sorted quote (u ∷ v ∷ vs) k)

collect-distinct : (us : List Ty) → All IsMember us → Distinct us → collect us [] ≡ distinct us
collect-distinct us h k = collect-id us [] h (Distinct-Apart [] us (none us) k)
  where
    none : (us : List Ty) → All (λ u. has_equal u [] ≡ false) us
    none [] = tt
    none (u ∷ us) = (unfold has_equal in refl, none us)

-- A type in normal form is what `NewUnion` makes of it alone.
pub new_union-normal :
    (quote : Bytes → Bytes) (t : Ty) → IsNormal quote t → new_union quote (t ∷ []) ≡ t
unfolding new_union flatten_list flatten to_union collect has_equal equal primitive_eq
new_union-normal quote (union ts) h =
    rw
      (
        append-nil (flatten_all ts),
        flatten_all-members ts h.1,
        collect-distinct (to_list ts) h.1 h.2,
      )
      (to_union-sorted quote (to_list ts) h.0 h.3 ∙ ap union (of_list-to_list ts))
new_union-normal quote nil h = absurd h
new_union-normal quote (primitive p) h = one p
  where
    one : (p : Primitive) → to_union quote (collect (primitive p ∷ []) []) ≡ primitive p
    one Primitive.invalid = refl
    one _ = refl
new_union-normal quote _ h = refl

-- `NewUnion` is idempotent: given its own result, it returns it.
pub new_union_idempotent :
    (quote : Bytes → Bytes) (ts : List Ty)
    → new_union quote (new_union quote ts ∷ []) ≡ new_union quote ts
new_union_idempotent quote ts =
    new_union-normal quote (new_union quote ts) (new_union-IsNormal quote ts)

has_equal-equal :
    (m n : Ty) (us : List Ty) → equal m n ≡ true → has_equal n us ≡ true → has_equal m us ≡ true
unfolding has_equal
has_equal-equal m n [] h k = k
has_equal-equal m n (u ∷ us) h k = ground (arith, equal_trans m n u h, has_equal-equal m n us h)

-- No member ends the loop.
abbrev pub Plain : List Ty → Type 0
Plain ts = All IsMember (flatten_list ts)

collect_keeps :
    (m : Ty) (ms uniq : List Ty)
    → All IsMember ms
    → (us : List Ty) × (collect ms uniq ≡ distinct us)
      × (has_equal m us ≡ (has_equal m uniq || has_equal m ms))
unfolding collect has_equal
collect_keeps m [] uniq h = (uniq, refl, ground arith)
collect_keeps m (n ∷ ms) uniq h =
    let (e, f) = special n h.0 in
    let (us, p, q) = collect_keeps m ms (if has_equal n uniq then uniq else uniq ++ n ∷ []) h.1 in
    (us, rw (e, f) p, q ∙ known)
  where
    special : (m : Ty) → IsMember m → (is_invalid m ≡ false) × (is_any m ≡ false)
    special m h = ground arith

    same : has_equal n uniq ≡ true → equal m n ≡ true → has_equal m uniq ≡ true
    same h k = has_equal-equal m n uniq k h

    known :
        (has_equal m (if has_equal n uniq then uniq else uniq ++ n ∷ []) || has_equal m ms)
        ≡ (has_equal m uniq || (equal m n || has_equal m ms))
    known = elim (Bool-cases (has_equal n uniq)) [
      | inl e ↦ rw e (ground (arith, same e))
      | inr e ↦ rw (e, has_equal-append m uniq (n ∷ [])) (ground arith)
    ]

pub equal-invalid : (m : Ty) → IsMember m → equal m invalid_type ≡ false
unfolding equal primitive_eq
equal-invalid (primitive Primitive.invalid) h = cc
equal-invalid _ h = refl

has_equal-to_union :
    (quote : Bytes → Bytes) (m : Ty) (us : List Ty)
    → IsMember m
    → All IsMember us
    → has_equal m (flatten (to_union quote (distinct us))) ≡ has_equal m us
unfolding to_union flatten has_equal
has_equal-to_union quote m [] h k = rw (equal-invalid m h) refl
has_equal-to_union quote m (t ∷ []) h k = ap (has_equal m) (flatten_member t k.0)
has_equal-to_union quote m (t ∷ u ∷ us) h k =
    rw
      (
        flatten_all-members (of_list (sort_by quote (t ∷ u ∷ us))) (
            rw (to_list-of_list (sort_by quote (t ∷ u ∷ us)))
              (All-sort_by quote IsMember (t ∷ u ∷ us) k)),
        to_list-of_list (sort_by quote (t ∷ u ∷ us)),
      )
      (has_equal-sort_by quote m (t ∷ u ∷ us))

-- Where no member is invalid or `Any`, the members of the union are, up to `Equal`, those of the
-- types that it is made of, with the nested unions opened.
pub new_union-members :
    (quote : Bytes → Bytes) (ts : List Ty) (m : Ty)
    → Plain ts
    → IsMember m
    → has_equal m (flatten (new_union quote ts)) ≡ has_equal m (flatten_list ts)
unfolding new_union
new_union-members quote ts m h k =
    let (us, p, q) = collect_keeps m (flatten_list ts) [] h in
    rw p (has_equal-to_union quote m us k (kept us p) ∙ q ∙ unfold has_equal in refl)
  where
    kept : (us : List Ty) → collect (flatten_list ts) [] ≡ distinct us → All IsMember us
    kept us p =
        (subst IsCollected p
          (collect-IsCollected (flatten_list ts) [] (flatten_list_atoms ts) (tt, tt))).0
