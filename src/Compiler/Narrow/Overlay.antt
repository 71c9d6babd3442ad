-- ===== src/Compiler/Narrow/Overlay.antt =====
-- The overlay of narrowed types in and behind a region: `withNarrow` and its use in `checkBlock`.
use minipy.Base.{
  Bool, true, false, ◌||◌, List, [], ◌∷◌, Option, none, some, Bytes, bytes_eq, bytes_eq_iff,
  if◌then◌else◌, ◌≡◌, refl, Bool-cases, inl, inr, ◌∙◌, Option-cases,
}
use minipy.Types.Defs.{Ty}
use minipy.Parser.Ast.Stmts.{Stmts}
use minipy.Compiler.Table.{Table, look_up, put, discard, look_up-discard}
use minipy.Compiler.Narrow.{Checker, overlay, restore, with_narrow}

-- A map as Go has it: no key twice.
abbrev pub has_key : {V : Type 0} → Bytes → Table V → Bool
has_key x [] = false
has_key x ((k, _) ∷ m) = bytes_eq x k || has_key x m

abbrev pub IsMap : {V : Type 0} → Table V → Type 0
IsMap [] = Unit
IsMap ((k, _) ∷ m) = (has_key k m ≡ false) × IsMap m

has_key-overlay : (x : Bytes) (m n : Table Ty) → has_key x (overlay m n).0 ≡ has_key x m
unfolding overlay
has_key-overlay x [] n = refl
has_key-overlay x ((k, t) ∷ m) n = rw (has_key-overlay x m (put k t n)) refl

overlay-IsMap : (m n : Table Ty) → IsMap m → IsMap (overlay m n).0
unfolding overlay
overlay-IsMap [] n h = tt
overlay-IsMap ((k, t) ∷ m) n h =
    (has_key-overlay k m (put k t n) ∙ h.0, overlay-IsMap m (put k t n) h.1)

overlay-outside :
    (x : Bytes) (m n : Table Ty) → has_key x m ≡ false → look_up x (overlay m n).1 ≡ look_up x n
unfolding overlay look_up
overlay-outside x [] n h = refl
overlay-outside x ((k, t) ∷ m) n h = elim (Bool-cases (bytes_eq x k)) [
  | inl e ↦ cc (rw e at h)
  | inr e ↦ overlay-outside x m (put k t n) (rw e at h) ∙ rw e refl
]

overlay-saved :
    (x : Bytes) (m n : Table Ty)
    → has_key x m ≡ true
    → look_up x (overlay m n).0 ≡ some (look_up x n)
unfolding overlay look_up
overlay-saved x [] n h = cc
overlay-saved x ((k, t) ∷ m) n h = elim (Bool-cases (bytes_eq x k)) [
  | inl e ↦ let same : x ≡ k = (bytes_eq_iff x k).0 e in rw (e, same) refl
  | inr e ↦ rw e (overlay-saved x m (put k t n) (rw e at h) ∙ rw e refl)
]

-- One turn of `restore`.
abbrev put_back : Bytes → Option Ty → Table Ty → Table Ty
put_back k none n = discard k n
put_back k (some t) n = put k t n

look_up-put_back :
    (x k : Bytes) (o : Option Ty) (n : Table Ty)
    → look_up x (put_back k o n) ≡ (if bytes_eq x k then o else look_up x n)
unfolding look_up
look_up-put_back x k none n = look_up-discard x k n
look_up-put_back x k (some t) n = refl

restore-cons :
    (k : Bytes) (o : Option Ty) (old : List (Bytes × Option Ty)) (n : Table Ty)
    → restore ((k, o) ∷ old) n ≡ restore old (put_back k o n)
unfolding restore
restore-cons k none old n = refl
restore-cons k (some t) old n = refl

restore-outside :
    (x : Bytes) (old : List (Bytes × Option Ty)) (n : Table Ty)
    → has_key x old ≡ false
    → look_up x (restore old n) ≡ look_up x n
unfolding restore
restore-outside x [] n h = refl
restore-outside x ((k, o) ∷ old) n h = elim (Bool-cases (bytes_eq x k)) [
  | inl e ↦ cc (rw e at h)
  | inr e ↦
      rw (restore-cons k o old n)
        (restore-outside x old (put_back k o n) (rw e at h) ∙ look_up-put_back x k o n ∙ rw e refl)
]

restore-saved :
    (x : Bytes) (old : List (Bytes × Option Ty)) (n : Table Ty) (o : Option Ty)
    → IsMap old
    → look_up x old ≡ some o
    → look_up x (restore old n) ≡ o
unfolding look_up
restore-saved x [] n o h e = cc
restore-saved x ((k, p) ∷ old) n o h e = elim (Bool-cases (bytes_eq x k)) [
  | inl f ↦
      let same : x ≡ k = (bytes_eq_iff x k).0 f in
      let it : p ≡ o = cc (rw f at e) in
      rw (restore-cons k p old n) (
        restore-outside x old (put_back k p n) (rw same h.0)
        ∙ look_up-put_back x k p n
        ∙ rw (f, it) refl)
  | inr f ↦ rw (restore-cons k p old n) (restore-saved x old (put_back k p n) o h.1 (rw f at e))
]

-- `m` has the type of each of its keys, in the overlay that `overlay` makes.
overlay-keys :
    (x : Bytes) (t : Ty) (m n : Table Ty)
    → IsMap m
    → look_up x m ≡ some t
    → look_up x (overlay m n).1 ≡ some t
unfolding overlay look_up
overlay-keys x t [] n h e = cc
overlay-keys x t ((k, u) ∷ m) n h e = elim (Bool-cases (bytes_eq x k)) [
  | inl f ↦
      let same : x ≡ k = (bytes_eq_iff x k).0 f in
      let it : some u ≡ some t = rw f at e in
      overlay-outside x m (put k u n) (rw same h.0) ∙ rw f it
  | inr f ↦ overlay-keys x t m (put k u n) h.1 (rw f at e)
]

has_key-look_up : (x : Bytes) (m : Table Ty) → look_up x m ≡ none → has_key x m ≡ false
unfolding look_up
has_key-look_up x [] e = refl
has_key-look_up x ((k, u) ∷ m) e = elim (Bool-cases (bytes_eq x k)) [
  | inl f ↦ cc (rw f at e)
  | inr f ↦ rw f (has_key-look_up x m (rw f at e))
]

abbrev pub or_else : Option Ty → Option Ty → Option Ty
or_else none o = o
or_else (some t) o = some t

look_up-overlay :
    (x : Bytes) (m n : Table Ty)
    → IsMap m
    → look_up x (overlay m n).1 ≡ or_else (look_up x m) (look_up x n)
look_up-overlay x m n h = elim (Option-cases (look_up x m)) [
  | inl e ↦ overlay-outside x m n (has_key-look_up x m e) ∙ rw e refl
  | inr (t, e) ↦ overlay-keys x t m n h e ∙ rw e refl
]

-- `r` is the checker `c` behind the region in which `body` runs with the narrowed types of `m`:
-- `body` runs once, with the types of `m` and else those of `c`; behind it the keys of `m` have what
-- they had in `c`, and the rest is as `body` leaves it.
pub record IsRegion {R : Type 0} (m : Table Ty) (body : Checker R → Checker R) (c r : Checker R)
    : Type 0 where
  inside : Checker R
  only_narrowed : inside.rest ≡ c.rest
  narrowed_inside :
      (x : Bytes) → look_up x inside.narrowed ≡ or_else (look_up x m) (look_up x c.narrowed)
  rest_kept : r.rest ≡ (body inside).rest
  narrowed_behind :
      (x : Bytes)
      → look_up x r.narrowed
        ≡ (if has_key x m then look_up x c.narrowed else look_up x (body inside).narrowed)

-- Whatever the body does to the checker, and also where it changes the overlay of narrowed types,
-- `withNarrow` of a map runs it once, with the map's type for each key of the map and the old entries
-- for all other names; afterwards each key of the map has the entry it had before, or none, and
-- everything else is as the body leaves it.
pub with_narrow-IsRegion :
    {R : Type 0} (m : Table Ty) (body : Checker R → Checker R) (c : Checker R)
    → IsMap m
    → IsRegion m body c (with_narrow m body c)
unfolding with_narrow look_up
with_narrow-IsRegion [] body c h = record {
  inside = c;
  only_narrowed = refl;
  narrowed_inside = λ x. refl;
  rest_kept = refl;
  narrowed_behind = λ x. refl;
}
with_narrow-IsRegion (e ∷ m) body c h =
    let n = c.narrowed in
    let old = (overlay (e ∷ m) n).0 in
    let inside = record c { narrowed = (overlay (e ∷ m) n).1 } in
    let after = (body inside).narrowed in
    record {
      inside = inside;
      only_narrowed = refl;
      narrowed_inside = λ x. look_up-overlay x (e ∷ m) n h;
      rest_kept = refl;
      narrowed_behind = λ x. elim (Bool-cases (has_key x (e ∷ m))) [
        | inl f ↦
            restore-saved x old after (look_up x n) (overlay-IsMap (e ∷ m) n h)
              (overlay-saved x (e ∷ m) n f)
            ∙ rw f refl
        | inr f ↦ restore-outside x old after (has_key-overlay x (e ∷ m) n ∙ f) ∙ rw f refl
      ];
    }

AreMaps : Table Ty × Table Ty → Type 0
AreMaps (a, b) = IsMap a × IsMap b
