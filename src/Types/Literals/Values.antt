-- ===== src/Types/Literals/Values.antt =====
-- The values of a literal type that `NewLiteral` makes.
use minipy.Base.{
  Bool, true, ◌||◌, List, [], ◌∷◌, ◌++◌, if◌then◌else◌, Bytes, ◌≡◌, refl, ◌∙◌, ap, subst,
  Bool-cases, inl, inr, arith,
}
use minipy.Types.Defs.{Ty, literal, LiteralValue, literal_eq}
use minipy.Types.Equality.{literal_eq_iff}
use minipy.Types.Strings.{bytes_lt, literal_string}
use minipy.Types.Assign.{contains}
use minipy.Types.Literals.{unique, insert_value, sort_values, new_literal}

abbrev pub values : Ty → List LiteralValue
values (literal _ vs) = vs
values _ = []

contains-append :
    (us vs : List LiteralValue) (w : LiteralValue)
    → contains (us ++ vs) w ≡ (contains us w || contains vs w)
unfolding contains
contains-append [] vs w = refl
contains-append (u ∷ us) vs w = ground (arith, contains-append us vs w)

contains-add :
    (us : List LiteralValue) (v w : LiteralValue)
    → contains (if contains us v then us else us ++ v ∷ []) w ≡ (contains us w || literal_eq v w)
unfolding contains
contains-add us v w = elim (Bool-cases (contains us v)) [
  | inl e ↦ rw e (absorbed (λ h. subst (λ x. contains us x ≡ true) ((literal_eq_iff v w).0 h) e))
  | inr e ↦ rw (e, contains-append us (v ∷ []) w) (ground arith)
]
  where
    absorbed :
        (literal_eq v w ≡ true → contains us w ≡ true)
        → contains us w ≡ (contains us w || literal_eq v w)
    absorbed h = ground arith

contains-unique :
    (vs us : List LiteralValue) (w : LiteralValue)
    → contains (unique vs us) w ≡ (contains us w || contains vs w)
unfolding contains unique
contains-unique [] us w = ground arith
contains-unique (v ∷ vs) us w =
    contains-unique vs (if contains us v then us else us ++ v ∷ []) w
    ∙ ap (λ b. b || contains vs w) (contains-add us v w)
    ∙ assoc (contains us w) (literal_eq v w) (contains vs w)
  where
    assoc : (a b c : Bool) → ((a || b) || c) ≡ (a || (b || c))
    assoc a b c = ground arith

contains-insert_value :
    (quote : Bytes → Bytes) (v : LiteralValue) (us : List LiteralValue) (w : LiteralValue)
    → contains (insert_value quote v us) w ≡ (literal_eq v w || contains us w)
unfolding contains insert_value
contains-insert_value quote v [] w = refl
contains-insert_value quote v (u ∷ us) w =
    elim (Bool-cases (bytes_lt (literal_string quote u) (literal_string quote v))) [
      | inl e ↦ rw e (
          ap (λ b. literal_eq u w || b) (contains-insert_value quote v us w)
          ∙ swap (literal_eq u w) (literal_eq v w) (contains us w))
      | inr e ↦ rw e refl
    ]
  where
    swap : (a b c : Bool) → (a || (b || c)) ≡ (b || (a || c))
    swap a b c = ground arith

contains-sort_values :
    (quote : Bytes → Bytes) (us : List LiteralValue) (w : LiteralValue)
    → contains (sort_values quote us) w ≡ contains us w
unfolding contains sort_values
contains-sort_values quote [] w = refl
contains-sort_values quote (u ∷ us) w =
    contains-insert_value quote u (sort_values quote us) w
    ∙ ap (λ b. literal_eq u w || b) (contains-sort_values quote us w)

-- The literal type that `NewLiteral` makes of some values contains exactly those.
pub new_literal-contains :
    (quote : Bytes → Bytes) (vs : List LiteralValue) (w : LiteralValue)
    → contains (values (new_literal quote vs)) w ≡ contains vs w
unfolding new_literal
new_literal-contains quote [] w = refl
new_literal-contains quote (v ∷ vs) w =
    contains-sort_values quote (unique (v ∷ vs) []) w
    ∙ contains-unique (v ∷ vs) [] w
    ∙ unfold contains in refl
