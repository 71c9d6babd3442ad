-- ===== src/Compiler/Exports/Public.antt =====
-- `computeExports` for a module without `__all__`.
use minipy.Base.{
  Bool, true, false, not, ◌&&◌, ◌||◌, List, [], ◌∷◌, Option, none, some, Bytes, bytes_eq,
  bytes_eq_iff, ◌≡◌, refl, sym, ap, arith, Bool-cases, and_true, inl, inr, ◌∙◌,
}
use minipy.Types.Strings.{bytes_lt}
use minipy.Compiler.Table.{Table}
use minipy.Compiler.Names.{
  ModuleInfo, Names, Binding, local_name, module_key, is_private, has_name, dotted,
}
use minipy.Compiler.Names.Keys.{local_name-module_key}
use minipy.Compiler.Narrow.Overlay.{has_key}
use minipy.Compiler.Exports.{
  add_export, add_public, add_bindings, add_local, add_declared, insert_name, sort_names,
  public_names, compute_exports,
}

unmatched : (h p : Bool) → (false || h) ≡ (h || (p && false))
unmatched h true = ground arith
unmatched h false = ground arith

distribute :
    (p b g f c : Bool) → ((p && b) || (p && g) || (p && f) || (p && c)) ≡ (p && (b || g || f || c))
distribute true b g f c = refl
distribute false b g f c = refl

add_public-members :
    (x y : Bytes) (names : List Bytes)
    → has_name x (add_public y names) ≡ (has_name x names || (not (is_private x) && bytes_eq x y))
unfolding add_public add_export has_name
add_public-members x y names = elim (Bool-cases (bytes_eq x y)) [
  | inl e ↦
      let same : x ≡ y = (bytes_eq_iff x y).0 e in
      let own : bytes_eq x x ≡ true = (bytes_eq_iff x x).1 refl in
      rw (sym same) (elim (Bool-cases (is_private x)) [
        | inl f ↦ rw f (ground arith)
        | inr f ↦ elim (Bool-cases (has_name x names)) [
          | inl g ↦ rw (f, g) (ground arith)
          | inr g ↦ rw (f, g, own) (ground arith)
        ]
      ])
  | inr e ↦ elim (Bool-cases (is_private y)) [
    | inl f ↦ rw (f, e) (ground arith)
    | inr f ↦ elim (Bool-cases (has_name y names)) [
      | inl g ↦ rw (f, g, e) (ground arith)
      | inr g ↦ rw (f, g, e) (unmatched (has_name x names) (not (is_private x)))
    ]
  ]
]

add_bindings-members :
    (x : Bytes) (bindings : Table Binding) (names : List Bytes)
    → has_name x (add_bindings bindings names)
      ≡ (has_name x names || (not (is_private x) && has_key x bindings))
unfolding add_bindings
add_bindings-members x [] names = ground arith
add_bindings-members x ((y, b) ∷ bindings) names =
    add_bindings-members x bindings (add_public y names)
    ∙ rw (add_public-members x y names) (ground arith)

-- Whether the table has the key of the name in the module.
abbrev pub declares : {V : Type 0} → Bytes → Table V → Bytes → Bool
declares m table x = not (dotted x) && has_key (module_key m x) table

abbrev is_name : Bytes → Option Bytes → Bool
is_name x none = false
is_name x (some y) = bytes_eq x y

add_local-members :
    (x : Bytes) (o : Option Bytes) (names : List Bytes)
    → has_name x (add_local o names) ≡ (has_name x names || (not (is_private x) && is_name x o))
unfolding add_local
add_local-members x none names = ground arith
add_local-members x (some y) names = add_public-members x y names

is_name-some : (x : Bytes) (o : Option Bytes) → is_name x o ≡ true → o ≡ some x
is_name-some x none h = cc
is_name-some x (some y) h = ap some (sym ((bytes_eq_iff x y).0 h))

is_name-local_name :
    (x m k : Bytes) → is_name x (local_name m k) ≡ (not (dotted x) && bytes_eq (module_key m x) k)
is_name-local_name x m k = elim (Bool-cases (not (dotted x) && bytes_eq (module_key m x) k)) [
  | inl e ↦
      let (plain, same) = and_true (not (dotted x)) (bytes_eq (module_key m x) k) e in
      let it =
        (local_name-module_key m k x).1
          (sym ((bytes_eq_iff (module_key m x) k).0 same), ground arith) in
      rw (e, it) ((bytes_eq_iff x x).1 refl)
  | inr e ↦ elim (Bool-cases (is_name x (local_name m k))) [
    | inr f ↦ rw (e, f) refl
    | inl f ↦
        let (same, plain) = (local_name-module_key m k x).0 (is_name-some x (local_name m k) f) in
        let it : bytes_eq (module_key m x) k ≡ true =
          (bytes_eq_iff (module_key m x) k).1 (sym same) in
        absurd (ground arith)
  ]
]

add_declared-members :
    {V : Type 0} (x m : Bytes) (table : Table V) (names : List Bytes)
    → has_name x (add_declared m table names)
      ≡ (has_name x names || (not (is_private x) && declares m table x))
unfolding add_declared
add_declared-members x m [] names = ground arith
add_declared-members x m ((k, v) ∷ table) names =
    add_declared-members x m table (add_local (local_name m k) names)
    ∙ rw (add_local-members x (local_name m k) names, is_name-local_name x m k) (ground arith)

insert_name-members :
    (x y : Bytes) (names : List Bytes)
    → has_name x (insert_name y names) ≡ (bytes_eq x y || has_name x names)
unfolding insert_name has_name
insert_name-members x y [] = refl
insert_name-members x y (z ∷ names) = elim (Bool-cases (bytes_lt z y)) [
  | inl e ↦ rw (e, insert_name-members x y names) (ground arith)
  | inr e ↦ rw e refl
]

sort_names-members :
    (x : Bytes) (names : List Bytes) → has_name x (sort_names names) ≡ has_name x names
unfolding sort_names has_name
sort_names-members x [] = refl
sort_names-members x (y ∷ names) =
    insert_name-members x y (sort_names names) ∙ rw (sort_names-members x names) refl

-- A module that is neither native nor has `__all__` exports exactly its public names: those that it
-- binds by an import, and those without a dot under whose key it has a global, a function or a class.
pub compute_exports-members :
    {S : Type 0} (n : Names S) (m : ModuleInfo) (x : Bytes)
    → m.native ≡ false
    → m.all_seen ≡ false
    → has_name x (compute_exports n m).exports ≡ (
        not (is_private x)
        && (has_key x m.bindings
            || declares m.name n.globals x
            || declares m.name n.functions x
            || declares m.name n.classes x))
unfolding compute_exports public_names
compute_exports-members n m x h k =
    let b = add_bindings m.bindings [] in
    let g = add_declared m.name n.globals b in
    let f = add_declared m.name n.functions g in
    rw (h, k)
      (sort_names-members x (add_declared m.name n.classes f)
        ∙ add_declared-members x m.name n.classes f
        ∙ rw
            (
              add_declared-members x m.name n.functions g,
              add_declared-members x m.name n.globals b,
              add_bindings-members x m.bindings [],
            )
            (distribute (not (is_private x)) (has_key x m.bindings) _ _ _))
