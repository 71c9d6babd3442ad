-- ===== src/Tests/Naming.antt =====
-- Names of modules that import from one another, and the theorems on them there.
use minipy.Base.{
  ℕ, ◌<◌, false, not, ◌&&◌, ◌||◌, [], ◌∷◌, none, some, Bytes, bytes_eq, codes, if◌then◌else◌, ◌≡◌,
  ◌↔◌, refl, subst, arith, Bool-cases, inl, inr, zero, suc,
}
use minipy.Compiler.Table.{Table, look_up}
use minipy.Compiler.Narrow.Overlay.{has_key}
use minipy.Compiler.Names.{
  Binding, ModuleInfo, Names, ResolvedName, Kind, module_key, local_name, dotted, is_private,
  has_name, resolve_name, resolve_module_attr,
}
use minipy.Compiler.Names.Keys.{local_name-module_key}
use minipy.Compiler.Names.Chains.{Descends, resolve_module_attr-returns, resolve_name-module_attr}
use minipy.Compiler.Exports.{compute_exports}
use minipy.Compiler.Exports.Public.{declares, compute_exports-members}

abbrev bare : Bytes → Table Binding → ModuleInfo
bare name bindings = record {
  name = name;
  native = false;
  bindings = bindings;
  all = [];
  all_seen = false;
  all_static = false;
  exports = [];
}

-- `b` defines the function x, `a` imports it from `b`.
abbrev module_a : ModuleInfo
module_a = bare (codes "a") ((codes "x", record { target = codes "b"; symbol = codes "x" }) ∷ [])

abbrev module_b : ModuleInfo
module_b = bare (codes "b") []

abbrev modules : Table ModuleInfo
modules = (codes "a", module_a) ∷ (codes "b", module_b) ∷ []

abbrev names_in : Table ModuleInfo → ModuleInfo → Names ℕ
names_in modules m = record {
  functions = (codes "b.x", tt) ∷ [];
  classes = [];
  globals = [];
  modules = modules;
  reg = record { modules = []; by_name = []; fallback = [] };
  current = some m;
}

abbrev names : Names ℕ
names = names_in modules module_a

local_name-module_key_example :
    (local_name (codes "b") (codes "b.x") ≡ some (codes "x"))
    ↔ ((codes "b.x" ≡ module_key (codes "b") (codes "x")) × (dotted (codes "x") ≡ false))
local_name-module_key_example = local_name-module_key (codes "b") (codes "b.x") (codes "x")

compute_exports-members_example : has_name (codes "x") (compute_exports names module_b).exports ≡ (
    not (is_private (codes "x"))
    && (has_key (codes "x") module_b.bindings
        || declares module_b.name names.globals (codes "x")
        || declares module_b.name names.functions (codes "x")
        || declares module_b.name names.classes (codes "x")))
compute_exports-members_example = compute_exports-members names module_b (codes "x") refl refl

abbrev rank : Bytes → Bytes → ℕ
rank m x = if bytes_eq m (codes "a") then 1 else 0

names-Descends : Descends names rank
unfolding look_up
names-Descends m x b h k = elim (Bool-cases (bytes_eq m (codes "a"))) [
  | inr e ↦ elim (Bool-cases (bytes_eq m (codes "b"))) [
    | inl f ↦ cc (rw (e, f) at h)
    | inr f ↦ cc (rw (e, f) at h)
  ]
  | inl e ↦ elim (Bool-cases (bytes_eq x (codes "x"))) [
    | inr f ↦ cc (rw (e, f) at h)
    | inl f ↦
        let same : record { target = codes "b"; symbol = codes "x" } ≡ b = cc (rw (e, f) at h) in
        subst (λ (c : Binding). rank c.target c.symbol < rank m x) same
          (rw e (unfold bytes_eq in omega arith))
  ]
]

resolve_module_attr-returns_example :
    (r : ResolvedName ℕ) × (resolve_module_attr 2 names (codes "a") (codes "x") ≡ some r)
resolve_module_attr-returns_example =
    resolve_module_attr-returns names rank 2 (codes "a") (codes "x") names-Descends
      (unfold bytes_eq in omega arith)

resolve_name-module_attr_example :
    resolve_module_attr 1 names (codes "b") (codes "x") ≡ some (resolve_name names (codes "x"))
unfolding look_up module_key
resolve_name-module_attr_example =
    resolve_name-module_attr names module_a (codes "x")
      (record { target = codes "b"; symbol = codes "x" }) 0 refl refl refl refl refl

-- A third module that imports x from `a` finds it there, but does not resolve the name bound to it.
abbrev module_c : ModuleInfo
module_c = bare (codes "c") ((codes "x", record { target = codes "a"; symbol = codes "x" }) ∷ [])

resolve_module_attr_chain :
    resolve_module_attr 2 (names_in modules module_c) (codes "a") (codes "x")
    ≡ some (record { key = codes "b.x"; module_name = []; symbol = none; kind = Kind.function })
unfolding resolve_module_attr module_key
resolve_module_attr_chain = refl

resolve_name_chain :
    resolve_name (names_in modules module_c) (codes "x")
    ≡ record { key = codes "a.x"; module_name = []; symbol = none; kind = Kind.unresolved }
unfolding resolve_name module_key
resolve_name_chain = refl

-- Two modules that import x from each other: the search for it goes round without end.
abbrev circle : Names ℕ
circle =
    names_in
      ((codes "a", module_a)
        ∷ (
          codes "b",
          bare (codes "b") ((codes "x", record { target = codes "a"; symbol = codes "x" }) ∷ []),
        )
        ∷ [])
      module_a

mutual
  unfolding resolve_module_attr

  circle_from_a : (fuel : ℕ) → resolve_module_attr fuel circle (codes "a") (codes "x") ≡ none
  circle_from_a zero = refl
  circle_from_a (suc fuel) = circle_from_b fuel

  circle_from_b : (fuel : ℕ) → resolve_module_attr fuel circle (codes "b") (codes "x") ≡ none
  circle_from_b zero = refl
  circle_from_b (suc fuel) = circle_from_a fuel
