-- ===== src/Compiler/Names.antt =====
-- Names and modules of the checker, compiler/check.go: keys, exports, and what a name stands for. A
-- map keyed by names is a table of its entries.
pub mod Keys
pub mod Chains
use minipy.Base.{
  ℕ, zero, suc, Bool, true, false, not, ◌&&◌, ◌||◌, ◌==◌, List, [], ◌∷◌, ◌++◌, Option, none, some,
  Bytes, bytes_eq, codes, if◌then◌else◌,
}
use minipy.Registry.{Registry, lookup_symbol, fallback_symbol, has, is_blank}
use minipy.Compiler.Table.{Table, look_up}

-- `binding`: a module, and the symbol of it or "".
pub record Binding : Type 0 where
  pub target : Bytes
  pub symbol : Bytes

-- The fields of `moduleInfo` that names depend on.
pub record ModuleInfo : Type 0 where
  pub name : Bytes
  pub native : Bool
  pub bindings : Table Binding
  pub all : List Bytes
  pub all_seen : Bool
  pub all_static : Bool
  pub exports : List Bytes

abbrev pub main_name : Bytes
main_name = codes "__main__"

-- `strings.HasPrefix` and `strings.TrimPrefix`: what is behind the prefix, if it is there.
unfoldable pub after_prefix : Bytes → Bytes → Option Bytes
after_prefix [] s = some s
after_prefix (p ∷ ps) [] = none
after_prefix (p ∷ ps) (c ∷ cs) = let rest = after_prefix ps cs in if p == c then rest else none

-- `strings.Contains(s, ".")`.
abbrev pub dotted : Bytes → Bool
dotted [] = false
dotted (c ∷ cs) = (c == b'.') || dotted cs

-- `moduleKey`, and `key` of a checker in that module.
unfoldable pub module_key : Bytes → Bytes → Bytes
unfolding bytes_eq
module_key m symbol = if bytes_eq m main_name then symbol else m ++ b'.' ∷ symbol

unfoldable pub key_in : Option ModuleInfo → Bytes → Bytes
unfolding module_key
key_in none x = x
key_in (some m) x = module_key m.name x

-- `localNameForModule`: `none` where its second result is false.
unfoldable pub undotted : Option Bytes → Option Bytes
undotted none = none
undotted (some x) = if dotted x then none else some x

unfoldable pub local_name : Bytes → Bytes → Option Bytes
unfolding bytes_eq after_prefix undotted
local_name m k =
    if bytes_eq m main_name then undotted (some k) else undotted (after_prefix (m ++ b'.' ∷ []) k)

-- `uniqueStrings`: `seen` is the map of what has been kept.
unfoldable pub has_name : Bytes → List Bytes → Bool
unfolding bytes_eq
has_name x [] = false
has_name x (y ∷ ys) = bytes_eq x y || has_name x ys

unfoldable pub unique_onto : List Bytes → List Bytes → List Bytes
unfolding has_name
unique_onto seen [] = []
unique_onto seen (x ∷ xs) =
    let skip = unique_onto seen xs in
    let keep = unique_onto (x ∷ seen) xs in if has_name x seen then skip else x ∷ keep

unfoldable pub unique_strings : List Bytes → List Bytes
unfolding unique_onto
unique_strings xs = unique_onto [] xs

-- `strings.HasPrefix(name, "_")`.
abbrev pub is_private : Bytes → Bool
is_private [] = false
is_private (c ∷ _) = c == b'_'

-- What `resolvedName` says that a name stands for.
pub data Kind : Type 0 where
  unresolved function class global module_object native : Kind

pub record ResolvedName (S : Type 0) : Type 0 where
  pub key : Bytes
  pub module_name : Bytes
  pub symbol : Option S
  pub kind : Kind

-- The maps of the checker that names are looked up in; of the values only their presence counts.
pub record Names (S : Type 0) : Type 0 where
  pub functions : Table (Unit {0})
  pub classes : Table (Unit {0})
  pub globals : Table (Unit {0})
  pub modules : Table ModuleInfo
  pub reg : Registry S
  pub current : Option ModuleInfo

abbrev pub is_present {ℓ} : {V : Type ℓ} → Option V → Bool
is_present none = false
is_present (some _) = true

abbrev pub binding_of : Option ModuleInfo → Bytes → Option Binding
binding_of none x = none
binding_of (some m) x = look_up x m.bindings

module _ {S : Type 0} where
  abbrev pub resolved : Bytes → Kind → ResolvedName S
  resolved k kind = record { key = k; module_name = []; symbol = none; kind = kind }

  abbrev pub as_module : Bytes → ResolvedName S
  as_module m = record { key = []; module_name = m; symbol = none; kind = Kind.module_object }

  abbrev pub as_native : Bytes → S → ResolvedName S
  as_native k s = record { key = k; module_name = []; symbol = some s; kind = Kind.native }

  -- The cases on what is declared under a key, and the result where there is nothing.
  unfoldable pub declared : Names S → Bytes → ResolvedName S → ResolvedName S
  unfolding look_up
  declared n k otherwise =
      if is_present (look_up k n.functions)
      then resolved k Kind.function
      else if is_present (look_up k n.classes)
      then resolved k Kind.class
      else if is_present (look_up k n.globals)
      then resolved k Kind.global
      else otherwise

  -- The part of `resolveName` for a bound name.
  unfoldable pub resolve_symbol : Names S → Binding → Option S → ResolvedName S
  unfolding declared module_key
  resolve_symbol n b (some s) = as_native (b.target ++ b'.' ∷ b.symbol) s
  resolve_symbol n b none =
      declared n (module_key b.target b.symbol)
        (resolved (module_key b.target b.symbol) Kind.unresolved)

  unfoldable pub resolve_binding : Names S → Binding → ResolvedName S
  unfolding resolve_symbol lookup_symbol
  resolve_binding n b =
      if is_blank b.symbol
      then as_module b.target
      else resolve_symbol n b (lookup_symbol n.reg b.target b.symbol)

  unfoldable pub as_fallback : Names S → Bytes → Bytes → Option S → ResolvedName S
  as_fallback n k x none = resolved k Kind.unresolved
  as_fallback n k x (some s) = as_native (n.reg.fallback ++ b'.' ∷ x) s

  -- The part for a name that is not bound.
  unfoldable pub resolve_own : Names S → Bytes → ResolvedName S
  unfolding declared key_in has fallback_symbol as_fallback
  resolve_own n x = declared n (key_in n.current x) (
      if has n.reg x
      then as_module x
      else if is_present (look_up (codes "builtins." ++ x) n.classes)
      then resolved (codes "builtins." ++ x) Kind.class
      else as_fallback n (key_in n.current x) x (fallback_symbol n.reg x))

  unfoldable pub resolve_bound : Names S → Bytes → Option Binding → ResolvedName S
  unfolding resolve_binding resolve_own
  resolve_bound n x (some b) = resolve_binding n b
  resolve_bound n x none = resolve_own n x

  -- `resolveName`.
  unfoldable pub resolve_name : Names S → Bytes → ResolvedName S
  unfolding resolve_bound
  resolve_name n x = resolve_bound n x (binding_of n.current x)

  -- The part of `resolveModuleAttr` behind the bindings.
  unfoldable pub resolve_member : Names S → Bytes → ResolvedName S
  unfolding declared
  resolve_member n k =
      declared n k
        (if is_present (look_up k n.modules) then as_module k else resolved k Kind.unresolved)

  -- The part for a binding of the module: `rest` is the call for the module and the symbol of it.
  unfoldable pub follow :
      Names S → Binding → Option S → Option (ResolvedName S) → Option (ResolvedName S)
  follow n b (some s) rest = some (as_native (b.target ++ b'.' ∷ b.symbol) s)
  follow n b none rest = rest

  -- `resolveModuleAttr`, which calls itself along bindings; `none` where it has not returned after
  -- `fuel` calls.
  unfoldable pub resolve_module_attr : ℕ → Names S → Bytes → Bytes → Option (ResolvedName S)
  unfolding lookup_symbol resolve_member follow
  resolve_module_attr zero n m x = none
  resolve_module_attr (suc fuel) n m x = elim (lookup_symbol n.reg m x) [
    | some s ↦ some (as_native (m ++ b'.' ∷ x) s)
    | none ↦ elim (binding_of (look_up m n.modules) x) [
      | none ↦ some (resolve_member n (module_key m x))
      | some b ↦
          let rest = resolve_module_attr fuel n b.target b.symbol in
          if is_blank b.symbol
          then some (as_module b.target)
          else follow n b (lookup_symbol n.reg b.target b.symbol) rest
    ]
  ]
