-- ===== src/Compiler/Exports.antt =====
-- What a module exports: `computeExports`, compiler/check.go.
pub mod Public
use minipy.Base.{
  Bool, true, false, not, ◌&&◌, ◌||◌, List, [], ◌∷◌, Option, none, some, Bytes, bytes_eq,
  if◌then◌else◌,
}
use minipy.Types.Strings.{bytes_lt}
use minipy.Compiler.Table.{Table}
use minipy.Compiler.Names.{
  ModuleInfo, Names, Binding, local_name, is_private, has_name, unique_strings,
}

-- `names[name] = true` in a map.
unfoldable pub add_export : Bytes → List Bytes → List Bytes
unfolding has_name
add_export x names = if has_name x names then names else x ∷ names

unfoldable pub add_public : Bytes → List Bytes → List Bytes
unfolding add_export
add_public x names = if is_private x then names else add_export x names

-- The loop over the bindings.
unfoldable pub add_bindings : Table Binding → List Bytes → List Bytes
unfolding add_public
add_bindings [] names = names
add_bindings ((x, _) ∷ bindings) names = add_bindings bindings (add_public x names)

-- The loops over the globals, the functions and the classes.
unfoldable pub add_local : Option Bytes → List Bytes → List Bytes
unfolding add_public
add_local none names = names
add_local (some x) names = add_public x names

unfoldable pub add_declared : {V : Type 0} → Bytes → Table V → List Bytes → List Bytes
unfolding add_local local_name
add_declared m [] names = names
add_declared m ((k, _) ∷ table) names = add_declared m table (add_local (local_name m k) names)

-- `sort.Strings`.
unfoldable pub insert_name : Bytes → List Bytes → List Bytes
unfolding bytes_lt
insert_name x [] = x ∷ []
insert_name x (y ∷ ys) =
    let rest = insert_name x ys in if bytes_lt y x then y ∷ rest else x ∷ y ∷ ys

unfoldable pub sort_names : List Bytes → List Bytes
unfolding insert_name
sort_names [] = []
sort_names (x ∷ xs) = insert_name x (sort_names xs)

unfoldable pub public_names : {S : Type 0} → Names S → ModuleInfo → List Bytes
unfolding add_bindings add_declared
public_names n m =
    add_declared m.name n.classes
      (add_declared m.name n.functions (add_declared m.name n.globals (add_bindings m.bindings [])))

-- `computeExports`.
unfoldable pub compute_exports : {S : Type 0} → Names S → ModuleInfo → ModuleInfo
unfolding sort_names public_names unique_strings
compute_exports n m =
    if m.native
    then m
    else if m.all_seen
    then (if m.all_static then record m { exports = unique_strings m.all } else m)
    else record m { exports = sort_names (public_names n m) }
