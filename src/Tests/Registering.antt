-- ===== src/Tests/Registering.antt =====
-- The registry at small inputs, and the theorems on it there.
use minipy.Registry.Lookup.{new_registry-fallback, named, new_registry-lookup}
use minipy.Base.{
  ℕ, ◌≡◌, refl, some, none, inl, inr, [], ◌∷◌, List, codes, map, Option, ◌⊎◌, if◌then◌else◌,
  bytes_eq,
}
use minipy.Registry.{
  Module, Registry, Failure, new_registry, with_fallback, lookup_module, fallback_module,
}

-- A module with one symbol, `pi`, and one without symbols.
abbrev math : Module ℕ
math = record {
  name = codes "math";
  symbol = λ s. if bytes_eq s (codes "pi") then some 3 else none;
}

abbrev empty : Module ℕ
empty = record { name = codes "builtins"; symbol = λ _. none }

abbrev modules : List (Option (Module ℕ))
modules = some math ∷ some empty ∷ []

abbrev built : Registry ℕ
built = record {
  modules = modules;
  by_name = (codes "builtins", empty) ∷ (codes "math", math) ∷ [];
  fallback = codes "builtins";
}

new_registry-built : new_registry modules (map with_fallback (codes "builtins" ∷ [])) ≡ inr built
unfolding new_registry
new_registry-built = refl

new_registry-twice :
    new_registry (some math ∷ some math ∷ []) [] ≡ inl (Failure.duplicate_module (codes "math"))
unfolding new_registry
new_registry-twice = refl

new_registry-lookup_example : lookup_module built (codes "math") ≡ named (codes "math") modules
new_registry-lookup_example =
    new_registry-lookup modules (codes "builtins" ∷ []) built (codes "math") new_registry-built

new_registry-fallback_example :
    (built.fallback ≡ []) ⊎ ((m : Module ℕ) × (fallback_module built ≡ some m))
new_registry-fallback_example =
    new_registry-fallback modules (map with_fallback (codes "builtins" ∷ [])) built
      new_registry-built
