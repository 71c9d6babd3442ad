-- ===== src/Registry.antt =====
-- The registry of native modules, module/registry.go. A module is what the registry asks of the
-- interface `Module`: its name and the lookup of a symbol; `none` is a nil module.
pub mod Lookup
use minipy.Base.{
  ℕ, Bool, true, false, ◌||◌, List, [], ◌∷◌, Option, none, some, ◌⊎◌, inl, inr, ◌==◌, if◌then◌else◌,
  Bytes, bytes_eq,
}

pub record Module (S : Type 0) : Type 0 where
  pub name : Bytes
  pub symbol : Bytes → Option S

-- The map `byName` is a list of names with their modules.
pub record Registry (S : Type 0) : Type 0 where
  pub modules : List (Option (Module S))
  pub by_name : List (Bytes × Module S)
  pub fallback : Bytes

-- The errors of `NewRegistry`.
pub data Failure : Type 0 where
  nil_module : Failure
  duplicate_module : Bytes → Failure
  unregistered_fallback : Bytes → Failure

-- `name == ""`.
abbrev pub is_blank : Bytes → Bool
is_blank [] = true
is_blank (_ ∷ _) = false

module _ {S : Type 0} where
  -- `byName[name]`.
  unfoldable pub find : Bytes → List (Bytes × Module S) → Option (Module S)
  unfolding bytes_eq
  find name [] = none
  find name ((key, m) ∷ rest) =
      let found = find name rest in if bytes_eq key name then some m else found

  abbrev pub is_some : Option (Module S) → Bool
  is_some none = false
  is_some (some _) = true

  -- The loop over the modules.
  unfoldable pub register :
      List (Option (Module S)) → List (Bytes × Module S) → Failure ⊎ List (Bytes × Module S)
  unfolding find
  register [] by_name = inr by_name
  register (none ∷ ms) by_name = inl nil_module
  register (some m ∷ ms) by_name =
      let rest = register ms ((m.name, m) ∷ by_name) in
      if is_some (find m.name by_name) then inl (duplicate_module m.name) else rest

  -- `Module` and `Has`.
  unfoldable pub lookup_module : Registry S → Bytes → Option (Module S)
  unfolding find
  lookup_module r name = find name r.by_name

  unfoldable pub has : Registry S → Bytes → Bool
  unfolding lookup_module
  has r name = is_some (lookup_module r name)

  -- `WithFallback`, and the loop over the options.
  abbrev pub with_fallback : Bytes → Registry S → Registry S
  with_fallback name r = record r { fallback = name }

  unfoldable pub apply_options : List (Registry S → Registry S) → Registry S → Registry S
  apply_options [] r = r
  apply_options (opt ∷ opts) r = apply_options opts (opt r)

  unfoldable pub check_fallback : Registry S → Failure ⊎ Registry S
  unfolding has
  check_fallback r =
      if is_blank r.fallback || has r r.fallback
      then inr r
      else inl (unregistered_fallback r.fallback)

  unfoldable pub build :
      List (Option (Module S))
      → List (Registry S → Registry S)
      → Failure ⊎ List (Bytes × Module S)
      → Failure ⊎ Registry S
  unfolding apply_options check_fallback
  build modules opts (inl e) = inl e
  build modules opts (inr by_name) =
      check_fallback
        (apply_options opts (record { modules = modules; by_name = by_name; fallback = [] }))

  -- `NewRegistry`.
  unfoldable pub new_registry :
      List (Option (Module S)) → List (Registry S → Registry S) → Failure ⊎ Registry S
  unfolding register build
  new_registry modules opts = build modules opts (register modules [])

  -- `Fallback`.
  unfoldable pub fallback_module : Registry S → Option (Module S)
  unfolding lookup_module
  fallback_module r = if is_blank r.fallback then none else lookup_module r r.fallback

  abbrev pub symbol_of : Bytes → Option (Module S) → Option S
  symbol_of name none = none
  symbol_of name (some m) = m.symbol name

  -- `Symbol` and `FallbackSymbol`.
  unfoldable pub lookup_symbol : Registry S → Bytes → Bytes → Option S
  unfolding lookup_module
  lookup_symbol r m name = symbol_of name (lookup_module r m)

  unfoldable pub fallback_symbol : Registry S → Bytes → Option S
  unfolding fallback_module
  fallback_symbol r name = symbol_of name (fallback_module r)

-- `strings.Cut` at the first dot: what is in front of it and what is behind it.
unfoldable pub cut_dot : Bytes → Option (Bytes × Bytes)
cut_dot [] = none
cut_dot (c ∷ cs) =
    let rest = cut_dot cs in
    if c == b'.' then some ([], cs) else elim rest [ none ↦ none | some (a, b) ↦ some (c ∷ a, b) ]

-- `SymbolByKey`.
unfoldable pub symbol_by_key : {S : Type 0} → Registry S → Bytes → Option S
unfolding cut_dot lookup_symbol
symbol_by_key r key = elim (cut_dot key) [ none ↦ none | some (m, name) ↦ lookup_symbol r m name ]
