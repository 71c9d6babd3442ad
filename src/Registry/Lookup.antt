-- ===== src/Registry/Lookup.antt =====
-- What a registry that was built finds.
use minipy.Base.{
  List, [], ◌∷◌, ◌++◌, Bool, true, false, ◌||◌, Option, none, some, ◌⊎◌, inl, inr, ◌≡◌, refl, sym,
  ap, ◌∙◌, Bytes, bytes_eq, if◌then◌else◌, Bool-cases, map, arith, subst, ◌==◌, bytes_eq_iff,
}
use minipy.Registry.{
  Module, Registry, Failure, find, register, lookup_module, has, with_fallback, apply_options,
  is_blank, check_fallback, build, new_registry, fallback_module, symbol_by_key, lookup_symbol,
  cut_dot, is_some,
}

module _ {S : Type 0} where
  -- The first module of that name.
  abbrev pub named : Bytes → List (Option (Module S)) → Option (Module S)
  named name [] = none
  named name (none ∷ ms) = named name ms
  named name (some m ∷ ms) = if bytes_eq m.name name then some m else named name ms

  abbrev or_else : Option (Module S) → Option (Module S) → Option (Module S)
  or_else none o = o
  or_else (some m) o = some m

  none_of : (o : Option (Module S)) → is_some o ≡ false → o ≡ none
  none_of none h = refl
  none_of (some m) h = cc

  register-find :
      (ms : List (Option (Module S))) (old new : List (Bytes × Module S)) (name : Bytes)
      → register ms old ≡ inr new
      → find name new ≡ or_else (find name old) (named name ms)
  unfolding register find
  register-find [] old new name h = ground arith
  register-find (none ∷ ms) old new name h = cc
  register-find (some m ∷ ms) old new name h = elim (Bool-cases (is_some (find m.name old))) [
    | inl e ↦ cc (rw e at h)
    | inr e ↦
        let found = register-find ms ((m.name, m) ∷ old) new name (rw e at h) in
        elim (Bool-cases (bytes_eq m.name name)) [
          | inl f ↦
              rw
                (
                  f,
                  none_of (find name old) (
                      subst (λ k. is_some (find k old) ≡ false) ((bytes_eq_iff m.name name).0 f) e),
                )
                (rw f at found)
          | inr f ↦ rw f (rw f at found)
        ]
  ]

  check_fallback-inr :
      (q r : Registry S)
      → check_fallback q ≡ inr r
      → (q ≡ r) × ((is_blank q.fallback || has q q.fallback) ≡ true)
  unfolding check_fallback
  check_fallback-inr q r h = elim (Bool-cases (is_blank q.fallback || has q q.fallback)) [
    | inl e ↦ (cc (rw e at h), e)
    | inr e ↦ cc (rw e at h)
  ]

  by_name-options :
      (names : List Bytes) (r : Registry S)
      → (apply_options (map with_fallback names) r).by_name ≡ r.by_name
  unfolding apply_options
  by_name-options [] r = refl
  by_name-options (n ∷ ns) r = by_name-options ns (with_fallback n r)

  build-lookup :
      (ms : List (Option (Module S))) (names : List Bytes) (o : Failure ⊎ List (Bytes × Module S))
      (r : Registry S) (name : Bytes)
      → register ms [] ≡ o
      → build ms (map with_fallback names) o ≡ inr r
      → lookup_module r name ≡ named name ms
  unfolding build lookup_module
  build-lookup ms names (inl e) r name h k = cc
  build-lookup ms names (inr new) r name h k =
      let q : Registry S = record { modules = ms; by_name = new; fallback = [] } in
      let (same, _) = check_fallback-inr (apply_options (map with_fallback names) q) r k in
      ap (λ (s : Registry S). find name s.by_name) (sym same)
      ∙ ap (find name) (by_name-options names q)
      ∙ register-find ms [] new name h

  -- Whatever the fallback options, a registry that `NewRegistry` returns finds under a name the
  -- first of the given modules that has it.
  pub new_registry-lookup :
      (ms : List (Option (Module S))) (names : List Bytes) (r : Registry S) (name : Bytes)
      → new_registry ms (map with_fallback names) ≡ inr r
      → lookup_module r name ≡ named name ms
  unfolding new_registry
  new_registry-lookup ms names r name h = build-lookup ms names (register ms []) r name refl h

  abbrev HasFallback : Registry S → Type 0
  HasFallback r = (r.fallback ≡ []) ⊎ ((m : Module S) × (fallback_module r ≡ some m))

  checked-HasFallback :
      (q : Registry S) → (is_blank q.fallback || has q q.fallback) ≡ true → HasFallback q
  unfolding has fallback_module
  checked-HasFallback q h = elim (Bool-cases (is_blank q.fallback)) [
    | inl e ↦ inl (blank q.fallback e)
    | inr e ↦
        let (m, found) = some_of (lookup_module q q.fallback) (rw e at h) in inr (m, rw e found)
  ]
    where
      blank : (s : Bytes) → is_blank s ≡ true → s ≡ []
      blank [] h = refl
      blank (c ∷ cs) h = cc

      some_of : (o : Option (Module S)) → is_some o ≡ true → (m : Module S) × (o ≡ some m)
      some_of none h = cc
      some_of (some m) h = (m, refl)

  -- A registry that `NewRegistry` returns, whatever the options, has no fallback name or finds its
  -- fallback module.
  pub new_registry-fallback :
      (ms : List (Option (Module S))) (opts : List (Registry S → Registry S)) (r : Registry S)
      → new_registry ms opts ≡ inr r
      → (r.fallback ≡ []) ⊎ ((m : Module S) × (fallback_module r ≡ some m))
  unfolding new_registry build
  new_registry-fallback ms opts r h = go (register ms []) h
    where
      go : (o : Failure ⊎ List (Bytes × Module S)) → build ms opts o ≡ inr r → HasFallback r
      go (inl e) k = cc
      go (inr new) k =
          let q : Registry S = record { modules = ms; by_name = new; fallback = [] } in
          let (same, e) = check_fallback-inr (apply_options opts q) r k in
          subst HasFallback same (checked-HasFallback (apply_options opts q) e)

abbrev pub has_dot : Bytes → Bool
has_dot [] = false
has_dot (c ∷ cs) = (c == b'.') || has_dot cs

cut_dot-append : (m name : Bytes) → has_dot m ≡ false → cut_dot (m ++ b'.' ∷ name) ≡ some (m, name)
unfolding cut_dot
cut_dot-append [] name h = refl
cut_dot-append (c ∷ cs) name h = ground (arith, cut_dot-append cs name)

-- For a module name without a dot, `SymbolByKey` of the name, a dot and the symbol's name is what
-- `Symbol` finds.
pub symbol_by_key-qualified :
    {S : Type 0} (r : Registry S) (m name : Bytes)
    → has_dot m ≡ false
    → symbol_by_key r (m ++ b'.' ∷ name) ≡ lookup_symbol r m name
unfolding symbol_by_key
symbol_by_key-qualified r m name h = rw (cut_dot-append m name h, symbol_by_key) refl
