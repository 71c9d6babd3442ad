-- ===== src/Compiler/Names/Chains.antt =====
-- Chains of re-exports, in `resolveModuleAttr` and `resolveName`.
use minipy.Base.{
  ℕ, zero, suc, ◌<◌, false, ◌∷◌, ◌++◌, none, some, Bytes, ◌≡◌, refl, ap, ◌∙◌, arith, Bool-cases,
  Option-cases, inl, inr,
}
use minipy.Registry.{lookup_symbol, is_blank}
use minipy.Compiler.Table.{look_up}
use minipy.Compiler.Names.{
  Binding, ModuleInfo, Names, ResolvedName, binding_of, module_key, resolve_symbol, resolve_binding,
  resolve_bound, resolve_name, resolve_member, resolve_module_attr, follow, as_module, as_native,
}

module _ {S : Type 0} (n : Names S) where
  -- Every binding to a symbol leads to a name of smaller rank.
  abbrev pub Descends : (Bytes → Bytes → ℕ) → Type 0
  Descends rank =
      (m x : Bytes) (b : Binding)
      → binding_of (look_up m n.modules) x ≡ some b
      → is_blank b.symbol ≡ false
      → rank b.target b.symbol < rank m x

  -- Where the bindings of all modules lead to names of smaller rank, whatever the rank, that is where
  -- no chain of re-exports runs in a circle, `resolveModuleAttr` returns after at most rank + 1 calls.
  pub resolve_module_attr-returns :
      (rank : Bytes → Bytes → ℕ) (fuel : ℕ) (m x : Bytes)
      → Descends rank
      → rank m x < fuel
      → (r : ResolvedName S) × (resolve_module_attr fuel n m x ≡ some r)
  unfolding resolve_module_attr follow
  resolve_module_attr-returns rank zero m x h k = absurd (omega arith)
  resolve_module_attr-returns rank (suc fuel) m x h k =
      elim (Option-cases (lookup_symbol n.reg m x)) [
        | inr (s, e) ↦ (as_native (m ++ b'.' ∷ x) s, rw (resolve_module_attr, e) refl)
        | inl e ↦ elim (Option-cases (binding_of (look_up m n.modules) x)) [
          | inl f ↦ (resolve_member n (module_key m x), rw (resolve_module_attr, e, f) refl)
          | inr (b, f) ↦ elim (Bool-cases (is_blank b.symbol)) [
            | inl g ↦ (as_module b.target, rw (resolve_module_attr, e, f, g) refl)
            | inr g ↦ elim (Option-cases (lookup_symbol n.reg b.target b.symbol)) [
              | inr (s, l) ↦ (
                as_native (b.target ++ b'.' ∷ b.symbol) s,
                rw (resolve_module_attr, e, f, g, l) refl,
              )
              | inl l ↦
                  let (r, q) =
                    resolve_module_attr-returns rank fuel b.target b.symbol h
                      (omega (arith, h m x b f g)) in
                  (r, rw (resolve_module_attr, e, f, g, l) q)
            ]
          ]
        ]
      ]

  -- A name that is bound to a symbol of a module, which that module does not bind itself and which is
  -- not a module, is by `resolveName` what `resolveModuleAttr` finds in the module after one call.
  pub resolve_name-module_attr :
      (m : ModuleInfo) (x : Bytes) (b : Binding) (fuel : ℕ)
      → n.current ≡ some m
      → look_up x m.bindings ≡ some b
      → is_blank b.symbol ≡ false
      → binding_of (look_up b.target n.modules) b.symbol ≡ none
      → look_up (module_key b.target b.symbol) n.modules ≡ none
      → resolve_module_attr (suc fuel) n b.target b.symbol ≡ some (resolve_name n x)
  unfolding resolve_module_attr resolve_name resolve_bound resolve_binding resolve_symbol
      resolve_member
  resolve_name-module_attr m x b fuel c f g none_bound none_module =
      let named : resolve_name n x ≡ resolve_binding n b =
        ap (λ o. resolve_bound n x (binding_of o x)) c ∙ ap (resolve_bound n x) f in
      elim (Option-cases (lookup_symbol n.reg b.target b.symbol)) [
        | inr (s, e) ↦ rw (named, resolve_module_attr, resolve_binding, g, e) refl
        | inl e ↦
            rw
              (
                named, resolve_module_attr, resolve_binding, g, e, none_bound, resolve_member,
                none_module,
              )
              refl
      ]
