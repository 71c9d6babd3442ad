-- ===== src/Compiler/Table.antt =====
-- A Go map with string keys, as a list of its entries: the first entry of a key counts.
use minipy.Base.{
  List, [], ◌∷◌, Option, none, some, Bytes, bytes_eq, bytes_eq_iff, if◌then◌else◌, ◌≡◌, refl,
  Bool-cases, inl, inr, sym, arith,
}

abbrev pub Table : Type 0 → Type 0
Table V = List (Bytes × V)

module _ {V : Type 0} where
  -- `m[key]`, with the Boolean of the second result.
  unfoldable pub look_up : Bytes → Table V → Option V
  unfolding bytes_eq
  look_up key [] = none
  look_up key ((k, v) ∷ m) = let found = look_up key m in if bytes_eq key k then some v else found

  -- `m[key] = v`.
  abbrev pub put : Bytes → V → Table V → Table V
  put key v m = (key, v) ∷ m

  -- `delete(m, key)`.
  unfoldable pub discard : Bytes → Table V → Table V
  unfolding bytes_eq
  discard key [] = []
  discard key ((k, v) ∷ m) =
      let rest = discard key m in if bytes_eq key k then rest else (k, v) ∷ rest

  pub look_up-put :
      (key k : Bytes) (v : V) (m : Table V)
      → look_up key (put k v m) ≡ (if bytes_eq key k then some v else look_up key m)
  unfolding look_up
  look_up-put key k v m = refl

  pub look_up-discard :
      (key k : Bytes) (m : Table V)
      → look_up key (discard k m) ≡ (if bytes_eq key k then none else look_up key m)
  unfolding look_up discard
  look_up-discard key k [] = elim (Bool-cases (bytes_eq key k)) [
    | inl e ↦ rw e refl
    | inr e ↦ rw e refl
  ]
  look_up-discard key k ((j, v) ∷ m) = elim (Bool-cases (bytes_eq k j)) [
    | inl e ↦
        let same : k ≡ j = (bytes_eq_iff k j).0 e in
        rw (e, sym same, look_up-discard key k m) (ground arith)
    | inr e ↦ elim (Bool-cases (bytes_eq key k)) [
      | inl f ↦
          let same : key ≡ k = (bytes_eq_iff key k).0 f in
          rw (e, look_up-discard key k m, f) (rw (same, e) refl)
      | inr f ↦ rw (e, look_up-discard key k m, f) refl
    ]
  ]
