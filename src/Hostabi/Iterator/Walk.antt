-- ===== src/Hostabi/Iterator/Walk.antt =====
-- What an iterator shows after any number of calls of `Next`.
use minipy.Base.{
  ℕ, zero, suc, ◌+◌, ◌<◌, ◌≤◌, List, [], ◌∷◌, ◌++◌, true, false, ltb, leb, Option, none, some,
  Bytes, length, get_elem?, if◌then◌else◌, ◌≡◌, refl, sym, subst, append-nil, append_assoc, arith,
  inl, inr, Bool-cases,
}
use minipy.Hostabi.Iterator.{
  Iterator, new_iterator, current_value, step_onto, next_value, live_refs, append_refs, ref_onto,
}

-- The references among the values.
abbrev pub references : {B : Type 0} → (B → Option ℕ) → List B → List ℕ
references ref_of [] = []
references ref_of (v ∷ vs) = ref_onto (ref_of v) [] ++ references ref_of vs

ref_onto-append : (o : Option ℕ) (refs : List ℕ) → ref_onto o refs ≡ refs ++ ref_onto o []
ref_onto-append none refs = sym (append-nil refs)
ref_onto-append (some r) refs = refl

append_refs-references :
    {B : Type 0} (ref_of : B → Option ℕ) (vs : List B) (refs : List ℕ)
    → append_refs ref_of vs refs ≡ refs ++ references ref_of vs
unfolding append_refs
append_refs-references ref_of [] refs = sym (append-nil refs)
append_refs-references ref_of (v ∷ vs) refs =
    rw
      (
        ref_onto-append (ref_of v) refs,
        append_refs-references ref_of vs (refs ++ ref_onto (ref_of v) []),
      )
      (append_assoc refs (ref_onto (ref_of v) []) (references ref_of vs))

module _ {B : Type 0} (null zero_box : B) where
  -- `n` calls of `Next`.
  unfoldable pub steps : ℕ → Iterator B → Option (Iterator B)
  unfolding next_value
  steps zero it = some it
  steps (suc n) it = elim (next_value null zero_box it) [
    | none ↦ none
    | some (next, _) ↦ steps n next
  ]

  abbrev pub value_or : B → Option B → B
  value_or d none = d
  value_or d (some v) = v

  -- The smaller of two positions.
  abbrev pub lesser : ℕ → ℕ → ℕ
  lesser a b = if ltb a b then a else b

  -- The iterator stands on position `k` of the values `vs`.
  pub record IsAt (vs : List B) (k : ℕ) (it : Iterator B) : Type 0 where
    pub values : it.values ≡ vs
    pub index : it.index ≡ lesser (k + 1) (length vs)
    pub bounded : it.index ≤ length it.values
    pub done : it.done ≡ leb (length vs) k
    pub shown : current_value null zero_box it ≡ value_or null (get_elem? vs k)

  new-IsAt : (name : Bytes) (vs : List B) → IsAt vs 0 (new_iterator null zero_box name vs)
  unfolding new_iterator current_value
  new-IsAt name [] = record {
    values = refl;
    index = refl;
    bounded = omega arith;
    done = refl;
    shown = refl;
  }
  new-IsAt name (v ∷ vs) = record {
    values = refl;
    index = ground arith;
    bounded = omega arith;
    done = ground arith;
    shown = refl;
  }

  get_elem?-past : (vs : List B) (k : ℕ) → length vs ≤ k → get_elem? vs k ≡ none
  get_elem?-past [] k h = refl
  get_elem?-past (v ∷ vs) zero h = absurd (omega arith)
  get_elem?-past (v ∷ vs) (suc k) h = get_elem?-past vs k (omega arith)

  get_elem?-within : (vs : List B) (k : ℕ) → k < length vs → (v : B) × (get_elem? vs k ≡ some v)
  get_elem?-within [] k h = absurd (omega arith)
  get_elem?-within (v ∷ vs) zero h = (v, refl)
  get_elem?-within (v ∷ vs) (suc k) h = get_elem?-within vs k (omega arith)

  next_value-IsAt :
      (vs : List B) (k : ℕ) (it : Iterator B)
      → IsAt vs k it
      → (next : Iterator B) × (next_value null zero_box it ≡ some (next, ltb (k + 1) (length vs)))
        × IsAt vs (k + 1) next
  unfolding next_value step_onto current_value
  next_value-IsAt vs k it h = elim (Bool-cases (ltb (k + 1) (length vs))) [
    | inl e ↦
        let at : it.index ≡ k + 1 = ground (arith, h.index) in
        let (v, found) = get_elem?-within vs (k + 1) (ground arith) in
        (
          record it { current = v; index = it.index + 1; done = false },
          rw (h.values, at, e, found) refl,
          record {
            values = h.values;
            index = ground arith;
            bounded = rw h.values (ground arith);
            done = ground arith;
            shown = rw found refl;
          },
        )
    | inr e ↦
        let past : ltb it.index (length it.values) ≡ false =
          rw h.values (ground (arith, h.index)) in
        (
          record it { current = null; done = true },
          rw (past, e) refl,
          record {
            values = h.values;
            index = ground (arith, h.index);
            bounded = h.bounded;
            done = ground arith;
            shown = rw (get_elem?-past vs (k + 1) (ground arith)) refl;
          },
        )
  ]

  steps-IsAt :
      (vs : List B) (n k : ℕ) (it : Iterator B)
      → IsAt vs k it
      → (last : Iterator B) × (steps n it ≡ some last) × IsAt vs (k + n) last
  unfolding steps
  steps-IsAt vs zero k it h = (it, refl, subst (λ m. IsAt vs m it) (omega arith) h)
  steps-IsAt vs (suc n) k it h =
      let (next, moved, there) = next_value-IsAt vs k it h in
      let (last, e, at) = steps-IsAt vs n (k + 1) next there in
      (last, rw (steps, moved) e, subst (λ m. IsAt vs m last) (omega arith) at)

  -- After any number `n` of calls of `Next`, none of which indexes out of range, a new iterator over
  -- `vs` stands on position `n`: its index is at most the number of values, `Current` is the `n`-th
  -- value or null behind the last one, and `Done` tells whether `n` is behind the last one.
  pub new_iterator-walk :
      (name : Bytes) (vs : List B) (n : ℕ)
      → (last : Iterator B) × (steps n (new_iterator null zero_box name vs) ≡ some last)
        × IsAt vs n last
  new_iterator-walk name vs n =
      let (last, e, at) =
        steps-IsAt vs n 0 (new_iterator null zero_box name vs) (new-IsAt name vs) in
      (last, e, subst (λ m. IsAt vs m last) (omega arith) at)

  -- Wherever calls of `Next` have taken an iterator made over `vs`, `Refs` appends the references
  -- among all of `vs`, in order, those of the values already passed included.
  pub live_refs-walk :
      (ref_of : B → Option ℕ) (name : Bytes) (vs : List B) (n : ℕ) (it : Iterator B) (refs : List ℕ)
      → steps n (new_iterator null zero_box name vs) ≡ some it
      → live_refs ref_of it refs ≡ refs ++ references ref_of vs
  unfolding live_refs
  live_refs-walk ref_of name vs n it refs h =
      let (last, e, at) = new_iterator-walk name vs n in
      let same : last ≡ it = cc in
      let kept : it.values ≡ vs = rw (sym same) at.values in
      rw kept (append_refs-references ref_of vs refs)
