-- ===== src/Hostabi/Iterator.antt =====
-- hostabi/iterator.go: the iterator over a fixed copy of boxed values. A boxed value belongs to
-- minivm: its type `B`, the value `null`, the zero value `zero_box`, and the reference of a boxed
-- value, `none` for a value that is not of the kind reference or whose reference is 0.
pub mod Walk
use minipy.Base.{
  ℕ, zero, suc, ◌+◌, List, [], ◌∷◌, ◌++◌, Bool, true, false, ltb, Option, none, some, Bytes, length,
  get_elem?, if◌then◌else◌,
}

pub record Iterator (B : Type 0) : Type 0 where
  pub name : Bytes
  pub values : List B
  pub current : B
  pub index : ℕ
  pub done : Bool

module _ {B : Type 0} (null zero_box : B) where
  -- `NewIterator`.
  unfoldable pub new_iterator : Bytes → List B → Iterator B
  new_iterator name [] = record {
    name = name;
    values = [];
    current = zero_box;
    index = 0;
    done = true;
  }
  new_iterator name (v ∷ vs) = record {
    name = name;
    values = v ∷ vs;
    current = v;
    index = 1;
    done = false;
  }

  -- `Current`.
  unfoldable pub current_value : Iterator B → B
  current_value it = if it.done then null else it.current

  -- The part of `Next` behind the guard: `none` is the panic of an index out of range.
  unfoldable pub step_onto : Iterator B → Option B → Option (Iterator B × Bool)
  step_onto it none = none
  step_onto it (some v) = some (record it { current = v; index = it.index + 1; done = false }, true)

  -- `Next`.
  unfoldable pub next_value : Iterator B → Option (Iterator B × Bool)
  unfolding step_onto
  next_value it =
      if ltb it.index (length it.values)
      then step_onto it (get_elem? it.values it.index)
      else some (record it { current = null; done = true }, false)

abbrev pub ref_onto : Option ℕ → List ℕ → List ℕ
ref_onto none refs = refs
ref_onto (some r) refs = refs ++ r ∷ []

module _ {B : Type 0} (ref_of : B → Option ℕ) where
  -- The loop of `Refs`.
  unfoldable pub append_refs : List B → List ℕ → List ℕ
  append_refs [] refs = refs
  append_refs (v ∷ vs) refs = append_refs vs (ref_onto (ref_of v) refs)

  -- `Refs`.
  unfoldable pub live_refs : Iterator B → List ℕ → List ℕ
  unfolding append_refs
  live_refs it refs = append_refs it.values refs
