-- ===== src/Tests/Iterating.antt =====
-- Iterators over a few values, and the theorems on them there.
use minipy.Base.{
  ℕ, ◌+◌, ◌-◌, ◌*◌, ◌%◌, ◌≡◌, refl, some, none, [], ◌∷◌, ◌++◌, List, Option, arith, leb, false,
}
use minipy.Hostabi.Iterator.{Iterator, new_iterator, live_refs, next_value, step_onto}
use minipy.Hostabi.Iterator.Walk.{steps, IsAt, new_iterator-walk, live_refs-walk, references}
use minipy.Builtins.Range.{origin, new_range, next_range, add64, move_to, range_current}
use minipy.Builtins.Range.Count.{next_times, Shows, IsBoxable, range_up, range_down}

-- Boxes with 49 bits for a number; a box `none` is null.
abbrev box : ℕ → Option ℕ
box m = some ((m + 281474976710656) % 562949953421312 + origin - 281474976710656)

abbrev unbox : Option ℕ → ℕ
unbox none = 0
unbox (some m) = m

unbox-box : (m : ℕ) → IsBoxable m → unbox (box m) ≡ m
unbox-box m h = let (low, high) = h in omega arith

-- A list iterator over the references 0 (that is, none), 5 and 7.
abbrev references_5_7 : List (Option ℕ)
references_5_7 = none ∷ some 5 ∷ some 7 ∷ []

walked : Iterator (Option ℕ)
walked = record { name = []; values = references_5_7; current = some 7; index = 3; done = false }

steps-walked : steps none none 2 (new_iterator none none [] references_5_7) ≡ some walked
unfolding steps new_iterator next_value step_onto walked
steps-walked = refl

new_iterator-walk_example :
    (last : Iterator (Option ℕ)) × (steps none none 2 (new_iterator none none [] references_5_7)
      ≡ some last)
    × IsAt none none references_5_7 2 last
new_iterator-walk_example = new_iterator-walk none none [] references_5_7 2

live_refs-walk_example :
    live_refs (λ (v : Option ℕ). v) walked []
    ≡ [] ++ references (λ (v : Option ℕ). v) references_5_7
live_refs-walk_example =
    live_refs-walk none none (λ (v : Option ℕ). v) [] references_5_7 2 walked [] steps-walked

-- range(2, 9, 3) shows 2, 5 and 8.
range_current_third :
    range_current none
      (next_times none box unbox 2 (new_range none box (origin + 2) (origin + 9) (origin + 3)))
    ≡ some (origin + 8)
unfolding range_current next_times new_range next_range add64 move_to
range_current_third = refl

-- A start of 2^50 is shown as 0.
range_current_truncated :
    range_current none
      (new_range none box (origin + 1125899906842624) (origin + 1125899906842627) (origin + 1))
    ≡ some origin
unfolding range_current new_range
range_current_truncated = refl

range_up_example :
    Shows none box unbox
      (origin + 9)
      (origin + 3)
      (origin + 2 + 2 * 3)
      (leb (origin + 9) (origin + 2 + 2 * 3))
      (next_times none box unbox 2 (new_range none box (origin + 2) (origin + 9) (origin + 3)))
range_up_example =
    range_up none box unbox unbox-box none (origin + 2) (origin + 9) 3 2 (omega arith) (omega arith)
      (omega arith) (omega arith)

range_down_example :
    Shows none box unbox
      (origin - 4)
      (origin - 3)
      (origin + 5 - 2 * 3)
      (leb (origin + 5 - 2 * 3) (origin - 4))
      (next_times none box unbox 2 (new_range none box (origin + 5) (origin - 4) (origin - 3)))
range_down_example =
    range_down none box unbox unbox-box none (origin + 5) (origin - 4) 3 2 (omega arith)
      (omega arith) (omega arith) (omega arith) (omega arith)
