-- ===== src/Builtins/Range.antt =====
-- `rangeIterator`, builtins/host.go. An `int64` x is the native number x + 2^63 below 2^64, so that
-- the order is that of the numbers and an addition wraps around as in two's complement. Boxes are
-- those of minivm: their type `B`, the value `null`, the zero value `zero_box`, and `BoxI64` and
-- `I64` as `box` and `unbox`.
pub mod Count
use minipy.Base.{ℕ, ◌+◌, ◌*◌, ◌%◌, ◌^◌, Bool, true, false, ◌&&◌, ◌||◌, ltb, leb, if◌then◌else◌}

-- The `int64` 0.
abbrev pub origin : ℕ
origin = 9223372036854775808

-- The number of `int64` values.
abbrev pub modulus : ℕ
modulus = 18446744073709551616

-- `a + b` on `int64`.
unfoldable pub add64 : ℕ → ℕ → ℕ
add64 a b = (a + b + origin) % modulus

pub record RangeIterator (B : Type 0) : Type 0 where
  pub stop : ℕ
  pub step : ℕ
  pub current : B
  pub done : Bool

module _ {B : Type 0} (zero_box : B) (box : ℕ → B) where
  -- `newRangeIterator`.
  unfoldable pub new_range : ℕ → ℕ → ℕ → RangeIterator B
  new_range start stop step =
      let done = if ltb origin step then leb stop start else leb start stop in
      record {
        stop = stop;
        step = step;
        current = if done then zero_box else box start;
        done = done;
      }

module _ {B : Type 0} (null : B) where
  -- `Current`.
  unfoldable pub range_current : RangeIterator B → B
  range_current it = if it.done then null else it.current

-- The test of `Next` on the next number.
abbrev pub is_past : {B : Type 0} → RangeIterator B → ℕ → Bool
is_past it next =
    (ltb origin it.step && leb it.stop next) || (ltb it.step origin && leb next it.stop)

module _ {B : Type 0} (null : B) (box : ℕ → B) (unbox : B → ℕ) where
  unfoldable pub move_to : RangeIterator B → ℕ → RangeIterator B × Bool
  move_to it next =
      if is_past it next
      then (record it { current = null; done = true }, false)
      else (record it { current = box next }, true)

  -- `Next`.
  unfoldable pub next_range : RangeIterator B → RangeIterator B × Bool
  unfolding add64 move_to
  next_range it = if it.done then (it, false) else move_to it (add64 (unbox it.current) it.step)
