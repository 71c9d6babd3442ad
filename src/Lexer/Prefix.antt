-- ===== src/Lexer/Prefix.antt =====
-- `stringMode` and `classifyPrefix`.
use minipy.Base.{
  ℕ, Bool, true, false, ◌&&◌, ◌||◌, [], ◌∷◌, Option, none, some, ltb, ◌==◌, if◌then◌else◌, Bytes,
  length,
}

pub record StringMode : Type 0 where
  pub raw : Bool
  pub formatted : Bool
  pub bytes : Bool
  pub unicode : Bool

-- `stringMode{}`.
abbrev pub plain : StringMode
plain = record { raw = false; formatted = false; bytes = false; unicode = false }

-- One round of the loop over the word; `none` is the return of `false`.
pub classify_letter : ℕ → StringMode → Option StringMode
classify_letter r mode =
    if r == b'r' || r == b'R'
    then (if mode.raw then none else some (record mode { raw = true }))
    else if r == b'f' || r == b'F'
    then (if mode.formatted then none else some (record mode { formatted = true }))
    else if r == b'b' || r == b'B'
    then (if mode.bytes then none else some (record mode { bytes = true }))
    else if r == b'u' || r == b'U'
    then (if mode.unicode then none else some (record mode { unicode = true }))
    else none

-- The tests after the loop.
pub check_combination : StringMode → Option StringMode
check_combination mode =
    if mode.formatted && mode.bytes
    then none
    else if mode.unicode && (mode.raw || mode.formatted || mode.bytes)
    then none
    else some mode

pub classify_letters : Bytes → StringMode → Option StringMode
unfolding classify_letter check_combination
classify_letters [] mode = check_combination mode
classify_letters (r ∷ rs) mode = elim (classify_letter r mode) [
  | none ↦ none
  | some mode' ↦ classify_letters rs mode'
]

-- A byte of a rune that is not ASCII falls to `default`, as the rune does.
unfoldable pub classify_prefix : Bytes → Option StringMode
unfolding classify_letters
classify_prefix word = if ltb 2 (length word) then none else classify_letters word plain
