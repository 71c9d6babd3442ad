-- ===== src/Lexer/Utf8.antt =====
-- What the lexer takes from Go's standard library: `string(runes)` and `strings.Builder`, which
-- write runes in UTF-8, and the tables of package unicode, which are a parameter.
use minipy.Base.{
  ℕ, ◌+◌, ◌/◌, ◌%◌, Bool, ◌&&◌, ◌||◌, List, [], ◌∷◌, ◌++◌, ltb, leb, if◌then◌else◌, Bytes,
}

-- `unicode.IsLetter`, `unicode.IsDigit`, and whether `strconv.ParseFloat` accepts a text.
pub record Library : Type 0 where
  pub is_letter : ℕ → Bool
  pub is_digit : ℕ → Bool
  pub parse_float_ok : Bytes → Bool

-- A rune above the last code point, or a surrogate half, is written as U+FFFD.
pub is_scalar : ℕ → Bool
is_scalar r = ltb r 0xd800 || (leb 0xe000 r && leb r 0x10ffff)

encode_scalar : ℕ → Bytes
encode_scalar r =
    if ltb r 0x80
    then r ∷ []
    else if ltb r 0x800
    then (0xc0 + r / 0x40) ∷ (0x80 + r % 0x40) ∷ []
    else if ltb r 0x10000
    then (0xe0 + r / 0x1000) ∷ (0x80 + r / 0x40 % 0x40) ∷ (0x80 + r % 0x40) ∷ []
    else (0xf0 + r / 0x40000)
      ∷ (0x80 + r / 0x1000 % 0x40)
      ∷ (0x80 + r / 0x40 % 0x40)
      ∷ (0x80 + r % 0x40)
      ∷ []

-- `builder.WriteRune`.
unfoldable pub encode_rune : ℕ → Bytes
unfolding is_scalar encode_scalar
encode_rune r = encode_scalar (if is_scalar r then r else 0xfffd)

-- `string(runes)`.
unfoldable pub encode : List ℕ → Bytes
unfolding encode_rune
encode [] = []
encode (r ∷ rs) = encode_rune r ++ encode rs
