-- ===== src/Lexer/Numbers.antt =====
-- `scanNumber`, `finishInt` and `finishFloat`, with the part of `strconv.ParseInt` and `ParseUint`
-- that they use.
pub mod Moves
use minipy.Base.{
  ℕ, ◌+◌, ◌-◌, ◌*◌, ◌^◌, Bool, true, false, ◌&&◌, ◌||◌, [], ◌∷◌, Option, none, some, ◌≡◌, refl, ◌⊎◌,
  inl, inr, ltb, leb, ◌==◌, if◌then◌else◌, Bytes,
}
use minipy.Token.{TokenType, Pos}
use minipy.Token.Errors.{Code, Message}
use minipy.Lexer.Utf8.{Library}
use minipy.Lexer.State.{
  Lexer, at, cur, is, holds, here, advance, advance_while, add, report, is_digit, is_hex_digit,
  between,
}

-- A result of `strconv`: the value, `ErrRange` or `ErrSyntax`.
pub data Parsed : Type 0 where
  value : ℕ → Parsed
  range syntax : Parsed

pub Parsed-cases : (r : Parsed) → ((n : ℕ) × (r ≡ value n)) ⊎ (r ≡ range) ⊎ (r ≡ syntax)
Parsed-cases (value n) = inl (n, refl)
Parsed-cases range = inr (inl refl)
Parsed-cases syntax = inr (inr refl)

-- The value of a digit or letter, `none` for any other byte.
digit_value : ℕ → Option ℕ
digit_value c =
    if leb b'0' c && leb c b'9'
    then some (c - b'0')
    else if leb b'a' c && leb c b'z'
    then some (c - b'a' + 10)
    else if leb b'A' c && leb c b'Z'
    then some (c - b'A' + 10)
    else none

-- The loop of `ParseUint` over the digits of a text, from the value so far.
pub parse_digits : ℕ → ℕ → ℕ → Bytes → Parsed
unfolding digit_value
parse_digits base limit n [] = value n
parse_digits base limit n (c ∷ cs) = elim (digit_value c) [
  | none ↦ syntax
  | some d ↦
      let rest = parse_digits base limit (n * base + d) cs in
      if leb base d then syntax else if ltb limit (n * base + d) then range else rest
]

-- `ParseUint(s, base, bits)`.
unfoldable pub parse_uint : ℕ → ℕ → Bytes → Parsed
unfolding parse_digits
parse_uint base bits [] = syntax
parse_uint base bits (c ∷ cs) = parse_digits base (2 ^ bits - 1) 0 (c ∷ cs)

-- Base 0: the base is read off a prefix. A text of `0` alone leaves no digit after the prefix.
radix : ℕ → Option ℕ
radix c =
    if c == b'b' || c == b'B'
    then some 2
    else if c == b'o' || c == b'O'
    then some 8
    else if c == b'x' || c == b'X'
    then some 16
    else none

detect_base : Bytes → Parsed
unfolding radix parse_digits parse_uint
detect_base (b ∷ d ∷ ds) = elim (radix b) [
  | none ↦ parse_digits 8 (2 ^ 64 - 1) 0 (b ∷ d ∷ ds)
  | some base ↦ parse_digits base (2 ^ 64 - 1) 0 (d ∷ ds)
]
detect_base s = parse_digits 8 (2 ^ 64 - 1) 0 s

-- `ParseInt(s, 0, 64)` on a text with no sign.
unfoldable pub parse_int : Bytes → Parsed
unfolding detect_base
parse_int [] = syntax
parse_int (c ∷ cs) =
    elim (if c == b'0' then detect_base cs else parse_digits 10 (2 ^ 64 - 1) 0 (c ∷ cs)) [
      | value n ↦ if leb (2 ^ 63) n then range else value n
      | range ↦ range
      | syntax ↦ syntax
    ]

-- `strings.ReplaceAll(s, "_", "")`.
unfoldable pub without_underscores : Bytes → Bytes
without_underscores [] = []
without_underscores (c ∷ cs) =
    let rest = without_underscores cs in if c == b'_' then rest else c ∷ rest

-- `l.runes[start:end]` is given as a text.
unfoldable pub finish_int : Bytes → Pos → Lexer → Lexer
unfolding without_underscores parse_int
finish_int text pos l =
    let clean = without_underscores text in
    let checked : Lexer = elim (parse_int clean) [
      | value _ ↦ l
      | range ↦ report pos Code.int_overflow (Message.int_exceeds_int64 clean) l
      | syntax ↦ report pos Code.lex_error (Message.invalid_int clean) l
    ] in
    add TokenType.int clean pos checked

unfoldable pub finish_float : Library → Bytes → Pos → Lexer → Lexer
unfolding without_underscores
finish_float u text pos l =
    let clean = without_underscores text in
    let checked =
      if u.parse_float_ok clean
      then l
      else report pos Code.lex_error (Message.invalid_float clean) l in
    add TokenType.float clean pos checked

pub digits : Lexer → Lexer
unfolding is_digit
digits = advance_while (λ r. is_digit r || r == b'_')

-- The optional fraction, and whether there is one.
fraction : Lexer → Lexer × Bool
unfolding digits
fraction l = if is b'.' (cur l) then (digits (advance 1 l), true) else (l, false)

-- The optional exponent; with no digit behind it the cursor goes back.
exponent : Lexer → Lexer × Bool
unfolding digits is_digit
exponent l =
    if is b'e' (cur l) || is b'E' (cur l)
    then (let marked = advance 1 l in
        let signed =
          if is b'+' (cur marked) || is b'-' (cur marked) then advance 1 marked else marked in
        if holds is_digit (cur signed) then (digits signed, true) else (l, false))
    else (l, false)

-- The suffix of an imaginary literal.
imaginary : Pos → Lexer → Lexer
imaginary pos l =
    if is b'j' (cur l) || is b'J' (cur l)
    then advance 1 (report pos Code.lex_error Message.imaginary_literal l)
    else l

is_radix_mark : ℕ → Bool
is_radix_mark r = r == b'x' || r == b'X' || r == b'o' || r == b'O' || r == b'b' || r == b'B'

unfoldable pub scan_number : Library → Lexer → Lexer
unfolding is_radix_mark is_hex_digit digits fraction exponent imaginary finish_int finish_float
scan_number u l =
    if is b'0' (cur l) && holds is_radix_mark (at l 1)
    then (let end = advance_while (λ r. is_hex_digit r || r == b'_') (advance 2 l) in
        finish_int (between l end) (here l) end)
    else (let (l1, has_fraction) = fraction (digits l) in
        let (end, has_exponent) = exponent l1 in
        let last = imaginary (here l) end in
        if has_fraction || has_exponent
        then finish_float u (between l end) (here l) last
        else finish_int (between l end) (here l) last)
