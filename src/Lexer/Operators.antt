-- ===== src/Lexer/Operators.antt =====
-- `scanOperator`.
pub mod Spelling
use minipy.Base.{ℕ, ◌+◌, ◌-◌, ◌&&◌, ◌||◌, Option, none, some, ◌==◌, if◌then◌else◌, take}
use minipy.Token.{TokenType}
use minipy.Token.Errors.{Code, Message}
use minipy.Lexer.Utf8.{encode}
use minipy.Lexer.State.{Lexer, at, is, here, advance, add, report}

-- `emit(t, n)`: the type of the token and the number of its runes.
abbrev pub Match : Type 0
Match = TokenType × ℕ

-- `x=`, or `x` alone.
abbrev with_equals : TokenType → TokenType → Option ℕ → Match
with_equals long short c1 = if is b'=' c1 then (long, 2) else (short, 1)

abbrev minus_match : Option ℕ → Match
minus_match c1 =
    if is b'=' c1
    then (TokenType.minuseq, 2)
    else if is b'>' c1
    then (TokenType.arrow, 2)
    else (TokenType.minus, 1)

-- `xx=`, `xx`, `x=` or `x`, for the character `x`.
abbrev doubled : ℕ → TokenType → TokenType → TokenType → TokenType → Option ℕ → Option ℕ → Match
doubled x longest twice equals once c1 c2 =
    if is x c1 && is b'=' c2
    then (longest, 3)
    else if is x c1
    then (twice, 2)
    else if is b'=' c1
    then (equals, 2)
    else (once, 1)

-- The `switch`, on the character at the cursor and the two behind it; `none` is an unexpected one.
unfoldable pub match_operator : ℕ → Option ℕ → Option ℕ → Option Match
match_operator c c1 c2 =
    if c == b'+'
    then some (with_equals TokenType.pluseq TokenType.plus c1)
    else if c == b'-'
    then some (minus_match c1)
    else if c == b'*'
    then some (
        doubled b'*' TokenType.doublestareq TokenType.doublestar TokenType.stareq TokenType.star c1
          c2)
    else if c == b'/'
    then some (
        doubled b'/' TokenType.doubleslasheq TokenType.doubleslash TokenType.slasheq TokenType.slash
          c1 c2)
    else if c == b'%'
    then some (with_equals TokenType.percenteq TokenType.percent c1)
    else if c == b'<'
    then some (doubled b'<' TokenType.lshifteq TokenType.lshift TokenType.le TokenType.lt c1 c2)
    else if c == b'>'
    then some (doubled b'>' TokenType.rshifteq TokenType.rshift TokenType.ge TokenType.gt c1 c2)
    else if c == b'&'
    then some (with_equals TokenType.ampeq TokenType.amp c1)
    else if c == b'|'
    then some (with_equals TokenType.pipeeq TokenType.pipe c1)
    else if c == b'^'
    then some (with_equals TokenType.careteq TokenType.caret c1)
    else if c == b'~'
    then some (TokenType.tilde, 1)
    else if c == b'@'
    then some (TokenType.at, 1)
    else if c == b'='
    then some (with_equals TokenType.eq TokenType.assign c1)
    else if c == b'!'
    then (if is b'=' c1 then some (TokenType.ne, 2) else none)
    else if c == b':'
    then some (with_equals TokenType.walrus TokenType.colon c1)
    else if c == b'('
    then some (TokenType.lparen, 1)
    else if c == b')'
    then some (TokenType.rparen, 1)
    else if c == b'['
    then some (TokenType.lbracket, 1)
    else if c == b']'
    then some (TokenType.rbracket, 1)
    else if c == b'{'
    then some (TokenType.lbrace, 1)
    else if c == b'}'
    then some (TokenType.rbrace, 1)
    else if c == b','
    then some (TokenType.comma, 1)
    else if c == b'.'
    then some (if is b'.' c1 && is b'.' c2 then (TokenType.ellipsis, 3) else (TokenType.dot, 1))
    else if c == b';'
    then some (TokenType.semicolon, 1)
    else none

-- What an opening or closing bracket does to `parens`.
unfoldable pub adjust_parens : ℕ → ℕ → ℕ
adjust_parens c parens =
    if c == b'(' || c == b'[' || c == b'{'
    then parens + 1
    else if c == b')' || c == b']' || c == b'}'
    then parens - 1
    else parens

-- `c` is the rune at the cursor.
unfoldable pub scan_operator : ℕ → Lexer → Lexer
scan_operator c l = elim (match_operator c (at l 1) (at l 2)) [
  | none ↦ advance 1 (report (here l) Code.lex_error (Message.unexpected_character c) l)
  | some (t, n) ↦
      let opened = record l { parens = adjust_parens c l.parens } in
      add t (encode (take n l.rest)) (here l) (advance n opened)
]
