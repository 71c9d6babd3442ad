-- ===== src/Lexer/State.antt =====
-- The struct `Lexer`, its small methods, and the scanning loops that advance by one rune. The
-- runes from `offset` on, those still in the reader included, are the list `rest`: `fill` reads them
-- on demand. A failure of the reader, `readErr`, is left out.
use minipy.Base.{
  ℕ, ◌+◌, ◌-◌, Bool, true, false, not, ◌&&◌, ◌||◌, List, [], ◌∷◌, ◌++◌, Option, none, some, leb,
  ◌==◌, if◌then◌else◌, Bytes, get_elem?, take, drop, length,
}
use minipy.Token.{TokenType, Pos, Token}
use minipy.Token.Errors
use minipy.Token.Errors.{Error, Code, Message}
use minipy.Lexer.Utf8.{Library, encode}

pub record Lexer : Type 0 where
  pub rest : List ℕ
  pub started : Bool
  pub done : Bool
  pub line : ℕ
  pub column : ℕ
  -- innermost first; the bottom entry, 0, is never popped
  pub indents : List ℕ
  pub parens : ℕ
  pub at_line_start : Bool
  pub line_has_tok : Bool
  pub pending : List Token
  pub diagnostics : List Error

-- `New`, on the runes of the reader.
abbrev pub new : List ℕ → Lexer
new input = record {
  rest = input;
  started = false;
  done = false;
  line = 1;
  column = 1;
  indents = 0 ∷ [];
  parens = 0;
  at_line_start = true;
  line_has_tok = false;
  pending = [];
  diagnostics = [];
}

-- `at` and `cur`; `none` is `eofRune`.
abbrev pub at : Lexer → ℕ → Option ℕ
at l k = get_elem? l.rest k

abbrev pub cur : Lexer → Option ℕ
cur l = at l 0

-- `r == x`, false for `eofRune`.
abbrev pub is : ℕ → Option ℕ → Bool
is x none = false
is x (some r) = r == x

abbrev pub here : Lexer → Pos
here l = record { line = l.line; column = l.column }

-- `l.offset += n; l.column += n`.
abbrev pub advance : ℕ → Lexer → Lexer
advance n l = record l { rest = drop n l.rest; column = l.column + n }

abbrev pub add : TokenType → Bytes → Pos → Lexer → Lexer
add t lit pos l = record l {
  pending = l.pending ++ (record { type = t; literal = lit; pos = pos } ∷ []);
}

-- `l.diagnostics.Add`.
abbrev pub report : Pos → Code → Message → Lexer → Lexer
report pos code msg l = record l { diagnostics = Errors.add l.diagnostics pos code msg }

-- `isDigit`, `isHexDigit`.
unfoldable pub is_digit : ℕ → Bool
is_digit r = leb b'0' r && leb r b'9'

unfoldable pub is_hex_digit : ℕ → Bool
unfolding is_digit
is_hex_digit r = is_digit r || (leb b'a' r && leb r b'f') || (leb b'A' r && leb r b'F')

-- A test on runes at `cur` or `at`; every such test is false at `eofRune`.
abbrev pub holds : (ℕ → Bool) → Option ℕ → Bool
holds p none = false
holds p (some r) = p r

abbrev pub is_name_start : Library → ℕ → Bool
is_name_start u r = r == b'_' || u.is_letter r

abbrev pub is_name_continue : Library → ℕ → Bool
is_name_continue u r = r == b'_' || u.is_letter r || u.is_digit r

abbrev pub is_newline : ℕ → Bool
is_newline r = r == b'\n' || r == b'\r'

-- The runes that a loop `for p(l.cur()) { l.offset++; l.column++ }` goes over, and those left.
unfoldable pub span : (ℕ → Bool) → List ℕ → List ℕ × List ℕ
span p [] = ([], [])
span p (r ∷ rs) = let s = span p rs in if p r then (r ∷ s.0, s.1) else ([], r ∷ rs)

-- That loop.
abbrev pub advance_while : (ℕ → Bool) → Lexer → Lexer
advance_while p l = record l {
  rest = (span p l.rest).1;
  column = l.column + length (span p l.rest).0;
}

-- `skipComment`.
abbrev pub skip_comment : Lexer → Lexer
skip_comment = advance_while (λ r. not (is_newline r))

-- `consumeNewline`; with `\r\n` as one.
unfoldable pub skip_newline : List ℕ → List ℕ
skip_newline [] = []
skip_newline (r ∷ rs) = if r == b'\r' && is b'\n' (get_elem? rs 0) then drop 1 rs else rs

unfoldable pub consume_newline : Lexer → Lexer
unfolding skip_newline
consume_newline l = record l { rest = skip_newline l.rest; line = l.line + 1; column = 1 }

-- `string(l.runes[start:end])`, from the states in which `offset` was `start` and `end`.
abbrev pub between : Lexer → Lexer → Bytes
between start end = encode (take (length start.rest - length end.rest) start.rest)
