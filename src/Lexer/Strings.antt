-- ===== src/Lexer/Strings.antt =====
-- `scanString`, `checkBytesChar`, `decodeEscape` and `decodeHex`. The builder is a list of bytes.
pub mod Moves
use minipy.Base.{
  ℕ, zero, suc, ◌+◌, ◌%◌, Bool, true, false, not, ◌&&◌, [], ◌∷◌, ◌++◌, none, some, ltb, ◌==◌,
  if◌then◌else◌, Bytes, length, take, Option,
}
use minipy.Token.{TokenType, Pos}
use minipy.Token.Errors.{Code, Message}
use minipy.Lexer.Utf8.{encode, encode_rune}
use minipy.Lexer.Prefix.{StringMode}
use minipy.Lexer.Numbers.{Parsed, parse_uint}
use minipy.Lexer.State.{Lexer, at, cur, is, advance, add, report, is_newline, consume_newline}

abbrev check_bytes_char : StringMode → Pos → ℕ → Lexer → Lexer
check_bytes_char mode pos c l =
    if mode.bytes && ltb 127 c
    then report pos Code.lex_error (Message.non_ascii_in_bytes c) l
    else l

unfoldable pub decode_hex : Bytes → Pos → ℕ → Bool → Lexer → Bytes × Lexer
unfolding encode parse_uint encode_rune
decode_hex b pos n as_byte l =
    if ltb (length l.rest) n
    then (b, report pos Code.lex_error Message.truncated_escape l)
    else (let digits = encode (take n l.rest) in
        let invalid : Bytes × Lexer =
          (b, report pos Code.lex_error (Message.invalid_hex_escape digits) l) in
        elim (parse_uint 16 32 digits) [
          | Parsed.value v ↦ (b ++ (if as_byte then (v % 256) ∷ [] else encode_rune v), advance n l)
          | Parsed.range ↦ invalid
          | Parsed.syntax ↦ invalid
        ])

-- The escapes that stand for one byte.
simple_escape : ℕ → Bool × ℕ
simple_escape c =
    if c == b'n'
    then (true, b'\n')
    else if c == b't'
    then (true, b'\t')
    else if c == b'r'
    then (true, b'\r')
    else if c == b'\\'
    then (true, b'\\')
    else if c == b'\''
    then (true, b'\'')
    else if c == b'"'
    then (true, b'"')
    else if c == b'0'
    then (true, 0)
    else if c == b'a'
    then (true, 7)
    else if c == b'b'
    then (true, 8)
    else if c == b'f'
    then (true, 12)
    else if c == b'v'
    then (true, 11)
    else (false, 0)

unfoldable pub decode_escape : Bytes → Pos → StringMode → Lexer → Bytes × Lexer
unfolding simple_escape decode_hex
decode_escape b pos mode l = elim (cur l) [
  | none ↦ (b, report pos Code.lex_error Message.unterminated_escape l)
  | some c ↦
      let l1 = advance 1 l in
      let (known, byte) = simple_escape c in
      let kept : Bytes × Lexer = (b ++ b'\\' ∷ encode_rune c, l1) in
      if known
      then (b ++ byte ∷ [], l1)
      else if c == b'x'
      then decode_hex b pos 2 mode.bytes l1
      else if c == b'u'
      then (if mode.bytes then kept else decode_hex b pos 4 false l1)
      else if c == b'U'
      then (if mode.bytes then kept else decode_hex b pos 8 false l1)
      else kept
]

-- How a round of the loop ends: by `break`, or with another round.
pub data Round : Type 0 where
  break : Bytes → Lexer → Round
  again : Bytes → Lexer → Round

-- A round of a raw string at a backslash.
raw_escape : StringMode → Pos → ℕ → Bytes → Lexer → Round
unfolding encode_rune
raw_escape mode pos c b l =
    let l1 = advance 1 l in
    elim (cur l1) [
      | none ↦ again (b ++ encode_rune c) l1
      | some d ↦
          again (b ++ encode_rune c ++ encode_rune d) (advance 1 (check_bytes_char mode pos d l1))
    ]

-- A round at the quote that the literal opens with.
at_quote : ℕ → Bool → Bytes → Lexer → Round
unfolding encode_rune
at_quote q triple b l =
    if not triple
    then break b (advance 1 l)
    else if is q (at l 1) && is q (at l 2)
    then break b (advance 3 l)
    else again (b ++ encode_rune q) (advance 1 l)

-- A round at a backslash.
at_backslash : StringMode → Pos → ℕ → Bytes → Lexer → Round
unfolding raw_escape decode_escape
at_backslash mode pos c b l =
    if mode.raw
    then raw_escape mode pos c b l
    else (let (b', l') = decode_escape b pos mode (advance 1 l) in again b' l')

-- A round at the rune `c`; `q` is the quote.
round_at : ℕ → Bool → StringMode → Pos → Bytes → Lexer → ℕ → Round
unfolding at_backslash at_quote consume_newline encode_rune
round_at q triple mode pos b l c =
    if not triple && is_newline c
    then break b (report pos Code.lex_error Message.unterminated_string l)
    else if c == q
    then at_quote q triple b l
    else if is_newline c
    then again (b ++ b'\n' ∷ []) (consume_newline l)
    else if c == b'\\'
    then at_backslash mode pos c b l
    else again (b ++ encode_rune c) (advance 1 (check_bytes_char mode pos c l))

-- One round of the loop.
unfoldable pub string_round : ℕ → Bool → StringMode → Pos → Bytes → Lexer → Round
unfolding round_at
string_round q triple mode pos b l = elim (cur l) [
  | none ↦ break b (report pos Code.lex_error Message.unterminated_string l)
  | some c ↦ round_at q triple mode pos b l c
]

-- The loop, `none` out of fuel.
unfoldable pub string_loop :
    ℕ → ℕ → Bool → StringMode → Pos → Bytes → Lexer → Option (Bytes × Lexer)
string_loop zero q triple mode pos b l = none
string_loop (suc fuel) q triple mode pos b l = elim (string_round q triple mode pos b l) [
  | break b' l' ↦ some (b', l')
  | again b' l' ↦ string_loop fuel q triple mode pos b' l'
]

abbrev pub string_type : StringMode → TokenType
string_type mode =
    if mode.formatted
    then TokenType.fstring
    else if mode.bytes
    then TokenType.bytes
    else TokenType.string

abbrev report_unicode : Pos → StringMode → Lexer → Lexer
report_unicode pos mode l =
    if mode.unicode then report pos Code.unsupported_feature Message.unicode_prefix l else l

-- `q` is the rune at the cursor, which is a quote. A loop out of fuel would leave the cursor there.
unfoldable pub scan_string : Pos → StringMode → ℕ → Lexer → Lexer
unfolding string_loop string_round
scan_string pos mode q l0 =
    let l = report_unicode pos mode l0 in
    let triple = is q (at l 1) && is q (at l 2) in
    let opened = advance (if triple then 3 else 1) l in
    elim (string_loop (length opened.rest + 1) q triple mode pos [] opened) [
      | none ↦ l0
      | some (text, end) ↦ add (string_type mode) text pos end
    ]
