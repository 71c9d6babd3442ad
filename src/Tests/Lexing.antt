-- ===== src/Tests/Lexing.antt =====
-- The scanner at small inputs, with the ASCII part of package unicode.
use minipy.Lexer.Strings.{scan_string, decode_escape, decode_hex, string_loop, string_round}
use minipy.Lexer.Prefix.{classify_prefix}
use minipy.Lexer.Operators.{scan_operator, match_operator, adjust_parens}
use minipy.Lexer.Numbers.{
  scan_number, finish_float, finish_int, parse_int, parse_uint, without_underscores,
}
use minipy.Lexer.Indent.{scan_indent, measure, pop_all, pop_to, set_indent}
use minipy.Base.{◌≡◌, refl, true, ◌&&◌, ◌||◌, [], ◌∷◌, none, leb, map, codes, Bytes, bytes_eq}
use minipy.Token.{TokenType, Token, type_eq, lookup, ordinal}
use minipy.Lexer.Utf8.{Library, encode, encode_rune}
use minipy.Lexer.Run.{
  lex, next, step, pop, pull, step_started, start, scan, scan_name_or_string, end_line, backslash,
  finish, lex_loop,
}
use minipy.Lexer.State.{span, is_digit, consume_newline, is_hex_digit, skip_newline}

abbrev pub ascii : Library
ascii = record {
  is_letter = λ r. (leb b'a' r && leb r b'z') || (leb b'A' r && leb r b'Z');
  is_digit = λ r. leb b'0' r && leb r b'9';
  parse_float_ok = λ s. true;
}

abbrev pub block : Bytes
block = codes "if x:\n  y **= 0x1F\n\n  # c\nz = rb'\\x41'"

block-types :
    map (λ (t : Token). t.type) (lex ascii block).0
    ≡ TokenType.if_word ∷ TokenType.name ∷ TokenType.colon ∷ TokenType.newline ∷ TokenType.indent
      ∷ TokenType.name ∷ TokenType.doublestareq ∷ TokenType.int ∷ TokenType.newline
      ∷ TokenType.dedent ∷ TokenType.name ∷ TokenType.assign ∷ TokenType.bytes ∷ TokenType.newline
      ∷ TokenType.eof ∷ []
unfolding lex type_eq next step span pop pull step_started start scan_indent scan
    scan_name_or_string lookup encode is_digit scan_operator match_operator end_line adjust_parens
    scan_number classify_prefix scan_string bytes_eq measure pop_all pop_to set_indent finish_float
    finish_int parse_int parse_uint without_underscores backslash finish lex_loop consume_newline
    is_hex_digit skip_newline decode_escape decode_hex string_loop string_round encode_rune ordinal
block-types = refl

block-diagnostics : (lex ascii block).1 ≡ none
unfolding lex type_eq next step span pop pull step_started start scan_indent scan
    scan_name_or_string lookup encode is_digit scan_operator match_operator end_line adjust_parens
    scan_number classify_prefix scan_string bytes_eq measure pop_all pop_to set_indent finish_float
    finish_int parse_int parse_uint without_underscores backslash finish lex_loop consume_newline
    is_hex_digit skip_newline decode_escape decode_hex string_loop string_round encode_rune ordinal
block-diagnostics = refl

-- A name on the line behind a raw string with a backslash before its line break, on the first two
-- lines, and the lines that the tokens are said to start on.
abbrev continued : Bytes
continued = codes "r'\\\n' x"

continued-lines : map (λ (t : Token). t.pos.line) (lex ascii continued).0 ≡ 1 ∷ 1 ∷ 1 ∷ 1 ∷ []
unfolding lex type_eq next step span pop pull step_started start scan_indent scan
    scan_name_or_string lookup encode is_digit scan_operator match_operator end_line adjust_parens
    scan_number classify_prefix scan_string bytes_eq measure pop_all pop_to set_indent finish_float
    finish_int parse_int parse_uint without_underscores backslash finish lex_loop consume_newline
    is_hex_digit skip_newline decode_escape decode_hex string_loop string_round encode_rune ordinal
continued-lines = refl

-- A literal with leading zeros is taken without a diagnostic.
octal-diagnostics : (lex ascii (codes "0777")).1 ≡ none
unfolding lex type_eq next step span pop pull step_started start scan_indent scan
    scan_name_or_string lookup encode is_digit scan_operator match_operator end_line adjust_parens
    scan_number classify_prefix scan_string bytes_eq measure pop_all pop_to set_indent finish_float
    finish_int parse_int parse_uint without_underscores backslash finish lex_loop consume_newline
    is_hex_digit skip_newline decode_escape decode_hex string_loop string_round encode_rune ordinal
octal-diagnostics = refl
