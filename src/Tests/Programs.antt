-- ===== src/Tests/Programs.antt =====
-- `Parse` on a small source, with the ASCII part of package unicode.
use minipy.Lexer.Strings.{scan_string, decode_escape, decode_hex, string_loop, string_round}
use minipy.Lexer.Prefix.{classify_prefix}
use minipy.Lexer.Operators.{scan_operator, match_operator, adjust_parens}
use minipy.Lexer.Numbers.{
  scan_number, finish_float, finish_int, parse_int, parse_uint, without_underscores,
}
use minipy.Lexer.Indent.{scan_indent, measure, pop_all, pop_to, set_indent}
use minipy.Base.{◌≡◌, refl, true, [], codes, Bytes, bytes_eq}
use minipy.Token.{type_eq, lookup, ordinal}
use minipy.Lexer.Utf8.{encode, encode_rune}
use minipy.Lexer.Run.{
  lex, next, step, pop, pull, step_started, start, scan, scan_name_or_string, end_line, backslash,
  finish, lex_loop,
}
use minipy.Lexer.State.{span, is_digit, consume_newline, is_hex_digit, skip_newline}
use minipy.Base.{◌≤◌, List, Option, some, length, arith}
use minipy.Tests.Lexing.{ascii}
use minipy.Tests.Parsing.{demo}
use minipy.Token.Errors.{Error}
use minipy.Parser.Ast
use minipy.Parser.Ast.Stmts.{Stmt}
use minipy.Parser.State.{Parser}
use minipy.Parser.State.Rounds.{at_end}
use minipy.Parser.Program
use minipy.Parser.Program.{program, parse}
use minipy.Parser.Program.Agree.{parse_fuel}
use minipy.Parser.Program.Whole.{program_whole}

abbrev source : Bytes
source = codes "x\n"

source-tokens : length (lex ascii source).0 ≡ 3
unfolding lex type_eq next step span pop pull step_started start scan_indent scan
    scan_name_or_string lookup encode is_digit scan_operator match_operator end_line adjust_parens
    scan_number classify_prefix scan_string bytes_eq measure pop_all pop_to set_indent finish_float
    finish_int parse_int parse_uint without_underscores backslash finish lex_loop consume_newline
    is_hex_digit skip_newline decode_escape decode_hex string_loop string_round encode_rune ordinal
source-tokens = refl

parse_fuel_example :
    (r : List Stmt × Option (List Error)) × (parse ascii demo 8 source ≡ some r)
    × (parse ascii demo 9 source ≡ some r)
parse_fuel_example =
    parse_fuel demo (λ _ _. ((Ast.no_part, []), refl)) ascii source 8 9
      (omega (arith, source-tokens)) (omega arith)

program_whole_example :
    (body : List Stmt) × (t : Parser) × (program demo 8 (Program.start (lex ascii source).0)
      ≡ some (body, t))
    × (at_end t ≡ true)
    × (length t.rest ≤ 1)
program_whole_example =
    program_whole ascii demo (λ _ _. ((Ast.no_part, []), refl)) source 8
      (omega (arith, source-tokens))
