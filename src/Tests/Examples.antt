-- ===== src/Tests/Examples.antt =====
-- The theorems on the scanner at concrete inputs.
use minipy.Lexer.Run.Lexed.{lex-ends, lex-Spelled, lex_nested}
use minipy.Lexer.Operators.{match_operator}
use minipy.Lexer.Run.{lex}
use minipy.Lexer.Moves.{Moves}
use minipy.Lexer.Operators.Spelling.{IsMatch?, match_operator-IsMatch}
use minipy.Lexer.State.{Lexer, new}
use minipy.Lexer.Blocks.{ends, depth, Spelled}
use minipy.Base.{◌≡◌, true, some, codes, All}
use minipy.Tests.Lexing.{ascii, block}

lex_nested_example : depth 0 (lex ascii block).0 ≡ some 0
lex_nested_example = lex_nested ascii block

lex-ends_example : ends true (lex ascii block).0 ≡ true
lex-ends_example = lex-ends ascii block

lex-Spelled_example : All Spelled (lex ascii block).0
lex-Spelled_example = lex-Spelled ascii block

abbrev quoted : Lexer
quoted = new (codes "a\\n'")

match_operator-IsMatch_example :
    IsMatch? (codes "**=3") (match_operator b'*' (some b'*') (some b'='))
match_operator-IsMatch_example = match_operator-IsMatch b'*' (codes "*=3")
