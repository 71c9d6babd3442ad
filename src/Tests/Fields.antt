-- ===== src/Tests/Fields.antt =====
-- The splitting of f-strings at small inputs, with a reader that takes bytes for runes.
use minipy.Base.{◌≡◌, ◌↔◌, refl, [], some, codes}
use minipy.Tests.Lexing.{ascii}
use minipy.Tests.Parsing.{demo}
use minipy.Parser.Ast
use minipy.Parser.Grammar.Good.{IsComplete}
use minipy.Parser.Fields.{field_end, split_field, marks, mark, comparison_eq, behind, earlier}
use minipy.Parser.Fields.Exact.{IsField, field_end-IsField}
use minipy.Parser.Fields.Nested.{Text, nested, nested-IsComplete}

abbrev plain_text : Text
plain_text = record { trim = λ bs. bs; runes = λ bs. bs }

-- `f"{x[1:2]!r:>4}"` and `f"{x=}"`.
sliced-field :
    split_field plain_text.trim (codes "x[1:2]!r:>4")
    ≡ record { expression = codes "x[1:2]"; debug = []; conversion = b'r'; format = codes ">4" }
unfolding split_field marks mark comparison_eq behind earlier
sliced-field = refl

debug-field :
    split_field plain_text.trim (codes "x=")
    ≡ record { expression = codes "x"; debug = codes "x="; conversion = 0; format = [] }
unfolding split_field marks mark comparison_eq behind earlier
debug-field = refl

field_end-IsField_example :
    (field_end 0 (codes "a{b}c}d") ≡ some (codes "a{b}c", codes "d"))
    ↔ IsField 0 (codes "a{b}c}d") (codes "a{b}c") (codes "d")
field_end-IsField_example = field_end-IsField (codes "a{b}c}d") (codes "a{b}c") (codes "d")

nested-IsComplete_example : IsComplete (nested ascii plain_text demo)
nested-IsComplete_example =
    nested-IsComplete ascii plain_text demo (λ _ _. ((Ast.no_part, []), refl))
