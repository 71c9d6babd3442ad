-- ===== src/Tests/Parsing.antt =====
-- The parser at small inputs. The tokens have no positions, and no f-string has a part.
use minipy.Base.{false}
use minipy.Parser.State.Rounds.{at_end, Eats}
use minipy.Parser.Program
use minipy.Parser.Program.{suite, program}
use minipy.Parser.Program.Agree.{statement-Eats, standalone_agrees}
use minipy.Base.{ℕ, ◌≡◌, refl, List, [], ◌∷◌, some, arith}
use minipy.Token.{TokenType, Pos, Token, type_eq, ordinal}
use minipy.Parser.Ast
use minipy.Parser.Ast.{Expr}
use minipy.Parser.State.{
  Parser, return, ◌>>=◌, or_eof, peek, drop_token, advance, current, at, next_at, report, choose,
  accept, accept_if, skip, expect, drop_line, skip_line, drop_block, skip_block, at_stmt_end,
  expect_line_end,
}
use minipy.Parser.Displays
use minipy.Parser.Operators
use minipy.Parser.Annotations
use minipy.Parser.State.Agree.{Ends}
use minipy.Parser.Grammar.{Env}
use minipy.Parser.Knot.{grammar}
use minipy.Parser.Knot.Agree.{expression_agrees, annotation_agrees}

abbrev pub demo : Env
demo = record { float_bits = λ _. 0; fstring_parts = λ _ _. some (Ast.no_part, []) }

abbrev origin : Pos
origin = record { line = 1; column = 1 }

abbrev word : TokenType → Token
word t = record { type = t; literal = []; pos = origin }

abbrev on : List Token → Parser
on ts = record { rest = ts; end = origin; errs = [] }

abbrev var : ℕ → Token
var c = record { type = TokenType.name; literal = c ∷ []; pos = origin }

-- `a - b * c - d`.
abbrev sum : List Token
sum =
    var b'a'
    ∷ word TokenType.minus
    ∷ var b'b'
    ∷ word TokenType.star
    ∷ var b'c'
    ∷ word TokenType.minus
    ∷ var b'd'
    ∷ []

abbrev name_of : ℕ → Expr
name_of c = Ast.name origin (c ∷ [])

sum-tree :
    (grammar demo 15).expression (on sum)
    ≡ some (
      Ast.binary_expr origin TokenType.minus
          (Ast.binary_expr origin TokenType.minus
            (name_of b'a')
            (Ast.binary_expr origin TokenType.star (name_of b'b') (name_of b'c')))
          (name_of b'd'),
      on [],
    )
unfolding grammar return ◌>>=◌ or_eof peek drop_token advance current at next_at report choose
    accept accept_if skip expect drop_line skip_line drop_block skip_block at_stmt_end
    expect_line_end Displays.at_clause Displays.at_close Displays.fstring_parts Displays.string_loop
    Displays.string Displays.if_loop Displays.clause Displays.clause_loop Displays.starred
    Displays.group_loop Displays.group Displays.list_loop Displays.set_loop Displays.dict_loop
    Operators.int_value Operators.bin_prec Operators.binary_op Operators.unary_op
    Operators.compare_op Operators.literal_node Operators.unexpected Operators.lambda_params
    Operators.lambda Operators.atom Operators.subscript_index Operators.positional
    Operators.call_loop Operators.call Operators.primary_loop Operators.primary Operators.power
    Operators.factor Operators.binary_loop Operators.binary Operators.compare_loop
    Operators.comparison Operators.inversion Operators.and_loop Operators.conjunction
    Operators.or_loop Operators.disjunction Operators.named Operators.yield_value
    Operators.yield_expression Operators.conditional Operators.expression
    Annotations.annotation_name Annotations.no_annotation Annotations.dotted_loop
    Annotations.type_args Annotations.literal_loop Annotations.annotated_loop Annotations.annotated
    Annotations.literal_type Annotations.callable_type Annotations.generic_type
    Annotations.bracketed Annotations.annotation_atom Annotations.union_loop Annotations.annotation
    Ast.of_exprs Ast.of_keywords Ast.of_clauses Ast.of_params Ast.expr_pos type_eq ordinal
sum-tree = refl

-- `{a: b, c}` is read as the set of `c`.
mixed-display :
    (grammar demo 20).expression (
      on (
        word TokenType.lbrace
        ∷ var b'a'
        ∷ word TokenType.colon
        ∷ var b'b'
        ∷ word TokenType.comma
        ∷ var b'c'
        ∷ word TokenType.rbrace
        ∷ []))
    ≡ some (Ast.set_lit origin (Ast.expr (name_of b'c') Ast.no_expr), on [])
unfolding grammar return ◌>>=◌ or_eof peek drop_token advance current at next_at report choose
    accept accept_if skip expect drop_line skip_line drop_block skip_block at_stmt_end
    expect_line_end Displays.at_clause Displays.at_close Displays.fstring_parts Displays.string_loop
    Displays.string Displays.if_loop Displays.clause Displays.clause_loop Displays.starred
    Displays.group_loop Displays.group Displays.list_loop Displays.set_loop Displays.dict_loop
    Operators.int_value Operators.bin_prec Operators.binary_op Operators.unary_op
    Operators.compare_op Operators.literal_node Operators.unexpected Operators.lambda_params
    Operators.lambda Operators.atom Operators.subscript_index Operators.positional
    Operators.call_loop Operators.call Operators.primary_loop Operators.primary Operators.power
    Operators.factor Operators.binary_loop Operators.binary Operators.compare_loop
    Operators.comparison Operators.inversion Operators.and_loop Operators.conjunction
    Operators.or_loop Operators.disjunction Operators.named Operators.yield_value
    Operators.yield_expression Operators.conditional Operators.expression
    Annotations.annotation_name Annotations.no_annotation Annotations.dotted_loop
    Annotations.type_args Annotations.literal_loop Annotations.annotated_loop Annotations.annotated
    Annotations.literal_type Annotations.callable_type Annotations.generic_type
    Annotations.bracketed Annotations.annotation_atom Annotations.union_loop Annotations.annotation
    Ast.of_exprs Ast.of_keywords Ast.of_clauses Ast.of_params Ast.expr_pos type_eq ordinal
mixed-display = refl

expression_agrees_example :
    Ends (on sum) ((grammar demo 15).expression (on sum)) ((grammar demo 40).expression (on sum))
expression_agrees_example =
    expression_agrees demo (λ _ _. ((Ast.no_part, []), refl)) 15 40 (on sum) (omega arith)
      (omega arith)

annotation_agrees_example :
    Ends (on sum) ((grammar demo 15).annotation (on sum)) ((grammar demo 40).annotation (on sum))
annotation_agrees_example =
    annotation_agrees demo (λ _ _. ((Ast.no_part, []), refl)) 15 40 (on sum) (omega arith)
      (omega arith)

-- `pass`, and the end.
abbrev pass_line : List Token
pass_line = word TokenType.pass ∷ word TokenType.newline ∷ word TokenType.eof ∷ []

starts : at_end (on pass_line) ≡ false
unfolding peek or_eof type_eq ordinal
starts = refl

statement-Eats_example :
    Eats
      (on pass_line)
      ((suite demo 10).statement (on pass_line))
      ((suite demo 11).statement (on pass_line))
statement-Eats_example =
    statement-Eats demo (λ _ _. ((Ast.no_part, []), refl)) 10 11 (on pass_line) starts (omega arith)
      (omega arith)

standalone_agrees_example :
    Ends
      (on sum)
      (Program.standalone (grammar demo 15) (on sum))
      (Program.standalone (grammar demo 16) (on sum))
standalone_agrees_example =
    standalone_agrees demo (λ _ _. ((Ast.no_part, []), refl)) 15 16 (on sum) (omega arith)
      (omega arith)
