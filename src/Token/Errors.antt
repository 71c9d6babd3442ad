-- ===== src/Token/Errors.antt =====
-- token/error.go: catalogue codes, diagnostics and their accumulator. A message is kept as the
-- format that `Add` is called with, by name, and its arguments; its text is not modelled.
use minipy.Base.{ℕ, String, Option, none, some, List, [], ◌∷◌, ◌++◌, Bytes}
use minipy.Token.{Pos, TokenType}

pub data Code : Type 0 where
  lex_error syntax_error unsupported_feature unsupported_type int_overflow : Code
  missing_annotation cyclic_alias type_mismatch undefined_name use_before_definition : Code
  arity_mismatch not_comparable not_iterable not_indexable no_binding_for_nonlocal : Code
  pattern_error invalid_union_member module_not_found import_error : Code
  other : String → Code

-- `Code.Python`; `other` is a code outside the catalogue.
unfoldable pub python : Code → String
python lex_error = "SyntaxError"
python syntax_error = "SyntaxError"
python unsupported_feature = "SyntaxError"
python unsupported_type = "SyntaxError"
python int_overflow = "ValueError"
python missing_annotation = "TypeError"
python cyclic_alias = "TypeError"
python type_mismatch = "TypeError"
python arity_mismatch = "TypeError"
python not_comparable = "TypeError"
python not_iterable = "TypeError"
python not_indexable = "TypeError"
python pattern_error = "TypeError"
python invalid_union_member = "TypeError"
python undefined_name = "NameError"
python use_before_definition = "NameError"
python no_binding_for_nonlocal = "NameError"
python module_not_found = "ModuleNotFoundError"
python import_error = "ImportError"
python (other _) = "Error"

-- The messages of the lexer, and those of the parser.
pub data Message : Type 0 where
  unexpected_character : ℕ → Message
  tab_in_indentation unmatched_unindent : Message
  imaginary_literal : Message
  unicode_prefix : Message
  unterminated_string unterminated_escape truncated_escape : Message
  invalid_hex_escape : Bytes → Message
  non_ascii_in_bytes : ℕ → Message
  int_exceeds_int64 : Bytes → Message
  invalid_int : Bytes → Message
  invalid_float : Bytes → Message
  expected : TokenType → TokenType → Message
  unexpected_indent expected_block expected_async expected_definition : Message
  without_if expected_loop_variable expected_type_end expected_type : TokenType → Message
  except_unsupported finally_unsupported try_without_clause : Message
  class_body_block class_body_members : Message
  tuple_target expected_cases expected_case : Message
  invalid_pattern unexpected_token expected_line_end : TokenType → Message
  named_target cannot_delete cannot_assign mixed_literals : Message
  multiple_double_star bare_generator : Message
  unterminated_field single_brace invalid_field : Message

pub record Error : Type 0 where
  pub pos : Pos
  pub code : Code
  pub msg : Message

-- `ErrorList.Add`, on the list as a value.
abbrev pub add : List Error → Pos → Code → Message → List Error
add l p c m = l ++ (record { pos = p; code = c; msg = m } ∷ [])

-- `ErrorList.Err`: a copy of the list, or nil when it is empty.
abbrev pub err : List Error → Option (List Error)
err [] = none
err (e ∷ es) = some (e ∷ es)
