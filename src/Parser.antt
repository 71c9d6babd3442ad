-- ===== src/Parser.antt =====
-- The parser, parser/parser.go, over the tokens of the lexer.
pub mod Ast
pub mod State
pub mod Grammar
pub mod Displays
pub mod Operators
pub mod Annotations
pub mod Knot
pub mod Suite
pub mod Patterns
pub mod Simple
pub mod Blocks
pub mod Definitions
pub mod Statements
pub mod Program
pub mod Fields
