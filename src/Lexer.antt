-- ===== src/Lexer.antt =====
-- lexer/lexer.go: the scanner. The children follow the parts of the file.
pub mod Utf8
pub mod Prefix
pub mod State
pub mod Numbers
pub mod Strings
pub mod Operators
pub mod Indent
pub mod Run
pub mod Moves
pub mod Blocks
pub mod Effects
