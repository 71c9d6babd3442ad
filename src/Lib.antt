-- ===== src/Lib.antt =====
-- The verification library of minipy: the front end of a compiler for a strict subset of Python.
--
-- Source text is scanned into tokens (package lexer over package token), which are parsed into a tree
-- (package parser over package ast); the checker gives expressions types (package types) and reports
-- what does not fit.
--
-- * `Token` models token/token.go: the token types in the order of their constants, the keyword
--   table and `Lookup` (`lookup`). `Token.Errors` models token/error.go: codes, diagnostics, `Err`.
-- * `Lexer` models lexer/lexer.go. `Lexer.State` has the struct `Lexer` and its small methods; the
--   runes from `offset` on, read or not, are the list `rest`. `Lexer.Prefix` has `classifyPrefix`,
--   `Lexer.Indent` `scanIndent` (`scan_indent`), `Lexer.Numbers` `scanNumber`, `Lexer.Strings`
--   `scanString` and `decodeEscape`, `Lexer.Operators` `scanOperator`, and `Lexer.Run` `step`,
--   `finish`, `Next` and `Lex`. `Lexer.Utf8` has the conversion of runes to strings, and the record
--   `Library` of what is taken from packages unicode and strconv: the letters, the digits, and
--   whether `ParseFloat` takes a text.
-- * `Types` models types/types.go. `Types.Defs` has the types and `Equal`, `Types.Strings` the
--   `String` methods with `strconv.Quote` as a parameter, `Types.Unions` `NewUnion`, `Erase`, `Join`,
--   `Without` and `Printable`, `Types.Ordering` `Orderable`, `Types.Assign` `AssignableTo` and
--   `Resolve`, and `Types.Literals` `NewLiteral`.
-- * `Operator` models operator/types.go: `Operator.Binary` has `BinaryType`, `UnaryType` and
--   `PowFloatResult`, `Operator.Compare` has `Comparable` and `ContainsType`. The errors that a rule
--   reports to the checker are returned with its type.
-- * `Registry` models module/registry.go: `NewRegistry` with its options and errors, and the lookups.
-- * `Parser` models parser/parser.go: `Parser.Ast` and `Parser.Ast.Stmts` have the tree of ast/ast.go,
--   `Parser.State` the struct `Parser`, whose lexer is a list of tokens, and its small methods as
--   actions, `Parser.Displays` strings, groups, displays and comprehensions, `Parser.Operators` the rest
--   of expressions, up to `parseExpression`, `Parser.Annotations` `parseType`, `Parser.Patterns` the
--   patterns of `match`, `Parser.Simple` the simple statements and their line, `Parser.Blocks` blocks and
--   the statements from `parseIf` to `parseWith`, `Parser.Definitions` functions and classes, and
--   `Parser.Statements` `parseMatch`, `parseStatement` and `parseModule`. The functions take the
--   recursive calls that stand behind a token from two records, `Parser.Grammar` and `Parser.Suite`;
--   `Parser.Knot` and `Parser.Program` tie them, and `Parser.Program` has `Parse` and `ParseType`. The
--   value of a float literal and `parseFStringParts` are a record `Env`. `Parser.Fields` models
--   parser/fstring.go: `splitFStringField`, with `parseFStringParts` in `Parser.Fields.Parts` and
--   `parseFStringExpr` in `Parser.Fields.Nested`, which makes of an `Env` for the f-strings inside of
--   fields one for all f-strings; `strings.TrimSpace` and the decoding of runes are a record `Text`.
-- * `Compiler` models parts of the checker: `Compiler.Flow` `blockReturns` and `blockTerminates` of
--   compiler/check_decl.go, with the ways through a block in `Compiler.Flow.Paths`, and, of
--   compiler/check.go, `Compiler.Narrow` `narrowings`, `fold`, `withNarrow` and `checkBlock`,
--   `Compiler.Names` the keys of names, `resolveName` and `resolveModuleAttr`, and `Compiler.Exports`
--   `computeExports`. `Compiler.Table` has Go maps as lists of entries. The check of a statement and
--   what an annotation stands for are arguments.
-- * `Hostabi.Iterator` models hostabi/iterator.go, and `Builtins.Range` the range iterator of
--   builtins/host.go, on `int64` shifted by 2^63; boxes are those of minivm, as parameters.
--   `Builtins.Rules` models builtins/result.go, and `Builtins.Specs`, of builtins/builtins.go,
--   `checkBuiltin` and the rows of the table whose check is a rule alone, and pow; the others, min, max
--   and those from getattr on, have checks of their own, which are not modelled.
-- * `Tests` runs the model at small inputs.
--
-- Loops that recur on no list run on fuel. The loop of `Next` has one more than `steps_left`: twice the
-- runes left, one step for the start of a line and one for the end. Out of fuel it gives none, and the
-- tokens of `Lex` then have no ENDMARKER. That of `Lex` has as much as
-- `tokens_left`: twice `steps_left`, the pending tokens and the open blocks. That of a string literal
-- has one more than the runes left, and gives none out of fuel, as `Orderable` does, which has one more
-- than the tuples in a type. `AssignableTo` has the sizes of its two types: each call goes from
-- a literal type to its base or from a union to its members. The grammar of the parser has a fuel of
-- one for each call through its records; twice the tokens that are left, and one or two more, are
-- enough, for between two tokens at most two such calls stand. A loop of the parser that goes round at
-- a token has one round for each token that is left, and one more. An f-string has as much fuel as bytes,
-- and one more. `resolveModuleAttr` has one round for each binding of a chain of re-exports, and one.
--
-- Not modelled: failures of the reader and the texts of diagnostics; the VM types, which belong to
-- minivm; the depth of f-strings inside of f-strings, the types of expressions, statements and
-- declarations in the checker, the loader, the lowering, the host functions and library modules, and
-- the commands. A type annotation that is resolved in `narrowings` may report errors; they are left out.
-- A nil pointer inside an interface value, which no constructor function makes, is left out of the
-- types. Where two members of a union have one text, their order, which `sort.Slice` leaves open,
-- is here that of the arguments.
pub mod Base
pub mod Builtins
pub mod Compiler
pub mod Hostabi
pub mod Lexer
pub mod Operator
pub mod Parser
pub mod Registry
pub mod Tests
pub mod Token
pub mod Types
