-- ===== src/Compiler.antt =====
-- compiler: the static checks and the lowering. The children are parts of the checker.
pub mod Table
pub mod Names
pub mod Exports
pub mod Flow
pub mod Narrow
