-- ===== src/Builtins.antt =====
-- builtins: the built-in functions. The children are those parts that do not call minivm.
pub mod Range
pub mod Rules
pub mod Specs
