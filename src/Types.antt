-- ===== src/Types.antt =====
-- types/types.go: the source-level types. The children hold the operations.
pub mod Defs
pub mod Equality
pub mod Strings
pub mod Unions
pub mod Assign
pub mod Ordering
pub mod Literals
