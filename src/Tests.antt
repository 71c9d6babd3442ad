-- ===== src/Tests.antt =====
-- Runs of the model at small inputs.
pub mod Iterating
pub mod Checking
pub mod Naming
pub mod Lexing
pub mod Examples
pub mod Typing
pub mod Registering
pub mod Operators
pub mod Parsing
pub mod Fields
pub mod Programs
