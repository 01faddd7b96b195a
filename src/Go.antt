-- ===== src/Go.antt =====
-- The functions of Go's standard library that the source calls, over byte strings.
pub mod Strings
pub mod Net
pub mod Slices
