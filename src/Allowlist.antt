-- ===== src/Allowlist.antt =====
-- internal/allowlist/allowlist.go: the patterns of an egress allowlist, compiled and matched.
pub mod Defs
pub mod Decide
pub mod Grammar
