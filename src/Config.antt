-- ===== src/Config.antt =====
-- internal/config/config.go: the configuration of vsockd and its validation.
pub mod Types
pub mod Listeners
pub mod Validate
pub mod Patterns
pub mod Accepts
pub mod Egress
pub mod Relays
pub mod WellFormed
